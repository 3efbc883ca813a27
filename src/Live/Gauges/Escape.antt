-- ===== src/Live/Gauges/Escape.antt =====
-- internal/server/metrics.go: `esc` loses nothing.
use fleet_core.Prelude.{
  String, ◌≡◌, refl, sym, ap, ◌∙◌, subst, ◌⊎◌, inl, inr, false, arith, ◌==◌, if◌then◌else◌,
  Bool-cases,
}
use Prim.Native.Char.{Char, code}
use text.Mathlib.TextEquality.{Char-path}
use fleet_core.Live.Gauges.{replace_all, esc}

-- Prometheus' reading of a label value: `\n` is a new line, and `\` before any other character is dropped.
pub unescape : String → String
unescape String.[] = ""
unescape (String.◌∷◌ c String.[]) = String.◌∷◌ c ""
unescape (String.◌∷◌ c (String.◌∷◌ d s)) =
    let after = unescape s in
    let rest = unescape (String.◌∷◌ d s) in
    if code c == b'\\'
    then if code d == b'n' then String.◌∷◌ "\n" after else String.◌∷◌ d after
    else String.◌∷◌ c rest

unescape_after :
    (c : Char) (s : String)
    → (code c == b'\\') ≡ false
    → unescape (String.◌∷◌ c s) ≡ String.◌∷◌ c (unescape s)
unfolding unescape
unescape_after c String.[] e = refl
unescape_after c (String.◌∷◌ d s) e = rw e refl

abbrev IsRead : Char → String → Type 0
IsRead c s = unescape (esc (String.◌∷◌ c s)) ≡ String.◌∷◌ c (unescape (esc s))

escaped-IsRead :
    (c : Char) (s : String) → (code c ≡ b'\\') ⊎ ((code c ≡ b'\n') ⊎ (code c ≡ b'"')) → IsRead c s
unfolding unescape esc
escaped-IsRead c s (inl e) = subst (λ d. IsRead d s) (sym (Char-path c "\\" e)) refl
escaped-IsRead c s (inr (inl e)) = subst (λ d. IsRead d s) (sym (Char-path c "\n" e)) refl
escaped-IsRead c s (inr (inr e)) = subst (λ d. IsRead d s) (sym (Char-path c "\"" e)) refl

-- Reading an escaped label value back gives the label value.
pub unescape-esc : (s : String) → unescape (esc s) ≡ s
unfolding esc replace_all unescape
unescape-esc String.[] = refl
unescape-esc (String.◌∷◌ c s) = elim (Bool-cases (code c == b'\\')) [
  | inl e ↦ escaped-IsRead c s (inl (ground arith)) ∙ ap (String.◌∷◌ c) (unescape-esc s)
  | inr e ↦ elim (Bool-cases (code c == b'\n')) [
    | inl f ↦ escaped-IsRead c s (inr (inl (ground arith))) ∙ ap (String.◌∷◌ c) (unescape-esc s)
    | inr f ↦ elim (Bool-cases (code c == b'"')) [
      | inl g ↦ escaped-IsRead c s (inr (inr (ground arith))) ∙ ap (String.◌∷◌ c) (unescape-esc s)
      | inr g ↦ rw e (rw f (rw g (unescape_after c (esc s) e ∙ ap (String.◌∷◌ c) (unescape-esc s))))
    ]
  ]
]
