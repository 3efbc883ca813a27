-- ===== src/Prelude/Text.antt =====
-- Go's `==` and `<` on strings. Both sides are compared byte by byte; on UTF-8 text that is the
-- order of the code points.
use Prim.Native.Char.{code}
use Prim.Native.String.{String}
use mathlib.Core.Path.{◌≡◌, refl, ap₂}
use mathlib.Core.Bool.{Bool, true, false}
use native.Mathlib.Omega.{arith}
use text.Mathlib.TextEquality.{Char-path}
use mathlib.Core.Logic.{inl, inr}
use fleet_core.Prelude.Tests.{Bool-cases, ltb, ◌==◌, if◌then◌else◌}
pub use text.Mathlib.Text.{◌==◌ as str_eq}
pub use text.Mathlib.TextEquality.{eq_iff}
pub use text.Mathlib.TextPositions.{eq_refl}

infix 50 ◌=s=◌ ◌<s◌
abbrev pub ◌=s=◌ : String → String → Bool
s =s= t = str_eq s t

unfoldable pub ◌<s◌ : String → String → Bool
String.[] <s String.[] = false
String.[] <s (String.◌∷◌ d t) = true
(String.◌∷◌ c s) <s String.[] = false
(String.◌∷◌ c s) <s (String.◌∷◌ d t) =
    if ltb (code c) (code d) then true else if code c == code d then s <s t else false

pub <s_irrefl : (s : String) → (s <s s) ≡ false
unfolding ◌<s◌
<s_irrefl String.[] = refl
<s_irrefl (String.◌∷◌ c s) = ground (arith, <s_irrefl s)

pub <s_trans : (r s t : String) → (r <s s) ≡ true → (s <s t) ≡ true → (r <s t) ≡ true
unfolding ◌<s◌
<s_trans String.[] String.[] t p q = q
<s_trans String.[] (String.◌∷◌ c s) String.[] p q = q
<s_trans String.[] (String.◌∷◌ c s) (String.◌∷◌ d t) p q = refl
<s_trans (String.◌∷◌ b r) String.[] t p q = ground arith
<s_trans (String.◌∷◌ b r) (String.◌∷◌ c s) String.[] p q = q
<s_trans (String.◌∷◌ b r) (String.◌∷◌ c s) (String.◌∷◌ d t) p q = ground (arith, <s_trans r s t)

pub <s_asym : (s t : String) → (s <s t) ≡ true → (t <s s) ≡ false
unfolding ◌<s◌
<s_asym String.[] String.[] p = refl
<s_asym String.[] (String.◌∷◌ c s) p = refl
<s_asym (String.◌∷◌ c s) String.[] p = ground arith
<s_asym (String.◌∷◌ c s) (String.◌∷◌ d t) p = ground (arith, <s_asym s t)

-- Texts of which neither is less are equal.
pub <s_total : (s t : String) → (s <s t) ≡ false → (t <s s) ≡ false → s ≡ t
unfolding ◌<s◌
<s_total String.[] String.[] p q = refl
<s_total String.[] (String.◌∷◌ c s) p q = ground arith
<s_total (String.◌∷◌ c s) String.[] p q = ground arith
<s_total (String.◌∷◌ c s) (String.◌∷◌ d t) p q =
    ap₂ String.◌∷◌ (Char-path c d (ground arith)) (<s_total s t (ground arith) (ground arith))

-- Of two different texts one is less.
pub <s_connex : (s t : String) → (s =s= t) ≡ false → (t <s s) ≡ false → (s <s t) ≡ true
<s_connex s t e h = elim (Bool-cases (s <s t)) [
  | inl l ↦ l
  | inr l ↦ ground (arith, eq_iff s t, <s_total s t l h)
]
