-- ===== src/Kubernetes/Names.antt =====
-- internal/agent/kubernetes.go: the names of the kubelet's log directories.
use fleet_core.Prelude.{
  ℕ, ◌≡◌, refl, sym, ap, ap₂, ◌∙◌, inl, inr, Bool, false, some, List, [], ◌∷◌, ◌++◌, arith, ◌==◌,
  Bool-cases, All,
}
use fleet_core.Prelude.Words.{split_word}
use fleet_core.Prelude.Bytes.{Text, split_by, grow}
use fleet_core.Kubernetes.Pods.{pod_log_parts, join_underscores, split_last, pod_log_name}

abbrev is_underscore : ℕ → Bool
is_underscore c = c == b'_'

-- There is a first part.
split_by-some : (s : Text) → (w : Text) × (ws : List Text) × (split_by is_underscore s ≡ w ∷ ws)
unfolding split_by
split_by-some [] = ([], [], refl)
split_by-some (c ∷ s) =
    let (w, ws, e) = split_by-some s in
    elim (Bool-cases (c == b'_')) [
      | inl f ↦ ([], w ∷ ws, rw (split_by, f) (ap (◌∷◌ []) e))
      | inr f ↦ (c ∷ w, ws, rw (split_by, f) (ap (grow c) e))
    ]

split_by-whole : (s : Text) → All (λ c. (c == b'_') ≡ false) s → split_by is_underscore s ≡ s ∷ []
unfolding split_by
split_by-whole [] h = refl
split_by-whole (c ∷ s) h = rw (split_by, h.0) (ap (grow c) (split_by-whole s h.1))

-- A text without the separator at the end is the last part.
split_by-last :
    (s t : Text)
    → All (λ c. (c == b'_') ≡ false) t
    → split_by is_underscore (s ++ b'_' ∷ t) ≡ split_by is_underscore s ++ t ∷ []
unfolding split_by
split_by-last [] t h = ap (◌∷◌ []) (split_by-whole t h)
split_by-last (c ∷ s) t h =
    let (w, ws, e) = split_by-some s in
    let later : split_by is_underscore (s ++ b'_' ∷ t) ≡ w ∷ (ws ++ t ∷ []) =
      split_by-last s t h ∙ ap (λ ps. ps ++ t ∷ []) e in
    elim (Bool-cases (c == b'_')) [
      | inl f ↦ rw (split_by, f) (ap (◌∷◌ []) (split_by-last s t h))
      | inr f ↦ rw (split_by, f) (ap (grow c) later ∙ ap (λ ps. grow c ps ++ t ∷ []) (sym e))
    ]

join-grow :
    (c : ℕ) (w : Text) (ws : List Text)
    → join_underscores ((c ∷ w) ∷ ws) ≡ c ∷ join_underscores (w ∷ ws)
unfolding join_underscores
join-grow c w [] = refl
join-grow c w (v ∷ ws) = refl

join-split : (s : Text) → join_underscores (split_by is_underscore s) ≡ s
unfolding split_by join_underscores
join-split [] = refl
join-split (c ∷ s) =
    let (w, ws, e) = split_by-some s in
    let whole : join_underscores (w ∷ ws) ≡ s = ap join_underscores (sym e) ∙ join-split s in
    elim (Bool-cases (c == b'_')) [
      | inl f ↦
          let same : b'_' ≡ c = ground (arith, f) in
          rw (split_by, f) (ap (λ ps. join_underscores ([] ∷ ps)) e ∙ ap₂ ◌∷◌ same whole)
      | inr f ↦
          rw (split_by, f)
            (ap (λ ps. join_underscores (grow c ps)) e ∙ join-grow c w ws ∙ ap (◌∷◌ c) whole)
    ]

split_last-append :
    (w : Text) (ws : List Text) (t : Text) → split_last w (ws ++ t ∷ []) ≡ (w ∷ ws, t)
unfolding split_last
split_last-append w [] t = refl
split_last-append w (v ∷ ws) t = ap (λ r. (w ∷ r.0, r.1)) (split_last-append v ws t)

-- The log directory of a pod gives back its namespace, its name and its uid, if the namespace and the uid
-- have no underscore; the name may have some.
pub pod_log_name_lem :
    (ns name uid : Text)
    → All (λ c. (c == b'_') ≡ false) ns
    → All (λ c. (c == b'_') ≡ false) uid
    → pod_log_name (ns ++ b'_' ∷ (name ++ b'_' ∷ uid))
      ≡ some (uid, record { namespace = ns; name = name })
unfolding pod_log_name pod_log_parts
pod_log_name_lem ns name uid h k =
    let (w, ws, e) = split_by-some name in
    let parts : split_by is_underscore (ns ++ b'_' ∷ (name ++ b'_' ∷ uid))
        ≡ ns ∷ w ∷ (ws ++ uid ∷ []) =
      split_word is_underscore ns b'_' (name ++ b'_' ∷ uid) h refl
      ∙ ap (◌∷◌ ns) (split_by-last name uid k ∙ ap (λ ps. ps ++ uid ∷ []) e) in
    rw (pod_log_name, parts)
      (ap (pod_log_parts ns) (split_last-append w ws uid)
        ∙ ap (λ n. some (uid, record { namespace = ns; name = n }))
            (ap join_underscores (sym e) ∙ join-split name))
