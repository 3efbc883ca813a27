-- ===== src/Inventory/Roles.antt =====
-- internal/agent/inventory.go: Kubernetes hosts are told from others.
use fleet_core.Prelude.{ℕ, ◌≡◌, refl, sym, ap, ◌∙◌, true, false, List, [], ◌∷◌, ◌++◌, map, All}
use fleet_core.Prelude.Bytes.{Text, is_empty, split_by, fields_by}
use fleet_core.Prelude.Words.{split_word}
use fleet_core.Inventory.{separates, k3s_role_from_cmdline}

-- An argument: it is not empty and has none of the separators.
abbrev pub IsArgument : Text → Type 0
IsArgument w = (is_empty w ≡ false) × All (λ c. separates c ≡ false) w

-- Arguments, each with the separator that ends it.
abbrev pub joined : List (Text × ℕ) → Text
joined [] = []
joined ((w, c) ∷ ws) = w ++ c ∷ joined ws

abbrev pub AreJoined : List (Text × ℕ) → Type 0
AreJoined ws = All (λ (w, c). IsArgument w × (separates c ≡ true)) ws

fields_by-joined :
    (ws : List (Text × ℕ)) → AreJoined ws → fields_by separates (joined ws) ≡ map (λ e. e.0) ws
unfolding fields_by split_by
fields_by-joined [] h = refl
fields_by-joined ((w, c) ∷ ws) h =
    rw (split_word separates w c (joined ws) h.0.0.1 h.0.1)
      (rw h.0.0.0 (ap (◌∷◌ w) (fields_by-joined ws h.1)))

-- The role of a k3s process does not depend on what separates its arguments: NUL bytes, as the kernel
-- writes them, or the spaces of a rewritten process title.
pub k3s_role_from_cmdline_lem :
    (ws vs : List (Text × ℕ))
    → AreJoined ws
    → AreJoined vs
    → map (λ e. e.0) ws ≡ map (λ e. e.0) vs
    → k3s_role_from_cmdline (joined ws) ≡ k3s_role_from_cmdline (joined vs)
unfolding k3s_role_from_cmdline
k3s_role_from_cmdline_lem ws vs h k e =
    let same : fields_by separates (joined ws) ≡ fields_by separates (joined vs) =
      fields_by-joined ws h ∙ e ∙ sym (fields_by-joined vs k) in
    rw (k3s_role_from_cmdline, same) refl
