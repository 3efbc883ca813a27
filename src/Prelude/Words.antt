-- ===== src/Prelude/Words.antt =====
-- The parts of a text that is made of words.
use fleet_core.Prelude.{ℕ, ◌≡◌, refl, Bool, true, false, [], ◌∷◌, ◌++◌, All}
use fleet_core.Prelude.Bytes.{Text, split_by}

-- A word that a separator ends is the first part.
pub split_word :
    (sep : ℕ → Bool) (w : Text) (c : ℕ) (s : Text)
    → All (λ d. sep d ≡ false) w
    → sep c ≡ true
    → split_by sep (w ++ c ∷ s) ≡ w ∷ split_by sep s
unfolding split_by
split_word sep [] c s h e = rw e refl
split_word sep (d ∷ w) c s h e = rw h.0 (rw (split_word sep w c s h.1 e) refl)
