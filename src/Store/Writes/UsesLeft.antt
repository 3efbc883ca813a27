-- ===== src/Store/Writes/UsesLeft.antt =====
-- internal/store/store.go: how many uses a token has left, and what one use changes.
use fleet_core.Prelude.{ℕ, zero, suc, ◌+◌, ◌≤◌, ◌<◌, ◌≡◌, refl, ◌∙◌, false, arith}
use fleet_core.Prelude.Int.{pos}
use fleet_core.Api.{EnrollToken}
use fleet_core.Store.Tokens.{legacy, use_once, exhausted, token_limit}

-- The token pays for `n` more enrollments at most.
abbrev pub Fits : ℕ → EnrollToken → Type 0
Fits n t = (limit : ℕ) × (token_limit t ≡ pos limit) × (limit ≤ (legacy t).uses + n)

pub token_limit-legacy : (t : EnrollToken) → token_limit (legacy t) ≡ token_limit t
unfolding token_limit legacy
token_limit-legacy t = ground arith

pub token_limit-use_once : (t : EnrollToken) → token_limit (use_once t) ≡ token_limit t
unfolding token_limit use_once
token_limit-use_once t = refl

pub token_limit_pos : (t : EnrollToken) (limit : ℕ) → token_limit t ≡ pos limit → 0 < limit
unfolding token_limit
token_limit_pos t limit e = ground arith

pub uses-use_once : (t : EnrollToken) → (legacy (use_once t)).uses ≡ t.uses + 1
unfolding legacy use_once
uses-use_once t = ground arith

pub exhausted-false :
    (limit uses : ℕ) → 0 < limit → exhausted (pos limit) uses ≡ false → uses < limit
unfolding exhausted
exhausted-false limit uses h e = ground arith

pub not_exhausted :
    (t : EnrollToken) (limit : ℕ)
    → token_limit t ≡ pos limit
    → exhausted (token_limit (legacy t)) (legacy t).uses ≡ false
    → (legacy t).uses < limit
not_exhausted t limit e h =
    exhausted-false limit (legacy t).uses (token_limit_pos t limit e)
      (rw (token_limit-legacy t, e) at h)

-- A use takes one from what is left.
pub Fits-use_once :
    (n : ℕ) (t : EnrollToken)
    → exhausted (token_limit (legacy t)) (legacy t).uses ≡ false
    → Fits n t
    → (m : ℕ) × (n ≡ suc m) × Fits m (use_once (legacy t))
Fits-use_once zero t e (limit, l, h) = absurd (omega (arith, not_exhausted t limit l e))
Fits-use_once (suc m) t e (limit, l, h) = (
  m,
  refl,
  (
    limit,
    token_limit-use_once (legacy t) ∙ token_limit-legacy t ∙ l,
    omega (arith, uses-use_once (legacy t)),
  ),
)

pub Fits-suc : (n : ℕ) (t : EnrollToken) → Fits n t → Fits (suc n) t
Fits-suc n t (limit, l, h) = (limit, l, omega arith)
