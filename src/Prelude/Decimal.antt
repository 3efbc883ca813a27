-- ===== src/Prelude/Decimal.antt =====
-- The decimal digits of a number, which `ParseUint` reads back.
use fleet_core.Prelude.{
  ℕ, zero, suc, ◌+◌, ◌-◌, ◌*◌, ◌/◌, ◌%◌, ◌≤◌, ◌<◌, ◌≡◌, refl, ap, ◌∙◌, inl, inr, true, [], ◌∷◌,
  arith, ltb, leb, if◌then◌else◌, Bool-cases, All,
}
use fleet_core.Prelude.Bytes.{Text, max_uint64, parse_digits, parse_uint, is_digit}

-- The decimal digits of a number.
abbrev pub digits : ℕ → ℕ → Text → Text
digits zero n s = s
digits (suc fuel) n s =
    let rest = digits fuel (n / 10) ((b'0' + n % 10) ∷ s) in
    if ltb n 10 then (b'0' + n) ∷ s else rest

abbrev pub decimal : ℕ → Text
decimal n = digits (n + 1) n []

leb_of_le : (a b : ℕ) → a ≤ b → leb a b ≡ true
leb_of_le a b h = ground (arith, h)

digit-is_digit : (d : ℕ) → d < 10 → is_digit (b'0' + d) ≡ true
unfolding is_digit
digit-is_digit d h = ground (arith, h)

parse_digit :
    (m d : ℕ) (s : Text)
    → d < 10
    → m * 10 + d ≤ max_uint64
    → parse_digits m ((b'0' + d) ∷ s) ≡ parse_digits (m * 10 + d) s
unfolding parse_digits
parse_digit m d s h k =
    let e : m * 10 + (b'0' + d - b'0') ≡ m * 10 + d = omega arith in
    rw (digit-is_digit d h) (rw e (rw (leb_of_le (m * 10 + d) max_uint64 k) refl))

digits-parse :
    (fuel n : ℕ) (s : Text)
    → n < fuel
    → n ≤ max_uint64
    → parse_digits 0 (digits fuel n s) ≡ parse_digits n s
digits-parse zero n s h k = absurd (omega arith)
digits-parse (suc fuel) n s h k = elim (Bool-cases (ltb n 10)) [
  | inl e ↦ rw e (
      parse_digit 0 n s (ground (arith, e)) (omega arith)
      ∙ ap (λ m. parse_digits m s) (omega arith))
  | inr e ↦ rw e (
      digits-parse fuel (n / 10) ((b'0' + n % 10) ∷ s) (ground arith) (omega arith)
      ∙ parse_digit (n / 10) (n % 10) s (omega arith) (omega arith)
      ∙ ap (λ m. parse_digits m s) (omega arith))
]

-- A number below 2^64 is read back from its digits.
pub decimal-parse : (n : ℕ) → n ≤ max_uint64 → parse_uint (decimal n) ≡ n
unfolding parse_uint parse_digits
decimal-parse n h = digits-parse (n + 1) n [] (omega arith) h

pub digits-All :
    (P : ℕ → Type 0) (fuel n : ℕ) (s : Text)
    → ((d : ℕ) → d < 10 → P (b'0' + d))
    → All P s
    → All P (digits fuel n s)
digits-All P zero n s h k = k
digits-All P (suc fuel) n s h k = elim (Bool-cases (ltb n 10)) [
  | inl e ↦ rw e (h n (ground (arith, e)), k)
  | inr e ↦ rw e (digits-All P fuel (n / 10) ((b'0' + n % 10) ∷ s) h (h (n % 10) (omega arith), k))
]
