-- ===== src/Commands/Names.antt =====
-- internal/server/commands.go: the creation time that a command's name carries.
use fleet_core.Prelude.{
  ℕ, zero, suc, ◌+◌, ◌*◌, ◌/◌, ◌%◌, ◌≤◌, ◌<◌, String, ◌≡◌, refl, ap, ◌∙◌, inl, inr, true, none,
  some, arith, ◌==◌, Bool-cases, is_some,
}
use Prim.Native.Char.{code}
use Prim.Native.String.{◌++◌ as ◌++s◌}
use Prim.Native.String.append
use fleet_core.Commands.{
  cmd_prefix, cut_prefix, is_command, before_dash, max_int64, digits_value, parse_digits, parse_int,
  command_created_at, digit, print_digits, print_number, first_chars, command_name,
}

cut_prefix-append : (p x : String) → cut_prefix p (p ++s x) ≡ some x
unfolding cut_prefix
cut_prefix-append String.[] x = rw append.nil
cut_prefix-append (String.◌∷◌ c p) x = rw append.cons (ground (arith, cut_prefix-append p x))

code-digit : (d : ℕ) → d < 10 → code (digit d) ≡ b'0' + d
unfolding digit
code-digit zero h = refl
code-digit (suc zero) h = refl
code-digit (suc (suc zero)) h = refl
code-digit (suc (suc (suc zero))) h = refl
code-digit (suc (suc (suc (suc zero)))) h = refl
code-digit (suc (suc (suc (suc (suc zero))))) h = refl
code-digit (suc (suc (suc (suc (suc (suc zero)))))) h = refl
code-digit (suc (suc (suc (suc (suc (suc (suc zero))))))) h = refl
code-digit (suc (suc (suc (suc (suc (suc (suc (suc zero)))))))) h = refl
code-digit (suc (suc (suc (suc (suc (suc (suc (suc (suc zero))))))))) h = refl
code-digit (suc (suc (suc (suc (suc (suc (suc (suc (suc (suc d)))))))))) h = absurd (omega arith)

digits_value-digit :
    (d acc : ℕ) (t : String)
    → d < 10
    → digits_value acc (String.◌∷◌ (digit d) t) ≡ digits_value (10 * acc + d) t
unfolding digits_value
digits_value-digit d acc t h = ground (arith, code-digit d h)

before_dash-digit :
    (d : ℕ) (t : String)
    → d < 10
    → before_dash (String.◌∷◌ (digit d) t) ≡ String.◌∷◌ (digit d) (before_dash t)
unfolding before_dash
before_dash-digit d t h = ground (arith, code-digit d h)

-- The printed digits read back as the number, whatever follows them.
digits_value-print :
    (fuel n : ℕ) (t : String) → n ≤ fuel → digits_value 0 (print_digits fuel n t) ≡ digits_value n t
unfolding print_digits
digits_value-print zero n t h = let e : n ≡ 0 = omega arith in rw e
digits_value-print (suc fuel) n t h = elim (Bool-cases (n == 0)) [
  | inl e ↦ let z : n ≡ 0 = ground arith in rw (e, z)
  | inr e ↦ rw e (
      digits_value-print fuel (n / 10) (String.◌∷◌ (digit (n % 10)) t) (ground arith)
      ∙ digits_value-digit (n % 10) (n / 10) t (omega arith)
      ∙ ap (λ k. digits_value k t) (omega arith))
]

before_dash-print :
    (fuel n : ℕ) (t : String)
    → before_dash (print_digits fuel n t) ≡ print_digits fuel n (before_dash t)
unfolding print_digits
before_dash-print zero n t = refl
before_dash-print (suc fuel) n t = elim (Bool-cases (n == 0)) [
  | inl e ↦ rw e
  | inr e ↦ rw e (
      before_dash-print fuel (n / 10) (String.◌∷◌ (digit (n % 10)) t)
      ∙ ap (print_digits fuel (n / 10)) (before_dash-digit (n % 10) t (omega arith)))
]

-- Within the range of an int64, `ParseInt` is the value of the digits.
parse_int-digits :
    (s : String) (n : ℕ) → digits_value 0 s ≡ some n → n ≤ max_int64 → parse_int s ≡ n
unfolding parse_int parse_digits digits_value
parse_int-digits String.[] n h b = ground arith
parse_int-digits (String.◌∷◌ c s) n h b = ground arith

pub parse_int-print : (n : ℕ) → n ≤ max_int64 → parse_int (print_number n "") ≡ n
unfolding print_number parse_int parse_digits digits_value digit
parse_int-print zero b = refl
parse_int-print (suc n) b =
    parse_int-digits (print_digits (suc n) (suc n) "") (suc n)
      (digits_value-print (suc n) (suc n) "" (omega arith)) b

pub before_dash-print_number :
    (n : ℕ) (t : String) → before_dash (print_number n t) ≡ print_number n (before_dash t)
unfolding print_number
before_dash-print_number zero t = before_dash-digit 0 t (omega arith)
before_dash-print_number (suc n) t = before_dash-print (suc n) (suc n) t

-- A command's name carries the time at which it was made, within the range of an int64.
pub command_created_at-command_name :
    (now : ℕ) (id : String) → now ≤ max_int64 → command_created_at (command_name now id) ≡ now
unfolding command_created_at command_name before_dash
command_created_at-command_name now id b =
    ap (λ o. elim o [ none ↦ 0 | some rest ↦ parse_int (before_dash rest) ])
      (cut_prefix-append cmd_prefix (print_number now (String.◌∷◌ "-" (first_chars 6 id))))
    ∙ ap parse_int (before_dash-print_number now (String.◌∷◌ "-" (first_chars 6 id)))
    ∙ parse_int-print now b

-- The generated names are those that the program takes for commands.
pub is_command-command_name : (now : ℕ) (id : String) → is_command (command_name now id) ≡ true
unfolding is_command command_name
is_command-command_name now id =
    ap is_some (cut_prefix-append cmd_prefix (print_number now (String.◌∷◌ "-" (first_chars 6 id))))
