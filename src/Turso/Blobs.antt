-- ===== src/Turso/Blobs.antt =====
-- internal/store/turso.go: a blob that is sent in base64, with padding or without, is read back.
use fleet_core.Prelude.{
  ℕ, zero, suc, ◌+◌, ◌*◌, ◌/◌, ◌%◌, ◌<◌, ◌≡◌, refl, ap, ap₂, ◌∙◌, false, some, [], ◌∷◌, ◌++◌, arith,
  ◌==◌, All,
}
use fleet_core.Prelude.Bytes.{Text}
use fleet_core.Turso.Base64.{
  char_of, value_of, raw_encode, pad, join_bits, third_byte, cons_byte, raw_decode, trim_pad,
}

value_of-char_of : (n : ℕ) → n < 64 → value_of (char_of n) ≡ some n
unfolding value_of char_of
value_of-char_of n h = ground (arith, h)

char_of-no_pad : (n : ℕ) → (char_of n == b'=') ≡ false
unfolding char_of
char_of-no_pad n = ground arith

join_bits-char_of :
    (f : ℕ → ℕ → ℕ) (m n b : ℕ)
    → m < 64
    → n < 64
    → f m n ≡ b
    → join_bits f (value_of (char_of m)) (value_of (char_of n)) ≡ some b
join_bits-char_of f m n b h k e =
    ap₂ (join_bits f) (value_of-char_of m h) (value_of-char_of n k) ∙ ap some e

-- A byte, a second and a third one in front of what follows.
raw_decode-raw_encode : (s : Text) → All (λ c. c < 256) s → raw_decode (raw_encode s) ≡ some s
unfolding raw_decode raw_encode
raw_decode-raw_encode [] h = refl
raw_decode-raw_encode (a ∷ []) (ha, _) =
    ap (λ o. cons_byte o (some []))
      (join_bits-char_of (λ p q. p * 4 + q / 16) (a / 4) (a % 4 * 16) a (omega arith) (omega arith)
        (omega arith))
raw_decode-raw_encode (a ∷ b ∷ []) (ha, (hb, _)) =
    ap₂ (λ o u. cons_byte o (cons_byte u (some [])))
      (join_bits-char_of (λ p q. p * 4 + q / 16) (a / 4) (a % 4 * 16 + b / 16) a (omega arith)
        (omega arith) (omega arith))
      (join_bits-char_of (λ q r. q % 16 * 16 + r / 4) (a % 4 * 16 + b / 16) (b % 16 * 4) b
        (omega arith) (omega arith) (omega arith))
raw_decode-raw_encode (a ∷ b ∷ c ∷ s) (ha, (hb, (hc, hs))) =
    ap₂
      (λ o u. cons_byte o (
        cons_byte u (
          cons_byte (third_byte (char_of (b % 16 * 4 + c / 64)) (char_of (c % 64)))
            (raw_decode (raw_encode s)))))
      (join_bits-char_of (λ p q. p * 4 + q / 16) (a / 4) (a % 4 * 16 + b / 16) a (omega arith)
        (omega arith) (omega arith))
      (join_bits-char_of (λ q r. q % 16 * 16 + r / 4) (a % 4 * 16 + b / 16) (b % 16 * 4 + c / 64) b
        (omega arith) (omega arith) (omega arith))
    ∙ ap₂ (λ o u. cons_byte (some a) (cons_byte (some b) (cons_byte o u)))
        (join_bits-char_of (λ r t. r % 4 * 64 + t) (b % 16 * 4 + c / 64) (c % 64) c (omega arith)
          (omega arith) (omega arith))
        (raw_decode-raw_encode s hs)

raw_encode-no_pad : (s : Text) → All (λ c. (c == b'=') ≡ false) (raw_encode s)
unfolding raw_encode
raw_encode-no_pad [] = tt
raw_encode-no_pad (a ∷ []) = (char_of-no_pad _, (char_of-no_pad _, tt))
raw_encode-no_pad (a ∷ b ∷ []) = (char_of-no_pad _, (char_of-no_pad _, (char_of-no_pad _, tt)))
raw_encode-no_pad (a ∷ b ∷ c ∷ s) =
    let rest = raw_encode-no_pad s in
    (char_of-no_pad _, (char_of-no_pad _, (char_of-no_pad _, (char_of-no_pad _, rest))))

trim_pad-pad : (k : ℕ) → trim_pad (pad k) ≡ []
unfolding trim_pad
trim_pad-pad zero = refl
trim_pad-pad (suc k) = rw (trim_pad-pad k)

trim_pad-append : (s : Text) (k : ℕ) → All (λ c. (c == b'=') ≡ false) s → trim_pad (s ++ pad k) ≡ s
unfolding trim_pad
trim_pad-append [] k h = trim_pad-pad k
trim_pad-append (c ∷ s) k (hc, hs) = rw hc (ap (◌∷◌ c) (trim_pad-append s k hs))

-- Base64 with any number of padding characters gives the bytes back.
pub raw_decode-trim_pad :
    (s : Text) (k : ℕ)
    → All (λ c. c < 256) s
    → raw_decode (trim_pad (raw_encode s ++ pad k)) ≡ some s
raw_decode-trim_pad s k h =
    ap raw_decode (trim_pad-append (raw_encode s) k (raw_encode-no_pad s))
    ∙ raw_decode-raw_encode s h
