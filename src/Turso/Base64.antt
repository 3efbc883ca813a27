-- ===== src/Turso/Base64.antt =====
-- The base64 of Go's library, as internal/store/turso.go uses it, on bytes.
use fleet_core.Prelude.{
  ℕ, zero, suc, ◌+◌, ◌-◌, ◌*◌, ◌/◌, ◌%◌, ◌&&◌, Option, none, some, [], ◌∷◌, ◌++◌, ltb, leb, ◌==◌,
  if◌then◌else◌, length,
}
use fleet_core.Prelude.Bytes.{Text, is_empty}

-- The character of six bits, and the six bits of a character.
unfoldable pub char_of : ℕ → ℕ
char_of n =
    if ltb n 26
    then b'A' + n
    else if ltb n 52
    then b'a' + (n - 26)
    else if ltb n 62
    then b'0' + (n - 52)
    else if n == 62
    then b'+'
    else b'/'

unfoldable pub value_of : ℕ → Option ℕ
value_of c =
    if leb b'A' c && leb c b'Z'
    then some (c - b'A')
    else if leb b'a' c && leb c b'z'
    then some (c - b'a' + 26)
    else if leb b'0' c && leb c b'9'
    then some (c - b'0' + 52)
    else if c == b'+'
    then some 62
    else if c == b'/'
    then some 63
    else none

-- `base64.RawStdEncoding.EncodeToString`
unfoldable pub raw_encode : Text → Text
raw_encode [] = []
raw_encode (a ∷ []) = char_of (a / 4) ∷ char_of (a % 4 * 16) ∷ []
raw_encode (a ∷ b ∷ []) =
    char_of (a / 4) ∷ char_of (a % 4 * 16 + b / 16) ∷ char_of (b % 16 * 4) ∷ []
raw_encode (a ∷ b ∷ c ∷ s) =
    char_of (a / 4)
    ∷ char_of (a % 4 * 16 + b / 16)
    ∷ char_of (b % 16 * 4 + c / 64)
    ∷ char_of (c % 64)
    ∷ raw_encode s

abbrev pub pad : ℕ → Text
pad zero = []
pad (suc n) = b'=' ∷ pad n

-- `base64.StdEncoding.EncodeToString`
unfoldable pub std_encode : Text → Text
std_encode s = raw_encode s ++ pad ((3 - length s % 3) % 3)

-- A byte of the six bits that two characters stand for.
abbrev pub join_bits : (ℕ → ℕ → ℕ) → Option ℕ → Option ℕ → Option ℕ
join_bits f none q = none
join_bits f (some p) none = none
join_bits f (some p) (some q) = some (f p q)

-- The bytes of two to four characters.
abbrev pub first_byte : ℕ → ℕ → Option ℕ
first_byte w x = join_bits (λ p q. p * 4 + q / 16) (value_of w) (value_of x)

abbrev pub second_byte : ℕ → ℕ → Option ℕ
second_byte x y = join_bits (λ q r. q % 16 * 16 + r / 4) (value_of x) (value_of y)

abbrev pub third_byte : ℕ → ℕ → Option ℕ
third_byte y z = join_bits (λ r t. r % 4 * 64 + t) (value_of y) (value_of z)

abbrev pub cons_byte : Option ℕ → Option Text → Option Text
cons_byte none s = none
cons_byte (some b) none = none
cons_byte (some b) (some s) = some (b ∷ s)

-- `base64.RawStdEncoding.DecodeString`, for a text without line ends
unfoldable pub raw_decode : Text → Option Text
raw_decode [] = some []
raw_decode (w ∷ []) = none
raw_decode (w ∷ x ∷ []) = cons_byte (first_byte w x) (some [])
raw_decode (w ∷ x ∷ y ∷ []) = cons_byte (first_byte w x) (cons_byte (second_byte x y) (some []))
raw_decode (w ∷ x ∷ y ∷ z ∷ s) =
    cons_byte (first_byte w x)
      (cons_byte (second_byte x y) (cons_byte (third_byte y z) (raw_decode s)))

-- `strings.TrimRight(s, "=")`
unfoldable pub trim_pad : Text → Text
trim_pad [] = []
trim_pad (c ∷ s) = let rest = trim_pad s in if (c == b'=') && is_empty rest then [] else c ∷ rest
