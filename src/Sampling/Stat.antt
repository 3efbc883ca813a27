-- ===== src/Sampling/Stat.antt =====
-- internal/agent/procsample.go: a process's statistics are read back from the line that the kernel writes.
use fleet_core.Prelude.{
  ℕ, ◌+◌, ◌-◌, ◌*◌, ◌%◌, ◌^◌, ◌≤◌, ◌≡◌, refl, sym, ap, ap₂, ◌∙◌, subst, true, false, not, none,
  some, List, [], ◌∷◌, ◌++◌, arith, ltb, ◌==◌, length, take, drop, keep_if, length-append, All,
}
use mathlib.Core.List.{append_assoc}
use fleet_core.Prelude.Filters.{All-append, All-map_lem}
use fleet_core.Prelude.Bytes.{
  Text, is_space, is_empty, split_by, fields, index_byte, last_index_byte, max_uint64, parse_uint,
  nth,
}
use fleet_core.Prelude.Words.{split_word}
use fleet_core.Prelude.Decimal.{decimal, decimal-parse, digits-All}
use fleet_core.Sampling.{parse_stat, stat_of_fields}

-- Words with a space in front of each, to the end of the line.
abbrev pub spaced : List Text → Text
spaced [] = b'\n' ∷ []
spaced (w ∷ ws) = b' ' ∷ (w ++ spaced ws)

abbrev before_comm : ℕ → Text
before_comm pid = decimal pid ++ b' ' ∷ []

-- /proc/<pid>/stat: the pid, the comm in parentheses, and the words of the other fields.
abbrev pub stat_line : ℕ → Text → List Text → Text
stat_line pid comm ws = before_comm pid ++ b'(' ∷ (comm ++ b')' ∷ spaced ws)

-- A field: it is not empty, and has no space and no closing parenthesis.
abbrev pub IsWord : Text → Type 0
IsWord w = (is_empty w ≡ false) × All (λ c. (is_space c ≡ false) × ((c == b')') ≡ false)) w

abbrev words : List Text → List Text
words = keep_if (λ w. not (is_empty w))

no_space :
    (w : Text)
    → All (λ c. (is_space c ≡ false) × ((c == b')') ≡ false)) w
    → All (λ c. is_space c ≡ false) w
no_space w h = All-map_lem w (λ c p. p.0) h

words-split :
    (w : Text) (ws : List Text)
    → IsWord w
    → All IsWord ws
    → words (split_by is_space (w ++ spaced ws)) ≡ w ∷ ws
unfolding split_by is_space
words-split w [] h hs = rw (split_word is_space w b'\n' [] (no_space w h.1) refl) (rw h.0 refl)
words-split w (v ∷ vs) h hs =
    rw (split_word is_space w b' ' (v ++ spaced vs) (no_space w h.1) refl)
      (rw h.0 (ap (◌∷◌ w) (words-split v vs hs.0 hs.1)))

fields-spaced : (ws : List Text) → All IsWord ws → fields (spaced ws) ≡ ws
unfolding fields split_by is_space
fields-spaced [] h = refl
fields-spaced (w ∷ ws) h = words-split w ws h.0 h.1

index_byte-before :
    (b : ℕ) (xs ys : Text)
    → All (λ c. (c == b) ≡ false) xs
    → (b == b) ≡ true
    → index_byte b (xs ++ b ∷ ys) ≡ some (length xs)
unfolding index_byte
index_byte-before b [] ys h e = rw e refl
index_byte-before b (x ∷ xs) ys h e =
    rw h.0 (rw (index_byte-before b xs ys h.1 e) (ap some (omega arith)))

last_index_byte-none :
    (b : ℕ) (ys : Text) → All (λ c. (c == b) ≡ false) ys → last_index_byte b ys ≡ none
unfolding last_index_byte
last_index_byte-none b [] h = refl
last_index_byte-none b (y ∷ ys) h = rw (last_index_byte-none b ys h.1) (rw h.0 refl)

last_index_byte-before :
    (b : ℕ) (xs ys : Text)
    → All (λ c. (c == b) ≡ false) ys
    → (b == b) ≡ true
    → last_index_byte b (xs ++ b ∷ ys) ≡ some (length xs)
unfolding last_index_byte
last_index_byte-before b [] ys h e = rw (last_index_byte-none b ys h) (rw e refl)
last_index_byte-before b (x ∷ xs) ys h e =
    rw (last_index_byte-before b xs ys h e) (ap some (omega arith))

drop-before : (xs ys : Text) (n : ℕ) → n ≡ length xs → drop n (xs ++ ys) ≡ ys
drop-before xs ys n e = subst (λ k. drop k (xs ++ ys) ≡ ys) (sym e) (at_length xs)
  where
    at_length : (zs : Text) → drop (length zs) (zs ++ ys) ≡ ys
    at_length [] = refl
    at_length (z ∷ zs) = at_length zs

take-before : (xs ys : Text) (n : ℕ) → n ≡ length xs → take n (xs ++ ys) ≡ xs
take-before xs ys n e = subst (λ k. take k (xs ++ ys) ≡ xs) (sym e) (at_length xs)
  where
    at_length : (zs : Text) → take (length zs) (zs ++ ys) ≡ zs
    at_length [] = refl
    at_length (z ∷ zs) = ap (◌∷◌ z) (at_length zs)

spaced-All : (ws : List Text) → All IsWord ws → All (λ c. (c == b')') ≡ false) (spaced ws)
spaced-All [] h = (refl, tt)
spaced-All (w ∷ ws) h =
    (refl, All-append _ w (spaced ws) (All-map_lem w (λ c p. p.1) h.0.1) (spaced-All ws h.1))

parse_stat-at :
    (line : Text) (i j page_size : ℕ)
    → index_byte b'(' line ≡ some i
    → last_index_byte b')' line ≡ some j
    → i ≤ j
    → parse_stat line page_size
      ≡ stat_of_fields
          (take (j - (i + 1)) (drop (i + 1) line))
          (fields (drop (j + 1) line))
          page_size
unfolding parse_stat
parse_stat-at line i j page_size e f h =
    let g : ltb j i ≡ false = ground (arith, h) in rw (parse_stat, e) (rw f (rw g refl))

-- The comm and the fields that `parseStat` cuts out of the kernel's line.
stat_line-cut :
    (pid : ℕ) (comm : Text) (ws : List Text) (page_size : ℕ)
    → All IsWord ws
    → parse_stat (stat_line pid comm ws) page_size ≡ stat_of_fields comm ws page_size
stat_line-cut pid comm ws page_size h =
    let head = before_comm pid in
    let line = stat_line pid comm ws in
    let left = head ++ b'(' ∷ comm in
    let e : line ≡ left ++ b')' ∷ spaced ws =
      sym (append_assoc head (b'(' ∷ comm) (b')' ∷ spaced ws)) in
    let first : index_byte b'(' line ≡ some (length head) =
      index_byte-before b'(' head (comm ++ b')' ∷ spaced ws)
        (All-append _ (decimal pid) (b' ' ∷ [])
          (digits-All _ (pid + 1) pid [] (λ d k. ground (arith, k)) tt) (refl, tt))
        refl in
    let last : last_index_byte b')' line ≡ some (length left) =
      ap (last_index_byte b')') e
      ∙ last_index_byte-before b')' left (spaced ws) (spaced-All ws h) refl in
    let from_comm : drop (length head + 1) line ≡ comm ++ b')' ∷ spaced ws =
      ap (drop (length head + 1)) (sym (append_assoc head (b'(' ∷ []) (comm ++ b')' ∷ spaced ws)))
      ∙ drop-before (head ++ b'(' ∷ []) (comm ++ b')' ∷ spaced ws) (length head + 1)
          (omega (arith, length-append head (b'(' ∷ []))) in
    let from_fields : drop (length left + 1) line ≡ spaced ws =
      ap (drop (length left + 1)) (e ∙ sym (append_assoc left (b')' ∷ []) (spaced ws)))
      ∙ drop-before (left ++ b')' ∷ []) (spaced ws) (length left + 1)
          (omega (arith, length-append left (b')' ∷ []))) in
    parse_stat-at line (length head) (length left) page_size first last
      (omega (arith, length-append head (b'(' ∷ comm)))
    ∙ ap₂ (λ c fs. stat_of_fields c fs page_size)
        (ap (take (length left - (length head + 1))) from_comm
          ∙ take-before comm (b')' ∷ spaced ws) _ (omega (arith, length-append head (b'(' ∷ comm))))
        (ap fields from_fields ∙ fields-spaced ws h)

-- A process's line in /proc gives its comm back, whatever spaces and parentheses that has, and the sums
-- and products of the numbers in its other fields, as `uint64`.
pub parse_stat_lem :
    (pid : ℕ) (comm : Text) (ws : List Text) (page_size utime stime rss_pages : ℕ)
    → All IsWord ws
    → 22 ≤ length ws
    → nth 11 ws ≡ decimal utime
    → nth 12 ws ≡ decimal stime
    → nth 21 ws ≡ decimal rss_pages
    → utime ≤ max_uint64
    → stime ≤ max_uint64
    → rss_pages ≤ max_uint64
    → parse_stat (stat_line pid comm ws) page_size
      ≡ some (record {
        comm = comm;
        jiff = (utime + stime) % 2 ^ 64;
        rss = (rss_pages * page_size) % 2 ^ 64;
      })
unfolding stat_of_fields
parse_stat_lem pid comm ws page_size utime stime rss_pages h n e f g a b c =
    let enough : ltb (length ws) 22 ≡ false = ground (arith, n) in
    stat_line-cut pid comm ws page_size h
    ∙ rw enough (
        rw (ap parse_uint e ∙ decimal-parse utime a) (
          rw (ap parse_uint f ∙ decimal-parse stime b)
            (rw (ap parse_uint g ∙ decimal-parse rss_pages c) refl)))
