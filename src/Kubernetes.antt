-- ===== src/Kubernetes.antt =====
-- internal/agent/kubernetes.go: the pods of a node, from the kubelet's summary or from the cgroup tree.
pub mod Names
pub mod Pods
use fleet_core.Prelude.{
  ℕ, zero, suc, ◌+◌, ◌-◌, ◌*◌, ◌/◌, String, Bool, true, false, ◌&&◌, ◌||◌, Option, none, some, List,
  [], ◌∷◌, ◌++◌, map, ltb, leb, ◌==◌, if◌then◌else◌, length, take,
}
use fleet_core.Prelude.Bytes.{
  Text, ascii, contains, cut_prefix, fields, lines, nth, is_digit, is_empty, max_uint64, trim_space,
  ◌=t=◌,
}
use fleet_core.GoMap.{GoMap, get, put}

-- A directory tree: the entries of a directory, each a file with what reading it gives or a directory.
mutual
  pub data Entry : Type 0 where
    file : Text → Option Text → Entry
    dir : Text → Entries → Entry

  pub data Entries : Type 0 where
    nil : Entries
    cons : Entry → Entries → Entries

unfoldable pub is_hex : ℕ → Bool
is_hex c = is_digit c || leb b'a' c && leb c b'f' || leb b'A' c && leb c b'F'

unfoldable pub is_separator : ℕ → Bool
is_separator c = c == b'-' || c == b'_'

-- What follows n characters of a class.
unfoldable pub skip_class : (ℕ → Bool) → ℕ → Text → Option Text
skip_class p zero s = some s
skip_class p (suc n) [] = none
skip_class p (suc n) (c ∷ s) = let rest = skip_class p n s in if p c then rest else none

abbrev and_then : Option Text → (Text → Option Text) → Option Text
and_then none f = none
and_then (some s) f = f s

-- The part of `podDirRe` in parentheses, at the start of a text.
unfoldable pub skip_uid : Text → Option Text
skip_uid s =
    let sep = skip_class is_separator 1 in
    let hex = skip_class is_hex in
    and_then (hex 8 s) (λ s1. and_then (sep s1) (λ s2. and_then (hex 4 s2) (λ s3.
      and_then (sep s3) (λ s4. and_then (hex 4 s4) (λ s5.
        and_then (sep s5)
          (λ s6. and_then (hex 4 s6) (λ s7. and_then (sep s7) (λ s8. hex 12 s8))))))))

-- `strings.ReplaceAll(s, "_", "-")`
unfoldable pub dashes : Text → Text
dashes = map (λ c. if c == b'_' then b'-' else c)

abbrev pod_word : Text
pod_word = b'p' ∷ b'o' ∷ b'd' ∷ []

-- `podDirRe.FindStringSubmatch(name)`, and the uid that it finds
unfoldable pub pod_uid : Text → Option Text
pod_uid [] = none
pod_uid (c ∷ s) =
    let later = pod_uid s in
    elim (cut_prefix pod_word (c ∷ s)) [
      | none ↦ later
      | some rest ↦ elim (skip_uid rest) [ none ↦ later | some _ ↦ some (dashes (take 36 rest)) ]
    ]

-- The entry of that name, as a directory and as a file.
unfoldable pub sub_dir : Text → Entries → Option Entries
sub_dir name nil = none
sub_dir name (cons (file n s) es) = sub_dir name es
sub_dir name (cons (dir n sub) es) =
    let rest = sub_dir name es in if n =t= name then some sub else rest

unfoldable pub read_file : Text → Entries → Option Text
read_file name nil = none
read_file name (cons (dir n sub) es) = read_file name es
read_file name (cons (file n s) es) = let rest = read_file name es in if n =t= name then s else rest

unfoldable pub is_pod_parent : Text → Bool
is_pod_parent name =
    contains (ascii "kubepods") name
    || contains (ascii "besteffort") name
    || contains (ascii "burstable") name
    || name =t= ascii "guaranteed"

module _ (text : Text → String) where
  -- `out[uid] = append(out[uid], full)`, where a directory stands for its path.
  abbrev add_dir : Text → Entries → GoMap (List Entries) → GoMap (List Entries)
  add_dir uid d out =
      put (text uid) (elim (get (text uid) out) [ none ↦ d ∷ [] | some ds ↦ ds ++ d ∷ [] ]) out

  -- `walk(dir, depth)` with 4 - depth levels left.
  unfoldable pub walk : ℕ → Entries → GoMap (List Entries) → GoMap (List Entries)
  walk zero es out = out
  walk (suc n) nil out = out
  walk (suc n) (cons (file name s) es) out = walk (suc n) es out
  walk (suc n) (cons (dir name sub) es) out =
      let below = walk n sub out in
      walk (suc n) es (elim (pod_uid name) [
        | some uid ↦ add_dir uid sub out
        | none ↦ if is_pod_parent name then below else out
      ])

  -- A base that is there is walked.
  abbrev walk_base : Option Entries → GoMap (List Entries) → GoMap (List Entries)
  walk_base none out = out
  walk_base (some es) out = walk 4 es out

  -- The bases below the controllers of cgroup v1.
  unfoldable pub walk_controllers : Entries → GoMap (List Entries) → GoMap (List Entries)
  walk_controllers nil out = out
  walk_controllers (cons (file name s) es) out = walk_controllers es out
  walk_controllers (cons (dir name sub) es) out = walk_controllers es (
      if contains (ascii "kubepods") name
      then out
      else walk_base (sub_dir (ascii "kubepods") sub)
          (walk_base (sub_dir (ascii "kubepods.slice") sub) out))

  unfoldable pub find_pod_cgroups : Option Entries → GoMap (List Entries)
  find_pod_cgroups none = []
  find_pod_cgroups (some root) = walk_controllers root (
      walk_base (sub_dir (ascii "kubepods") root)
        (walk_base (sub_dir (ascii "kubepods.slice") root) (walk 4 root [])))

-- `strconv.ParseUint(s, 10, 64)`, with `none` for an error
unfoldable pub checked_digits : ℕ → Text → Option ℕ
checked_digits n [] = some n
checked_digits n (c ∷ s) =
    let m = n * 10 + (c - b'0') in
    let rest = checked_digits m s in if is_digit c && leb m max_uint64 then rest else none

abbrev checked_uint : Text → Option ℕ
checked_uint s = if is_empty s then none else checked_digits 0 s

unfoldable pub read_uint : Option Text → Option ℕ
read_uint none = none
read_uint (some raw) = checked_uint (trim_space raw)

-- The first line of two fields that starts with the key decides.
unfoldable pub keyed_line : Text → List Text → Option ℕ
keyed_line key [] = none
keyed_line key (l ∷ ls) =
    let f = fields l in
    let rest = keyed_line key ls in
    if (length f == 2) && nth 0 f =t= key then checked_uint (nth 1 f) else rest

unfoldable pub read_keyed : Text → Option Text → Option ℕ
read_keyed key none = none
read_keyed key (some raw) = keyed_line key (lines raw)

-- The first candidate that yields a reading.
unfoldable pub first_reading : (Entries → Option ℕ) → List Entries → Option ℕ
first_reading read [] = none
first_reading read (d ∷ ds) =
    let rest = first_reading read ds in elim (read d) [ none ↦ rest | some v ↦ some v ]

abbrev first_uint : String → List Entries → Option ℕ
first_uint name = first_reading (λ d. read_uint (read_file (ascii name) d))

abbrev first_keyed : String → String → List Entries → Option ℕ
first_keyed name key = first_reading (λ d. read_keyed (ascii key) (read_file (ascii name) d))

abbrev or_zero : Option ℕ → ℕ
or_zero none = 0
or_zero (some v) = v

-- The memory in use without the page cache that can be taken back.
unfoldable pub working_set : Option ℕ → Option ℕ → ℕ
working_set none inactive = 0
working_set (some mem) none = mem
working_set (some mem) (some inactive) = if ltb inactive mem then mem - inactive else mem

-- Microseconds of CPU and bytes of memory of a pod, from its directories.
unfoldable pub pod_usage : Bool → List Entries → ℕ × ℕ
pod_usage true ds = (
  or_zero (first_keyed "cpu.stat" "usage_usec" ds),
  working_set (first_uint "memory.current" ds) (first_keyed "memory.stat" "inactive_file" ds),
)
pod_usage false ds = (
  or_zero (first_uint "cpuacct.usage" ds) / 1000,
  working_set (first_uint "memory.usage_in_bytes" ds)
      (first_keyed "memory.stat" "total_inactive_file" ds),
)
