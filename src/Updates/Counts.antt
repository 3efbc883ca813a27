-- ===== src/Updates/Counts.antt =====
-- internal/agent/updates.go: the counts of a scan.
use fleet_core.Prelude.{
  ℕ, ◌+◌, ◌≤◌, String, ◌≡◌, refl, inl, inr, Bool, not, ◌||◌, Option, none, some, List, [], ◌∷◌,
  arith, ltb, if◌then◌else◌, Bool-cases, length, length-append,
}
use fleet_core.Prelude.Bytes.{Text, ascii, fields, has_prefix, nth, scan_lines}
use fleet_core.Api.{Updates}
use fleet_core.Updates.{
  scan_limit, no_updates, count_package, is_security, apt_line, apt_lines, scan_apt,
}

-- The names are those of the first 50 packages.
abbrev AreNamed : Updates → Type 0
AreNamed u = length u.packages ≡ (if ltb u.total 50 then u.total else 50)

count_package-AreNamed :
    (name : String) (u : Updates) → AreNamed u → AreNamed (count_package name u)
unfolding count_package
count_package-AreNamed name u h = ground (arith, h, length-append u.packages (name ∷ []))

-- As many security updates as packages at most.
abbrev Counts : Updates → Type 0
Counts u = AreNamed u × (u.security ≤ u.total)

count_package-room :
    (name : String) (u : Updates)
    → u.security ≤ u.total
    → (count_package name u).security + 1 ≤ (count_package name u).total
unfolding count_package
count_package-room name u h = omega (arith, h)

module _ (text : Text → String) where
  apt_line-Counts : (line : Text) (u : Updates) → Counts u → Counts (apt_line text line u)
  unfolding apt_line
  apt_line-Counts line u h =
      let name = text (nth 1 (fields line)) in
      let named = count_package-AreNamed name u h.0 in
      let room = count_package-room name u h.1 in
      elim (Bool-cases (not (has_prefix (ascii "Inst ") line) || ltb (length (fields line)) 2)) [
        | inl e ↦ rw (apt_line, e) h
        | inr e ↦ elim (Bool-cases (is_security line)) [
          | inl f ↦ rw (apt_line, e) (rw f (named, room))
          | inr f ↦ rw (apt_line, e) (rw f (named, omega (arith, room)))
        ]
      ]

  apt_lines-Counts : (ls : List Text) (u : Updates) → Counts u → Counts (apt_lines text ls u)
  unfolding apt_lines
  apt_lines-Counts [] u h = h
  apt_lines-Counts (l ∷ ls) u h = apt_lines-Counts ls (apt_line text l u) (apt_line-Counts l u h)

  -- Whatever apt-get prints, the names are those of the first 50 packages at most, one for each, and
  -- there are no more security updates than packages.
  pub scan_apt_lem :
      (now : ℕ) (out : Option Text) (reboot : Bool)
      → let u = scan_apt text now out reboot in
        (length u.packages ≡ (if ltb u.total 50 then u.total else 50)) × (u.security ≤ u.total)
  unfolding scan_apt no_updates
  scan_apt_lem now none reboot = (refl, omega arith)
  scan_apt_lem now (some out) reboot =
      apt_lines-Counts (scan_lines scan_limit out) (no_updates "apt" now) (refl, omega arith)
