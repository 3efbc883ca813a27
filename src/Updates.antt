-- ===== src/Updates.antt =====
-- internal/agent/updates.go: the pending updates of the host. Output is what the command of a package manager
-- prints, `none` where it fails; `text` makes a `string` of bytes, and times are Unix seconds.
pub mod Counts
use fleet_core.Prelude.{
  ℕ, ◌+◌, ◌-◌, String, Bool, false, not, ◌||◌, Option, none, some, List, [], ◌∷◌, ◌++◌, ltb,
  if◌then◌else◌, length, keep_if,
}
use fleet_core.Prelude.Bytes.{
  Text, ascii, contains, fields, has_prefix, is_empty, nth, scan_lines, to_lower, trim_space,
}
use fleet_core.Api.{Updates}

-- 64 KiB, the line that a `bufio.Scanner` takes
abbrev pub scan_limit : ℕ
scan_limit = 65536

unfoldable pub no_updates : String → ℕ → Updates
no_updates manager now = record {
  manager = manager;
  total = 0;
  security = 0;
  packages = [];
  reboot_req = false;
  at_unix = now;
}

-- `u.Total++`, and the package's name where there are fewer than 50
unfoldable pub count_package : String → Updates → Updates
count_package name u = record u {
  total = u.total + 1;
  packages = if ltb (length u.packages) 50 then u.packages ++ name ∷ [] else u.packages;
}

unfoldable pub is_security : Text → Bool
is_security line = contains (ascii "security") (to_lower line)

-- The package managers that are there, and what they answer.
pub record PackageTools : Type 0 where
  pub has_apt : Bool
  pub has_dnf : Bool
  pub apt_output : Option Text
  pub dnf_output : Text
  pub dnf_security : Option Text
  pub reboot : Bool

module _ (text : Text → String) where
  unfoldable pub apt_line : Text → Updates → Updates
  apt_line line u =
      let fs = fields line in
      let counted = count_package (text (nth 1 fs)) u in
      if not (has_prefix (ascii "Inst ") line) || ltb (length fs) 2
      then u
      else if is_security line
      then record counted { security = counted.security + 1 }
      else counted

  unfoldable pub apt_lines : List Text → Updates → Updates
  apt_lines [] u = u
  apt_lines (l ∷ ls) u = apt_lines ls (apt_line l u)

  -- `reboot` is whether /var/run/reboot-required is there.
  unfoldable pub scan_apt : ℕ → Option Text → Bool → Updates
  scan_apt now none reboot = no_updates "apt" now
  scan_apt now (some out) reboot =
      let u = apt_lines (scan_lines scan_limit out) (no_updates "apt" now) in
      record u { reboot_req = reboot }

  -- The loop over the lines, up to the obsoleted packages; the lines are trimmed.
  unfoldable pub dnf_lines : List Text → Updates → Updates
  dnf_lines [] u = u
  dnf_lines (l ∷ ls) u =
      let line = trim_space l in
      let fs = fields line in
      let skipped = dnf_lines ls u in
      let counted = dnf_lines ls (count_package (text (nth 0 fs)) u) in
      if is_empty line
      then skipped
      else if has_prefix (ascii "Obsoleting") line
      then u
      else if ltb (length fs) 3
      then skipped
      else counted

  -- `out` is what check-update prints, whatever its exit code.
  unfoldable pub scan_dnf : ℕ → Text → Option Text → Bool → Updates
  scan_dnf now out updateinfo reboot =
      let u = dnf_lines (scan_lines scan_limit out) (no_updates "dnf" now) in
      let security : ℕ = elim updateinfo [
        | none ↦ 0
        | some info ↦ length (keep_if is_security (scan_lines scan_limit info))
      ] in
      record u { security = security; reboot_req = reboot }

  unfoldable pub scan_updates : ℕ → PackageTools → Updates
  scan_updates now t =
      if t.has_apt
      then scan_apt now t.apt_output t.reboot
      else if t.has_dnf
      then scan_dnf now t.dnf_output t.dnf_security t.reboot
      else no_updates "unknown" now

-- `a.updates`: the snapshot and its time, in nanoseconds
abbrev pub UpdateCache : Type 0
UpdateCache = Option (Updates × ℕ)

-- What `updatesSnapshot` gives and keeps. `scan` is the scan that it makes where the cached snapshot is
-- missing or old, at the time `now`, and `done` the time after it.
unfoldable pub updates_snapshot : ℕ → ℕ → ℕ → Updates → UpdateCache → Updates × UpdateCache
updates_snapshot max_age now done scan none = (scan, some (scan, done))
updates_snapshot max_age now done scan (some (snap, at)) =
    if ltb (now - at) max_age then (snap, some (snap, at)) else (scan, some (scan, done))
