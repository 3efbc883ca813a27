-- ===== src/Inventory/Host.antt =====
-- internal/agent/inventory.go: the operating system, the packages and the GPUs of the host.
use fleet_core.Prelude.{
  ℕ, String, Bool, false, not, ◌&&◌, Option, none, some, List, [], ◌∷◌, ◌++◌, if◌then◌else◌, length,
  keep_if,
}
use fleet_core.Prelude.Int.{ℤ, pos, negsuc}
use fleet_core.Prelude.Bytes.{
  Text, is_empty, ascii, cut_at, cut_prefix, has_prefix, trim_byte, trim_space, to_lower, lines,
  scan_lines, ◌=t=◌,
}

-- The variables of `osRelease`.
pub record OsFields : Type 0 where
  pub id : Text
  pub version : Text
  pub pretty : Text

-- `if v, ok := strings.CutPrefix(line, name); ok { … strings.Trim(v, quote) }`
abbrev assigned : String → Text → Text → Text
assigned name line old = elim (cut_prefix (ascii name) line) [
  | none ↦ old
  | some v ↦ trim_byte b'"' v
]

unfoldable pub os_line : Text → OsFields → OsFields
os_line line o = record {
  id = assigned "ID=" line o.id;
  version = assigned "VERSION_ID=" line o.version;
  pretty = assigned "PRETTY_NAME=" line o.pretty;
}

unfoldable pub os_lines : List Text → OsFields → OsFields
unfolding os_line
os_lines [] o = o
os_lines (l ∷ ls) o = os_lines ls (os_line l o)

-- The end of `osRelease`: `PRETTY_NAME` where there is no `ID`.
unfoldable pub os_names : OsFields → Text × Text
os_names o =
    if is_empty o.id && not (is_empty o.pretty)
    then elim (cut_at b' ' o.pretty) [
      | none ↦ (to_lower o.pretty, o.version)
      | some (name, ver) ↦ (to_lower name, ver)
    ]
    else (o.id, o.version)

-- 64 KiB, the line that a `bufio.Scanner` takes
abbrev scan_limit : ℕ
scan_limit = 65536

unfoldable pub os_release : Option Text → Text × Text
unfolding os_lines os_names
os_release none = ([], [])
os_release (some raw) =
    os_names (os_lines (scan_lines scan_limit raw) (record { id = []; version = []; pretty = [] }))

-- `dpkg` is /var/lib/dpkg/status, `rpm` whether /var/lib/rpm is there.
unfoldable pub package_count : Option Text → Bool → ℤ
package_count none rpm = if rpm then negsuc 0 else pos 0
package_count (some raw) rpm =
    pos (length (keep_if (has_prefix (ascii "Package:")) (scan_lines 1048576 raw)))

-- A PCI device: the files `class`, `vendor` and `device`, where they can be read.
pub record PciDevice : Type 0 where
  pub class : Option Text
  pub vendor : Option Text
  pub device : Option Text

abbrev file_text : Option Text → Text
file_text none = []
file_text (some s) = trim_space s

-- `pciGPUVendors`, and the vendor's number where that has no name
unfoldable pub gpu_vendor : Text → Text
gpu_vendor raw =
    if raw =t= ascii "0x10de"
    then ascii "nvidia"
    else if raw =t= ascii "0x1002"
    then ascii "amd"
    else if raw =t= ascii "0x8086"
    then ascii "intel"
    else raw

unfoldable pub is_display : PciDevice → Bool
is_display d = elim d.class [ none ↦ false | some c ↦ has_prefix (ascii "0x03") (trim_space c) ]

-- The loop of `detectGPUs`, with the model names that are not given yet.
unfoldable pub name_gpus : List PciDevice → List Text → List Text
unfolding gpu_vendor is_display
name_gpus [] models = []
name_gpus (d ∷ ds) models =
    let vendor = gpu_vendor (file_text d.vendor) in
    let plain = vendor ++ ascii ": device " ++ file_text d.device in
    let skipped = name_gpus ds models in
    let first : List Text = elim models [
      | [] ↦ plain ∷ skipped
      | m ∷ ms ↦
          if vendor =t= ascii "nvidia"
          then (ascii "nvidia: " ++ m) ∷ name_gpus ds ms
          else plain ∷ skipped
    ] in
    if is_display d then first else skipped

-- The `Model:` lines of one `information` file.
unfoldable pub model_lines : List Text → List Text
model_lines [] = []
model_lines (l ∷ ls) =
    let rest = model_lines ls in
    elim (cut_prefix (ascii "Model:") l) [ none ↦ rest | some v ↦ trim_space v ∷ rest ]

-- The information files, `none` where one cannot be read.
unfoldable pub nvidia_model_names : List (Option Text) → List Text
unfolding model_lines
nvidia_model_names [] = []
nvidia_model_names (none ∷ fs) = nvidia_model_names fs
nvidia_model_names (some raw ∷ fs) = model_lines (lines raw) ++ nvidia_model_names fs

-- `none` where /sys/bus/pci/devices cannot be read; a driver directory that cannot be read is empty.
unfoldable pub detect_gpus : Option (List PciDevice) → List (Option Text) → List Text
unfolding name_gpus nvidia_model_names
detect_gpus none infos = []
detect_gpus (some ds) infos = name_gpus ds (nvidia_model_names infos)
