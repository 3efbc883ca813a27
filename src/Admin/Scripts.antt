-- ===== src/Admin/Scripts.antt =====
-- internal/server/commands.go: the script of an ad-hoc command. `strings.TrimSpace` cuts what
-- `unicode.IsSpace` accepts.
use fleet_core.Prelude.{ℕ, String, Bool, true, ◌&&◌, ◌||◌, leb, ◌==◌, if◌then◌else◌, is_some}
use Prim.Native.Char.{code}
use Prim.Native.String.{◌++◌ as ◌++s◌}
use fleet_core.Commands.{cut_prefix}

-- `unicode.IsSpace`
unfoldable pub is_space : ℕ → Bool
is_space c =
    (leb 9 c && leb c 13)
    || c == 32
    || c == 133
    || c == 160
    || c == 5760
    || (leb 8192 c && leb c 8202)
    || c == 8232
    || c == 8233
    || c == 8239
    || c == 8287
    || c == 12288

unfoldable pub trim_left : String → String
unfolding is_space
trim_left String.[] = ""
trim_left (String.◌∷◌ c s) =
    let rest = trim_left s in if is_space (code c) then rest else String.◌∷◌ c s

unfoldable pub is_blank : String → Bool
unfolding is_space
is_blank String.[] = true
is_blank (String.◌∷◌ c s) = is_space (code c) && is_blank s

unfoldable pub trim_right : String → String
unfolding is_blank is_space
trim_right String.[] = ""
trim_right (String.◌∷◌ c s) =
    let rest = trim_right s in if is_space (code c) && is_blank s then "" else String.◌∷◌ c rest

-- `strings.TrimSpace(s)`
unfoldable pub trim_space : String → String
unfolding trim_left trim_right
trim_space s = trim_right (trim_left s)

-- A script without an interpreter line is given one, and runs at the root directory.
unfoldable pub with_interpreter : String → String
unfolding cut_prefix
with_interpreter script =
    if is_some (cut_prefix "#!" script)
    then script
    else "#!/bin/sh\nset -eu\ncd /\n" ++s (script ++s "\n")
