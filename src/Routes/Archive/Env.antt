-- ===== src/Routes/Archive/Env.antt =====
-- The `.env` of an archive: written by `export_handler`, read by `import_handler`.
pub mod RoundTrip
use password_manager_server.Prelude.{
  ℕ, zero, suc, Option, none, some, Bool, true, false, List, [], ◌∷◌, ◌++◌, Text, codes, nat_eq,
  if◌then◌else◌,
}
use password_manager_server.Crates.{Crates}
use password_manager_server.Config.{Config}

unfoldable pub env_content : Crates → Config → Text
env_content c cfg =
    codes "DATABASEENCRYPTSECRET="
    ++ c.hex_encode cfg.database_encrypt_secret
    ++ codes "\nSOFTWARESECRET="
    ++ c.hex_encode cfg.software_secret
    ++ codes "\n"

-- A line ends in "\n" or "\r\n".
abbrev pub trim_return : Text → Text
trim_return [] = []
trim_return (b ∷ []) = if nat_eq b 13 then [] else b ∷ []
trim_return (b ∷ d ∷ bs) = b ∷ trim_return (d ∷ bs)

-- The lines, where the first is kept apart: `none` if no newline ends it, else the lines behind it.
abbrev lines_of : Text → Option (List Text) → List Text
lines_of [] none = []
lines_of (b ∷ bs) none = (b ∷ bs) ∷ []
lines_of line (some more) = trim_return line ∷ more

unfoldable pub first_line : Text → Text × Option (List Text)
first_line [] = ([], none)
first_line (b ∷ bs) =
    let (line, more) = first_line bs in
    if nat_eq b 10 then ([], some (lines_of line more)) else (b ∷ line, more)

-- `text.lines()`; there is no empty line behind the last newline.
unfoldable pub lines : Text → List Text
unfolding first_line
lines text = let (line, more) = first_line text in lines_of line more

-- `line.strip_prefix(prefix)`
unfoldable pub strip_prefix : Text → Text → Option Text
strip_prefix [] line = some line
strip_prefix (p ∷ ps) [] = none
strip_prefix (p ∷ ps) (b ∷ bs) = let rest = strip_prefix ps bs in if nat_eq p b then rest else none

-- `(enc_key, sw_key)`
abbrev pub Secrets : Type 0
Secrets = Option Text × Option Text

-- One turn of the loop over the lines.
unfoldable pub read_line : Text → Secrets → Secrets
unfolding strip_prefix
read_line line (enc_key, sw_key) = elim (strip_prefix (codes "DATABASEENCRYPTSECRET=") line) [
  | some val ↦ (some val, sw_key)
  | none ↦ elim (strip_prefix (codes "SOFTWARESECRET=") line) [
    | some val ↦ (enc_key, some val)
    | none ↦ (enc_key, sw_key)
  ]
]

unfoldable pub read_lines : List Text → Secrets → Secrets
unfolding read_line
read_lines [] secrets = secrets
read_lines (line ∷ more) secrets = read_lines more (read_line line secrets)

unfoldable pub read_env : Text → Secrets
unfolding lines read_lines
read_env env_str = read_lines (lines env_str) (none, none)
