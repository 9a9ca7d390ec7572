-- ===== src/Examples/Archives.antt =====
-- Exports and imports, tried on an archive format that ends each piece with a zero.
use password_manager_server.Prelude.{
  ℕ, zero, suc, ◌+◌, ◌/◌, ◌%◌, ◌≡◌, refl, ap, ◌∙◌, some, true, List, [], ◌∷◌, ◌++◌, map, Text,
  Text-discrete, Bytes, codes, ltb, if◌then◌else◌, arith, All, inl, inr, Bool-cases,
}
use password_manager_server.Error.{ok, err, unauthorized, status_code}
use password_manager_server.Crates.{Crates, HeaderMap}
use password_manager_server.Config.{Config}
use password_manager_server.Utf8.{from_utf8, valid_from}
use password_manager_server.Routes.Auth.{check_admin_key, header_text}
use password_manager_server.Routes.Subnet.{check_admin_ip}
use password_manager_server.Routes.Archive.{
  Host, ArchiveCrates, accept, import_handler, export_handler, read_database, readme,
  read_to_string, installed,
}
use password_manager_server.Routes.Archive.Env.{
  env_content, first_line, lines, strip_prefix, read_line, read_lines, read_env,
}
use password_manager_server.Routes.Archive.Env.RoundTrip.{IsHexDigit}
use password_manager_server.Routes.Archive.Refusals.{Untouched, import_handler-refused}
use password_manager_server.Routes.Archive.Installs.{Installed, import_handler-Installed}
use password_manager_server.Routes.Archive.Transfer.{
  ArchiveLaws, entry_named, no_faults, import_handler-export_handler,
}
use password_manager_server.Examples.{crates, config, peer}

-- The piece up to the first zero, and the pieces behind it.
unfoldable pieces : Bytes → Bytes × List Bytes
pieces [] = ([], [])
pieces (zero ∷ bs) = let (first, more) = pieces bs in ([], first ∷ more)
pieces (suc b ∷ bs) = let (first, more) = pieces bs in (b ∷ first, more)

abbrev pairs : List Bytes → List (Text × Bytes)
pairs [] = []
pairs (name ∷ []) = []
pairs (name ∷ content ∷ more) = (name, content) ∷ pairs more

unfoldable entries : Bytes → List (Text × Bytes)
unfolding pieces
entries tar = let (first, more) = pieces tar in pairs (first ∷ more)

abbrev packed : Text → Bytes → Bytes → Bytes
packed name content tar = map suc name ++ 0 ∷ (map suc content ++ 0 ∷ tar)

abbrev archives : ArchiveCrates Bytes
archives = record {
  tar_new = [];
  tar_append = λ tar name content. ok (packed name content tar);
  tar_finish = λ tar. ok tar;
  tar_unpack = λ body. ok (λ name. entry_named name (entries body));
  is_sqlite = λ db. true;
  migrate = λ db. ok (db ++ codes "!");
}

pieces-append :
    (name bs : Bytes)
    → pieces (map suc name ++ 0 ∷ bs) ≡ (let (first, more) = pieces bs in (name, first ∷ more))
unfolding pieces
pieces-append [] bs = refl
pieces-append (b ∷ name) bs = rw (pieces-append name bs) refl

entries-packed :
    (name content tar : Bytes) → entries (packed name content tar) ≡ (name, content) ∷ entries tar
unfolding entries
entries-packed name content tar =
    ap (λ (r : Bytes × List Bytes). let (first, more) = r in pairs (first ∷ more))
      (pieces-append name (map suc content ++ 0 ∷ tar)
        ∙ ap (λ (r : Bytes × List Bytes). let (first, more) = r in (name, first ∷ more))
            (pieces-append content tar))

-- Two lower-case digits for each byte.
abbrev digit : ℕ → ℕ
digit d = if ltb (d % 16) 10 then 48 + d % 16 else 87 + d % 16

unfoldable hex : Bytes → Text
hex [] = []
hex (b ∷ bs) = digit (b / 16) ∷ digit b ∷ hex bs

digit-IsHexDigit : (d : ℕ) → IsHexDigit (digit d)
digit-IsHexDigit d = elim (Bool-cases (ltb (d % 16) 10)) [
  | inl e ↦ rw e (inl (omega arith, ground arith))
  | inr e ↦ rw e (inr (ground arith, omega arith))
]

hex-IsHexDigit : (b : Bytes) → All IsHexDigit (hex b)
unfolding hex
hex-IsHexDigit [] = tt
hex-IsHexDigit (b ∷ bs) = (digit-IsHexDigit (b / 16), (digit-IsHexDigit b, hex-IsHexDigit bs))

abbrev hex_crates : Crates
hex_crates = record crates { hex_encode = hex }

archives-ArchiveLaws : ArchiveLaws archives hex_crates
unfolding entries
archives-ArchiveLaws = record {
  entries = entries;
  new_empty = refl;
  appended = λ t u name content e.
      let same : packed name content t ≡ u = cc in rw (← same) (entries-packed name content t);
  unpacked = λ t body e.
      let same : t ≡ body = cc in
      (λ name. entry_named name (entries body), refl, λ name. rw same refl);
  hex_digits = hex-IsHexDigit;
}

-- The key of the administrator, in hexadecimal.
abbrev key_headers : HeaderMap
key_headers name = some (codes "07")

abbrev machine : Host
machine = record { files = λ path. some (codes "rows"); pool_in_use = 0 }

-- The archive of this server, and one with another secret.
abbrev other_config : Config
other_config = record config { software_secret = 8 ∷ [] }

abbrev body : Bytes
body =
    packed (codes "README.txt")
      (readme archives hex_crates config key_headers peer no_faults (codes "now"))
      (packed (codes ".env") (env_content hex_crates config)
        (packed (codes "pwd_manager.db") (codes "rows") []))

gate : check_admin_key hex_crates config key_headers ≡ ok tt
unfolding check_admin_key header_text hex Text-discrete
gate = refl

subnet : check_admin_ip peer config.admin_allowed_subnet ≡ ok tt
unfolding check_admin_ip
subnet = refl

export_done :
    export_handler archives hex_crates config key_headers peer no_faults (codes "now") machine
    ≡ ok body
unfolding export_handler read_database check_admin_key check_admin_ip header_text hex Text-discrete
export_done = refl

import_handler-export_handler_example :
    let done = import_handler archives hex_crates config key_headers peer no_faults body machine in
    (done.0 ≡ ok tt) × (done.1.files config.database_url ≡ some (codes "rows!"))
import_handler-export_handler_example =
    import_handler-export_handler archives hex_crates archives-ArchiveLaws config config key_headers
      key_headers peer peer no_faults (codes "now") machine machine body (codes "rows")
      (codes "rows!") refl refl export_done refl gate subnet refl refl

import_handler-Installed_example :
    Installed archives hex_crates config key_headers peer no_faults body machine
      (import_handler archives hex_crates config key_headers peer no_faults body machine).1
import_handler-Installed_example =
    import_handler-Installed archives hex_crates config key_headers peer no_faults body machine
      import_handler-export_handler_example.0

-- A server with another secret refuses the archive.
abbrev others_key : HeaderMap
others_key name = some (codes "08")

refused_there :
    (import_handler archives hex_crates other_config others_key peer no_faults body machine).0
    ≡ err (unauthorized "archive secrets do not match server configuration")
unfolding import_handler installed accept check_admin_key check_admin_ip header_text read_to_string
    from_utf8 valid_from hex Text-discrete entries pieces env_content first_line lines strip_prefix
    read_line read_lines read_env readme
refused_there = refl

import_handler-refused_example :
    Untouched archives hex_crates other_config others_key peer no_faults machine
      (import_handler archives hex_crates other_config others_key peer no_faults body machine).1
unfolding status_code
import_handler-refused_example =
    import_handler-refused archives hex_crates other_config others_key peer no_faults body machine
      (unauthorized "archive secrets do not match server configuration") refused_there (omega arith)
