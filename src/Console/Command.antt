-- ===== src/Console/Command.antt =====
-- The subcommands of src/bin/admin_cli.rs: `main` when it is given arguments.
pub mod Ends
pub mod Pressed
pub mod Requests
pub mod Routed
use password_manager_server.Prelude.{
  ℕ, zero, suc, ◌+◌, Option, none, some, Bool, true, false, List, [], ◌∷◌, ◌++◌, Text, Bytes, codes,
  length, nat_eq, ◌==◌, if◌then◌else◌, pos,
}
use password_manager_server.Error.{decimal}
use password_manager_server.Console.{Json, Method, get, post, delete, HttpRequest}
use password_manager_server.Console.Fetch.{value_or, text_at}
use password_manager_server.Console.Screen.Rows.{trunc, signed}

-- What comes back. `none` stands for a body that is no JSON, and for one that breaks off.
pub data Answer (Value : Type 0) : Type 0 where
  unreachable : Answer Value
  reply : (status : ℕ) → Option Value → Option Bytes → Answer Value

-- serde_json's `Value::Null` and `{body:#}`, the answer to the request, and the file system, whose
-- errors are their messages.
pub record Shell (Value : Type 0) : Type 0 where
  pub null : Value
  pub pretty : Value → Text
  pub answer : Answer Value
  pub unread : Text → Option Text
  pub contents : Text → Bytes
  pub unwritten : Text → Option Text

pub data End : Type 0 where
  returned panicked : End
  exited : ℕ → End

-- The request that was sent, the file that was written, and the lines on both streams.
pub record Outcome : Type 0 where
  pub sent : Option HttpRequest
  pub file : Option (Text × Bytes)
  pub printed : List Text
  pub complained : List Text
  pub ended : End

-- `base`, `admin_key` and `export_dir` of `main`.
pub record Environment : Type 0 where
  pub base : Text
  pub admin_key : Text
  pub export_dir : Text

abbrev pub nothing : End → Outcome
nothing end = record { sent = none; file = none; printed = []; complained = []; ended = end }

-- `println!("Status: {status}")`
abbrev pub status_line : ℕ → Text
status_line status = codes "Status: " ++ codes (decimal status)

module _ {Value : Type 0} (json : Json Value) (shell : Shell Value) (env : Environment) where
  abbrev pub request : Method → Text → Bytes → HttpRequest
  request method path body = record {
    method = method;
    url = env.base ++ path;
    admin_key = env.admin_key;
    body = body;
  }

  -- The six lines of a device; `none` is the panic of the slice, before any of them.
  unfoldable pub device_lines : Value → Option (List Text)
  unfolding trunc text_at
  device_lines entry = elim (trunc (text_at json (codes "-") entry (codes "device_token")) 45) [
    | none ↦ none
    | some device ↦
        let mark =
          if value_or false (json.as_bool (json.field entry (codes "is_confirmed")))
          then codes "✓"
          else codes "✗" in
        some (
          (codes "  [" ++ mark ++ codes "] " ++ text_at json (codes "?") entry (codes "uuid"))
          ∷ (codes "         user:    " ++ text_at json (codes "-") entry (codes "user_id"))
          ∷ (codes "         ip:      " ++ text_at json (codes "?") entry (codes "ip_address"))
          ∷ (codes "         device:  " ++ device)
          ∷ (codes "         created: " ++ text_at json (codes "?") entry (codes "created_at"))
          ∷ (codes "         updated: " ++ text_at json (codes "?") entry (codes "updated_at"))
          ∷ [])
  ]

  -- The lines of the devices, up to the first panic.
  unfoldable pub list_lines : List Value → List Text × End
  unfolding device_lines
  list_lines [] = ([], returned)
  list_lines (entry ∷ more) =
      let (rest, end) = list_lines more in
      elim (device_lines entry) [ none ↦ ([], panicked) | some lines ↦ (lines ++ rest, end) ]

  unfoldable pub user_line : Value → Text
  unfolding text_at
  user_line entry =
      let deleted = value_or false (json.as_bool (json.field entry (codes "is_deleted"))) in
      let count = value_or (pos 0) (json.as_i64 (json.field entry (codes "identity_count"))) in
      codes "  ["
      ++ (if deleted then codes "deleted" else codes "active ")
      ++ codes "] "
      ++ text_at json (codes "?") entry (codes "name")
      ++ codes "  "
      ++ text_at json (codes "?") entry (codes "uuid")
      ++ codes "  devices:"
      ++ signed count
      ++ codes "  created:"
      ++ text_at json (codes "?") entry (codes "created_at")

  unfoldable pub user_lines : List Value → List Text × End
  unfolding user_line
  user_lines [] = ([], returned)
  user_lines (entry ∷ more) = let (rest, end) = user_lines more in (user_line entry ∷ rest, end)

  -- `if let Some(arr) = body.as_array() { .. } else { println!("{body:#}") }`
  abbrev pub rows_or_body :
      (List Value → List Text × End) → Value → Option (List Value) → List Text × End
  rows_or_body lines body none = (shell.pretty body ∷ [], returned)
  rows_or_body lines body (some arr) = lines arr

  -- A request whose rows are listed.
  abbrev pub listed : HttpRequest → (List Value → List Text × End) → Answer Value → Outcome
  listed asked lines unreachable = record (nothing panicked) { sent = some asked }
  listed asked lines (reply status body bytes) =
      let value = value_or shell.null body in
      let (rest, end) = rows_or_body lines value (json.as_array value) in
      record {
        sent = some asked;
        file = none;
        printed = status_line status ∷ rest;
        complained = [];
        ended = end;
      }

  -- A request that is answered with 200, or else with what is printed.
  abbrev pub told : HttpRequest → Text → Answer Value → Outcome
  told asked success unreachable = record (nothing panicked) { sent = some asked }
  told asked success (reply status body bytes) = record {
    sent = some asked;
    file = none;
    printed =
        status_line status
        ∷ (if nat_eq status 200 then success else shell.pretty (value_or shell.null body))
        ∷ [];
    complained = [];
    ended = returned;
  }

  -- `std::fs::write(&path, &bytes).unwrap()` and the line behind it.
  abbrev pub saved : HttpRequest → Text → Bytes → Option Text → Outcome
  saved asked path bytes (some e) = record (nothing panicked) { sent = some asked }
  saved asked path bytes none = record {
    sent = some asked;
    file = some (path, bytes);
    printed =
        (codes "Exported " ++ codes (decimal (length bytes)) ++ codes " bytes to " ++ path) ∷ [];
    complained = [];
    ended = returned;
  }

  abbrev pub save_body : HttpRequest → Text → Option Bytes → Outcome
  save_body asked path none = record (nothing panicked) { sent = some asked }
  save_body asked path (some bytes) = saved asked path bytes (shell.unwritten path)

  abbrev pub archive_path : Text
  archive_path = env.export_dir ++ codes "/pwd-export.tar.gz"

  abbrev pub fetched : HttpRequest → Answer Value → Outcome
  fetched asked unreachable = record (nothing panicked) { sent = some asked }
  fetched asked (reply status body bytes) =
      if nat_eq status 200 then save_body asked archive_path bytes else record {
        sent = some asked;
        file = none;
        printed = (codes "Export failed: " ++ codes (decimal status)) ∷ [];
        complained = [];
        ended = returned;
      }

  unfoldable pub import_from : Text → Outcome
  import_from path = elim (shell.unread path) [
    | some e ↦ record (nothing (exited 1)) {
      complained = (codes "Failed to read " ++ path ++ codes ": " ++ e) ∷ [];
    }
    | none ↦
        told (request post (codes "/admin/import") (shell.contents path))
          (codes "Import successful") shell.answer
  ]

  -- `args.get(2).expect(..)`
  abbrev pub with_uuid : (Text → Outcome) → List Text → Outcome
  with_uuid f [] = nothing panicked
  with_uuid f (uuid ∷ more) = f uuid

  abbrev pub confirm_command : (cmd uuid : Text) → Outcome
  confirm_command cmd uuid =
      told (request post (codes "/admin/identities/" ++ uuid ++ codes "/" ++ cmd) [])
        (cmd ++ codes "ed " ++ uuid) shell.answer

  abbrev pub delete_command : Text → Outcome
  delete_command uuid =
      told (request delete (codes "/admin/identities/" ++ uuid) []) (codes "deleted " ++ uuid)
        shell.answer

  abbrev pub user_command : (action uuid : Text) → Outcome
  user_command action uuid =
      told (request post (codes "/admin/users/" ++ uuid ++ codes "/" ++ action) [])
        (action ++ codes "d user " ++ uuid) shell.answer

  abbrev pub import_command : List Text → Outcome
  unfolding import_from
  import_command [] = import_from archive_path
  import_command (path ∷ more) = import_from path

  abbrev pub usage : Outcome
  usage = record (nothing returned) {
    complained =
        codes
          "Usage: admin_cli [list|confirm|unconfirm|delete|users|user-delete|user-restore|export|import [path]]"
        ∷ [];
  }

  -- `match cmd.as_str()`, with the arguments behind the command.
  unfoldable pub run_command : (cmd : Text) → (args : List Text) → Outcome
  unfolding list_lines user_lines import_command
  run_command cmd args =
      if cmd == codes "list"
      then listed (request get (codes "/admin/identities") []) list_lines shell.answer
      else if cmd == codes "confirm"
      then with_uuid (confirm_command cmd) args
      else if cmd == codes "unconfirm"
      then with_uuid (confirm_command cmd) args
      else if cmd == codes "delete"
      then with_uuid delete_command args
      else if cmd == codes "users"
      then listed (request get (codes "/admin/users") []) user_lines shell.answer
      else if cmd == codes "user-delete"
      then with_uuid (user_command (codes "delete")) args
      else if cmd == codes "user-restore"
      then with_uuid (user_command (codes "restore")) args
      else if cmd == codes "export"
      then fetched (request get (codes "/admin/export") []) shell.answer
      else if cmd == codes "import"
      then import_command args
      else usage
