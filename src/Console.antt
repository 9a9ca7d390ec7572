-- ===== src/Console.antt =====
-- The administrator's console, src/bin/admin_cli.rs: the state behind the screen. What the screen
-- looks like is in Console.Screen; ratatui's TableState is the row that it has selected.
pub mod Fetch
pub mod Actions
pub mod Moves
pub mod Keys
pub mod InRange
pub mod Screen
pub mod Command
pub mod Approvals
use password_manager_server.Prelude.{
  ℕ, zero, suc, ◌+◌, ◌*◌, Option, none, some, Bool, true, false, List, [], ◌++◌, ◌∷◌, Text, Bytes,
  codes, length, ℤ,
}

abbrev pub page_rows : ℕ
page_rows = 10

abbrev pub tab_devices : ℕ
tab_devices = 0

abbrev pub tab_users : ℕ
tab_users = 1

abbrev pub tab_export : ℕ
tab_export = 2

abbrev pub tab_import : ℕ
tab_import = 3

abbrev pub tab_count : ℕ
tab_count = 4

pub record IdentityEntry : Type 0 where
  pub uuid : Text
  pub user_id : Option Text
  pub ip_address : Text
  pub confirmed : Bool
  pub device_token : Text
  pub created_at : Text
  pub updated_at : Text

pub record UserEntry : Type 0 where
  pub uuid : Text
  pub name : Text
  pub is_deleted : Bool
  pub identity_count : ℤ
  pub created_at : Text
  pub updated_at : Text

pub data Method : Type 0 where
  get post delete : Method

-- A request with the administrator's key; `body` is that of an import.
pub record HttpRequest : Type 0 where
  pub method : Method
  pub url : Text
  pub admin_key : Text
  pub body : Bytes

-- `sent` are the requests that the console has made, the latest last; it stands for the client.
pub record App : Type 0 where
  pub rows : List IdentityEntry
  pub table_state : Option ℕ
  pub page : ℕ
  pub total_pages : ℕ
  pub users : List UserEntry
  pub user_state : Option ℕ
  pub loading : Bool
  pub message : Text
  pub sent : List HttpRequest
  pub base : Text
  pub admin_key : Text
  pub tab : ℕ
  pub export_dir : Text
  pub import_path : Text
  pub busy : Bool
  pub pending_delete : Option Text
  pub pending_export : Bool
  pub backend_down : Bool

-- serde_json's values, as far as the console looks into them.
pub record Json (Value : Type 0) : Type 0 where
  pub field : Value → Text → Value
  pub as_str : Value → Option Text
  pub as_bool : Value → Option Bool
  pub as_i64 : Value → Option ℤ
  pub as_array : Value → Option (List Value)

-- What comes back: no answer, or a status, whether it is a success, the body as JSON and as bytes
-- (`none` if the body breaks off).
pub data Reply (Value : Type 0) : Type 0 where
  no_answer : Reply Value
  answer : (success : Bool) → (status : Text) → Value → Option Bytes → Reply Value

-- What the world outside does while one key is handled: the answer to the request that is sent as
-- the n-th, and the file system. An error of the latter is its message.
pub record Outside (Value : Type 0) : Type 0 where
  pub reply : ℕ → Reply Value
  pub exists : Text → Bool
  pub unread : Text → Option Text
  pub contents : Text → Bytes
  pub unwritten : Text → Option Text

unfoldable pub new : (base admin_key export_dir : Text) → App
new base admin_key export_dir = record {
  rows = [];
  table_state = none;
  page = 0;
  total_pages = 0;
  users = [];
  user_state = none;
  loading = true;
  message = [];
  sent = [];
  base = base;
  admin_key = admin_key;
  tab = tab_devices;
  export_dir = export_dir;
  import_path = export_dir ++ codes "/pwd-export.tar.gz";
  busy = false;
  pending_delete = none;
  pending_export = false;
  backend_down = false;
}

unfoldable pub export_path : App → Text
export_path app = app.export_dir ++ codes "/pwd-export.tar.gz"

unfoldable pub page_start : App → ℕ
page_start app = app.page * page_rows

unfoldable pub selected_global_index : App → Option ℕ
unfolding page_start
selected_global_index app = elim app.table_state [
  | none ↦ none
  | some i ↦ some (page_start app + i)
]

-- `.header("admin-key", ..).send()` of a request to the server.
unfoldable pub send : App → Method → Text → Bytes → App
send app method path body = record app {
  sent =
      app.sent
      ++ record { method = method; url = app.base ++ path; admin_key = app.admin_key; body = body }
        ∷ [];
}

unfoldable pub say : App → Text → App
say app text = record app { message = text }
