-- ===== src/Examples.antt =====
-- A small server to try the theorems on: one user with one approved device, one group and one password.
pub mod Access
pub mod Histories
pub mod Terminal
pub mod Pairing
pub mod Archives
pub mod Vaults
pub mod Commands
pub mod Routing
use password_manager_server.Prelude.{
  ℕ, ◌+◌, ◌*◌, ◌-◌, ◌≡◌, refl, sym, none, some, Option, Bool, true, false, List, [], ◌∷◌, ◌++◌,
  Text, Bytes, codes, ℤ, pos, ◌==◌, if◌then◌else◌, find, length,
}
use password_manager_server.Error.{AppError, refused, ok, err}
use password_manager_server.Crates.{Crates, CratesLaws, HeaderMap, IpAddr, v4, v6}
use password_manager_server.Config.{Config}
use password_manager_server.Schema.{Db, User, Identity, Group, Password}
use password_manager_server.Prog.{World, run}
use password_manager_server.Server.{Request, greet, verify, pwd_get, pwd_update, handle}
use password_manager_server.Routes.Passwords.{PasswordDetail, UpdatePasswordRequest}

abbrev pub zeros_12 : Bytes
zeros_12 = 0 ∷ 0 ∷ 0 ∷ 0 ∷ 0 ∷ 0 ∷ 0 ∷ 0 ∷ 0 ∷ 0 ∷ 0 ∷ 0 ∷ []

abbrev pub zeros_32 : Bytes
zeros_32 = zeros_12 ++ zeros_12 ++ 0 ∷ 0 ∷ 0 ∷ 0 ∷ 0 ∷ 0 ∷ 0 ∷ 0 ∷ []

-- Ciphers that cipher nothing, but meet what is asked of ciphers.
abbrev pub crates : Crates
crates = record {
  hex_encode = λ b. b;
  hex_decode = λ t. some t;
  sha256 = λ b. b;
  x25519 = λ scalar point. zeros_32;
  aes_encrypt = λ key nonce m. some m;
  aes_decrypt = λ key nonce m. some m;
  random_32 = λ n. zeros_32;
  nonce = λ n. n ∷ 0 ∷ 0 ∷ 0 ∷ 0 ∷ 0 ∷ 0 ∷ 0 ∷ 0 ∷ 0 ∷ 0 ∷ 0 ∷ [];
  new_v4 = λ n. n ∷ [];
  format_time = λ n. n ∷ [];
  ip_to_string = λ ip. codes "10.0.0.2";
  to_str = λ b. some b;
}

pub crates-CratesLaws : CratesLaws crates
crates-CratesLaws = record {
  hex_round_trip = λ b. refl;
  aes_round_trip = λ key nonce m ct e. sym e;
  nonce_length = λ n. refl;
  x25519_length = λ s p. refl;
}

abbrev pub config : Config
config = record {
  database_encrypt_secret = zeros_32;
  software_secret = 7 ∷ [];
  database_url = codes "db.sqlite";
  bind_addr = codes "0.0.0.0:3000";
  db_pool_size = 4;
  cors_origin = none;
  admin_allowed_subnet = codes "10.0.0.0/8";
}

abbrev pub user_row : User
user_row = record {
  uuid = codes "u";
  name = codes "ann";
  ehlo_secret = codes "s";
  is_deleted = false;
  extra = [];
  created_at = 1;
  updated_at = 1;
}

abbrev pub device : Identity
device = record {
  uuid = codes "d";
  user_id = some (codes "u");
  ip_address = codes "10.0.0.2";
  device_token = some (codes "t");
  server_private_key = zeros_12 ++ zeros_32;
  server_public_key = zeros_32;
  client_public_key = zeros_32;
  extra = [];
  is_confirmed = true;
  created_at = 1;
  updated_at = 1;
}

abbrev pub group_row : Group
group_row = record {
  uuid = codes "g";
  user_id = codes "u";
  name = codes "mail";
  extra = [];
  created_at = 1;
  updated_at = 1;
}

abbrev pub password_row : Password
password_row = record {
  uuid = codes "p";
  group_id = codes "g";
  pwd = zeros_12 ++ codes "secret";
  name = codes "home";
  extra = [];
  valid_since_days = pos 30;
  created_at = 1;
  updated_at = 1;
  valid_since = 1;
}

abbrev pub tables : Db
tables = record {
  users = user_row ∷ [];
  identities = device ∷ [];
  groups = group_row ∷ [];
  passwords = password_row ∷ [];
}

abbrev pub world : World
world = record { db = tables; now = 5; draws = 0; pool_open = true; fault = none }

-- The headers of the device, of an administrator and of anybody.
abbrev pub device_headers : HeaderMap
device_headers name = if name == codes "device-token" then some (codes "t") else none

abbrev pub admin_headers : HeaderMap
admin_headers name = if name == codes "admin-key" then some (7 ∷ []) else none

abbrev pub no_headers : HeaderMap
no_headers name = none

abbrev pub home : Text
home = codes "10.0.0.2"

abbrev pub peer : IpAddr
peer = v4 167772162

abbrev pub shown : PasswordDetail
shown = record {
  uuid = codes "p";
  pwd = zeros_12 ++ codes "secret";
  name = codes "home";
  extra = [];
  expires = pos 30;
  created_at = 1 ∷ [];
  updated_at = 1 ∷ [];
  valid_since_days = pos 30;
  group = record { name = codes "mail"; extra = [] };
}

abbrev pub change : UpdatePasswordRequest
change = record {
  pwd = zeros_12 ++ codes "new";
  group_id = codes "g";
  extra = none;
  name = some (codes "work");
}
