-- ===== src/Routes/Greet.antt =====
-- src/routes/greet.rs
pub mod Once
use password_manager_server.Prelude.{
  none, some, false, Text, codes, nat_eq, length, Option, Bool, true,
}
use password_manager_server.Error.{
  ok, err, unique_violation, database, validation, precondition_failed,
}
use password_manager_server.Crates.{Crates}
use password_manager_server.Config.{Config}
use password_manager_server.Schema.{Identity}
use password_manager_server.Prog.{
  Prog, ◌>>=◌, ◌>>◌, QueryResult, pure, raise, ok_or, guard, attempt, conn, draw,
}
use password_manager_server.Crypto.{generate_identity_keys, encrypt_db}
use password_manager_server.Domain.Identity

pub record GreetResponse : Type 0 where
  pub server_public_key : Text

abbrev pub is_none : {A : Type 0} → Option A → Bool
is_none none = true
is_none (some a) = false

-- A unique violation is the race with another greeting from the same address.
abbrev pub created : QueryResult Identity → Prog Identity
created (ok identity) = pure identity
created (err unique_violation) = raise (precondition_failed "precondition failed")
created (err e) = raise (database e)

module _ (c : Crates) (cfg : Config) (ip : Text) where
  unfoldable pub greet_handler : Text → Prog GreetResponse
  greet_handler pub_key = do
    conn
    client_key_bytes ← ok_or (c.hex_decode pub_key) (validation "invalid pub_key hex encoding")
    guard (nat_eq (length client_key_bytes) 32)
        (validation "pub_key must be exactly 32 bytes (64 hex chars)")
    found ← attempt (Identity.find_by_ip ip)
    guard (is_none found) (precondition_failed "precondition failed")
    keys ← generate_identity_keys c
    n ← draw
    server_private_key ← encrypt_db c keys.server_private_key cfg.database_encrypt_secret
    result ← Identity.create (record {
      uuid = c.new_v4 n;
      user_id = none;
      ip_address = ip;
      device_token = none;
      server_private_key = server_private_key;
      server_public_key = keys.server_public_key;
      client_public_key = client_key_bytes;
      extra = codes "{}";
      is_confirmed = false;
    })
    identity ← created result
    pure (record { server_public_key = c.hex_encode keys.server_public_key })
