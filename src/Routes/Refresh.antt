-- ===== src/Routes/Refresh.antt =====
-- src/routes/refresh.rs
use password_manager_server.Prelude.{none, some, not, [], Text, ◌==◌, Option}
use password_manager_server.Error.{refused, crypto, validation}
use password_manager_server.Crates.{Crates}
use password_manager_server.Config.{Config}
use password_manager_server.Prog.{Prog, ◌>>=◌, ◌>>◌, pure, lift, ok_or, guard, attempt, conn, draw}
use password_manager_server.Crypto.{
  hash_token, derive_shared_key, decrypt_with_shared_key, decrypt_db,
}
use password_manager_server.Utf8.{from_utf8}
use password_manager_server.Domain.Identity
use password_manager_server.Domain.User

pub record RefreshRequest : Type 0 where
  pub token : Text
  pub ehlo : Text

pub record RefreshResponse : Type 0 where
  pub token : Text

-- `unwrap_or("")`
abbrev pub or_empty : Option Text → Text
or_empty none = []
or_empty (some t) = t

module _ (c : Crates) (cfg : Config) where
  unfoldable pub refresh_handler : Text → RefreshRequest → Prog RefreshResponse
  unfolding hash_token derive_shared_key decrypt_with_shared_key from_utf8
  refresh_handler ip req = do
    conn
    found ← attempt (Identity.find_by_ip ip)
    identity ← ok_or found refused
    server_private ← lift (decrypt_db c identity.server_private_key cfg.database_encrypt_secret)
    shared_key ← lift (derive_shared_key c server_private identity.client_public_key)
    token_bytes ← ok_or (c.hex_decode req.token) (validation "invalid token hex")
    ehlo_bytes ← ok_or (c.hex_decode req.ehlo) (validation "invalid ehlo hex")
    decrypted_token ← lift (decrypt_with_shared_key c token_bytes shared_key)
    decrypted_ehlo ← lift (decrypt_with_shared_key c ehlo_bytes shared_key)
    device_token ← ok_or (from_utf8 decrypted_token) (validation "token must be valid utf8")
    guard (hash_token c device_token == or_empty identity.device_token) refused
    user_id ← ok_or identity.user_id refused
    owner ← attempt (User.find_by_uuid user_id)
    user ← ok_or owner refused
    guard (not user.is_deleted) refused
    stored_ehlo_bytes ← ok_or (c.hex_decode user.ehlo_secret) (crypto "invalid ehlo storage format")
    stored_ehlo ← lift (decrypt_db c stored_ehlo_bytes cfg.database_encrypt_secret)
    guard (decrypted_ehlo == stored_ehlo) refused
    n ← draw
    updated ← attempt (
        Identity.update identity.uuid (record {
          user_id = none;
          ip_address = none;
          device_token = some (hash_token c (c.new_v4 n));
          client_public_key = none;
          extra = none;
          is_confirmed = none;
        }))
    pure (record { token = c.new_v4 n })
