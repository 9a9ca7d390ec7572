-- ===== src/Routes/Resign.antt =====
-- src/routes/resign.rs
use password_manager_server.Prelude.{none, some, false, not, Text, ◌==◌}
use password_manager_server.Error.{refused, crypto, validation}
use password_manager_server.Crates.{Crates}
use password_manager_server.Config.{Config}
use password_manager_server.Prog.{Prog, ◌>>=◌, ◌>>◌, pure, lift, ok_or, guard, attempt, conn}
use password_manager_server.Crypto.{
  hash_token, derive_shared_key, decrypt_with_shared_key, decrypt_db,
}
use password_manager_server.Utf8.{from_utf8}
use password_manager_server.Domain.Identity
use password_manager_server.Domain.User

pub record ResignRequest : Type 0 where
  pub token : Text
  pub ehlo : Text

module _ (c : Crates) (cfg : Config) where
  unfoldable pub resign_handler : Text → ResignRequest → Prog (Unit {0})
  unfolding hash_token derive_shared_key decrypt_with_shared_key from_utf8
  resign_handler ip req = do
    conn
    token_bytes ← ok_or (c.hex_decode req.token) (validation "invalid token hex")
    device_token ← ok_or (from_utf8 token_bytes) refused
    found ← attempt (Identity.find_by_device_token (hash_token c device_token))
    identity ← ok_or found refused
    server_private ← lift (decrypt_db c identity.server_private_key cfg.database_encrypt_secret)
    shared_key ← lift (derive_shared_key c server_private identity.client_public_key)
    ehlo_bytes ← ok_or (c.hex_decode req.ehlo) (validation "invalid ehlo hex")
    decrypted_ehlo ← lift (decrypt_with_shared_key c ehlo_bytes shared_key)
    user_id ← ok_or identity.user_id refused
    owner ← attempt (User.find_by_uuid user_id)
    user ← ok_or owner refused
    guard (not user.is_deleted) refused
    stored_ehlo_bytes ← ok_or (c.hex_decode user.ehlo_secret) (crypto "invalid ehlo storage format")
    stored_ehlo ← lift (decrypt_db c stored_ehlo_bytes cfg.database_encrypt_secret)
    guard (decrypted_ehlo == stored_ehlo) refused
    updated ← attempt (
        Identity.update identity.uuid (record {
          user_id = none;
          ip_address = some ip;
          device_token = none;
          client_public_key = none;
          extra = none;
          is_confirmed = some false;
        }))
    pure tt
