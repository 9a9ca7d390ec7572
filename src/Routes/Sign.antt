-- ===== src/Routes/Sign.antt =====
-- src/routes/signin.rs
use password_manager_server.Prelude.{ℕ, none, some, false, not, [], ◌∷◌, Bytes, Text, codes, ◌==◌}
use password_manager_server.Error.{
  AppResult, err, refused, conflict, crypto, validation, validate_length,
}
use password_manager_server.Crates.{Crates}
use password_manager_server.Config.{Config}
use password_manager_server.Schema.{Identity}
use password_manager_server.Prog.{
  Prog, ◌>>=◌, ◌>>◌, pure, lift, ok_or, guard, attempt, conn, draw, transaction,
}
use password_manager_server.Crypto.{
  hash_token, derive_shared_key, decrypt_with_shared_key, encrypt_db, decrypt_db,
}
use password_manager_server.Utf8.{from_utf8}
use password_manager_server.Domain.Identity
use password_manager_server.Domain.User
use password_manager_server.Routes.Greet.{is_none}

abbrev pub max_name_len : ℕ
max_name_len = 64

pub record SignRequest : Type 0 where
  pub name : Text
  pub ehlo : Text

pub record SignResponse : Type 0 where
  pub token : Text

unfoldable pub validate_name : Text → AppResult (Unit {0})
unfolding validate_length
validate_name [] = err (validation "name must not be empty")
validate_name (b ∷ bs) = validate_length "name" (b ∷ bs) max_name_len

module _ (c : Crates) where
  -- The device belongs to the user from here on, and waits for an administrator.
  unfoldable pub link_device : Text → Text → Prog Text
  unfolding hash_token
  link_device identity_uuid user_id = do
    n ← draw
    updated ← attempt (
        Identity.update identity_uuid (record {
          user_id = some user_id;
          ip_address = none;
          device_token = some (hash_token c (c.new_v4 n));
          client_public_key = none;
          extra = none;
          is_confirmed = some false;
        }))
    pure (c.new_v4 n)

  -- The body of the transaction of `sign_up_handler`.
  unfoldable pub register : Text → Text → Text → Prog Text
  unfolding link_device
  register identity_uuid name ehlo_secret = do
    taken ← attempt (User.find_by_name name)
    guard (is_none taken) (conflict "name already taken")
    n ← draw
    user ← attempt (
        User.create (record {
          uuid = c.new_v4 n;
          name = name;
          ehlo_secret = ehlo_secret;
          is_deleted = false;
          extra = codes "{}";
        }))
    link_device identity_uuid user.uuid

module _ (c : Crates) (cfg : Config) where
  unfoldable pub decode_request : Text → SignRequest → Prog (Identity × Text × Bytes)
  unfolding derive_shared_key decrypt_with_shared_key from_utf8
  decode_request ip req = do
    found ← attempt (Identity.find_by_ip ip)
    identity ← ok_or found refused
    server_private ← lift (decrypt_db c identity.server_private_key cfg.database_encrypt_secret)
    shared_key ← lift (derive_shared_key c server_private identity.client_public_key)
    name_bytes ← ok_or (c.hex_decode req.name) (validation "invalid name hex")
    ehlo_bytes ← ok_or (c.hex_decode req.ehlo) (validation "invalid ehlo hex")
    decrypted_name ← lift (decrypt_with_shared_key c name_bytes shared_key)
    decrypted_ehlo ← lift (decrypt_with_shared_key c ehlo_bytes shared_key)
    name ← ok_or (from_utf8 decrypted_name) (validation "name must be valid utf8")
    pure (identity, name, decrypted_ehlo)

  unfoldable pub sign_up_handler : Text → SignRequest → Prog SignResponse
  unfolding decode_request validate_name register
  sign_up_handler ip req = do
    conn
    (identity, name, ehlo_bytes) ← decode_request ip req
    lift (validate_name name)
    sealed ← encrypt_db c ehlo_bytes cfg.database_encrypt_secret
    token ← transaction (register c identity.uuid name (c.hex_encode sealed))
    pure (record { token = token })

  unfoldable pub sign_in_handler : Text → SignRequest → Prog SignResponse
  unfolding decode_request link_device
  sign_in_handler ip req = do
    conn
    (identity, name, ehlo_bytes) ← decode_request ip req
    found ← attempt (User.find_by_name name)
    user ← ok_or found refused
    guard (not user.is_deleted) refused
    stored_ehlo_bytes ← ok_or (c.hex_decode user.ehlo_secret) (crypto "invalid ehlo storage format")
    stored_ehlo ← lift (decrypt_db c stored_ehlo_bytes cfg.database_encrypt_secret)
    guard (ehlo_bytes == stored_ehlo) refused
    token ← link_device c identity.uuid user.uuid
    pure (record { token = token })
