-- ===== src/Routes/Passwords.antt =====
-- src/routes/passwords.rs
mod Messages
pub use Messages.*
pub mod Isolation
pub mod Window
pub mod Pages
pub mod RoundTrip
use password_manager_server.Prelude.{
  ℕ, zero, suc, ◌*◌, ◌-◌, ◌/◌, Option, none, some, Bool, true, false, not, List, [], ◌∷◌, map, Text,
  Bytes, ◌==◌, ltb, if◌then◌else◌, ℤ, pos, pos_part, ◌-ℤ◌, leb_ℤ, max_ℤ, clamp,
}
use password_manager_server.Error.{AppResult, ok, refused, validation, validate_length}
use password_manager_server.Crates.{Crates, HeaderMap}
use password_manager_server.Config.{Config}
use password_manager_server.Schema.{Identity, Group, Password}
use password_manager_server.Prog.{
  Prog, ◌>>=◌, ◌>>◌, pure, lift, ok_or, guard, attempt, conn, draw, utc_now, branch,
}
use password_manager_server.Crypto.{
  derive_shared_key, decrypt_with_shared_key, encrypt_with_shared_key, encrypt_db, decrypt_db,
}
use password_manager_server.Domain.Group
use password_manager_server.Domain.Password
use password_manager_server.Routes.Auth.{validate_auth}
use password_manager_server.Routes.Groups.{extra_or_default}

-- `unwrap_or`
abbrev pub unwrap_or {ℓ} : {A : Type ℓ} → Option A → A → A
unwrap_or none a = a
unwrap_or (some b) a = b

-- `num_days` of a duration counts whole days.
abbrev pub day : ℕ
day = 86400 * 1000000000

-- `now` is the clock that the source reads inside.
unfoldable pub days_remaining : (now : ℕ) → (valid_since : ℕ) → (valid_since_days : ℤ) → ℤ
days_remaining now valid_since valid_since_days =
    if ltb now valid_since
    then valid_since_days
    else max_ℤ (valid_since_days -ℤ pos ((now - valid_since) / day)) (pos 0)

unfoldable pub is_expired : (now : ℕ) → (valid_since : ℕ) → (valid_since_days : ℤ) → Bool
unfolding days_remaining
is_expired now valid_since valid_since_days =
    leb_ℤ (days_remaining now valid_since valid_since_days) (pos 0)

-- The optional extra is checked only if it is given.
abbrev pub validate_extra : Option Text → AppResult (Unit {0})
validate_extra none = ok tt
validate_extra (some extra) = validate_length "password extra" extra 4096

abbrev pub same_bool : Bool → Bool → Bool
same_bool true b = b
same_bool false b = not b

-- `map(|d| d.clamp(1, 365)).unwrap_or(30)`
unfoldable pub days_of_request : Option ℤ → ℤ
days_of_request none = pos 30
days_of_request (some d) = clamp d (pos 1) (pos 365)

-- `params.size.unwrap_or(50).clamp(1, 200)` and `params.take.unwrap_or(0).max(0)`, as `usize`
unfoldable pub page_size : ListParams → ℕ
page_size params = pos_part (clamp (unwrap_or params.size (pos 50)) (pos 1) (pos 200))

unfoldable pub page_skip : ListParams → ℕ
page_skip params = pos_part (max_ℤ (unwrap_or params.take (pos 0)) (pos 0))

module _ (c : Crates) (cfg : Config) where
  unfoldable pub encrypt_for_client : Text → Identity → Prog Text
  unfolding derive_shared_key decrypt_with_shared_key encrypt_with_shared_key
  encrypt_for_client hex_text identity = do
    stored ← ok_or (c.hex_decode hex_text) (validation "invalid hex")
    db_decrypted ← lift (decrypt_db c stored cfg.database_encrypt_secret)
    server_private ← lift (decrypt_db c identity.server_private_key cfg.database_encrypt_secret)
    shared_key ← lift (derive_shared_key c server_private identity.client_public_key)
    client_encrypted ← encrypt_with_shared_key c db_decrypted shared_key
    pure (c.hex_encode client_encrypted)

  unfoldable pub decrypt_from_client : Text → Identity → Prog Bytes
  unfolding derive_shared_key decrypt_with_shared_key
  decrypt_from_client hex_text identity = do
    encrypted ← ok_or (c.hex_decode hex_text) (validation "invalid hex")
    server_private ← lift (decrypt_db c identity.server_private_key cfg.database_encrypt_secret)
    shared_key ← lift (derive_shared_key c server_private identity.client_public_key)
    lift (decrypt_with_shared_key c encrypted shared_key)

  -- The closure of `map` in `list_handler`.
  unfoldable pub entry_of : Bool → Identity → Password → Prog PasswordEntry
  unfolding encrypt_for_client days_remaining
  entry_of expired identity p = do
    pwd_hex ← encrypt_for_client p.pwd identity
    expires ← elim expired [
      | true ↦ pure (pos 0)
      | false ↦ utc_now >>= λ now. pure (days_remaining now p.valid_since p.valid_since_days)
    ]
    pure (record {
      uuid = p.uuid;
      pwd = pwd_hex;
      expires = expires;
      created_at = c.format_time p.created_at;
      updated_at = c.format_time p.updated_at;
      valid_since_days = p.valid_since_days;
    })

  -- `filter … skip … take … map … collect`, which go through the rows together: a row is looked at
  -- when its turn comes, and no row any more once the page is full or an entry has failed.
  unfoldable pub entries_from :
      Bool → Identity → (skip size : ℕ) → List Password → Prog (List PasswordEntry)
  unfolding entry_of is_expired
  entries_from expired identity skip zero ps = pure []
  entries_from expired identity skip (suc size) [] = pure []
  entries_from expired identity zero (suc size) (p ∷ ps) =
      let shown = (do
        entry ← entry_of expired identity p
        rest ← entries_from expired identity zero size ps
        pure (entry ∷ rest)) in
      let other = entries_from expired identity zero (suc size) ps in
      utc_now >>= λ now.
      branch (same_bool (is_expired now p.valid_since p.valid_since_days) expired) shown other
  entries_from expired identity (suc skip) (suc size) (p ∷ ps) =
      let skipped = entries_from expired identity skip (suc size) ps in
      let other = entries_from expired identity (suc skip) (suc size) ps in
      utc_now >>= λ now.
      branch (same_bool (is_expired now p.valid_since p.valid_since_days) expired) skipped other

  -- `list_handler` for a device that is let in.
  unfoldable pub list_for : Identity → ListParams → Prog (List PasswordEntry)
  unfolding entries_from page_size page_skip
  list_for identity params = do
    user_id ← ok_or identity.user_id refused
    conn
    groups ← attempt (Group.find_by_user user_id)
    passwords ← attempt (Password.find_by_groups (map (λ (g : Group). g.uuid) groups))
    entries_from (unwrap_or params.expired false) identity (page_skip params) (page_size params)
        passwords

  -- `create_handler` for a device that is let in.
  unfoldable pub create_for : Identity → CreatePasswordRequest → Prog PasswordEntry
  unfolding encrypt_for_client decrypt_from_client days_of_request days_remaining
  create_for identity req = do
    user_id ← ok_or identity.user_id refused
    conn
    decrypted_pwd ← decrypt_from_client req.pwd identity
    db_encrypted ← encrypt_db c decrypted_pwd cfg.database_encrypt_secret
    found ← attempt (Group.find_by_uuid req.group_id)
    group ← ok_or found refused
    guard (group.user_id == user_id) refused
    n ← draw
    valid_since ← utc_now
    password ← attempt (
        Password.create (record {
          uuid = c.new_v4 n;
          group_id = req.group_id;
          pwd = c.hex_encode db_encrypted;
          name = unwrap_or req.name [];
          extra = extra_or_default req.extra;
          valid_since_days = days_of_request req.valid_since_days;
          valid_since = valid_since;
        }))
    pwd_for_client ← encrypt_for_client password.pwd identity
    now ← utc_now
    pure (record {
      uuid = password.uuid;
      pwd = pwd_for_client;
      expires = days_remaining now password.valid_since password.valid_since_days;
      created_at = c.format_time password.created_at;
      updated_at = c.format_time password.updated_at;
      valid_since_days = password.valid_since_days;
    })

  -- `update_handler` for a device that is let in.
  unfoldable pub update_for : Identity → Text → UpdatePasswordRequest → Prog (Unit {0})
  unfolding decrypt_from_client
  update_for identity uuid req = do
    user_id ← ok_or identity.user_id refused
    conn
    found ← attempt (Password.find_by_uuid uuid)
    existing ← ok_or found refused
    found_group ← attempt (Group.find_by_uuid existing.group_id)
    group ← ok_or found_group refused
    guard (group.user_id == user_id) refused
    found_target ← attempt (Group.find_by_uuid req.group_id)
    target_group ← ok_or found_target refused
    guard (target_group.user_id == user_id) refused
    decrypted_pwd ← decrypt_from_client req.pwd identity
    db_encrypted ← encrypt_db c decrypted_pwd cfg.database_encrypt_secret
    updated ← attempt (
        Password.update uuid (record {
          pwd = some (c.hex_encode db_encrypted);
          group_id = some req.group_id;
          name = req.name;
          extra = req.extra;
          valid_since_days = none;
        }))
    pure tt

  -- `get_handler` for a device that is let in.
  unfoldable pub get_for : Identity → Text → Prog PasswordDetail
  unfolding encrypt_for_client days_remaining
  get_for identity uuid = do
    user_id ← ok_or identity.user_id refused
    conn
    found ← attempt (Password.find_by_uuid uuid)
    password ← ok_or found refused
    found_group ← attempt (Group.find_by_uuid password.group_id)
    group ← ok_or found_group refused
    guard (group.user_id == user_id) refused
    pwd_for_client ← encrypt_for_client password.pwd identity
    now ← utc_now
    pure (record {
      uuid = password.uuid;
      pwd = pwd_for_client;
      name = password.name;
      extra = password.extra;
      expires = days_remaining now password.valid_since password.valid_since_days;
      created_at = c.format_time password.created_at;
      updated_at = c.format_time password.updated_at;
      valid_since_days = password.valid_since_days;
      group = record { name = group.name; extra = group.extra };
    })

  module _ (headers : HeaderMap) (ip : Text) where
    unfoldable pub list_handler : ListParams → Prog (List PasswordEntry)
    unfolding list_for
    list_handler params = do identity ← validate_auth c headers ip; list_for identity params

    unfoldable pub create_handler : CreatePasswordRequest → Prog PasswordEntry
    unfolding create_for validate_length
    create_handler req = do
      lift (validate_length "password name" (unwrap_or req.name []) 256)
      lift (validate_extra req.extra)
      identity ← validate_auth c headers ip
      create_for identity req

    unfoldable pub update_handler : Text → UpdatePasswordRequest → Prog (Unit {0})
    unfolding update_for validate_length
    update_handler uuid req = do
      lift (validate_length "password name" (unwrap_or req.name []) 256)
      lift (validate_extra req.extra)
      identity ← validate_auth c headers ip
      update_for identity uuid req

    unfoldable pub get_handler : Text → Prog PasswordDetail
    unfolding get_for
    get_handler uuid = do identity ← validate_auth c headers ip; get_for identity uuid
