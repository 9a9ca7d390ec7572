-- ===== src/Routes/Admin.antt =====
-- src/routes/admin.rs, but for the export and the import.
use password_manager_server.Prelude.{
  ℕ, ◌+◌, Option, none, some, Bool, true, false, List, [], ◌∷◌, map, Text, codes, ◌==◌,
  if◌then◌else◌,
}
use password_manager_server.Error.{identity_not_found, not_found, validation}
use password_manager_server.Crates.{Crates, HeaderMap, IpAddr}
use password_manager_server.Config.{Config}
use password_manager_server.Schema.{User, Identity}
use password_manager_server.Prog.{Prog, ◌>>=◌, ◌>>◌, pure, lift, ok_or, attempt, conn}
use password_manager_server.Domain.Identity
use password_manager_server.Domain.User
use password_manager_server.Routes.Subnet.{check_admin_ip}
use password_manager_server.Routes.Auth.{check_admin_key}

pub record IdentityResponse : Type 0 where
  pub uuid : Text
  pub user_id : Option Text
  pub ip_address : Text
  pub device_token : Option Text
  pub is_confirmed : Bool
  pub created_at : Text
  pub updated_at : Text

pub record UserResponse : Type 0 where
  pub uuid : Text
  pub name : Text
  pub is_deleted : Bool
  pub identity_count : ℕ
  pub created_at : Text
  pub updated_at : Text

unfoldable pub set_confirm : Text → Bool → Prog (Unit {0})
set_confirm uuid confirmed = do
  conn
  found ← attempt (Identity.find_by_uuid uuid)
  identity ← ok_or found identity_not_found
  updated ← attempt (
      Identity.update uuid (record {
        user_id = none;
        ip_address = none;
        device_token = none;
        client_public_key = none;
        extra = none;
        is_confirmed = some confirmed;
      }))
  pure tt

-- `*counts.entry(uid).or_insert(0) += 1`
unfoldable pub bump : Text → List (Text × ℕ) → List (Text × ℕ)
bump uid [] = (uid, 1) ∷ []
bump uid ((key, n) ∷ counts) =
    if key == uid then (key, n + 1) ∷ counts else (key, n) ∷ bump uid counts

-- `*counts.get(uid).unwrap_or(&0)`
unfoldable pub count_of : Text → List (Text × ℕ) → ℕ
count_of uid [] = 0
count_of uid ((key, n) ∷ counts) = if key == uid then n else count_of uid counts

-- The loop over the identities.
unfoldable pub count_devices : List Identity → List (Text × ℕ) → List (Text × ℕ)
unfolding bump
count_devices [] counts = counts
count_devices (i ∷ is) counts =
    count_devices is (elim i.user_id [ none ↦ counts | some uid ↦ bump uid counts ])

abbrev pub delete_action : Text → Option Bool
delete_action action =
    if action == codes "delete"
    then some true
    else if action == codes "restore"
    then some false
    else none

abbrev pub confirm_action : Text → Option Bool
confirm_action action =
    if action == codes "confirm"
    then some true
    else if action == codes "unconfirm"
    then some false
    else none

module _ (c : Crates) (headers : HeaderMap) (cfg : Config) (addr : IpAddr) where
  unfoldable pub list_identities : Prog (List IdentityResponse)
  unfolding check_admin_key check_admin_ip
  list_identities = do
    lift (check_admin_key c cfg headers)
    lift (check_admin_ip addr cfg.admin_allowed_subnet)
    conn
    rows ← attempt Identity.find_all
    pure (
        map
          (λ (i : Identity). record {
            uuid = i.uuid;
            user_id = i.user_id;
            ip_address = i.ip_address;
            device_token = i.device_token;
            is_confirmed = i.is_confirmed;
            created_at = c.format_time i.created_at;
            updated_at = c.format_time i.updated_at;
          })
          rows)

  unfoldable pub delete_identity : Text → Prog (Unit {0})
  unfolding check_admin_key check_admin_ip
  delete_identity uuid = do
    lift (check_admin_key c cfg headers)
    lift (check_admin_ip addr cfg.admin_allowed_subnet)
    conn
    found ← attempt (Identity.find_by_uuid uuid)
    identity ← ok_or found identity_not_found
    attempt (Identity.delete uuid)
    pure tt

  unfoldable pub list_users : Prog (List UserResponse)
  unfolding check_admin_key check_admin_ip count_of count_devices
  list_users = do
    lift (check_admin_key c cfg headers)
    lift (check_admin_ip addr cfg.admin_allowed_subnet)
    conn
    users ← attempt User.find_all
    identities ← attempt Identity.find_all
    pure (
        map
          (λ (u : User). record {
            uuid = u.uuid;
            name = u.name;
            is_deleted = u.is_deleted;
            identity_count = count_of u.uuid (count_devices identities []);
            created_at = c.format_time u.created_at;
            updated_at = c.format_time u.updated_at;
          })
          users)

  unfoldable pub toggle_user : Text → Text → Prog (Unit {0})
  unfolding check_admin_key check_admin_ip
  toggle_user uuid action = do
    lift (check_admin_key c cfg headers)
    lift (check_admin_ip addr cfg.admin_allowed_subnet)
    is_deleted ← ok_or (delete_action action) (validation "action must be delete or restore")
    conn
    found ← attempt (User.find_by_uuid uuid)
    user ← ok_or found (not_found "user not found")
    updated ← attempt (User.update uuid (record { is_deleted = some is_deleted; extra = none }))
    pure tt

  unfoldable pub toggle_identity : Text → Text → Prog (Unit {0})
  unfolding check_admin_key check_admin_ip set_confirm
  toggle_identity uuid action = do
    lift (check_admin_key c cfg headers)
    lift (check_admin_ip addr cfg.admin_allowed_subnet)
    confirmed ← ok_or (confirm_action action) (validation "action must be confirm or unconfirm")
    set_confirm uuid confirmed
