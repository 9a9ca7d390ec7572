-- ===== src/Effects/Queries.antt =====
-- The change that each query of src/domain/ makes.
use password_manager_server.Prelude.{◌≡◌, refl, inl, inr, none, some, Bool, true, false, Text, List}
use password_manager_server.Schema.{
  NewUser, UpdateUser, NewIdentity, UpdateIdentity, NewGroup, NewPassword, UpdatePassword,
}
use password_manager_server.Domain.User
use password_manager_server.Domain.Identity
use password_manager_server.Domain.Group
use password_manager_server.Domain.Password
use password_manager_server.Effects.Change.{
  DaysInRange, IsCautious, user_added, user_set, identity_added, identity_set, identity_removed,
  group_added, password_added, password_set,
}
use password_manager_server.Effects.Steps.{
  Relation, IsPreorder, Follows, Steps, Change-IsPreorder, Follows-query, Follows-bind,
  Follows-utc_now,
}

module _ {R : Relation} (p : IsPreorder R) where
  pub user_by_uuid : (uuid : Text) → Follows R (User.find_by_uuid uuid)
  unfolding User.find_by_uuid
  user_by_uuid uuid = Follows-query p _ (λ now db. p.keep refl)

  pub user_by_name : (name : Text) → Follows R (User.find_by_name name)
  unfolding User.find_by_name
  user_by_name name = Follows-query p _ (λ now db. p.keep refl)

  pub all_users : Follows R User.find_all
  unfolding User.find_all
  all_users = Follows-query p _ (λ now db. p.keep refl)

  pub identity_by_ip : (ip : Text) → Follows R (Identity.find_by_ip ip)
  unfolding Identity.find_by_ip
  identity_by_ip ip = Follows-query p _ (λ now db. p.keep refl)

  pub identity_by_token : (token : Text) → Follows R (Identity.find_by_device_token token)
  unfolding Identity.find_by_device_token
  identity_by_token token = Follows-query p _ (λ now db. p.keep refl)

  pub identity_by_uuid : (uuid : Text) → Follows R (Identity.find_by_uuid uuid)
  unfolding Identity.find_by_uuid
  identity_by_uuid uuid = Follows-query p _ (λ now db. p.keep refl)

  pub all_identities : Follows R Identity.find_all
  unfolding Identity.find_all
  all_identities = Follows-query p _ (λ now db. p.keep refl)

  pub pending_identities : Follows R Identity.find_pending
  unfolding Identity.find_pending
  pending_identities = Follows-query p _ (λ now db. p.keep refl)

  pub group_by_uuid : (uuid : Text) → Follows R (Group.find_by_uuid uuid)
  unfolding Group.find_by_uuid
  group_by_uuid uuid = Follows-query p _ (λ now db. p.keep refl)

  pub groups_by_user : (user_id : Text) → Follows R (Group.find_by_user user_id)
  unfolding Group.find_by_user
  groups_by_user user_id = Follows-query p _ (λ now db. p.keep refl)

  pub password_by_uuid : (uuid : Text) → Follows R (Password.find_by_uuid uuid)
  unfolding Password.find_by_uuid
  password_by_uuid uuid = Follows-query p _ (λ now db. p.keep refl)

  pub passwords_by_groups : (ids : List Text) → Follows R (Password.find_by_groups ids)
  unfolding Password.find_by_groups
  passwords_by_groups ids = Follows-query p _ (λ now db. p.keep refl)

module _ {admin : Bool} where
  pub user_create : (new : NewUser) → new.is_deleted ≡ false → Steps admin (User.create new)
  unfolding User.create
  user_create new h = Follows-query Change-IsPreorder _ (λ now db. user_added new now h refl)

  pub user_update :
      (uuid : Text) (changes : UpdateUser) → admin ≡ true → Steps admin (User.update uuid changes)
  unfolding User.update
  user_update uuid changes h = Follows-bind _ _ (Follows-utc_now Change-IsPreorder) (λ stamp.
      Follows-query Change-IsPreorder _ (λ now db. user_set uuid changes stamp now h refl))

  pub identity_create :
      (new : NewIdentity) → new.is_confirmed ≡ false → Steps admin (Identity.create new)
  unfolding Identity.create
  identity_create new h =
      Follows-query Change-IsPreorder _ (λ now db. identity_added new now h refl)

  pub identity_update :
      (uuid : Text) (changes : UpdateIdentity)
      → IsCautious admin changes
      → Steps admin (Identity.update uuid changes)
  unfolding Identity.update
  identity_update uuid changes h = Follows-bind _ _ (Follows-utc_now Change-IsPreorder) (λ stamp.
      Follows-query Change-IsPreorder _ (λ now db. identity_set uuid changes stamp now h refl))

  pub identity_delete : (uuid : Text) → admin ≡ true → Steps admin (Identity.delete uuid)
  unfolding Identity.delete
  identity_delete uuid h =
      Follows-query Change-IsPreorder _ (λ now db. identity_removed uuid h refl)

  pub group_create : (new : NewGroup) → Steps admin (Group.create new)
  unfolding Group.create
  group_create new = Follows-query Change-IsPreorder _ (λ now db. group_added new now refl)

  pub password_create :
      (new : NewPassword) → DaysInRange new.valid_since_days → Steps admin (Password.create new)
  unfolding Password.create
  password_create new h =
      Follows-query Change-IsPreorder _ (λ now db. password_added new now h refl)

  pub password_update :
      (uuid : Text) (changes : UpdatePassword)
      → changes.valid_since_days ≡ none
      → Steps admin (Password.update uuid changes)
  unfolding Password.update
  password_update uuid changes h = Follows-bind _ _ (Follows-utc_now Change-IsPreorder) (λ stamp.
      Follows-query Change-IsPreorder _ (λ now db. password_set uuid changes stamp now h refl))

-- The three changesets of a device that the handlers use.
module _ {admin : Bool} (changes : UpdateIdentity) where
  pub unconfirming-IsCautious :
      changes.is_confirmed ≡ some false
      → changes.client_public_key ≡ none
      → IsCautious admin changes
  unconfirming-IsCautious p q = record { approves = λ e. cc; rebinds = inl p; same_key = q }

  pub rotating-IsCautious :
      changes.is_confirmed ≡ none
      → changes.user_id ≡ none
      → changes.ip_address ≡ none
      → changes.client_public_key ≡ none
      → IsCautious admin changes
  rotating-IsCautious p q r s = record { approves = λ e. cc; rebinds = inr (q, r); same_key = s }

pub approving-IsCautious :
    (changes : UpdateIdentity)
    → changes.user_id ≡ none
    → changes.ip_address ≡ none
    → changes.client_public_key ≡ none
    → IsCautious true changes
approving-IsCautious changes q r s = record {
  approves = λ e. refl;
  rebinds = inr (q, r);
  same_key = s;
}

pub ruleset query_rules = (
  user_by_uuid, user_by_name, all_users, identity_by_ip, identity_by_token, identity_by_uuid,
  all_identities, pending_identities, group_by_uuid, groups_by_user, password_by_uuid,
  passwords_by_groups, user_create, user_update, identity_create, identity_update, identity_delete,
  group_create, password_create, password_update, unconfirming-IsCautious, rotating-IsCautious,
  approving-IsCautious,
)
