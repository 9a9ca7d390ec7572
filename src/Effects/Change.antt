-- ===== src/Effects/Change.antt =====
-- The changes of the database that one action of a handler can make. `admin` says whether the
-- request has passed both gates of an administrator.
use password_manager_server.Prelude.{ℕ, ◌≡◌, ◌⊎◌, none, some, Bool, true, false, Text, ℤ, pos, ◌≤ℤ◌}
use password_manager_server.Schema.{
  Db, NewUser, UpdateUser, NewIdentity, UpdateIdentity, NewGroup, NewPassword, UpdatePassword,
}
use password_manager_server.Domain.User
use password_manager_server.Domain.Identity
use password_manager_server.Domain.Group
use password_manager_server.Domain.Password

-- The validity windows that the server hands out.
abbrev pub DaysInRange : ℤ → Type 0
DaysInRange d = (pos 1 ≤ℤ d) × (d ≤ℤ pos 365)

-- A changeset of a device: only an administrator confirms; a new user or a new address takes the
-- confirmation away; the key of the client stays.
pub record IsCautious (admin : Bool) (changes : UpdateIdentity) : Type 0 where
  pub approves : changes.is_confirmed ≡ some true → admin ≡ true
  pub rebinds :
      (changes.is_confirmed ≡ some false) ⊎ ((changes.user_id ≡ none) × (changes.ip_address ≡ none))
  pub same_key : changes.client_public_key ≡ none

pub data Change (admin : Bool) : Db → Db → Type 0 where
  kept : {a b : Db} → b ≡ a → Change admin a b
  user_added :
      {a b : Db} (new : NewUser) (now : ℕ)
      → new.is_deleted ≡ false
      → b ≡ (User.insert new now a).1
      → Change admin a b
  user_set :
      {a b : Db} (uuid : Text) (changes : UpdateUser) (stamp now : ℕ)
      → admin ≡ true
      → b ≡ (User.set_row uuid changes stamp now a).1
      → Change admin a b
  identity_added :
      {a b : Db} (new : NewIdentity) (now : ℕ)
      → new.is_confirmed ≡ false
      → b ≡ (Identity.insert new now a).1
      → Change admin a b
  identity_set :
      {a b : Db} (uuid : Text) (changes : UpdateIdentity) (stamp now : ℕ)
      → IsCautious admin changes
      → b ≡ (Identity.set_row uuid changes stamp now a).1
      → Change admin a b
  identity_removed :
      {a b : Db} (uuid : Text) → admin ≡ true → b ≡ Identity.remove_rows uuid a → Change admin a b
  group_added :
      {a b : Db} (new : NewGroup) (now : ℕ) → b ≡ (Group.insert new now a).1 → Change admin a b
  password_added :
      {a b : Db} (new : NewPassword) (now : ℕ)
      → DaysInRange new.valid_since_days
      → b ≡ (Password.insert new now a).1
      → Change admin a b
  password_set :
      {a b : Db} (uuid : Text) (changes : UpdatePassword) (stamp now : ℕ)
      → changes.valid_since_days ≡ none
      → b ≡ (Password.set_row uuid changes stamp now a).1
      → Change admin a b
  both : {a b : Db} (m : Db) → Change admin a m → Change admin m b → Change admin a b
