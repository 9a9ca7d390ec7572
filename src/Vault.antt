-- ===== src/Vault.antt =====
-- The vault that the tables of src/schema.rs stand for: each user's passwords by their identifiers.
-- Vault.Refines has what each request of src/routes/ does to it.
pub mod Spares
pub mod Requests
pub mod Puts
pub mod Writes
pub mod Creates
pub mod Peel
pub mod Delivery
pub mod Stable
pub mod Learns
pub mod Guards
pub mod Secure
pub mod Shows
pub mod Lists
pub mod Made
pub mod Answers
pub mod Interleaved
pub mod Refines
use password_manager_server.Prelude.{
  ◌≡◌, Option, none, some, Bool, ◌&&◌, Text, ◌==◌, is_value, find, if◌then◌else◌,
}
use password_manager_server.Schema.{Db, Group, Password}

-- Users, then identifiers.
abbrev pub VaultMap : Type 0
VaultMap = Text → Text → Option Password

abbrev user_of_group : Option Group → Option Text
user_of_group none = none
user_of_group (some g) = some g.user_id

-- The user whose group has the password.
unfoldable pub owner_of : Db → Text → Option Text
owner_of db id = user_of_group (find (λ (g : Group). g.uuid == id) db.groups)

unfoldable pub owned_by : Db → Text → Option Password → Option Password
unfolding owner_of
owned_by db user none = none
owned_by db user (some p) = if is_value (owner_of db p.group_id) user then some p else none

-- The vault that the tables stand for.
unfoldable pub vault : Db → VaultMap
unfolding owned_by
vault db user id = owned_by db user (find (λ (p : Password). p.uuid == id) db.passwords)

-- The abstract operation: one user's password is written, and nothing else.
abbrev pub put : Text → Text → Password → VaultMap → VaultMap
put user id row v user' id' = if user' == user && id' == id then some row else v user' id'

-- Two vaults hold the same.
abbrev pub SameVault : VaultMap → VaultMap → Type 0
SameVault v v' = (user id : Text) → v' user id ≡ v user id
