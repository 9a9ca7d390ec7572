-- ===== src/Effects/Retention.antt =====
-- Nothing that a user owns is lost, and windows of validity stay in range.
use password_manager_server.Prelude.{◌≡◌, some, Option, Text, ◌==◌, find}
use password_manager_server.Crates.{Crates}
use password_manager_server.Config.{Config}
use password_manager_server.Schema.{Db, User, Group, Password}
use password_manager_server.Domain.User
use password_manager_server.Domain.Identity
use password_manager_server.Domain.Group
use password_manager_server.Domain.Password
use password_manager_server.Server.System.{System}
use password_manager_server.Effects.Change.{Change}

abbrev pub user_of : Text → Db → Option User
user_of id db = find (λ u. u.uuid == id) db.users

abbrev pub group_of : Text → Db → Option Group
group_of id db = find (λ g. g.uuid == id) db.groups

abbrev pub password_of : Text → Db → Option Password
password_of id db = find (λ p. p.uuid == id) db.passwords

abbrev pub SameUser : User → User → Type 0
SameUser u v = (v.name ≡ u.name) × (v.ehlo_secret ≡ u.ehlo_secret) × (v.created_at ≡ u.created_at)

abbrev pub SamePassword : Password → Password → Type 0
SamePassword p q = (q.valid_since_days ≡ p.valid_since_days) × (q.created_at ≡ p.created_at)

-- Users keep their name and secret, groups all columns, passwords their time of creation and number of days.
pub record Retains (a b : Db) : Type 0 where
  pub users :
      (id : Text) (u : User)
      → user_of id a ≡ some u
      → (v : User) × (user_of id b ≡ some v) × SameUser u v
  pub groups : (id : Text) (g : Group) → group_of id a ≡ some g → group_of id b ≡ some g
  pub passwords :
      (id : Text) (p : Password)
      → password_of id a ≡ some p
      → (q : Password) × (password_of id b ≡ some q) × SamePassword p q
