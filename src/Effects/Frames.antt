-- ===== src/Effects/Frames.antt =====
-- A query writes one table and leaves the others as they are.
use password_manager_server.Prelude.{ℕ, ◌≡◌, Text, arith}
use password_manager_server.Schema.{
  Db, NewUser, UpdateUser, NewIdentity, UpdateIdentity, NewGroup, NewPassword, UpdatePassword,
}
use password_manager_server.Domain.User
use password_manager_server.Domain.Identity
use password_manager_server.Domain.Group
use password_manager_server.Domain.Password

-- `b` has the tables of `a`, but for the one that is named.
pub record OnlyUsers (a b : Db) : Type 0 where
  pub identities : b.identities ≡ a.identities
  pub groups : b.groups ≡ a.groups
  pub passwords : b.passwords ≡ a.passwords

pub record OnlyIdentities (a b : Db) : Type 0 where
  pub users : b.users ≡ a.users
  pub groups : b.groups ≡ a.groups
  pub passwords : b.passwords ≡ a.passwords

pub record OnlyGroups (a b : Db) : Type 0 where
  pub users : b.users ≡ a.users
  pub identities : b.identities ≡ a.identities
  pub passwords : b.passwords ≡ a.passwords

pub record OnlyPasswords (a b : Db) : Type 0 where
  pub users : b.users ≡ a.users
  pub identities : b.identities ≡ a.identities
  pub groups : b.groups ≡ a.groups

module _ (now : ℕ) (db : Db) where
  pub user_insert-frame : (new : NewUser) → OnlyUsers db (User.insert new now db).1
  unfolding User.insert
  user_insert-frame new = ground arith

  pub user_set-frame :
      (uuid : Text) (changes : UpdateUser) (stamp : ℕ)
      → OnlyUsers db (User.set_row uuid changes stamp now db).1
  unfolding User.set_row
  user_set-frame uuid changes stamp = ground arith

  pub identity_insert-frame : (new : NewIdentity) → OnlyIdentities db (Identity.insert new now db).1
  unfolding Identity.insert
  identity_insert-frame new = ground arith

  pub identity_set-frame :
      (uuid : Text) (changes : UpdateIdentity) (stamp : ℕ)
      → OnlyIdentities db (Identity.set_row uuid changes stamp now db).1
  unfolding Identity.set_row
  identity_set-frame uuid changes stamp = ground arith

  pub group_insert-frame : (new : NewGroup) → OnlyGroups db (Group.insert new now db).1
  unfolding Group.insert
  group_insert-frame new = ground arith

  pub password_insert-frame : (new : NewPassword) → OnlyPasswords db (Password.insert new now db).1
  unfolding Password.insert
  password_insert-frame new = ground arith

  pub password_set-frame :
      (uuid : Text) (changes : UpdatePassword) (stamp : ℕ)
      → OnlyPasswords db (Password.set_row uuid changes stamp now db).1
  unfolding Password.set_row
  password_set-frame uuid changes stamp = ground arith
