-- ===== src/Effects/Constraints/Keys.antt =====
-- Keys and references of rows: clashes go both ways, and more rows meet more references.
use password_manager_server.Prelude.{
  ℕ, ◌≡◌, refl, none, some, Option, Bool, true, List, ◌++◌, Text, ◌==◌, modify, arith, any-append,
  any-modify,
}
use password_manager_server.Schema.{User, Identity, Group, Password, UpdateUser}
use password_manager_server.Domain.Rows.{
  users_clash, identities_clash, groups_clash, passwords_clash, has_user, has_group, has_owner,
  same_value,
}
use password_manager_server.Domain.User

pub users_clash_comm : (a b : User) → users_clash a b ≡ users_clash b a
unfolding users_clash
users_clash_comm a b = ground arith

pub groups_clash_comm : (a b : Group) → groups_clash a b ≡ groups_clash b a
unfolding groups_clash
groups_clash_comm a b = ground arith

pub passwords_clash_comm : (a b : Password) → passwords_clash a b ≡ passwords_clash b a
unfolding passwords_clash
passwords_clash_comm a b = ground arith

pub same_value_comm : (a b : Option Text) → same_value a b ≡ same_value b a
same_value_comm none none = refl
same_value_comm none (some b) = refl
same_value_comm (some a) none = refl
same_value_comm (some a) (some b) = ground arith

pub identities_clash_comm : (a b : Identity) → identities_clash a b ≡ identities_clash b a
unfolding identities_clash
identities_clash_comm a b = ground (arith, same_value_comm a.device_token b.device_token)

-- More users meet more references, more groups too.
pub has_owner-append :
    (users more : List User) (o : Option Text)
    → has_owner users o ≡ true
    → has_owner (users ++ more) o ≡ true
unfolding has_owner has_user
has_owner-append users more none h = refl
has_owner-append users more (some id) h =
    ground (arith, any-append (λ (u : User). u.uuid == id) users more)

pub has_user-append :
    (users more : List User) (id : Text)
    → has_user users id ≡ true
    → has_user (users ++ more) id ≡ true
unfolding has_user
has_user-append users more id h = ground (arith, any-append (λ (u : User). u.uuid == id) users more)

pub has_group-append :
    (groups more : List Group) (id : Text)
    → has_group groups id ≡ true
    → has_group (groups ++ more) id ≡ true
unfolding has_group
has_group-append groups more id h =
    ground (arith, any-append (λ (g : Group). g.uuid == id) groups more)

-- An update leaves the keys of the users alone.
pub has_user-modify :
    (p : User → Bool) (changes : UpdateUser) (stamp : ℕ) (users : List User) (id : Text)
    → has_user (modify p (User.apply changes stamp) users) id ≡ has_user users id
unfolding has_user User.apply
has_user-modify p changes stamp users id =
    any-modify (λ (u : User). u.uuid == id) p (User.apply changes stamp) users (λ u. refl)

pub has_owner-modify :
    (p : User → Bool) (changes : UpdateUser) (stamp : ℕ) (users : List User) (o : Option Text)
    → has_owner users o ≡ true
    → has_owner (modify p (User.apply changes stamp) users) o ≡ true
unfolding has_owner
has_owner-modify p changes stamp users none h = refl
has_owner-modify p changes stamp users (some id) h = rw has_user-modify h

-- Two rows with one key clash.
pub users_same_key :
    (uuid : Text) (a b : User)
    → (a.uuid == uuid) ≡ true
    → (b.uuid == uuid) ≡ true
    → users_clash a b ≡ true
unfolding users_clash
users_same_key uuid a b h k = ground arith

pub identities_same_key :
    (uuid : Text) (a b : Identity)
    → (a.uuid == uuid) ≡ true
    → (b.uuid == uuid) ≡ true
    → identities_clash a b ≡ true
unfolding identities_clash
identities_same_key uuid a b h k = ground arith

pub passwords_same_key :
    (uuid : Text) (a b : Password)
    → (a.uuid == uuid) ≡ true
    → (b.uuid == uuid) ≡ true
    → passwords_clash a b ≡ true
unfolding passwords_clash
passwords_same_key uuid a b h k = ground arith
