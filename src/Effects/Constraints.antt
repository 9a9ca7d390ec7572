-- ===== src/Effects/Constraints.antt =====
-- The constraints of the schema as an invariant: keys and unique columns do not repeat, and every
-- reference is met.
mod Keys
use password_manager_server.Prelude.{
  ℕ, ◌≡◌, inl, inr, refl, none, some, Option, Bool, true, List, ◌++◌, Text, ◌==◌, modify, arith,
  All, All-append, All-select, All-modify, All-map, any-append, any-modify, Distinct,
  Distinct-append, Distinct-modify, Distinct-select,
}
use password_manager_server.Schema.{
  Db, User, Identity, Group, Password, NewUser, UpdateUser, NewIdentity, UpdateIdentity, NewGroup,
  NewPassword, UpdatePassword,
}
use password_manager_server.Domain.Rows.{
  users_clash, identities_clash, groups_clash, passwords_clash, has_user, has_group, has_owner,
  same_value, changed, changed_nullable,
}
use password_manager_server.Domain.Outcome.{insert_row-cases, update_row-cases}
use password_manager_server.Domain.User
use password_manager_server.Domain.Identity
use password_manager_server.Domain.Group
use password_manager_server.Domain.Password
use password_manager_server.Crates.{Crates}
use password_manager_server.Config.{Config}
use password_manager_server.Prog.{World}
use password_manager_server.Server.System.{System, Reach}
use password_manager_server.Effects.Interleaving.{Reach-Change}
use password_manager_server.Effects.Change.{
  Change, kept, user_added, user_set, identity_added, identity_set, identity_removed, group_added,
  password_added, password_set, both,
}
use Keys.{
  users_clash_comm, groups_clash_comm, passwords_clash_comm, same_value_comm, identities_clash_comm,
  has_owner-append, has_user-append, has_group-append, has_user-modify, has_owner-modify,
  users_same_key, identities_same_key, passwords_same_key,
}

pub record IsValid (db : Db) : Type 0 where
  pub users : Distinct users_clash db.users
  pub identities : Distinct identities_clash db.identities
  pub groups : Distinct groups_clash db.groups
  pub passwords : Distinct passwords_clash db.passwords
  pub owners : All (λ (i : Identity). has_owner db.users i.user_id ≡ true) db.identities
  pub members : All (λ (g : Group). has_user db.users g.user_id ≡ true) db.groups
  pub contents : All (λ (p : Password). has_group db.groups p.group_id ≡ true) db.passwords

user_insert-IsValid :
    (new : NewUser) (now : ℕ) (db : Db) → IsValid db → IsValid (User.insert new now db).1
unfolding User.insert
user_insert-IsValid new now db v =
    elim (insert_row-cases users_clash true (User.row_of now new) db.users) [
      | inl (e, r) ↦ rw (r, User.insert) v
      | inr (fresh, _, r) ↦
          rw (r, User.insert)
            (record {
              users = Distinct-append users_clash users_clash_comm db.users _ v.users fresh;
              identities = v.identities;
              groups = v.groups;
              passwords = v.passwords;
              owners =
                  All-map (λ i h. has_owner-append db.users _ i.user_id h) db.identities v.owners;
              members = All-map (λ g h. has_user-append db.users _ g.user_id h) db.groups v.members;
              contents = v.contents;
            })
    ]

user_set-IsValid :
    (uuid : Text) (changes : UpdateUser) (stamp now : ℕ) (db : Db)
    → IsValid db
    → IsValid (User.set_row uuid changes stamp now db).1
unfolding User.set_row
user_set-IsValid uuid changes stamp now db v =
    elim (update_row-cases users_clash (λ u. u.uuid == uuid) (User.apply changes stamp) (λ u. true)
      db.users) [
        | inl (e, r) ↦ rw (r, User.set_row) v
        | inr (old, (found, fresh, _, r)) ↦
            rw (r, User.set_row)
              (record {
                users =
                    Distinct-modify users_clash users_clash_comm _ _ (users_same_key uuid) old
                      db.users v.users found fresh;
                identities = v.identities;
                groups = v.groups;
                passwords = v.passwords;
                owners =
                    All-map (λ i h. has_owner-modify _ changes stamp db.users i.user_id h)
                      db.identities v.owners;
                members = All-map (λ g h. rw has_user-modify h) db.groups v.members;
                contents = v.contents;
              })
      ]

identity_insert-IsValid :
    (new : NewIdentity) (now : ℕ) (db : Db) → IsValid db → IsValid (Identity.insert new now db).1
unfolding Identity.insert
identity_insert-IsValid new now db v =
    elim (insert_row-cases identities_clash (has_owner db.users new.user_id)
      (Identity.row_of now new) db.identities) [
        | inl (e, r) ↦ rw (r, Identity.insert) v
        | inr (fresh, owned, r) ↦
            rw (r, Identity.insert)
              (record {
                users = v.users;
                identities =
                    Distinct-append identities_clash identities_clash_comm db.identities _
                      v.identities fresh;
                groups = v.groups;
                passwords = v.passwords;
                owners = All-append _ db.identities _ v.owners (owned, tt);
                members = v.members;
                contents = v.contents;
              })
      ]

-- What a changeset sets is checked once, and what it leaves was met before.
owner_of_change :
    (users : List User) (change old other : Option Text)
    → has_owner users (changed_nullable change old) ≡ true
    → has_owner users other ≡ true
    → has_owner users (changed_nullable change other) ≡ true
owner_of_change users none old other h k = k
owner_of_change users (some id) old other h k = h

group_of_change :
    (groups : List Group) (change : Option Text) (old other : Text)
    → has_group groups (changed change old) ≡ true
    → has_group groups other ≡ true
    → has_group groups (changed change other) ≡ true
group_of_change groups none old other h k = k
group_of_change groups (some id) old other h k = h

identity_set-IsValid :
    (uuid : Text) (changes : UpdateIdentity) (stamp now : ℕ) (db : Db)
    → IsValid db
    → IsValid (Identity.set_row uuid changes stamp now db).1
unfolding Identity.set_row Identity.apply
identity_set-IsValid uuid changes stamp now db v =
    elim (update_row-cases identities_clash (λ i. i.uuid == uuid) (Identity.apply changes stamp)
      (λ i. has_owner db.users i.user_id) db.identities) [
        | inl (e, r) ↦ rw (r, Identity.set_row) v
        | inr (old, (found, fresh, owned, r)) ↦
            rw (r, Identity.set_row)
              (record {
                users = v.users;
                identities =
                    Distinct-modify identities_clash identities_clash_comm _ _
                      (identities_same_key uuid) old db.identities v.identities found fresh;
                groups = v.groups;
                passwords = v.passwords;
                owners =
                    All-modify _ _ _ db.identities
                      (λ i h e.
                        owner_of_change db.users changes.user_id old.user_id i.user_id owned h)
                      v.owners;
                members = v.members;
                contents = v.contents;
              })
      ]

identity_removed-IsValid :
    (uuid : Text) (db : Db) → IsValid db → IsValid (Identity.remove_rows uuid db)
unfolding Identity.remove_rows
identity_removed-IsValid uuid db v = record {
  users = v.users;
  identities = Distinct-select identities_clash _ db.identities v.identities;
  groups = v.groups;
  passwords = v.passwords;
  owners = All-select _ _ db.identities v.owners;
  members = v.members;
  contents = v.contents;
}

group_insert-IsValid :
    (new : NewGroup) (now : ℕ) (db : Db) → IsValid db → IsValid (Group.insert new now db).1
unfolding Group.insert
group_insert-IsValid new now db v =
    elim (insert_row-cases groups_clash (has_user db.users new.user_id) (Group.row_of now new)
      db.groups) [
        | inl (e, r) ↦ rw (r, Group.insert) v
        | inr (fresh, owned, r) ↦
            rw (r, Group.insert)
              (record {
                users = v.users;
                identities = v.identities;
                groups = Distinct-append groups_clash groups_clash_comm db.groups _ v.groups fresh;
                passwords = v.passwords;
                owners = v.owners;
                members = All-append _ db.groups _ v.members (owned, tt);
                contents =
                    All-map (λ p h. has_group-append db.groups _ p.group_id h) db.passwords
                      v.contents;
              })
      ]

password_insert-IsValid :
    (new : NewPassword) (now : ℕ) (db : Db) → IsValid db → IsValid (Password.insert new now db).1
unfolding Password.insert
password_insert-IsValid new now db v =
    elim (insert_row-cases passwords_clash (has_group db.groups new.group_id)
      (Password.row_of now new) db.passwords) [
        | inl (e, r) ↦ rw (r, Password.insert) v
        | inr (fresh, owned, r) ↦
            rw (r, Password.insert)
              (record {
                users = v.users;
                identities = v.identities;
                groups = v.groups;
                passwords =
                    Distinct-append passwords_clash passwords_clash_comm db.passwords _ v.passwords
                      fresh;
                owners = v.owners;
                members = v.members;
                contents = All-append _ db.passwords _ v.contents (owned, tt);
              })
      ]

password_set-IsValid :
    (uuid : Text) (changes : UpdatePassword) (stamp now : ℕ) (db : Db)
    → IsValid db
    → IsValid (Password.set_row uuid changes stamp now db).1
unfolding Password.set_row Password.apply
password_set-IsValid uuid changes stamp now db v =
    elim (update_row-cases passwords_clash (λ p. p.uuid == uuid) (Password.apply changes stamp)
      (λ p. has_group db.groups p.group_id) db.passwords) [
        | inl (e, r) ↦ rw (r, Password.set_row) v
        | inr (old, (found, fresh, owned, r)) ↦
            rw (r, Password.set_row)
              (record {
                users = v.users;
                identities = v.identities;
                groups = v.groups;
                passwords =
                    Distinct-modify passwords_clash passwords_clash_comm _ _
                      (passwords_same_key uuid) old db.passwords v.passwords found fresh;
                owners = v.owners;
                members = v.members;
                contents =
                    All-modify _ _ _ db.passwords
                      (λ p h e.
                        group_of_change db.groups changes.group_id old.group_id p.group_id owned h)
                      v.contents;
              })
      ]

pub Change-IsValid : {admin : Bool} {a b : Db} → Change admin a b → IsValid a → IsValid b
Change-IsValid (kept e) v = rw e v
Change-IsValid (user_added new now d e) v = rw e (user_insert-IsValid new now _ v)
Change-IsValid (user_set uuid changes stamp now p e) v =
    rw e (user_set-IsValid uuid changes stamp now _ v)
Change-IsValid (identity_added new now d e) v = rw e (identity_insert-IsValid new now _ v)
Change-IsValid (identity_set uuid changes stamp now p e) v =
    rw e (identity_set-IsValid uuid changes stamp now _ v)
Change-IsValid (identity_removed uuid p e) v = rw e (identity_removed-IsValid uuid _ v)
Change-IsValid (group_added new now e) v = rw e (group_insert-IsValid new now _ v)
Change-IsValid (password_added new now d e) v = rw e (password_insert-IsValid new now _ v)
Change-IsValid (password_set uuid changes stamp now d e) v =
    rw e (password_set-IsValid uuid changes stamp now _ v)
Change-IsValid (both m s t) v = Change-IsValid t (Change-IsValid s v)

-- Every reachable database meets the constraints, if the first one does.
pub reachable-IsValid :
    {c : Crates} {cfg : Config} {admin : Bool} {w : World} {s : System}
    → Reach c cfg admin w s
    → IsValid w.db
    → IsValid s.world.db
reachable-IsValid r = Change-IsValid (Reach-Change r)
