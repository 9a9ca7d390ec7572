-- ===== src/Vault/Guards.antt =====
-- The owner of a password and of a group, as a request finds them and checks them among others.
use mathlib.Core.Path.{subst}
use password_manager_server.Error.{refused}
use password_manager_server.Prelude.{
  ◌≡◌, refl, some, true, Text, ◌==◌, ==_iff, find, find-holds, arith, All-find,
}
use password_manager_server.Schema.{Db, Group, Password}
use password_manager_server.Prog.{Prog, ◌>>=◌, ◌>>◌, attempt, guard, ok_or}
use password_manager_server.Domain.Rows.{has_group}
use password_manager_server.Domain.Group
use password_manager_server.Domain.Password
use password_manager_server.Effects.Constraints.{IsValid}
use password_manager_server.Vault.{owner_of}
use password_manager_server.Vault.Puts.{at, any-find, found-owner}
use password_manager_server.Vault.Stable.{Owns}
use password_manager_server.Vault.Learns.{
  Knowledge, Persists, Learns, Learns-ok_or, Learns-bind, Learns-guard, Learns-read,
}

-- Nothing is known.
abbrev pub Nothing : Knowledge
Nothing db = Unit

-- The password `uuid` has an owner, to whom the group `id` belongs.
abbrev pub HasOwner : Text → Text → Knowledge
HasOwner uuid id db = (user : Text) × Owns db uuid user × (owner_of db id ≡ some user)

pub HasOwner-persists : (uuid id : Text) → Persists (HasOwner uuid id)
HasOwner-persists uuid id a b s k = (k.0, s.passwords uuid k.0 k.1, s.groups id k.0 k.2)

abbrev pub Belongs : Text → Text → Knowledge
Belongs id user db = owner_of db id ≡ some user

abbrev pub Owned : Text → Text → Knowledge
Owned uuid user db = Owns db uuid user

pub stored-HasOwner :
    (db : Db)
    → IsValid db
    → (uuid : Text) (r : Password) → find (at uuid) db.passwords ≡ some r
    → HasOwner uuid r.group_id db
stored-HasOwner db v uuid r s =
    let there =
      All-find (λ (p : Password). has_group db.groups p.group_id ≡ true) (at uuid) db.passwords
        v.contents s in
    let (g, f) =
      any-find (λ (h : Group). h.uuid == r.group_id) db.groups (unfold has_group in there) in
    let own = found-owner db r.group_id g f in
    (g.user_id, record { row = r; stored = s; owner = own }, own)

pub same_owner :
    (db : Db) (uuid id user : Text)
    → owner_of db id ≡ some user
    → HasOwner uuid id db
    → Owned uuid user db
same_owner db uuid id user e h =
    let same : h.0 ≡ user = ground (arith, h.2, e) in subst (λ u. Owned uuid u db) same h.1

module _ {S : Knowledge} (uuid : Text) where
  password_find-Learns :
      {K : Knowledge}
      → Persists K
      → Learns S
          (λ o db.
            ((p : Password) → o ≡ some p → HasOwner uuid p.group_id db × (p.uuid ≡ uuid)) × K db)
          K
          (attempt (Password.find_by_uuid uuid))
  unfolding Password.find_by_uuid
  password_find-Learns p =
      Learns-read p _ _
        (λ o a b s k r e. (HasOwner-persists uuid r.group_id a b s (k r e).0, (k r e).1))
        (λ now db. refl)
        (λ now db z v o e r f.
          let stored : find (at uuid) db.passwords ≡ some r = ground (arith, e, f) in
          (
            stored-HasOwner db v uuid r stored,
            (==_iff r.uuid uuid).0 (find-holds (at uuid) db.passwords stored),
          ))

  pub group_find-Learns :
      {K : Knowledge}
      → Persists K
      → Learns S
          (λ o db. ((g : Group) → o ≡ some g → Belongs uuid g.user_id db) × K db)
          K
          (attempt (Group.find_by_uuid uuid))
  unfolding Group.find_by_uuid
  group_find-Learns p =
      Learns-read p _ _ (λ o a b s k g e. s.groups uuid g.user_id (k g e)) (λ now db. refl)
        (λ now db z v o e g f. found-owner db uuid g (ground (arith, e, f)))

-- After the guard, what was found of `other` is known of `user`.
pub same_user-Learns :
    {S K : Knowledge} (F : Text → Knowledge) (other user : Text)
    → Learns S (λ _ db. F user db × K db) (λ db. F other db × K db) (guard (other == user) refused)
same_user-Learns F other user =
    Learns-guard _ _ (λ e db k. (subst (λ u. F u db) ((==_iff other user).0 e) k.0, k.1))

pub Nothing-persists : Persists Nothing
Nothing-persists a b s k = tt

-- The row is found, with its group, which is the user's.
pub own_row-Learns :
    {S : Knowledge} {B : Type 0} {T : B → Knowledge} (uuid user : Text)
    (k : Password → Group → Prog B)
    → ((p : Password) (g : Group) → Learns S T (λ db. Owned uuid user db × (p.uuid ≡ uuid)) (k p g))
    → Learns S T Nothing (
        attempt (Password.find_by_uuid uuid) >>= λ found. ok_or found refused >>= λ existing.
        attempt (Group.find_by_uuid existing.group_id) >>= λ found_group.
        ok_or found_group refused >>= λ group.
        guard (group.user_id == user) refused >> k existing group)
unfolding ◌>>◌
own_row-Learns uuid user k h = Learns-bind _ (password_find-Learns uuid Nothing-persists) (λ found.
    Learns-bind {Q = λ (p : Password) db. HasOwner uuid p.group_id db × (p.uuid ≡ uuid)} _
      (Learns-ok_or found refused (λ p e db x. x.0 p e))
      (λ existing.
        Learns-bind _
          (group_find-Learns existing.group_id
            (λ a b s x. (HasOwner-persists uuid existing.group_id a b s x.0, x.1)))
          (λ found_group.
            Learns-bind {Q = λ (g : Group) db. Owned uuid g.user_id db × (existing.uuid ≡ uuid)} _
              (Learns-ok_or found_group refused (λ g e db x.
                (same_owner db uuid existing.group_id g.user_id (x.0 g e) x.1.0, x.1.1)))
              (λ group.
                Learns-bind _ (same_user-Learns (Owned uuid) group.user_id user)
                  (λ _. h existing group)))))

-- The group that the request names is found, and is the user's.
pub own_target-Learns :
    {S : Knowledge} (uuid user gid : Text) (k : Prog (Unit {0}))
    → Learns S (λ _. Nothing) (λ db. Belongs gid user db × Owned uuid user db) k
    → Learns S
        (λ _. Nothing)
        (Owned uuid user)
        (attempt (Group.find_by_uuid gid) >>= λ found_target.
          ok_or found_target refused >>= λ target_group.
          guard (target_group.user_id == user) refused >> k)
unfolding ◌>>◌
own_target-Learns uuid user gid k h =
    Learns-bind _ (group_find-Learns gid (λ a b s x. s.passwords uuid user x)) (λ found_target.
      Learns-bind {Q = λ (g : Group) db. Belongs gid g.user_id db × Owned uuid user db} _
        (Learns-ok_or found_target refused (λ g e db x. (x.0 g e, x.1)))
        (λ target_group.
          Learns-bind _ (same_user-Learns (Belongs gid) target_group.user_id user) (λ _. h)))
