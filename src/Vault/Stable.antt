-- ===== src/Vault/Stable.antt =====
-- The steps under which every password stays with its owner, and the queries that make such steps.
use password_manager_server.Prelude.{
  ℕ, ◌≡◌, ◌≢◌, refl, sym, ◌∙◌, ap, none, some, true, [], ◌∷◌, ◌++◌, Text, ◌==◌, ==_iff, find,
  find-holds, find-modify, find-append, modify, arith, Option-cases, Bool-cases, inl, inr,
}
use password_manager_server.Schema.{Db, Group, Password, NewGroup, NewPassword, UpdatePassword}
use password_manager_server.Domain.Rows.{passwords_clash, groups_clash, has_group, has_user}
use password_manager_server.Domain.Outcome.{insert_row-cases, update_row-cases}
use password_manager_server.Domain.Group
use password_manager_server.Domain.Password
use password_manager_server.Effects.Steps.{IsPreorder}
use password_manager_server.Vault.{owner_of, owned_by, vault}
use password_manager_server.Vault.Spares.{content, SameContent}
use password_manager_server.Vault.Puts.{at}

-- The password `id` is in a group of the user.
pub record Owns (db : Db) (id user : Text) : Type 0 where
  pub row : Password
  pub stored : find (at id) db.passwords ≡ some row
  pub owner : owner_of db row.group_id ≡ some user

pub record Stable (a b : Db) : Type 0 where
  pub groups : (id user : Text) → owner_of a id ≡ some user → owner_of b id ≡ some user
  pub passwords : (id user : Text) → Owns a id user → Owns b id user

SameContent-Owns : (a b : Db) → SameContent a b → (id user : Text) → Owns a id user → Owns b id user
unfolding owner_of
SameContent-Owns a b e id user h =
    let g : b.groups ≡ a.groups = ap (λ x. x.0) e in
    let p : b.passwords ≡ a.passwords = ap (λ x. x.1) e in
    record { row = h.row; stored = rw p h.stored; owner = rw g h.owner }

SameContent-owner :
    (a b : Db)
    → SameContent a b
    → (id user : Text) → owner_of a id ≡ some user
    → owner_of b id ≡ some user
unfolding owner_of
SameContent-owner a b e id user h = let g : b.groups ≡ a.groups = ap (λ x. x.0) e in rw g h

pub SameContent-Stable : (a b : Db) → SameContent a b → Stable a b
SameContent-Stable a b e = record {
  groups = SameContent-owner a b e;
  passwords = SameContent-Owns a b e;
}

pub Stable-IsPreorder : IsPreorder Stable
Stable-IsPreorder = record {
  keep = λ {a = a} {b = b} e. SameContent-Stable a b (ap content e);
  trans = λ m h k. record {
    groups = λ id user o. k.groups id user (h.groups id user o);
    passwords = λ id user o. k.passwords id user (h.passwords id user o);
  };
}

-- A row is added to one of the two tables.
password-added :
    (db : Db) (row : Password) → Stable db (record db { passwords = db.passwords ++ row ∷ [] })
unfolding owner_of
password-added db row = record {
  groups = λ id user o. o;
  passwords = λ id user o. record {
    row = o.row;
    stored = find-append (at id) db.passwords (row ∷ []) o.stored;
    owner = o.owner;
  };
}

group-kept :
    (db : Db) (g : Group) (id user : Text)
    → owner_of db id ≡ some user
    → owner_of (record db { groups = db.groups ++ g ∷ [] }) id ≡ some user
unfolding owner_of
group-kept db g id user o = elim (Option-cases (find (λ (h : Group). h.uuid == id) db.groups)) [
  | inl n ↦ absurd (ground arith)
  | inr (h, e) ↦
      let after = find-append (λ (h : Group). h.uuid == id) db.groups (g ∷ []) e in ground arith
]

group-added : (db : Db) (g : Group) → Stable db (record db { groups = db.groups ++ g ∷ [] })
group-added db g = record {
  groups = group-kept db g;
  passwords = λ id user o. record {
    row = o.row;
    stored = o.stored;
    owner = group-kept db g o.row.group_id user o.owner;
  };
}

-- A row is set to a group of its owner.
password-set :
    (db : Db) (f : Password → Password) (uuid user : Text)
    → ((p : Password) → (f p).uuid ≡ p.uuid)
    → ((p : Password) → owner_of db (f p).group_id ≡ some user)
    → Owns db uuid user
    → Stable db (record db { passwords = modify (at uuid) f db.passwords })
unfolding owner_of
password-set db f uuid user keep moved mine = record {
  groups = λ id u o. o;
  passwords = λ id u o.
      let kept : (p : Password) → at id (f p) ≡ at id p = λ p. ap (λ t. t == id) (keep p) in
      let after = find-modify (at id) (at uuid) f db.passwords kept o.stored in
      let here : (o.row.uuid == id) ≡ true = find-holds (at id) db.passwords o.stored in
      elim (Bool-cases (at uuid o.row)) [
        | inr n ↦ record { row = o.row; stored = rw n at after; owner = o.owner }
        | inl y ↦
            let same : id ≡ uuid =
              sym ((==_iff o.row.uuid id).0 here) ∙ (==_iff o.row.uuid uuid).0 y in
            let row : o.row ≡ mine.row = ground (arith, rw same at o.stored, mine.stored) in
            let user_same : u ≡ user = ground (arith, rw row at o.owner, mine.owner) in
            record { row = f o.row; stored = rw y at after; owner = rw user_same (moved o.row) }
      ];
}

pub insert_password-Stable :
    (new : NewPassword) (now : ℕ) (db : Db) → Stable db (Password.insert new now db).1
unfolding Password.insert
insert_password-Stable new now db =
    elim (insert_row-cases passwords_clash (has_group db.groups new.group_id)
      (Password.row_of now new) db.passwords) [
        | inl (e, r) ↦ rw (r, Password.insert) (Stable-IsPreorder.keep refl)
        | inr (_, _, r) ↦ rw (r, Password.insert) (password-added db (Password.row_of now new))
      ]

pub insert_group-Stable :
    (new : NewGroup) (now : ℕ) (db : Db) → Stable db (Group.insert new now db).1
unfolding Group.insert
insert_group-Stable new now db =
    elim (insert_row-cases groups_clash (has_user db.users new.user_id) (Group.row_of now new)
      db.groups) [
        | inl (e, r) ↦ rw (r, Group.insert) (Stable-IsPreorder.keep refl)
        | inr (_, _, r) ↦ rw (r, Group.insert) (group-added db (Group.row_of now new))
      ]

pub set_row-Stable :
    (uuid user gid : Text) (changes : UpdatePassword) (stamp now : ℕ) (db : Db)
    → changes.group_id ≡ some gid
    → Owns db uuid user
    → owner_of db gid ≡ some user
    → Stable db (Password.set_row uuid changes stamp now db).1
unfolding Password.set_row Password.apply
set_row-Stable uuid user gid changes stamp now db moved mine target =
    elim (update_row-cases passwords_clash (at uuid) (Password.apply changes stamp)
      (λ p. has_group db.groups p.group_id) db.passwords) [
        | inl (e, r) ↦ rw (r, Password.set_row) (Stable-IsPreorder.keep refl)
        | inr (old, (_, _, _, r)) ↦
            rw (r, Password.set_row)
              (password-set db (Password.apply changes stamp) uuid user (λ p. refl)
                (λ p. rw moved target) mine)
      ]

-- What is owned, as the vault has it.
pub vault-Owns :
    (db : Db) (user id : Text) (p : Password) → vault db user id ≡ some p → Owns db id user
unfolding vault owned_by
vault-Owns db user id p h = elim (Option-cases (find (at id) db.passwords)) [
  | inl n ↦ absurd (ground arith)
  | inr (row, s) ↦ elim (Option-cases (owner_of db row.group_id)) [
    | inl n ↦ absurd (ground arith)
    | inr (u, o) ↦
        let same : u ≡ user = ground (arith, ==_iff u user) in
        record { row = row; stored = s; owner = rw same at o }
  ]
]

pub Owns-vault :
    (db : Db) (user id : Text) → Owns db id user → (p : Password) × (vault db user id ≡ some p)
unfolding vault owned_by
Owns-vault db user id o =
    let self : (user == user) ≡ true = (==_iff user user).1 refl in
    (o.row, rw (o.stored, o.owner, self) refl)

pub Owns-others :
    (db : Db) (user other id : Text) → Owns db id user → other ≢ user → vault db other id ≡ none
unfolding vault owned_by
Owns-others db user other id o n = elim (Bool-cases (user == other)) [
  | inl e ↦ absurd (n (sym ((==_iff user other).0 e)))
  | inr e ↦ rw (o.stored, o.owner, e) refl
]
