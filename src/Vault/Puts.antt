-- ===== src/Vault/Puts.antt =====
-- What writing a row, adding a row and adding a group do to the vault.
use password_manager_server.Prelude.{
  ◌≡◌, refl, ap, none, some, Bool, true, false, List, [], ◌∷◌, ◌++◌, Text, ◌==◌, ==_iff, find, any,
  modify, find-holds, find-modify, find-append, arith, All, All-find, Bool-cases, Option-cases, inl,
  inr,
}
use password_manager_server.Schema.{Db, Group, Password}
use password_manager_server.Domain.Rows.{passwords_clash, has_group}
use password_manager_server.Vault.{owner_of, owned_by, vault, put, SameVault}
use password_manager_server.Vault.Spares.{content}

module _ {A : Type 0} where
  find-modify-none :
      (p q : A → Bool) (f : A → A) (xs : List A)
      → ((y : A) → p (f y) ≡ p y)
      → find p xs ≡ none
      → find p (modify q f xs) ≡ none
  unfolding find modify
  find-modify-none p q f [] k h = refl
  find-modify-none p q f (y ∷ xs) k h = ground (arith, k y, find-modify-none p q f xs k)

  pub find-append-none :
      (p : A → Bool) (xs ys : List A) → find p xs ≡ none → find p (xs ++ ys) ≡ find p ys
  unfolding find
  find-append-none p [] ys h = refl
  find-append-none p (y ∷ xs) ys h = ground (arith, find-append-none p xs ys)

  pub any-find : (p : A → Bool) (xs : List A) → any p xs ≡ true → (x : A) × (find p xs ≡ some x)
  unfolding find any
  any-find p [] h = absurd (ground arith)
  any-find p (y ∷ xs) h = elim (Bool-cases (p y)) [
    | inl e ↦ (y, rw (e, find) refl)
    | inr e ↦ let (x, r) = any-find p xs (rw e at h) in (x, rw (e, find) r)
  ]

-- The vault is made of the groups and the passwords alone.
pub vault-content : (db b : Db) → content b ≡ content db → SameVault (vault db) (vault b)
unfolding vault owned_by owner_of
vault-content db b h user id =
    let g : b.groups ≡ db.groups = ap (λ x. x.0) h in
    let p : b.passwords ≡ db.passwords = ap (λ x. x.1) h in rw (g, p) refl

abbrev pub at : Text → Password → Bool
at uuid p = p.uuid == uuid

module _ (db : Db) (user uuid : Text) where
  -- A row of the user's is replaced by another of the user's.
  pub update-SameVault :
      (f : Password → Password) (old : Password)
      → ((p : Password) → (f p).uuid ≡ p.uuid)
      → find (at uuid) db.passwords ≡ some old
      → owner_of db old.group_id ≡ some user
      → owner_of db (f old).group_id ≡ some user
      → SameVault
          (put user uuid (f old) (vault db))
          (vault (record db { passwords = modify (at uuid) f db.passwords }))
  unfolding vault owned_by owner_of
  update-SameVault f old keep stored owner owner' user' id =
      let kept : (id : Text) (p : Password) → at id (f p) ≡ at id p =
        λ id p. ap (λ u. u == id) (keep p) in
      elim (Bool-cases (id == uuid)) [
        | inl e ↦
            let same = (==_iff id uuid).0 e in
            let hit : (old.uuid == uuid) ≡ true = find-holds (at uuid) db.passwords stored in
            let after = find-modify (at uuid) (at uuid) f db.passwords (kept uuid) stored in
            ground arith
        | inr e ↦ elim (Option-cases (find (at id) db.passwords)) [
          | inl n ↦
              let after = find-modify-none (at id) (at uuid) f db.passwords (kept id) n in
              ground arith
          | inr (x, s) ↦
              let hit : (x.uuid == id) ≡ true = find-holds (at id) db.passwords s in
              let after = find-modify (at id) (at uuid) f db.passwords (kept id) s in ground arith
        ]
      ]

  -- A row of the user's is added under a new identifier.
  pub insert-SameVault :
      (row : Password)
      → row.uuid ≡ uuid
      → find (at uuid) db.passwords ≡ none
      → owner_of db row.group_id ≡ some user
      → SameVault
          (put user uuid row (vault db))
          (vault (record db { passwords = db.passwords ++ row ∷ [] }))
  unfolding vault owned_by owner_of find
  insert-SameVault row named fresh owner user' id = elim (Bool-cases (id == uuid)) [
    | inl e ↦
        let same = (==_iff id uuid).0 e in
        let hit : (row.uuid == uuid) ≡ true = (==_iff row.uuid uuid).1 named in
        let after = find-append-none (at uuid) db.passwords (row ∷ []) fresh in
        let last : find (at uuid) (row ∷ []) ≡ some row = rw (hit, find) refl in ground arith
    | inr e ↦
        let miss : (row.uuid == id) ≡ false = ground (arith, ==_iff id uuid, ==_iff row.uuid id) in
        let last : find (at id) (row ∷ []) ≡ none = rw (miss, find) refl in
        elim (Option-cases (find (at id) db.passwords)) [
          | inl n ↦ let after = find-append-none (at id) db.passwords (row ∷ []) n in ground arith
          | inr (x, s) ↦ let after = find-append (at id) db.passwords (row ∷ []) s in ground arith
        ]
  ]

  pub fresh-vault : find (at uuid) db.passwords ≡ none → vault db user uuid ≡ none
  unfolding vault owned_by
  fresh-vault fresh = rw fresh refl

  pub stored-vault :
      (p : Password)
      → find (at uuid) db.passwords ≡ some p
      → owner_of db p.group_id ≡ some user
      → vault db user uuid ≡ some p
  unfolding vault owned_by
  stored-vault p stored owner = ground (arith, ==_iff user user)

pub fresh-find :
    (row : Password) (rows : List Password)
    → any (passwords_clash row) rows ≡ false
    → find (at row.uuid) rows ≡ none
unfolding passwords_clash find any
fresh-find row [] h = refl
fresh-find row (p ∷ ps) h =
    ground (arith, fresh-find row ps, ==_iff row.uuid p.uuid, ==_iff p.uuid row.uuid)

pub found-owner :
    (db : Db) (id : Text) (g : Group)
    → find (λ (h : Group). h.uuid == id) db.groups ≡ some g
    → owner_of db id ≡ some g.user_id
unfolding owner_of
found-owner db id g h = rw h refl

-- A group that is added owns nothing, since every password has its group.
pub group-SameVault :
    (db : Db) (g : Group)
    → All (λ (p : Password). has_group db.groups p.group_id ≡ true) db.passwords
    → SameVault (vault db) (vault (record db { groups = db.groups ++ g ∷ [] }))
unfolding vault owned_by owner_of has_group
group-SameVault db g grouped user id = elim (Option-cases (find (at id) db.passwords)) [
  | inl n ↦ rw n refl
  | inr (p, s) ↦
      let there =
        All-find (λ (p : Password). has_group db.groups p.group_id ≡ true) (at id) db.passwords
          grouped s in
      let (h, f) = any-find (λ (h : Group). h.uuid == p.group_id) db.groups there in
      let after = find-append (λ (h : Group). h.uuid == p.group_id) db.groups (g ∷ []) f in
      rw (s, f, after) refl
]
