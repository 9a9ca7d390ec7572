-- ===== src/Vault/Lists.antt =====
-- `list_handler` of src/routes/passwords.rs among other requests: every password that is listed is the user's.
use mathlib.Core.Path.{subst}
use password_manager_server.Prelude.{
  ◌≡◌, refl, sym, ◌∙◌, ap, ℕ, zero, suc, some, Bool, true, false, List, [], ◌∷◌, map, Text, ◌==◌,
  ==_iff, find, any, select, arith, All, All-map, Distinct, Bool-cases, inl, inr,
}
use password_manager_server.Crates.{Crates, HeaderMap}
use password_manager_server.Config.{Config}
use password_manager_server.Schema.{Db, Identity, Password, Group}
use password_manager_server.Prog.{◌>>◌, attempt}
use password_manager_server.Domain.Rows.{groups_clash, passwords_clash}
use password_manager_server.Domain.Group
use password_manager_server.Domain.Password
use password_manager_server.Routes.Passwords.{
  ListParams, PasswordEntry, entry_of, entries_from, list_for, list_handler,
}
use password_manager_server.Effects.Steps.{Follows-conn, Follows-utc_now, Follows-pure}
use password_manager_server.Effects.Data.{encrypt-Follows}
use password_manager_server.Vault.Puts.{found-owner}
use password_manager_server.Vault.Stable.{Stable-IsPreorder}
use password_manager_server.Vault.Learns.{
  Knowledge, Persists, Learns, Learns-bind, Learns-weaken, Learns-some, Learns-read, Learns-pure,
  Learns-frame, Learns-keep, Learns-branch, Follows-Learns,
}
use password_manager_server.Vault.Guards.{
  Nothing, Nothing-persists, Belongs, Owned, HasOwner, HasOwner-persists, stored-HasOwner,
  same_owner,
}
use password_manager_server.Vault.Shows.{WasLetIn, validate_auth-Learns}

module _ {A : Type 0} (key : A → Text) where
  found-behind :
      (x : A) (xs ys : List A)
      → any (λ y. key x == key y) ys ≡ false
      → All (λ y. find (λ z. key z == key y) xs ≡ some y) ys
      → All (λ y. find (λ z. key z == key y) (x ∷ xs) ≡ some y) ys
  unfolding any find
  found-behind x xs [] h k = tt
  found-behind x xs (y ∷ ys) h (f, k) = elim (Bool-cases (key x == key y)) [
    | inl e ↦ absurd (ground arith)
    | inr e ↦ (rw e f, found-behind x xs ys (ground arith) k)
  ]

  -- Where a key stands once, each row is the one that is found by its key.
  Distinct-found :
      (xs : List A)
      → Distinct (λ a b. key a == key b) xs
      → All (λ x. find (λ y. key y == key x) xs ≡ some x) xs
  unfolding find
  Distinct-found [] d = tt
  Distinct-found (x ∷ xs) (e, d) =
      let self : (key x == key x) ≡ true = (==_iff (key x) (key x)).1 refl in
      (rw self refl, found-behind x xs xs e (Distinct-found xs d))

select-All :
    {A : Type 0} (P : A → Type 0) (p : A → Bool) (xs : List A)
    → All P xs
    → All (λ x. P x × (p x ≡ true)) (select p xs)
unfolding select
select-All P p [] h = tt
select-All P p (x ∷ xs) (q, h) = elim (Bool-cases (p x)) [
  | inl e ↦ rw e ((q, e), select-All P p xs h)
  | inr e ↦ rw e (select-All P p xs h)
]

map-All :
    {A B : Type 0} (f : A → B) (P : B → Type 0) (xs : List A)
    → All (λ x. P (f x)) xs
    → All P (map f xs)
map-All f P [] h = tt
map-All f P (x ∷ xs) (p, h) = (p, map-All f P xs h)

named :
    (db : Db) (user id : Text) (ids : List Text)
    → All (λ g. Belongs g user db) ids
    → any (λ g. id == g) ids ≡ true
    → Belongs id user db
unfolding any
named db user id [] h e = absurd (ground arith)
named db user id (g ∷ ids) (b, h) e = elim (Bool-cases (id == g)) [
  | inl t ↦ subst (λ x. Belongs x user db) (sym ((==_iff id g).0 t)) b
  | inr t ↦ named db user id ids h (ground arith)
]

-- A row that was listed: it has an owner, who has the row's group, which is one of those that were named.
abbrev Listed : List Text → Password → Knowledge
Listed ids p db = HasOwner p.uuid p.group_id db × (any (λ g. p.group_id == g) ids ≡ true)

abbrev AllOwned : Text → List Password → Knowledge
AllOwned user ps db = All (λ (p : Password). Owned p.uuid user db) ps

abbrev AllShown : Text → List PasswordEntry → Knowledge
AllShown user xs db = All (λ (x : PasswordEntry). Owned x.uuid user db) xs

AllOwned-persists : (user : Text) (ps : List Password) → Persists (AllOwned user ps)
AllOwned-persists user ps a b s k = All-map (λ p o. s.passwords p.uuid user o) ps k

module _ {S : Knowledge} where
  groups_find-Learns :
      (user : Text)
      → Learns S
          (λ gs db. All (λ (g : Group). Belongs g.uuid user db) gs × Nothing db)
          Nothing
          (attempt (Group.find_by_user user))
  unfolding Group.find_by_user groups_clash
  groups_find-Learns user =
      Learns-read Nothing-persists _ _ (λ gs a b s k. All-map (λ g h. s.groups g.uuid user h) gs k)
        (λ now db. refl)
        (λ now db z v gs e.
          let same : select (λ (g : Group). g.user_id == user) db.groups ≡ gs = ground (arith, e) in
          let rows =
            select-All _ (λ (g : Group). g.user_id == user) db.groups
              (Distinct-found (λ (g : Group). g.uuid) db.groups v.groups) in
          subst (λ l. All (λ (g : Group). Belongs g.uuid user db) l) same
            (All-map
              (λ g h.
                let owner : g.user_id ≡ user = (==_iff g.user_id user).0 h.1 in
                found-owner db g.uuid g h.0 ∙ ap some owner)
              _ rows))

  passwords_find-Learns :
      {K : Knowledge} (ids : List Text)
      → Persists K
      → Learns S
          (λ ps db. All (λ p. Listed ids p db) ps × K db)
          K
          (attempt (Password.find_by_groups ids))
  unfolding Password.find_by_groups passwords_clash
  passwords_find-Learns ids keeps =
      Learns-read keeps _ _
        (λ ps a b s k. All-map (λ p h. (HasOwner-persists p.uuid p.group_id a b s h.0, h.1)) ps k)
        (λ now db. refl)
        (λ now db z v ps e.
          let same : select (λ (p : Password). any (λ id. p.group_id == id) ids) db.passwords ≡ ps =
            ground (arith, e) in
          let rows =
            select-All _ (λ (p : Password). any (λ id. p.group_id == id) ids) db.passwords
              (Distinct-found (λ (p : Password). p.uuid) db.passwords v.passwords) in
          subst (λ l. All (λ p. Listed ids p db) l) same
            (All-map (λ p h. (stored-HasOwner db v p.uuid p h.0, h.1)) _ rows))

  module _ (c : Crates) (h : HeaderMap) (cfg : Config) (i : Identity) (user : Text) where
    entry_of-Learns :
        (e : Bool) (p : Password)
        → Learns S (λ x db. (x.uuid ≡ p.uuid) × Nothing db) Nothing (entry_of c cfg e i p)
    unfolding entry_of
    entry_of-Learns true p =
        Learns-bind _
          (Follows-Learns Nothing-persists (encrypt-Follows Stable-IsPreorder c h cfg p.pwd i))
          (λ sent.
            Learns-bind _ (Follows-Learns Nothing-persists (Follows-pure _))
              (λ days. Learns-pure _ (λ db k. (refl, tt))))
    entry_of-Learns false p =
        Learns-bind _
          (Follows-Learns Nothing-persists (encrypt-Follows Stable-IsPreorder c h cfg p.pwd i))
          (λ sent.
            Learns-bind _
              (Learns-bind _ (Follows-Learns Nothing-persists (Follows-utc_now Stable-IsPreorder))
                (λ now. Follows-Learns Nothing-persists (Follows-pure _)))
              (λ days. Learns-pure _ (λ db k. (refl, tt))))

    entries_from-Learns :
        (e : Bool) (skip size : ℕ) (ps : List Password)
        → Learns S (AllShown user) (AllOwned user ps) (entries_from c cfg e i skip size ps)
    unfolding entries_from
    entries_from-Learns e skip zero ps = Learns-pure [] (λ db k. tt)
    entries_from-Learns e skip (suc size) [] = Learns-pure [] (λ db k. tt)
    entries_from-Learns e zero (suc size) (p ∷ ps) =
        let keeps = AllOwned-persists user (p ∷ ps) in
        Learns-bind _ (Follows-Learns keeps (Follows-utc_now Stable-IsPreorder)) (λ now.
          Learns-branch _ _ _
            (Learns-bind _
              (Learns-weaken (λ db k. (tt, k)) (Learns-keep keeps (entry_of-Learns e p)))
              (λ x.
                Learns-bind _
                  (Learns-weaken (λ db k. (k.1.1, subst (λ id. Owned id user db) (sym k.0.0) k.1.0))
                    (Learns-keep {P = Owned x.uuid user} (λ a b s o. s.passwords x.uuid user o)
                      (entries_from-Learns e zero size ps)))
                  (λ rest. Learns-pure _ (λ db k. (k.1, k.0)))))
            (Learns-weaken (λ db k. k.1) (entries_from-Learns e zero (suc size) ps)))
    entries_from-Learns e (suc skip) (suc size) (p ∷ ps) =
        Learns-bind _
          (Follows-Learns (AllOwned-persists user (p ∷ ps)) (Follows-utc_now Stable-IsPreorder))
          (λ now.
            Learns-branch _ _ _
              (Learns-weaken (λ db k. k.1) (entries_from-Learns e skip (suc size) ps))
              (Learns-weaken (λ db k. k.1) (entries_from-Learns e (suc skip) (suc size) ps)))

  module _ (c : Crates) (h : HeaderMap) (cfg : Config) where
    list_for-Learns :
        (i : Identity) (params : ListParams)
        → Learns S
            (λ xs db. (user : Text) × (i.user_id ≡ some user) × AllShown user xs db)
            Nothing
            (list_for c cfg i params)
    unfolding list_for ◌>>◌
    list_for-Learns i params = Learns-some i.user_id _ _ (λ user owned.
        Learns-bind _ (Follows-Learns Nothing-persists (Follows-conn Stable-IsPreorder)) (λ _.
          Learns-bind _ (groups_find-Learns user) (λ gs.
            let ids = map (λ (g : Group). g.uuid) gs in
            Learns-bind _
              (passwords_find-Learns ids
                (λ a b s k. (All-map (λ g o. s.groups g.uuid user o) gs k.0, k.1)))
              (λ ps.
                Learns-weaken
                  (λ db k.
                    let known =
                      map-All (λ (g : Group). g.uuid) (λ id. Belongs id user db) gs k.1.0 in
                    (
                      All-map
                          (λ p x.
                            same_owner db p.uuid p.group_id user
                              (named db user p.group_id ids known x.1) x.0)
                          ps k.0,
                      tt,
                    ))
                  (Learns-frame {P = Unit} (λ xs db q u. (user, owned, q))
                    (entries_from-Learns c h cfg i user _ _ _ ps))))))

    pub list_handler-Learns :
        (ip : Text) (params : ListParams)
        → Learns S
            (λ xs db.
              (user : Text) × WasLetIn S c h ip user
              × All (λ (x : PasswordEntry). Owned x.uuid user db) xs)
            Nothing
            (list_handler c cfg h ip params)
    unfolding list_handler
    list_handler-Learns ip params = Learns-bind _ (validate_auth-Learns c h ip) (λ i.
        Learns-weaken (λ db k. (tt, k))
          (Learns-frame
            (λ xs db q k.
              let same : q.0 ≡ k.0 = ground (arith, q.1, k.1) in
              (k.0, k.2, subst (λ u. All (λ (x : PasswordEntry). Owned x.uuid u db) xs) same q.2))
            (list_for-Learns i params)))
