-- ===== src/Vault/Made.antt =====
-- `create_handler` of src/routes/passwords.rs among other requests: what it answers with is the user's.
use mathlib.Core.Path.{subst}
use password_manager_server.Prelude.{
  ◌≡◌, refl, ◌∙◌, ℕ, some, true, [], ◌∷◌, Text, ◌==◌, ==_iff, find, arith, inl, inr,
}
use password_manager_server.Crates.{Crates, HeaderMap}
use password_manager_server.Config.{Config}
use password_manager_server.Error.{ok, refused}
use password_manager_server.Schema.{Db, Identity, Password, Group, NewPassword}
use password_manager_server.Prog.{◌>>◌, attempt}
use password_manager_server.Domain.Rows.{passwords_clash, has_group}
use password_manager_server.Domain.Outcome.{insert_row-cases}
use password_manager_server.Domain.Password
use password_manager_server.Routes.Passwords.{CreatePasswordRequest, create_for, create_handler}
use password_manager_server.Effects.Steps.{
  Follows-conn, Follows-utc_now, Follows-draw, Follows-lift,
}
use password_manager_server.Effects.Handlers.{seal-Follows}
use password_manager_server.Effects.Data.{encrypt-Follows, decrypt-Follows}
use password_manager_server.Vault.{owner_of}
use password_manager_server.Vault.Puts.{at, fresh-find, find-append-none}
use password_manager_server.Vault.Stable.{Stable-IsPreorder, insert_password-Stable}
use password_manager_server.Vault.Learns.{
  Knowledge, Persists, Learns, Learns-bind, Learns-weaken, Learns-some, Learns-ok_or, Learns-make,
  Learns-pure, Learns-frame, Follows-Learns,
}
use password_manager_server.Vault.Guards.{
  Nothing, Nothing-persists, Belongs, Owned, group_find-Learns, same_user-Learns,
}
use password_manager_server.Vault.Shows.{WasLetIn, validate_auth-Learns}

made-Owned :
    (new : NewPassword) (user : Text) (now : ℕ) (db : Db) (a : Password)
    → Belongs new.group_id user db
    → (Password.insert new now db).0 ≡ ok a
    → Owned a.uuid user (Password.insert new now db).1
unfolding Password.insert owner_of find
made-Owned new user now db a k h =
    elim (insert_row-cases passwords_clash (has_group db.groups new.group_id)
      (Password.row_of now new) db.passwords) [
        | inl (e, r) ↦ absurd (let n = rw (r, Password.insert) at h in ground arith)
        | inr (fresh, _, r) ↦
            let row = Password.row_of now new in
            let whole = rw (r, Password.insert) at h in
            let same : row ≡ a = ground (arith, whole) in
            let self : (row.uuid == row.uuid) ≡ true = (==_iff row.uuid row.uuid).1 refl in
            let there =
              find-append-none (at row.uuid) db.passwords (row ∷ [])
                (fresh-find row db.passwords fresh) in
            let last : find (at row.uuid) (row ∷ []) ≡ some row = rw (find, self) refl in
            rw (r, Password.insert, ← same) (record { row = row; stored = there ∙ last; owner = k })
      ]

module _ {S : Knowledge} where
  password_create-Learns :
      (new : NewPassword) (user : Text)
      → Learns S
          (λ a db. Owned a.uuid user db × Belongs new.group_id user db)
          (Belongs new.group_id user)
          (attempt (Password.create new))
  unfolding Password.create
  password_create-Learns new user =
      Learns-make (λ a b s k. s.groups new.group_id user k) _ _
        (λ a x y s o. s.passwords a.uuid user o) (insert_password-Stable new)
        (λ now db k a e. made-Owned new user now db a k e)

  module _ (c : Crates) (h : HeaderMap) (cfg : Config) where
    create_for-Learns :
        (i : Identity) (req : CreatePasswordRequest)
        → Learns S
            (λ x db. (user : Text) × (i.user_id ≡ some user) × Owned x.uuid user db)
            Nothing
            (create_for c cfg i req)
    unfolding create_for ◌>>◌
    create_for-Learns i req = Learns-some i.user_id _ _ (λ user owned.
        let keeps : Persists (Belongs req.group_id user) =
          λ a b s k. s.groups req.group_id user k in
        Learns-bind _ (Follows-Learns Nothing-persists (Follows-conn Stable-IsPreorder)) (λ _.
          Learns-bind _
            (Follows-Learns Nothing-persists (decrypt-Follows Stable-IsPreorder c h cfg req.pwd i))
            (λ plain.
              Learns-bind _
                (Follows-Learns Nothing-persists
                  (seal-Follows Stable-IsPreorder c plain cfg.database_encrypt_secret))
                (λ sealed. Learns-bind _ (group_find-Learns req.group_id Nothing-persists) (λ found.
                  Learns-bind {Q = λ (g : Group) db. Belongs req.group_id g.user_id db × Nothing db}
                    _ (Learns-ok_or found refused (λ g e db x. (x.0 g e, tt)))
                    (λ group.
                      Learns-bind _ (same_user-Learns (Belongs req.group_id) group.user_id user)
                        (λ _.
                          Learns-weaken (λ db k. k.0)
                            (Learns-bind _ (Follows-Learns keeps (Follows-draw Stable-IsPreorder))
                              (λ n.
                                Learns-bind _
                                  (Follows-Learns keeps (Follows-utc_now Stable-IsPreorder))
                                  (λ since. Learns-bind _ (password_create-Learns _ user) (λ p.
                                    let kept : Persists (Owned p.uuid user) =
                                      λ a b s k. s.passwords p.uuid user k in
                                    Learns-weaken (λ db k. k.0)
                                      (Learns-bind _
                                        (Follows-Learns kept
                                          (encrypt-Follows Stable-IsPreorder c h cfg p.pwd i))
                                        (λ sent.
                                          Learns-bind _
                                            (Follows-Learns kept
                                              (Follows-utc_now Stable-IsPreorder))
                                            (λ now.
                                              Learns-pure _ (λ db k. (user, owned, k))))))))))))))))

    pub create_handler-Learns :
        (ip : Text) (req : CreatePasswordRequest)
        → Learns S
            (λ x db. (user : Text) × WasLetIn S c h ip user × Owned x.uuid user db)
            Nothing
            (create_handler c cfg h ip req)
    unfolding create_handler ◌>>◌
    create_handler-Learns ip req =
        Learns-bind _ (Follows-Learns Nothing-persists (Follows-lift _)) (λ _.
          Learns-bind _ (Follows-Learns Nothing-persists (Follows-lift _)) (λ _.
            Learns-bind _ (validate_auth-Learns c h ip) (λ i.
              Learns-weaken (λ db k. (tt, k))
                (Learns-frame
                  (λ x db q k.
                    let same : q.0 ≡ k.0 = ground (arith, q.1, k.1) in
                    (k.0, k.2, subst (λ u. Owned x.uuid u db) same q.2))
                  (create_for-Learns i req)))))
