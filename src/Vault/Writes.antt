-- ===== src/Vault/Writes.antt =====
-- What the two handlers that write a password do to the vault.
use password_manager_server.Prelude.{
  ℕ, ◌≡◌, refl, sym, ◌∙◌, ap, some, true, Text, ◌==◌, ==_iff, find, find-holds, modify, arith, inl,
  inr,
}
use password_manager_server.Error.{ok}
use password_manager_server.Crates.{Crates, HeaderMap}
use password_manager_server.Config.{Config}
use password_manager_server.Schema.{Db, Identity, Password, UpdatePassword}
use password_manager_server.Prog.{World, run, QueryResult}
use password_manager_server.Domain.Rows.{passwords_clash, has_group}
use password_manager_server.Domain.Outcome.{update_row-cases}
use password_manager_server.Domain.Password
use password_manager_server.Routes.Auth.Exact.{IsAuthentic}
use password_manager_server.Routes.Passwords.{UpdatePasswordRequest, update_handler}
use password_manager_server.Routes.Passwords.Isolation.{update_handler-MayWrite}
use password_manager_server.Vault.{owner_of, vault, put, SameVault}
use password_manager_server.Vault.Puts.{at, update-SameVault, stored-vault, found-owner}

-- An approved device of the user writes the user's password `id`, and nothing else in the vault.
pub record Puts (c : Crates) (h : HeaderMap) (ip : Text) (before after : Db) (user id : Text)
    (row : Password) : Type 0 where
  pub device : Identity
  pub authentic : IsAuthentic c h ip before device
  pub owner : device.user_id ≡ some user
  pub named : row.uuid ≡ id
  pub written : SameVault (put user id row (vault before)) (vault after)

set_row-SameVault :
    (uuid user : Text) (changes : UpdatePassword) (stamp now : ℕ) (db b : Db) (p row : Password)
    (gid : Text)
    → changes.group_id ≡ some gid
    → find (at uuid) db.passwords ≡ some p
    → owner_of db p.group_id ≡ some user
    → owner_of db gid ≡ some user
    → Password.set_row uuid changes stamp now db ≡ (ok row, b)
    → (row.uuid ≡ uuid) × SameVault (put user uuid row (vault db)) (vault b)
unfolding Password.set_row Password.apply
set_row-SameVault uuid user changes stamp now db b p row gid moved stored owner owner' done =
    elim (update_row-cases passwords_clash (at uuid) (Password.apply changes stamp)
      (λ p. has_group db.groups p.group_id) db.passwords) [
        | inl (x, r) ↦ absurd (let n = rw (r, Password.set_row) at done in ground arith)
        | inr (old, (found, _, _, r)) ↦
            let change = Password.apply changes stamp in
            let after : Db = record db { passwords = modify (at uuid) change db.passwords } in
            let outcome : QueryResult Password × Db = (ok (change old), after) in
            let whole : outcome ≡ (ok row, b) = rw (r, Password.set_row) at done in
            let new_row : change old ≡ row = ground (arith, whole) in
            let new_db : after ≡ b = ap (λ x. x.1) whole in
            let same : p ≡ old = ground (arith, found, stored) in
            let hit : (old.uuid == uuid) ≡ true = find-holds (at uuid) db.passwords found in
            let owned : owner_of db old.group_id ≡ some user = rw same at owner in
            let owned' : owner_of db (change old).group_id ≡ some user = rw moved owner' in
            rw (← new_row, ← new_db)
              (
                (==_iff old.uuid uuid).0 hit,
                update-SameVault db user uuid change old (λ q. refl) found owned owned',
              )
      ]

module _ (c : Crates) (cfg : Config) (h : HeaderMap) (ip uuid : Text) (w : World) where
  -- An update replaces a password of the user's.
  pub update_handler-Puts :
      (req : UpdatePasswordRequest)
      → (run (update_handler c cfg h ip uuid req) w).0 ≡ ok tt
      → (user : Text) × (row old : Password) × (vault w.db user uuid ≡ some old)
        × Puts c h ip w.db (run (update_handler c cfg h ip uuid req) w).1.db user uuid row
  update_handler-Puts req k =
      let (i, p, g, t, a, m, target, owner, wr) = update_handler-MayWrite c h ip w cfg uuid req k in
      let owner_p = found-owner w.db p.group_id g m.grouped in
      let same_user : some g.user_id ≡ some t.user_id = sym m.owned ∙ owner in
      let owner_t : owner_of w.db req.group_id ≡ some g.user_id =
        found-owner w.db req.group_id t target ∙ sym same_user in
      let (named, put) =
        set_row-SameVault uuid g.user_id _ w.now w.now w.db _ p wr.row req.group_id refl m.stored
          owner_p owner_t wr.done in
      (
        g.user_id,
        wr.row,
        p,
        stored-vault w.db g.user_id uuid p m.stored owner_p,
        record { device = i; authentic = a; owner = m.owned; named = named; written = put },
      )
