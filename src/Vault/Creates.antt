-- ===== src/Vault/Creates.antt =====
-- What creating a password does to the vault.
use password_manager_server.Prelude.{
  ◌≡◌, refl, sym, ◌∙◌, ap, none, some, true, Text, ◌==◌, ==_iff, find, arith, inl, inr, ℕ, [], ◌∷◌,
  ◌++◌, Option, Bool,
}
use password_manager_server.Error.{AppError, ok, refused, validate_length}
use password_manager_server.Crates.{Crates, HeaderMap}
use password_manager_server.Config.{Config}
use password_manager_server.Schema.{Db, Identity, Group, Password, NewPassword}
use password_manager_server.Prog.{
  World, Prog, run, program, ◌>>=◌, ◌>>◌, ok_or, lift, guard, conn, draw, utc_now, attempt, pure,
  QueryResult,
}
use password_manager_server.Prog.Runs.{run-bind-ok}
use password_manager_server.Crypto.{encrypt_db}
use password_manager_server.Domain.Rows.{passwords_clash, has_group}
use password_manager_server.Domain.Outcome.{insert_row-cases}
use password_manager_server.Domain.Group
use password_manager_server.Domain.Password
use password_manager_server.Effects.Atomic.{
  Reads-ok_or, Reads-lift, Reads-conn, Reads-guard, Reads-draw, Reads-utc_now, Reads-attempt,
  group_find_by_uuid-Reads, reads_rules,
}
use password_manager_server.Effects.Atomic.Requests.{
  auth-Reads, encrypt-Reads, decrypt-Reads, seal-Reads,
}
use password_manager_server.Routes.Auth.{validate_auth}
use password_manager_server.Routes.Auth.Exact.{IsAuthentic, validate_auth-IsAuthentic}
use password_manager_server.Routes.Passwords.{
  unwrap_or, validate_extra, days_of_request, CreatePasswordRequest, PasswordEntry, create_for,
  create_handler, encrypt_for_client, decrypt_from_client,
}
use password_manager_server.Routes.Groups.{extra_or_default}
use password_manager_server.Vault.{owner_of, vault, put, SameVault}
use password_manager_server.Vault.Puts.{insert-SameVault, fresh-vault, fresh-find, found-owner}
use password_manager_server.Vault.Writes.{Puts}
use password_manager_server.Vault.Peel.{Ends, peel, then_reads, ok_or-ok}

insert-row :
    (new : NewPassword) (v : World) (before after : Db) (row : Password)
    → (run (attempt (Password.create new)) v).0 ≡ ok row
    → v.db ≡ before
    → (run (attempt (Password.create new)) v).1.db ≡ after
    → Password.insert new v.now before ≡ (ok row, after)
unfolding program Password.create
insert-row new v before after row h e k = ground arith

-- The answer carries the identifier of the row.
answered-uuid :
    (m : Prog Text) (entry : Text → ℕ → PasswordEntry) (v : World) (e : PasswordEntry) (u : Text)
    → ((t : Text) (now : ℕ) → (entry t now).uuid ≡ u)
    → (run (m >>= λ t. utc_now >>= λ now. pure (entry t now)) v).0 ≡ ok e
    → e.uuid ≡ u
unfolding program
answered-uuid m entry v e u same h =
    let (t, _, r) = run-bind-ok m _ v h in
    let whole : entry t (run m v).1.now ≡ e = ground (arith, r) in
    ap (λ x. x.uuid) (sym whole) ∙ same t (run m v).1.now

guard-ok : (b : Bool) (e : AppError) (w : World) → (run (guard b e) w).0 ≡ ok tt → b ≡ true
unfolding program
guard-ok b e w h = ground arith

group-found :
    (id : Text) (w : World) (o : Option Group)
    → (run (attempt (Group.find_by_uuid id)) w).0 ≡ ok o
    → find (λ (g : Group). g.uuid == id) w.db.groups ≡ o
unfolding program Group.find_by_uuid
group-found id w o h = ground arith

-- A creation that succeeds has inserted a row in a group of the device's user.
record Creates (i : Identity) (req : CreatePasswordRequest) (before after : Db) (e : PasswordEntry)
    : Type 0 where
  pub user : Text
  pub owner : i.user_id ≡ some user
  pub group : Group
  pub found : find (λ (g : Group). g.uuid == req.group_id) before.groups ≡ some group
  pub owned : group.user_id ≡ user
  pub new : NewPassword
  pub grouped : new.group_id ≡ req.group_id
  pub now : ℕ
  pub row : Password
  pub inserted : Password.insert new now before ≡ (ok row, after)
  pub shown : e.uuid ≡ row.uuid

module _ (c : Crates) (cfg : Config) (i : Identity) (req : CreatePasswordRequest) where
  created_for :
      (w : World) (e : PasswordEntry) (before after : Db)
      → Ends (create_for c cfg i req) w before after e
      → Creates i req before after e
  unfolding create_for ◌>>◌
  created_for w e before after h =
      peel (ok_or i.user_id refused) _ (Reads-ok_or _ _) h λ user w1 owner _ h.
        peel conn _ Reads-conn h λ _ _ _ _ h.
          peel (decrypt_from_client c cfg req.pwd i) _ (decrypt-Reads c cfg req.pwd i) h
            λ plain _ _ _ h.
              peel (encrypt_db c plain cfg.database_encrypt_secret) _ (seal-Reads c plain _) h
                λ sealed w5 _ _ h.
                  peel (attempt (Group.find_by_uuid req.group_id)) _
                    (Reads-attempt _ (group_find_by_uuid-Reads _)) h
                    λ o w6 found at_w5 h.
                      peel (ok_or o refused) _ (Reads-ok_or _ _) h λ g w7 some_g _ h.
                        peel (guard (g.user_id == user) refused) _ (Reads-guard _ _) h
                          λ _ _ owned _ h. peel draw _ Reads-draw h λ n _ _ _ h.
                            peel utc_now _ Reads-utc_now h λ since w9 _ _ h.
                              let new : NewPassword = record {
                                uuid = c.new_v4 n;
                                group_id = req.group_id;
                                pwd = c.hex_encode sealed;
                                name = unwrap_or req.name [];
                                extra = extra_or_default req.extra;
                                valid_since_days = days_of_request req.valid_since_days;
                                valid_since = since;
                              } in
                              then_reads (attempt (Password.create new)) _
                                (λ row. search (reads_rules, encrypt-Reads) depth 30) h
                                λ row v made at_w9 written answered. record {
                                  user = user;
                                  owner = ok_or-ok i.user_id refused w user owner;
                                  group = g;
                                  found = rw at_w5 at (
                                      group-found req.group_id w5 o found
                                      ∙ ok_or-ok o refused w6 g some_g);
                                  owned =
                                      (==_iff g.user_id user).0
                                        (guard-ok (g.user_id == user) refused w7 owned);
                                  new = new;
                                  grouped = refl;
                                  now = w9.now;
                                  row = row;
                                  inserted = insert-row new w9 before after row made at_w9 written;
                                  shown =
                                      answered-uuid (encrypt_for_client c cfg row.pwd i) _ v e
                                        row.uuid (λ t now. refl) answered;
                                }

insert-SameVault_row :
    (new : NewPassword) (now : ℕ) (db b : Db) (row : Password) (user : Text)
    → Password.insert new now db ≡ (ok row, b)
    → owner_of db new.group_id ≡ some user
    → (row.uuid ≡ new.uuid)
      × ((u : Text) → vault db u row.uuid ≡ none)
      × SameVault (put user row.uuid row (vault db)) (vault b)
unfolding Password.insert
insert-SameVault_row new now db b row user done owner =
    elim (insert_row-cases passwords_clash (has_group db.groups new.group_id)
      (Password.row_of now new) db.passwords) [
        | inl (x, r) ↦ absurd (let n = rw (r, Password.insert) at done in ground arith)
        | inr (fresh, _, r) ↦
            let new_row : Password = Password.row_of now new in
            let after : Db = record db { passwords = db.passwords ++ new_row ∷ [] } in
            let outcome : QueryResult Password × Db = (ok new_row, after) in
            let whole : outcome ≡ (ok row, b) = rw (r, Password.insert) at done in
            let same_row : new_row ≡ row = ground (arith, whole) in
            let same_db : after ≡ b = ap (λ x. x.1) whole in
            let unseen = fresh-find new_row db.passwords fresh in
            rw (← same_row, ← same_db)
              (
                refl,
                λ u. fresh-vault db u new.uuid unseen,
                insert-SameVault db user new.uuid new_row refl unseen owner,
              )
      ]

module _ (c : Crates) (cfg : Config) (h : HeaderMap) (ip : Text) (req : CreatePasswordRequest) where
  entered :
      (w : World) (e : PasswordEntry) (after : Db)
      → Ends (create_handler c cfg h ip req) w w.db after e
      → (i : Identity) × IsAuthentic c h ip w.db i × Creates i req w.db after e
  unfolding create_handler ◌>>◌
  entered w e after k =
      peel (lift (validate_length "password name" (unwrap_or req.name []) 256)) _ (Reads-lift _) k
        λ _ _ _ _ k. peel (lift (validate_extra req.extra)) _ (Reads-lift _) k λ _ v _ _ k.
          peel (validate_auth c h ip) _ (auth-Reads c h ip) k λ i v' let_in at_v k. (
            i,
            rw at_v at (validate_auth-IsAuthentic c h ip v i let_in),
            created_for c cfg i req v' e w.db after k,
          )

  -- A creation adds a password of the user's, under an identifier that nobody had.
  pub create_handler-Puts :
      (w : World) (e : PasswordEntry)
      → (run (create_handler c cfg h ip req) w).0 ≡ ok e
      → (user : Text) × (row : Password) × ((u : Text) → vault w.db u e.uuid ≡ none)
        × Puts c h ip w.db (run (create_handler c cfg h ip req) w).1.db user e.uuid row
  create_handler-Puts w e k =
      let after = (run (create_handler c cfg h ip req) w).1.db in
      let (i, a, made) = entered w e after (record { result = k; tables = refl; written = refl }) in
      let owner : owner_of w.db made.new.group_id ≡ some made.user =
        rw (made.grouped, ← made.owned) (found-owner w.db req.group_id made.group made.found) in
      let (named, unseen, written) =
        insert-SameVault_row made.new made.now w.db after made.row made.user made.inserted owner in
      (
        made.user,
        made.row,
        rw made.shown unseen,
        record {
          device = i;
          authentic = a;
          owner = made.owner;
          named = sym made.shown;
          written = rw made.shown written;
        },
      )
