-- ===== src/Routes/Passwords/Isolation.antt =====
-- `get_handler` and `update_handler` of src/routes/passwords.rs, run alone: who may use them, what they show
-- and what they write.
use password_manager_server.Prelude.{
  ℕ, ◌≢◌, Option, Bool, true, false, List, ◌∷◌, ==_iff, length, modify, find-holds, find-modify,
  Bool-cases, ◌≡◌, refl, ◌∙◌, sym, ap, none, some, [], Text, ◌==◌, find, Bytes, arith, Option-cases,
  inl, inr, ◌⊎◌,
}
use password_manager_server.Error.{DbError, ok, err, validate_length}
use password_manager_server.Crates.{Crates, HeaderMap}
use password_manager_server.Config.{Config}
use password_manager_server.Schema.{Db, Identity, Group, Password, UpdatePassword}
use password_manager_server.Prog.{World, Prog, QueryResult, run, program, ◌>>=◌, pure, utc_now}
use password_manager_server.Error.Cases.{Result-cases}
use password_manager_server.Prog.Runs.{run-bind, run-bind-ok}
use password_manager_server.Crypto.{
  encrypt_with_shared_key, decrypt_with_shared_key, decrypt_db, derive_shared_key, seal,
}
use password_manager_server.Domain.Rows.{changed, passwords_clash, has_group}
use password_manager_server.Domain.Outcome.{update_row-cases}
use password_manager_server.Domain.Group
use password_manager_server.Domain.Password
use password_manager_server.Routes.Auth.{validate_auth}
use password_manager_server.Routes.Auth.Exact.{
  IsAuthentic, validate_auth-IsAuthentic, validate_auth-world,
}
use password_manager_server.Routes.Passwords.{
  PasswordDetail, UpdatePasswordRequest, get_handler, update_handler, unwrap_or, validate_extra,
  get_for, update_for, decrypt_from_client, encrypt_for_client, days_remaining,
}

-- The device `i` may read `uuid`: it belongs to the user whose group the password is in.
pub record MayRead (db : Db) (i : Identity) (uuid : Text) (p : Password) (g : Group) : Type 0 where
  pub stored : find (λ (q : Password). q.uuid == uuid) db.passwords ≡ some p
  pub grouped : find (λ (h : Group). h.uuid == p.group_id) db.groups ≡ some g
  pub owned : i.user_id ≡ some g.user_id

-- What is shown of a password: its columns, the stored text sealed anew for the device, and the days that
-- are left now.
pub record Shows (c : Crates) (cfg : Config) (i : Identity) (w : World) (detail : PasswordDetail)
    (p : Password) (g : Group) : Type 0 where
  pub text : (run (encrypt_for_client c cfg p.pwd i) w).0 ≡ ok detail.pwd
  pub expires : detail.expires ≡ days_remaining w.now p.valid_since p.valid_since_days
  pub created : detail.created_at ≡ c.format_time p.created_at
  pub updated : detail.updated_at ≡ c.format_time p.updated_at
  pub uuid : detail.uuid ≡ p.uuid
  pub name : detail.name ≡ p.name
  pub extra : detail.extra ≡ p.extra
  pub days : detail.valid_since_days ≡ p.valid_since_days
  pub group_name : detail.group.name ≡ g.name
  pub group_extra : detail.group.extra ≡ g.extra

module _ (c : Crates) (cfg : Config) (i : Identity) (w : World) where
  encrypt_for_client-now :
      (t sent : Text)
      → (run (encrypt_for_client c cfg t i) w).0 ≡ ok sent
      → (run (encrypt_for_client c cfg t i) w).1.now ≡ w.now
  unfolding program encrypt_for_client encrypt_with_shared_key
  encrypt_for_client-now t sent h = ground arith

  -- What `get_for` does behind its guards.
  showing : Password → Group → Prog PasswordDetail
  showing p g = encrypt_for_client c cfg p.pwd i >>= λ sent. utc_now >>= λ now. pure (record {
    uuid = p.uuid;
    pwd = sent;
    name = p.name;
    extra = p.extra;
    expires = days_remaining now p.valid_since p.valid_since_days;
    created_at = c.format_time p.created_at;
    updated_at = c.format_time p.updated_at;
    valid_since_days = p.valid_since_days;
    group = record { name = g.name; extra = g.extra };
  })

  showing-Shows :
      (p : Password) (g : Group) (detail : PasswordDetail)
      → (run (showing p g) w).0 ≡ ok detail
      → Shows c cfg i w detail p g
  unfolding program showing
  showing-Shows p g detail h =
      let (sent, sealed, k) = run-bind-ok (encrypt_for_client c cfg p.pwd i) _ w h in
      let clock = encrypt_for_client-now p.pwd sent sealed in ground (arith, sealed, clock, k)

module _ (c : Crates) (cfg : Config) (i : Identity) (uuid : Text) (w : World) where
  read_for :
      (detail : PasswordDetail)
      → (run (get_for c cfg i uuid) w).0 ≡ ok detail
      → (p : Password) × (g : Group) × MayRead w.db i uuid p g × Shows c cfg i w detail p g
  unfolding program showing get_for Group.find_by_uuid Password.find_by_uuid
  read_for detail h = elim (Option-cases (find (λ (q : Password). q.uuid == uuid) w.db.passwords)) [
    | inl e ↦ absurd (ground arith)
    | inr (p, e) ↦ elim (Option-cases (find (λ (g : Group). g.uuid == p.group_id) w.db.groups)) [
      | inl f ↦ absurd (ground arith)
      | inr (g, f) ↦ (
        p,
        g,
        record { stored = e; grouped = f; owned = ground arith },
        showing-Shows c cfg i w p g detail (ground arith),
      )
    ]
  ]

-- A column that is replaced if a value is given.
abbrev pub replaced : Option Text → Text → Text
replaced none old = old
replaced (some t) old = t

-- What an update writes: the device's text, sealed again under the key of the database, the group, and
-- the name and the extra if they are given; the window starts at the time of the update. Every other row
-- and every other table is as it was.
pub record Writes (c : Crates) (cfg : Config) (i : Identity) (req : UpdatePasswordRequest)
    (uuid : Text) (w : World) (b : Db) : Type 0 where
  pub plain : Bytes
  pub sealed : Bytes
  pub received : (run (decrypt_from_client c cfg req.pwd i) w).0 ≡ ok plain
  pub locked : seal c (c.nonce w.draws) plain cfg.database_encrypt_secret ≡ ok sealed
  pub old : Password
  pub row : Password
  pub before : find (λ (q : Password). q.uuid == uuid) w.db.passwords ≡ some old
  pub after : find (λ (q : Password). q.uuid == uuid) b.passwords ≡ some row
  pub new_row : row ≡ record {
    uuid = old.uuid;
    group_id = req.group_id;
    pwd = c.hex_encode sealed;
    name = replaced req.name old.name;
    extra = replaced req.extra old.extra;
    valid_since_days = old.valid_since_days;
    created_at = old.created_at;
    updated_at = w.now;
    valid_since = w.now;
  }
  pub others :
      (id : Text)
      → (id == uuid) ≡ false
      → find (λ (q : Password). q.uuid == id) b.passwords
        ≡ find (λ (q : Password). q.uuid == id) w.db.passwords
  pub same_size : length b.passwords ≡ length w.db.passwords
  pub same_tables :
      (b.users ≡ w.db.users) × (b.identities ≡ w.db.identities) × (b.groups ≡ w.db.groups)
  pub done :
      Password.set_row uuid
        (record {
          pwd = some (c.hex_encode sealed);
          group_id = some req.group_id;
          name = req.name;
          extra = req.extra;
          valid_since_days = none;
        })
        w.now
        w.now
        w.db
      ≡ (ok row, b)

-- The same, as it is run.
record Ran (c : Crates) (cfg : Config) (i : Identity) (req : UpdatePasswordRequest) (uuid : Text)
    (w : World) (b : Db) : Type 0 where
  pub plain : Bytes
  pub sealed : Bytes
  pub received : (run (decrypt_from_client c cfg req.pwd i) w).0 ≡ ok plain
  pub locked : seal c (c.nonce w.draws) plain cfg.database_encrypt_secret ≡ ok sealed
  pub row : Password
  pub done :
      Password.set_row uuid
        (record {
          pwd = some (c.hex_encode sealed);
          group_id = some req.group_id;
          name = req.name;
          extra = req.extra;
          valid_since_days = none;
        })
        w.now
        w.now
        w.db
      ≡ (ok row, b)

-- What setting a row does to the table, row by row.
record Sets (uuid : Text) (changes : UpdatePassword) (stamp : ℕ) (db b : Db) (row : Password)
    : Type 0 where
  pub old : Password
  pub before : find (λ (q : Password). q.uuid == uuid) db.passwords ≡ some old
  pub after : find (λ (q : Password). q.uuid == uuid) b.passwords ≡ some row
  pub new_row : Password.apply changes stamp old ≡ row
  pub others :
      (id : Text)
      → (id == uuid) ≡ false
      → find (λ (q : Password). q.uuid == id) b.passwords
        ≡ find (λ (q : Password). q.uuid == id) db.passwords
  pub same_size : length b.passwords ≡ length db.passwords
  pub same_tables : (b.users ≡ db.users) × (b.identities ≡ db.identities) × (b.groups ≡ db.groups)

Bool-not : (b : Bool) → (b ≢ true) → b ≡ false
Bool-not true h = absurd (h refl)
Bool-not false h = refl

Bool-both : (b : Bool) → b ≡ false → b ≢ true
Bool-both true h k = cc
Bool-both false h k = cc

modify-others :
    (uuid id : Text) (f : Password → Password) (ps : List Password)
    → ((p : Password) → (f p).uuid ≡ p.uuid)
    → (id == uuid) ≡ false
    → find (λ (q : Password). q.uuid == id) (modify (λ (q : Password). q.uuid == uuid) f ps)
      ≡ find (λ (q : Password). q.uuid == id) ps
unfolding find modify
modify-others uuid id f [] keep n = refl
modify-others uuid id f (p ∷ ps) keep n = elim (Bool-cases (p.uuid == uuid)) [
  | inl e ↦
      let same : p.uuid ≡ uuid = (==_iff p.uuid uuid).0 e in
      let miss : (p.uuid == id) ≡ false =
        Bool-not _
          (λ t. Bool-both _ n ((==_iff id uuid).1 (sym ((==_iff p.uuid id).0 t) ∙ same))) in
      rw (e, keep p, miss) (modify-others uuid id f ps keep n)
  | inr e ↦ ground (arith, e, modify-others uuid id f ps keep n)
]

length-modify :
    (p : Password → Bool) (f : Password → Password) (ps : List Password)
    → length (modify p f ps) ≡ length ps
unfolding modify
length-modify p f [] = refl
length-modify p f (x ∷ xs) = ground (arith, length-modify p f xs)

set_row-Sets :
    (uuid : Text) (changes : UpdatePassword) (stamp now : ℕ) (db b : Db) (row : Password)
    → Password.set_row uuid changes stamp now db ≡ (ok row, b)
    → Sets uuid changes stamp db b row
unfolding Password.set_row Password.apply
set_row-Sets uuid changes stamp now db b row done =
    elim (update_row-cases passwords_clash (λ (q : Password). q.uuid == uuid)
      (Password.apply changes stamp) (λ p. has_group db.groups p.group_id) db.passwords) [
        | inl (x, r) ↦ absurd (let n = rw (r, Password.set_row) at done in ground arith)
        | inr (old, (found, _, _, r)) ↦
            let change = Password.apply changes stamp in
            let at : Password → Bool = λ q. q.uuid == uuid in
            let after : Db = record db { passwords = modify at change db.passwords } in
            let outcome : QueryResult Password × Db = (ok (change old), after) in
            let whole : outcome ≡ (ok row, b) = rw (r, Password.set_row) at done in
            let new_row : change old ≡ row = ground (arith, whole) in
            let new_db : after ≡ b = ap (λ x. x.1) whole in
            let hit : (old.uuid == uuid) ≡ true = find-holds at db.passwords found in
            let there = find-modify at at change db.passwords (λ q. refl) found in
            rw (← new_db) (record {
              old = old;
              before = found;
              after = rw (← new_row) (rw hit at there);
              new_row = new_row;
              others = λ id n. modify-others uuid id change db.passwords (λ q. refl) n;
              same_size = length-modify at change db.passwords;
              same_tables = (refl, refl, refl);
            })
      ]

replaced-changed : (o : Option Text) (t : Text) → replaced o t ≡ changed o t
replaced-changed none t = refl
replaced-changed (some u) t = refl

Ran-Writes :
    (c : Crates) (cfg : Config) (i : Identity) (req : UpdatePasswordRequest) (uuid : Text)
    (w : World) (b : Db)
    → Ran c cfg i req uuid w b
    → Writes c cfg i req uuid w b
unfolding Password.apply
Ran-Writes c cfg i req uuid w b r =
    let s = set_row-Sets uuid _ w.now w.now w.db b r.row r.done in
    record {
      plain = r.plain;
      sealed = r.sealed;
      received = r.received;
      locked = r.locked;
      old = s.old;
      row = r.row;
      before = s.before;
      after = s.after;
      new_row =
          rw (replaced-changed req.name s.old.name, replaced-changed req.extra s.old.extra)
            (sym s.new_row);
      others = s.others;
      same_size = s.same_size;
      same_tables = s.same_tables;
      done = r.done;
    }

module _ (c : Crates) (cfg : Config) (i : Identity) (uuid : Text) (w : World) where
  set_row-ok :
      (changes : UpdatePassword) (r : QueryResult Password × Db)
      → Password.set_row uuid changes w.now w.now w.db ≡ r
      → ((x : DbError) × (r.0 ≡ err x)) ⊎ ((row : Password) × (r ≡ (ok row, r.1)))
  set_row-ok changes (ok row, db) e = inr (row, refl)
  set_row-ok changes (err x, db) e = inl (x, refl)

  written :
      (req : UpdatePasswordRequest) (p : Password) (g t : Group)
      → find (λ (q : Password). q.uuid == uuid) w.db.passwords ≡ some p
      → find (λ (g : Group). g.uuid == p.group_id) w.db.groups ≡ some g
      → find (λ (g : Group). g.uuid == req.group_id) w.db.groups ≡ some t
      → (run (update_for c cfg i uuid req) w).0 ≡ ok tt
      → Ran c cfg i req uuid w (run (update_for c cfg i uuid req) w).1.db
  unfolding program update_for decrypt_from_client encrypt_with_shared_key Group.find_by_uuid
      Password.find_by_uuid Password.update
  written req p g t e f k h = elim (Option-cases (c.hex_decode req.pwd)) [
    | inl l ↦ absurd (ground arith)
    | inr (bytes, l) ↦
        elim (Result-cases (decrypt_db c i.server_private_key cfg.database_encrypt_secret)) [
          | inr (x, m) ↦ absurd (ground arith)
          | inl (private, m) ↦
              elim (Result-cases (derive_shared_key c private i.client_public_key)) [
                | inr (x, n) ↦ absurd (ground arith)
                | inl (shared, n) ↦ elim (Result-cases (decrypt_with_shared_key c bytes shared)) [
                  | inr (x, o) ↦ absurd (ground arith)
                  | inl (plain, o) ↦
                      elim (Result-cases
                        (seal c (c.nonce w.draws) plain cfg.database_encrypt_secret)) [
                          | inr (x, q) ↦ absurd (ground arith)
                          | inl (sealed, q) ↦
                              let changes : UpdatePassword = record {
                                pwd = some (c.hex_encode sealed);
                                group_id = some req.group_id;
                                name = req.name;
                                extra = req.extra;
                                valid_since_days = none;
                              } in
                              elim (set_row-ok changes _ refl) [
                                | inl (x, r) ↦ absurd (ground arith)
                                | inr (row, r) ↦ record {
                                  plain = plain;
                                  sealed = sealed;
                                  received = ground arith;
                                  locked = q;
                                  row = row;
                                  done = ground arith;
                                }
                              ]
                        ]
                ]
              ]
        ]
  ]

  written_for :
      (req : UpdatePasswordRequest)
      → (run (update_for c cfg i uuid req) w).0 ≡ ok tt
      → (p : Password) × (g target : Group) × MayRead w.db i uuid p g
        × (find (λ (g : Group). g.uuid == req.group_id) w.db.groups ≡ some target)
        × (i.user_id ≡ some target.user_id)
        × Writes c cfg i req uuid w (run (update_for c cfg i uuid req) w).1.db
  unfolding program update_for decrypt_from_client encrypt_with_shared_key Group.find_by_uuid
      Password.find_by_uuid Password.update
  written_for req h = elim (Option-cases (find (λ (q : Password). q.uuid == uuid) w.db.passwords)) [
    | inl e ↦ absurd (ground arith)
    | inr (p, e) ↦ elim (Option-cases (find (λ (g : Group). g.uuid == p.group_id) w.db.groups)) [
      | inl f ↦ absurd (ground arith)
      | inr (g, f) ↦
          elim (Option-cases (find (λ (g : Group). g.uuid == req.group_id) w.db.groups)) [
            | inl k ↦ absurd (ground arith)
            | inr (t, k) ↦ (
              p,
              g,
              t,
              record { stored = e; grouped = f; owned = ground arith },
              k,
              ground arith,
              Ran-Writes c cfg i req uuid w _ (written req p g t e f k h),
            )
          ]
    ]
  ]

module _ (c : Crates) (h : HeaderMap) (ip : Text) (w : World) where
  -- Behind the check of the device the handler starts in the world that the request met.
  pub after_auth :
      {A : Type 0} (f : Identity → Prog A) (a : A)
      → (run (validate_auth c h ip >>= f) w).0 ≡ ok a
      → (i : Identity) × IsAuthentic c h ip w.db i
        × (run (validate_auth c h ip >>= f) w ≡ run (f i) w)
  after_auth f a k =
      let (i, e, r) = run-bind-ok (validate_auth c h ip) f w k in
      (
        i,
        validate_auth-IsAuthentic c h ip w i e,
        run-bind (validate_auth c h ip) f w e ∙ ap (run (f i)) (validate_auth-world c h ip w),
      )

  module _ (cfg : Config) (uuid : Text) where
    -- `get_handler` shows a password only to an approved device, at its own address, of the user whose group the
    -- password is in, and what it shows is the stored row, its text sealed anew for the device and its days left,
    -- and its group.
    pub get_handler-MayRead :
        (detail : PasswordDetail)
        → (run (get_handler c cfg h ip uuid) w).0 ≡ ok detail
        → (i : Identity) × (p : Password) × (g : Group) × IsAuthentic c h ip w.db i
          × MayRead w.db i uuid p g
          × Shows c cfg i w detail p g
    unfolding get_handler
    get_handler-MayRead detail k =
        let (i, a, r) = after_auth (λ i. get_for c cfg i uuid) detail k in
        let (p, g, m, s) = read_for c cfg i uuid w detail (ap (λ x. x.0) (sym r) ∙ k) in
        (i, p, g, a, m, s)

    -- A password is written only for an approved device, at its own address, of the user whose group
    -- the password is in and whose group it is moved to; what is written is the row of the password and
    -- nothing else: the text that the device sent, sealed anew, and a window that starts now.
    pub update_handler-MayWrite :
        (req : UpdatePasswordRequest)
        → (run (update_handler c cfg h ip uuid req) w).0 ≡ ok tt
        → (i : Identity) × (p : Password) × (g target : Group) × IsAuthentic c h ip w.db i
          × MayRead w.db i uuid p g
          × (find (λ (g : Group). g.uuid == req.group_id) w.db.groups ≡ some target)
          × (i.user_id ≡ some target.user_id)
          × Writes c cfg i req uuid w (run (update_handler c cfg h ip uuid req) w).1.db
    unfolding program update_handler
    update_handler-MayWrite req k =
        elim (Result-cases (validate_length "password name" (unwrap_or req.name []) 256)) [
          | inr (x, e) ↦ absurd (ground arith)
          | inl (_, e) ↦ elim (Result-cases (validate_extra req.extra)) [
            | inr (x, f) ↦ absurd (ground arith)
            | inl (_, f) ↦
                let same : run (update_handler c cfg h ip uuid req) w
                    ≡ run (validate_auth c h ip >>= λ i. update_for c cfg i uuid req) w =
                  rw (e, update_handler, f) refl in
                let k' : (run (validate_auth c h ip >>= λ i. update_for c cfg i uuid req) w).0
                    ≡ ok tt =
                  rw same at k in
                let (i, a, r) = after_auth (λ i. update_for c cfg i uuid req) tt k' in
                let (p, g, t, m, l, o, d) =
                  written_for c cfg i uuid w req (ap (λ x. x.0) (sym r) ∙ k') in
                (i, p, g, t, a, m, l, o, rw (same ∙ r) d)
          ]
        ]
