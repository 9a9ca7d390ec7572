-- ===== src/Vault/Delivery.antt =====
-- The text of a password, from the device that updates it to the device that gets it.
use password_manager_server.Prelude.{
  ℕ, ◌≡◌, refl, sym, ◌∙◌, ap, Option, some, Text, Bytes, ◌==◌, find, arith,
}
use password_manager_server.Error.{ok, refused}
use password_manager_server.Crates.{Crates, CratesLaws, HeaderMap}
use password_manager_server.Config.{Config}
use password_manager_server.Schema.{Db, Identity, Password}
use password_manager_server.Prog.{
  World, Prog, run, program, ◌>>=◌, ◌>>◌, ok_or, guard, conn, utc_now, attempt, pure,
}
use password_manager_server.Prog.Runs.{run-bind-ok}
use password_manager_server.Crypto.RoundTrip.{seal-decrypt}
use password_manager_server.Domain.Group
use password_manager_server.Domain.Password
use password_manager_server.Effects.Atomic.{
  Reads-ok_or, Reads-conn, Reads-guard, Reads-attempt, group_find_by_uuid-Reads,
  password_find_by_uuid-Reads,
}
use password_manager_server.Effects.Atomic.Requests.{auth-Reads, encrypt-Reads}
use password_manager_server.Routes.Auth.{validate_auth}
use password_manager_server.Routes.Auth.Exact.{IsAuthentic, validate_auth-IsAuthentic}
use password_manager_server.Routes.Passwords.{
  PasswordDetail, UpdatePasswordRequest, get_for, get_handler, update_handler, encrypt_for_client,
  decrypt_from_client,
}
use password_manager_server.Routes.Passwords.Isolation.{update_handler-MayWrite}
use password_manager_server.Routes.Passwords.RoundTrip.{encrypt-decrypt}
use password_manager_server.Vault.Puts.{at}
use password_manager_server.Vault.Peel.{Ends, peel, ok_or-ok}

-- What a get has sent is what `encrypt_for_client` made of the stored text.
record Sends (c : Crates) (cfg : Config) (i : Identity) (uuid : Text) (before : Db) (sent : Text)
    : Type 0 where
  pub row : Password
  pub stored : find (at uuid) before.passwords ≡ some row
  pub world : World
  pub sealed : (run (encrypt_for_client c cfg row.pwd i) world).0 ≡ ok sent

password-found :
    (uuid : Text) (w : World) (before : Db) (o : Option Password) (p : Password)
    → (run (attempt (Password.find_by_uuid uuid)) w).0 ≡ ok o
    → w.db ≡ before
    → o ≡ some p
    → find (at uuid) before.passwords ≡ some p
unfolding program Password.find_by_uuid
password-found uuid w before o p h e k = ground arith

detail-pwd :
    (m : Prog ℕ) (make : ℕ → PasswordDetail) (v : World) (shown : PasswordDetail) (sent : Text)
    → ((now : ℕ) → (make now).pwd ≡ sent)
    → (run (m >>= λ now. pure (make now)) v).0 ≡ ok shown
    → sent ≡ shown.pwd
unfolding program
detail-pwd m make v shown sent same h =
    let (now, _, r) = run-bind-ok m _ v h in
    let whole : make now ≡ shown = ground (arith, r) in sym (same now) ∙ ap (λ d. d.pwd) whole

module _ (c : Crates) (cfg : Config) (uuid : Text) where
  sent_for :
      (i : Identity) (w : World) (before after : Db) (shown : PasswordDetail)
      → Ends (get_for c cfg i uuid) w before after shown
      → Sends c cfg i uuid before shown.pwd
  unfolding get_for ◌>>◌
  sent_for i w before after shown k =
      peel (ok_or i.user_id refused) _ (Reads-ok_or _ _) k λ user _ _ _ k.
        peel conn _ Reads-conn k λ _ w1 _ _ k.
          peel (attempt (Password.find_by_uuid uuid)) _
            (Reads-attempt _ (password_find_by_uuid-Reads _)) k
            λ o w2 found at_w1 k. peel (ok_or o refused) _ (Reads-ok_or _ _) k λ p _ some_p _ k.
              peel (attempt (Group.find_by_uuid p.group_id)) _
                (Reads-attempt _ (group_find_by_uuid-Reads _)) k
                λ og _ _ _ k. peel (ok_or og refused) _ (Reads-ok_or _ _) k λ g _ _ _ k.
                  peel (guard (g.user_id == user) refused) _ (Reads-guard _ _) k λ _ w3 _ _ k.
                    peel (encrypt_for_client c cfg p.pwd i) _ (encrypt-Reads c cfg p.pwd i) k
                      λ sent w4 sealed _ k.
                        let same = detail-pwd utc_now _ w4 shown sent (λ now. refl) k.result in
                        record {
                          row = p;
                          stored =
                              password-found uuid w1 before o p found at_w1
                                (ok_or-ok o refused w2 p some_p);
                          world = w3;
                          sealed = rw same at sealed;
                        }

  sends :
      (h : HeaderMap) (ip : Text) (w : World) (shown : PasswordDetail)
      → (run (get_handler c cfg h ip uuid) w).0 ≡ ok shown
      → (i : Identity) × IsAuthentic c h ip w.db i × Sends c cfg i uuid w.db shown.pwd
  unfolding get_handler
  sends h ip w shown got =
      let start : Ends (get_handler c cfg h ip uuid) w w.db
          (run (get_handler c cfg h ip uuid) w).1.db shown =
        record { result = got; tables = refl; written = refl } in
      peel (validate_auth c h ip) _ (auth-Reads c h ip) start λ i v let_in _ k.
        (i, validate_auth-IsAuthentic c h ip w i let_in, sent_for i v w.db _ shown k)

  -- If the crates keep their laws, a get that succeeds on the tables that an update has left, whatever
  -- else of the world has changed, sends its device a text that opens under the key which that device
  -- shares with the server, to what the text of the update opened to for the device that sent it.
  pub get_handler-update_handler :
      (laws : CratesLaws c) (h k : HeaderMap) (ip home : Text) (req : UpdatePasswordRequest)
      (w v : World) (shown : PasswordDetail)
      → (run (update_handler c cfg h ip uuid req) w).0 ≡ ok tt
      → v.db ≡ (run (update_handler c cfg h ip uuid req) w).1.db
      → (run (get_handler c cfg k home uuid) v).0 ≡ ok shown
      → (i j : Identity) × (plain : Bytes) × IsAuthentic c h ip w.db i
        × IsAuthentic c k home v.db j
        × ((run (decrypt_from_client c cfg req.pwd i) w).0 ≡ ok plain)
        × ((run (decrypt_from_client c cfg shown.pwd j) v).0 ≡ ok plain)
  get_handler-update_handler laws h k ip home req w v shown set after got =
      let (i, p, g, t, a, m, _, _, wr) = update_handler-MayWrite c h ip w cfg uuid req set in
      let (j, b, s) = sends k home v shown got in
      let text : wr.row.pwd ≡ c.hex_encode wr.sealed = ap (λ p. p.pwd) wr.new_row in
      let there = rw (← after) at wr.after in
      let same : wr.row ≡ s.row = ground (arith, there, s.stored) in
      let (bytes, plain, decoded, opened, shown_opens) =
        encrypt-decrypt c laws cfg j s.row.pwd s.world shown.pwd v s.sealed in
      let kept : c.hex_decode s.row.pwd ≡ some wr.sealed =
        rw (← same, text) (laws.hex_round_trip wr.sealed) in
      let same_bytes : wr.sealed ≡ bytes = ground (arith, kept, decoded) in
      let first = seal-decrypt c laws w.draws wr.plain cfg.database_encrypt_secret wr.locked in
      let same_plain : plain ≡ wr.plain = ground (arith, rw same_bytes at first, opened) in
      (i, j, wr.plain, a, b, wr.received, rw same_plain at shown_opens)
