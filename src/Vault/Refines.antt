-- ===== src/Vault/Refines.antt =====
-- What each request does to the vault.
use password_manager_server.Prelude.{
  ◌≡◌, refl, sym, ap, none, some, Text, ◌++◌, ◌∷◌, [], arith, inl, inr, Option-cases,
}
use password_manager_server.Error.{ok, refused, validate_length}
use password_manager_server.Crates.{Crates, HeaderMap, IpAddr}
use password_manager_server.Config.{Config}
use password_manager_server.Schema.{Db, Identity, Group, Password, NewGroup}
use password_manager_server.Prog.{
  World, Prog, run, program, ◌>>◌, pure, lift, ok_or, conn, draw, attempt,
}
use password_manager_server.Prog.Runs.{run-bind, run-bind-ok}
use password_manager_server.Domain.Rows.{groups_clash, has_user}
use password_manager_server.Domain.Outcome.{insert_row-cases}
use password_manager_server.Domain.Group
use password_manager_server.Routes.Auth.{validate_auth}
use password_manager_server.Routes.Auth.Exact.{IsAuthentic}
use password_manager_server.Routes.Groups
use password_manager_server.Routes.Groups.{CreateGroupRequest, GroupResponse, extra_or_default}
use password_manager_server.Routes.Passwords
use password_manager_server.Routes.Passwords.{PasswordEntry, PasswordDetail}
use password_manager_server.Routes.Passwords.Isolation.{Shows, get_handler-MayRead}
use password_manager_server.Server
use password_manager_server.Server.{
  Call, greet, sign_up, sign_in, pending, approve, identities, identity_delete, identity_action,
  users, user_action, health, re_sign, refresh, verify, pwd_list, pwd_create, pwd_update, pwd_get,
  group_create, group_list, Request, Response, dispatch, handle, ◌to◌,
}
use password_manager_server.Effects.Atomic.{
  Reads-pure, Reads-lift, Reads-ok_or, Reads-conn, Reads-draw,
}
use password_manager_server.Effects.Atomic.Requests.{auth-Reads}
use password_manager_server.Effects.Steps.{Follows-run, Follows-pure, Follows-bind}
use password_manager_server.Effects.Handlers.{verify-Follows}
use password_manager_server.Effects.Data.{
  pending-Follows, list_identities-Follows, list_users-Follows, password_list-Follows,
  password_get-Follows, group_list-Follows,
}
use password_manager_server.Effects.Constraints.{IsValid}
use password_manager_server.Vault.{vault, SameVault}
use password_manager_server.Vault.Spares.{Spares, SameContent-IsPreorder}
use password_manager_server.Vault.Requests.{
  greet-Spares, sign_up-Spares, sign_in-Spares, refresh-Spares, resign-Spares, approve-Spares,
  delete-Spares, toggle_user-Spares, toggle_identity-Spares,
}
use password_manager_server.Vault.Peel.{Ends, peel, then_reads}
use password_manager_server.Vault.Puts.{vault-content, stored-vault, found-owner, group-SameVault}
use password_manager_server.Vault.Writes.{Puts, update_handler-Puts}
use password_manager_server.Vault.Creates.{create_handler-Puts}

-- The password of the device's user at `uuid` is read and shown as it is stored, and nothing is written.
pub record Gets (c : Crates) (cfg : Config) (w : World) (h : HeaderMap) (ip : Text) (after : Db)
    (uuid : Text) (shown : PasswordDetail) : Type 0 where
  pub device : Identity
  pub authentic : IsAuthentic c h ip w.db device
  pub user : Text
  pub owner : device.user_id ≡ some user
  pub row : Password
  pub group : Group
  pub held : vault w.db user uuid ≡ some row
  pub shows : Shows c cfg device w shown row group
  pub same : SameVault (vault w.db) (vault after)

-- What a request that succeeds does to the vault, and what its answer says of it.
abbrev pub Promise : Crates → Config → World → HeaderMap → Text → Db → Response → Call → Type 0
Promise c cfg w h ip after resp (pwd_create req) =
    (e : PasswordEntry) × (user : Text) × (row : Password) × (resp ≡ Server.entry e)
    × ((u : Text) → vault w.db u e.uuid ≡ none)
    × Puts c h ip w.db after user e.uuid row
Promise c cfg w h ip after resp (pwd_update uuid req) =
    (user : Text) × (row old : Password) × (vault w.db user uuid ≡ some old)
    × Puts c h ip w.db after user uuid row
Promise c cfg w h ip after resp (pwd_get uuid) =
    (shown : PasswordDetail) × (resp ≡ Server.detail shown) × Gets c cfg w h ip after uuid shown
Promise c cfg w h ip after resp call = SameVault (vault w.db) (vault after)

added-SameVault :
    (new : NewGroup) (v : World) (before after : Db)
    → IsValid before
    → v.db ≡ before
    → (run (attempt (Group.create new)) v).1.db ≡ after
    → SameVault (vault before) (vault after)
unfolding program Group.create Group.insert
added-SameVault new v before after valid at_v written =
    elim (insert_row-cases groups_clash (has_user before.users new.user_id) (Group.row_of v.now new)
      before.groups) [
        | inl (x, r) ↦ let same : before ≡ after = ground arith in rw same (λ user id. refl)
        | inr (_, _, r) ↦ elim (Option-cases v.fault) [
          | inr (x, f) ↦ let same : before ≡ after = ground arith in rw same (λ user id. refl)
          | inl f ↦
              let grown : Db = record before {
                groups = before.groups ++ Group.row_of v.now new ∷ [];
              } in
              let same : grown ≡ after = ground arith in
              rw (← same) (group-SameVault before (Group.row_of v.now new) valid.contents)
        ]
      ]

made-SameVault :
    (c : Crates) (h : HeaderMap) (ip : Text) (req : CreateGroupRequest) (w : World)
    (g : GroupResponse)
    → IsValid w.db
    → (run (Groups.create_handler c h ip req) w).0 ≡ ok g
    → SameVault (vault w.db) (vault (run (Groups.create_handler c h ip req) w).1.db)
unfolding Groups.create_handler ◌>>◌
made-SameVault c h ip req w g valid k =
    let start : Ends (Groups.create_handler c h ip req) w w.db
        (run (Groups.create_handler c h ip req) w).1.db g =
      record { result = k; tables = refl; written = refl } in
    peel (lift (validate_length "group name" req.name 128)) _ (Reads-lift _) start λ _ _ _ _ k.
      peel (validate_auth c h ip) _ (auth-Reads c h ip) k λ i _ _ _ k.
        peel (ok_or i.user_id refused) _ (Reads-ok_or _ _) k λ user _ _ _ k.
          peel conn _ Reads-conn k λ _ _ _ _ k. peel draw _ Reads-draw k λ n v _ _ k.
            let new : NewGroup = record {
              uuid = c.new_v4 n;
              user_id = user;
              name = req.name;
              extra = extra_or_default req.extra;
            } in
            then_reads (attempt (Group.create new)) _ (λ group. Reads-pure _) k
              λ group _ made at_v written _. added-SameVault new v w.db _ valid at_v written

module _ {A : Type 0} (m : Prog A) (f : A → Response) (w : World) where
  answered :
      (resp : Response)
      → (run (m to f) w).0 ≡ ok resp
      → (a : A) × ((run m w).0 ≡ ok a) × (resp ≡ f a) × ((run (m to f) w).1.db ≡ (run m w).1.db)
  unfolding run pure
  answered resp k =
      let (a, e, r) = run-bind-ok m _ w k in
      let whole : f a ≡ resp = ground (arith, r) in
      (a, e, sym whole, ap (λ x. x.1.db) (run-bind m _ w e))

  spared : Spares m → SameVault (vault w.db) (vault (run (m to f) w).1.db)
  spared s =
      vault-content w.db _
        (Follows-run SameContent-IsPreorder w (Follows-bind m _ s (λ a. Follows-pure _)))

module _ (c : Crates) (cfg : Config) (peer : IpAddr) (h : HeaderMap) (w : World)
    (valid : IsValid w.db) where
  abbrev home : Text
  home = c.ip_to_string peer

  dispatch-Promise :
      (call : Call) (resp : Response)
      → (run (dispatch c cfg peer h call) w).0 ≡ ok resp
      → Promise c cfg w h home (run (dispatch c cfg peer h call) w).1.db resp call
  unfolding dispatch
  dispatch-Promise (greet key) resp k = spared _ _ w (greet-Spares c cfg _ key)
  dispatch-Promise (sign_up req) resp k = spared _ _ w (sign_up-Spares c cfg _ req)
  dispatch-Promise (sign_in req) resp k = spared _ _ w (sign_in-Spares c cfg _ req)
  dispatch-Promise pending resp k =
      spared _ _ w (pending-Follows SameContent-IsPreorder c h cfg peer)
  dispatch-Promise (approve uuid) resp k = spared _ _ w (approve-Spares c h cfg peer uuid)
  dispatch-Promise identities resp k =
      spared _ _ w (list_identities-Follows SameContent-IsPreorder c h cfg peer)
  dispatch-Promise (identity_delete uuid) resp k = spared _ _ w (delete-Spares c h cfg peer uuid)
  dispatch-Promise (identity_action uuid action) resp k =
      spared _ _ w (toggle_identity-Spares c h cfg peer uuid action)
  dispatch-Promise users resp k =
      spared _ _ w (list_users-Follows SameContent-IsPreorder c h cfg peer)
  dispatch-Promise (user_action uuid action) resp k =
      spared _ _ w (toggle_user-Spares c h cfg peer uuid action)
  dispatch-Promise health resp k =
      vault-content w.db _ (Follows-run SameContent-IsPreorder w (Follows-pure Server.empty))
  dispatch-Promise (re_sign req) resp k = spared _ _ w (resign-Spares c cfg _ req)
  dispatch-Promise (refresh req) resp k = spared _ _ w (refresh-Spares c cfg _ req)
  dispatch-Promise verify resp k = spared _ _ w (verify-Follows SameContent-IsPreorder c h _)
  dispatch-Promise (pwd_list params) resp k =
      spared _ _ w (password_list-Follows SameContent-IsPreorder c h cfg _ params)
  dispatch-Promise (pwd_create req) resp k =
      let (e, made, told, same) =
        answered (Passwords.create_handler c cfg h home req) Server.entry w resp k in
      let (user, row, unseen, put) = create_handler-Puts c cfg h home req w e made in
      (e, user, row, told, unseen, rw same put)
  dispatch-Promise (pwd_update uuid req) resp k =
      let (_, done, _, same) =
        answered (Passwords.update_handler c cfg h home uuid req) (λ _. Server.empty) w resp k in
      let (user, row, old, held, put) = update_handler-Puts c cfg h home uuid w req done in
      (user, row, old, held, rw same put)
  dispatch-Promise (pwd_get uuid) resp k =
      let (shown, got, told, same) =
        answered (Passwords.get_handler c cfg h home uuid) Server.detail w resp k in
      let (i, p, g, a, m, s) = get_handler-MayRead c h home w cfg uuid shown got in
      (
        shown,
        told,
        record {
          device = i;
          authentic = a;
          user = g.user_id;
          owner = m.owned;
          row = p;
          group = g;
          held =
              stored-vault w.db g.user_id uuid p m.stored (found-owner w.db p.group_id g m.grouped);
          shows = s;
          same = spared _ _ w (password_get-Follows SameContent-IsPreorder c h cfg _ uuid);
        },
      )
  dispatch-Promise (group_create req) resp k =
      let (g, made, _, same) =
        answered (Groups.create_handler c h home req) Server.group_made w resp k in
      rw same (made-SameVault c h home req w g valid made)
  dispatch-Promise group_list resp k =
      spared _ _ w (group_list-Follows SameContent-IsPreorder c h _)

-- On valid tables, a request that succeeds does to the users' vault what it promises: a creation puts a
-- password of the user of an approved device, under an identifier that nobody had and that it answers;
-- an update replaces a password that this user had; a get answers with the password that the vault
-- holds, its columns, its stored text sealed anew for the device, and the days that are left; no other request changes the vault.
pub handle-Promise :
    (c : Crates) (cfg : Config) (r : Request) (w : World) (resp : Response)
    → IsValid w.db
    → (run (handle c cfg r) w).0 ≡ ok resp
    → Promise c cfg w r.headers (c.ip_to_string r.peer) (run (handle c cfg r) w).1.db resp r.call
unfolding handle
handle-Promise c cfg r w resp valid k =
    dispatch-Promise c cfg r.peer r.headers w valid r.call resp k
