-- ===== src/Vault/Answers.antt =====
-- What each request of src/routes/ knows when it answers.
use password_manager_server.Prelude.{refl, All, List, ap, sym, ◌≡◌, Text}
use mathlib.Core.Path.{subst}
use password_manager_server.Crates.{Crates, HeaderMap, IpAddr}
use password_manager_server.Config.{Config}
use password_manager_server.Schema.{Db}
use password_manager_server.Prog.{Prog}
use password_manager_server.Server.{
  entry, entry_rows, detail, Request, Response, Call, greet, sign_up, sign_in, pending, approve,
  identities, identity_delete, identity_action, users, user_action, health, re_sign, refresh,
  verify, pwd_list, pwd_create, pwd_update, pwd_get, group_create, group_list, dispatch, handle,
  ◌to◌,
}
use password_manager_server.Effects.Steps.{Follows, Follows-map}
use password_manager_server.Effects.Handlers.{verify-Follows}
use password_manager_server.Effects.Data.{
  group_list-Follows, pending-Follows, list_identities-Follows, list_users-Follows,
}
use password_manager_server.Vault.Spares.{Spares}
use password_manager_server.Vault.Requests.{
  greet-Spares, sign_up-Spares, sign_in-Spares, refresh-Spares, resign-Spares, approve-Spares,
  delete-Spares, toggle_user-Spares, toggle_identity-Spares,
}
use password_manager_server.Vault.Stable.{Owns, Owns, Stable, Stable-IsPreorder, SameContent-Stable}
use password_manager_server.Vault.Learns.{
  Knowledge, Learns, Learns-pure, Learns-bind, Follows-Learns,
}
use password_manager_server.Vault.Lists.{list_handler-Learns}
use password_manager_server.Vault.Made.{create_handler-Learns}
use password_manager_server.Vault.Shows.{WasLetIn, get_handler-Learns}
use password_manager_server.Routes.Passwords.{
  PasswordDetail, PasswordEntry, ListParams, CreatePasswordRequest,
}
use password_manager_server.Vault.Guards.{Nothing, Nothing-persists}
use password_manager_server.Vault.Secure.{update_handler-Learns, create_group-Stable}

-- The password `d` was shown to a request for it: a device with the request's token had been let in for some
-- user, and that user's it still is.
pub record WasShown (S : Knowledge) (c : Crates) (q : Request) (d : PasswordDetail) (db : Db)
    : Type 0 where
  pub asked : q.call ≡ pwd_get d.uuid
  pub user : Text
  pub let_in : WasLetIn S c q.headers (c.ip_to_string q.peer) user
  pub owned : Owns db d.uuid user

-- The passwords `xs` were listed for a request: they are its user's.
pub record WasListed (S : Knowledge) (c : Crates) (q : Request) (xs : List PasswordEntry) (db : Db)
    : Type 0 where
  pub params : ListParams
  pub asked : q.call ≡ pwd_list params
  pub user : Text
  pub let_in : WasLetIn S c q.headers (c.ip_to_string q.peer) user
  pub owned : All (λ (x : PasswordEntry). Owns db x.uuid user) xs

-- The password `x` was created by a request: it is its user's.
pub record WasCreated (S : Knowledge) (c : Crates) (q : Request) (x : PasswordEntry) (db : Db)
    : Type 0 where
  pub req : CreatePasswordRequest
  pub asked : q.call ≡ pwd_create req
  pub user : Text
  pub let_in : WasLetIn S c q.headers (c.ip_to_string q.peer) user
  pub owned : Owns db x.uuid user

module _ (S : Knowledge) (c : Crates) where
  -- What an answer comes with.
  abbrev pub Answers : Request → Response → Knowledge
  Answers q (detail d) db = WasShown S c q d db
  Answers q (entry_rows xs) db = WasListed S c q xs db
  Answers q (entry x) db = WasCreated S c q x db
  Answers q _ db = Unit

  -- A request that keeps to stable steps, once it starts with nothing known.
  abbrev pub IsSecure : Request → Prog Response → Type 1
  IsSecure q m = Learns S (Answers q) Nothing m

  module _ {A : Type 0} (q : Request) (f : A → Response)
      (h : (a : A) (db : Db) → Answers q (f a) db) where
    steady : {m : Prog A} → Follows Stable m → IsSecure q (m to f)
    steady s =
        Learns-bind _ (Follows-Learns Nothing-persists s) (λ a. Learns-pure _ (λ db k. h a db))

    quiet : {m : Prog A} → Spares m → IsSecure q (m to f)
    quiet s = steady (Follows-map SameContent-Stable s)

  dispatch-IsSecure :
      (cfg : Config) (peer : IpAddr) (h : HeaderMap) (call : Call)
      → IsSecure (record { peer = peer; headers = h; call = call }) (dispatch c cfg peer h call)
  unfolding dispatch
  dispatch-IsSecure cfg peer h (greet key) = quiet _ _ (λ a db. tt) (greet-Spares c cfg _ key)
  dispatch-IsSecure cfg peer h (sign_up req) = quiet _ _ (λ a db. tt) (sign_up-Spares c cfg _ req)
  dispatch-IsSecure cfg peer h (sign_in req) = quiet _ _ (λ a db. tt) (sign_in-Spares c cfg _ req)
  dispatch-IsSecure cfg peer h pending =
      steady _ _ (λ a db. tt) (pending-Follows Stable-IsPreorder c h cfg peer)
  dispatch-IsSecure cfg peer h (approve uuid) =
      quiet _ _ (λ a db. tt) (approve-Spares c h cfg peer uuid)
  dispatch-IsSecure cfg peer h identities =
      steady _ _ (λ a db. tt) (list_identities-Follows Stable-IsPreorder c h cfg peer)
  dispatch-IsSecure cfg peer h (identity_delete uuid) =
      quiet _ _ (λ a db. tt) (delete-Spares c h cfg peer uuid)
  dispatch-IsSecure cfg peer h (identity_action uuid action) =
      quiet _ _ (λ a db. tt) (toggle_identity-Spares c h cfg peer uuid action)
  dispatch-IsSecure cfg peer h users =
      steady _ _ (λ a db. tt) (list_users-Follows Stable-IsPreorder c h cfg peer)
  dispatch-IsSecure cfg peer h (user_action uuid action) =
      quiet _ _ (λ a db. tt) (toggle_user-Spares c h cfg peer uuid action)
  dispatch-IsSecure cfg peer h health = Learns-pure _ (λ db k. tt)
  dispatch-IsSecure cfg peer h (re_sign req) = quiet _ _ (λ a db. tt) (resign-Spares c cfg _ req)
  dispatch-IsSecure cfg peer h (refresh req) = quiet _ _ (λ a db. tt) (refresh-Spares c cfg _ req)
  dispatch-IsSecure cfg peer h verify =
      steady _ _ (λ a db. tt) (verify-Follows Stable-IsPreorder c h _)
  dispatch-IsSecure cfg peer h (pwd_list params) =
      Learns-bind _ (list_handler-Learns c h cfg _ params) (λ xs.
        Learns-pure _
          (λ db k. record { params = params; asked = refl; user = k.0; let_in = k.1; owned = k.2 }))
  dispatch-IsSecure cfg peer h (pwd_create req) =
      Learns-bind _ (create_handler-Learns c h cfg _ req) (λ x.
        Learns-pure _
          (λ db k. record { req = req; asked = refl; user = k.0; let_in = k.1; owned = k.2 }))
  dispatch-IsSecure cfg peer h (pwd_update uuid req) =
      Learns-bind _ (update_handler-Learns c h cfg _ uuid req) (λ a. Learns-pure _ (λ db k. tt))
  dispatch-IsSecure cfg peer h (pwd_get uuid) =
      Learns-bind _ (get_handler-Learns c h _ cfg uuid) (λ d. Learns-pure _ (λ db k. record {
        asked = ap pwd_get (sym k.3);
        user = k.0;
        let_in = k.1;
        owned = subst (λ id. Owns db id k.0) (sym k.3) k.2;
      }))
  dispatch-IsSecure cfg peer h (group_create req) =
      steady _ _ (λ a db. tt) (create_group-Stable c h cfg _ req)
  dispatch-IsSecure cfg peer h group_list =
      steady _ _ (λ a db. tt) (group_list-Follows Stable-IsPreorder c h _)

  pub handle-IsSecure : (cfg : Config) (q : Request) → IsSecure q (handle c cfg q)
  unfolding handle
  handle-IsSecure cfg q = dispatch-IsSecure cfg q.peer q.headers q.call
