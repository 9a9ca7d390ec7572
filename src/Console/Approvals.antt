-- ===== src/Console/Approvals.antt =====
-- What the console asks for when it approves a user, and what it counts.
use password_manager_server.Prelude.{
  ℕ, ◌+◌, ◌≡◌, ◌≢◌, refl, sym, ◌∙◌, some, Bool, true, false, not, List, [], ◌∷◌, ◌++◌, map, Text,
  codes, length, select, any, arith, Bool-cases, inl, inr,
}
use mathlib.Core.List.{append_assoc, append-nil}
use password_manager_server.Console.{
  App, IdentityEntry, UserEntry, HttpRequest, Method, get, post, Json, Reply, no_answer, answer,
  Outside, send, say,
}
use password_manager_server.Console.Fetch.{fetch_all, rows_reply, show_rows}
use password_manager_server.Console.Actions.{
  user_conf, devices_of, approve_each, approve_devices, toggle_user_approval, approval_verb,
  succeeded, next_reply, selected_user,
}

-- The two numbers beside a user are the number of the user's approved devices and of all of them.
pub user_conf_lem :
    (uuid : Text) (rows : List IdentityEntry)
    → user_conf uuid rows ≡ (
      length (select (λ (i : IdentityEntry). i.confirmed) (devices_of uuid rows)),
      length (devices_of uuid rows),
    )
unfolding user_conf devices_of select
user_conf_lem uuid [] = refl
user_conf_lem uuid (i ∷ is) = ground (arith, user_conf_lem uuid is)

-- The request to a path of the server with the administrator's key.
abbrev pub request : App → Method → Text → HttpRequest
request app method path = record {
  method = method;
  url = app.base ++ path;
  admin_key = app.admin_key;
  body = [];
}

abbrev pub approval : App → Bool → IdentityEntry → HttpRequest
approval app confirm d =
    request app post (codes "/admin/identities/" ++ d.uuid ++ codes "/" ++ approval_verb confirm)

module _ {Value : Type 0} (json : Json Value) (o : Outside Value) where
  -- The list of requests is left alone by what is made of an answer.
  rows_reply-sent : (app : App) (r : Reply Value) → (rows_reply json app r).sent ≡ app.sent
  unfolding rows_reply show_rows
  rows_reply-sent app no_answer = refl
  rows_reply-sent app (answer true status v bytes) = refl
  rows_reply-sent app (answer false status v bytes) = refl

  pub fetch_all-sent :
      (app : App)
      → (fetch_all json o app).sent ≡ app.sent ++ request app get (codes "/admin/identities") ∷ []
  unfolding fetch_all send
  fetch_all-sent app = rows_reply-sent _ (o.reply (length app.sent))

  -- The address and the key do not change.
  Same : App → App → Type 0
  Same a b = (b.base ≡ a.base) × (b.admin_key ≡ a.admin_key)

  approve_each-Same :
      (confirm : Bool) (ds : List IdentityEntry) (app : App) (n : ℕ)
      → Same app (approve_each json o confirm ds app n).0
  unfolding approve_each send Same
  approve_each-Same confirm [] app n = (refl, refl)
  approve_each-Same confirm (d ∷ ds) app n = elim (Bool-cases (succeeded (next_reply json o app))) [
    | inl h ↦ rw h (approve_each-Same confirm ds _ (n + 1))
    | inr h ↦ rw h (approve_each-Same confirm ds _ n)
  ]

  -- One request for each device.
  approve_each-sent :
      (confirm : Bool) (ds : List IdentityEntry) (app : App) (n : ℕ)
      → (approve_each json o confirm ds app n).0.sent ≡ app.sent ++ map (approval app confirm) ds
  unfolding approve_each send
  approve_each-sent confirm [] app n = sym (append-nil app.sent)
  approve_each-sent confirm (d ∷ ds) app n = elim (Bool-cases (succeeded (next_reply json o app))) [
    | inl h ↦ rw h (
        approve_each-sent confirm ds _ (n + 1)
        ∙ append_assoc app.sent (approval app confirm d ∷ []) _)
    | inr h ↦
        rw h
          (approve_each-sent confirm ds _ n ∙ append_assoc app.sent (approval app confirm d ∷ []) _)
  ]

  asked :
      (app : App) (uuid : Text) (ds : List IdentityEntry)
      → ds ≢ []
      → (approve_devices json o app uuid ds).sent
        ≡ app.sent
          ++ map (approval app (any (λ (i : IdentityEntry). not i.confirmed) ds)) ds
          ++ request app get (codes "/admin/identities") ∷ []
  unfolding approve_devices say Same
  asked app uuid [] n = absurd (n refl)
  asked app uuid (d ∷ ds) n =
      let confirm = any (λ (i : IdentityEntry). not i.confirmed) (d ∷ ds) in
      let after = (approve_each json o confirm (d ∷ ds) app 0).0 in
      let (base, key) = approve_each-Same confirm (d ∷ ds) app 0 in
      fetch_all-sent after ∙ rw (base, key, approve_each-sent confirm (d ∷ ds) app 0) refl

  -- With a user selected that has devices, the console asks to approve each of them, if one is not
  -- approved yet, and otherwise to revoke each of them; then it loads the devices anew.
  pub toggle_user_approval-sent :
      (app : App) (user : UserEntry)
      → selected_user json o app ≡ some user
      → devices_of user.uuid app.rows ≢ []
      → (toggle_user_approval json o app).sent
        ≡ app.sent
          ++ map
              (approval app
                (any (λ (i : IdentityEntry). not i.confirmed) (devices_of user.uuid app.rows)))
              (devices_of user.uuid app.rows)
          ++ request app get (codes "/admin/identities") ∷ []
  unfolding toggle_user_approval
  toggle_user_approval-sent app user e n =
      rw (e, toggle_user_approval) (asked app user.uuid (devices_of user.uuid app.rows) n)
