-- ===== src/Console/Command/Pressed.antt =====
-- The keys of the console and the subcommands that ask the server for the same.
use mathlib.Core.List.{append_assoc, append-nil}
use mathlib.Core.Path.{subst}
use password_manager_server.Prelude.{
  ◌≡◌, refl, sym, ◌∙◌, ap, Option, none, some, true, false, not, List, [], ◌∷◌, ◌++◌, Text, codes,
  arith, get_elem?, ℕ,
}
use password_manager_server.Console.{
  App, IdentityEntry, UserEntry, Json, Outside, Reply, no_answer, answer, HttpRequest, get, post,
  send, export_path, selected_global_index, tab_devices, tab_users, tab_export, tab_import,
}
use password_manager_server.Console.Fetch.{fetch_all}
use password_manager_server.Console.Actions.{
  approval_verb, toggle_at, toggle_selected, delete_pending, toggle_user_deleted, selected_user,
  do_export, next_reply,
}
use password_manager_server.Console.Keys.{
  Key, enter, space, key_y, key_d, key_r, running, or_panic, press, press_modal, press_plain,
  press_enter, press_delete, press_export, toggle, ask_export, do_import, imported,
}
use password_manager_server.Console.Approvals.{request, fetch_all-sent}
use password_manager_server.Console.Command.{Shell}
use password_manager_server.Console.Command.Requests.{
  environment, Asks, toggle_at-Asks, delete_pending-Asks, toggle_user_deleted-Asks, do_export-Asks,
  fetch_users-sent,
}
use password_manager_server.Console.Command.Routed.{import-sent}

-- No notice is shown, and no question is open.
pub record IsOpen (app : App) : Type 0 where
  pub up : app.backend_down ≡ false
  pub no_delete : app.pending_delete ≡ none
  pub no_export : app.pending_export ≡ false

pub data Toggles : Key → Type 0 where
  by_enter : Toggles enter
  by_space : Toggles space

-- A key, in a state of the console, and the subcommand for what it does. Approving a user, which asks for several
-- devices, has none.
pub data IsKeyFor {Value : Type 0} (json : Json Value) (shell : Shell Value) (o : Outside Value)
    (app : App) : Key → Text → List Text → Type 0 where
  toggles :
      {key : Key} (i : ℕ) (e : IdentityEntry)
      → Toggles key
      → IsOpen app
      → app.tab ≡ tab_devices
      → selected_global_index app ≡ some i
      → get_elem? app.rows i ≡ some e
      → IsKeyFor json shell o app key (approval_verb (not e.confirmed)) (e.uuid ∷ [])
  deletes :
      (uuid : Text)
      → app.backend_down ≡ false
      → app.pending_delete ≡ some uuid
      → IsKeyFor json shell o app key_y (codes "delete") (uuid ∷ [])
  retires :
      (u : UserEntry)
      → IsOpen app
      → app.tab ≡ tab_users
      → selected_user json o app ≡ some u
      → IsKeyFor json shell o app key_d (codes "user-delete") (u.uuid ∷ [])
  restores :
      (u : UserEntry)
      → IsOpen app
      → app.tab ≡ tab_users
      → selected_user json o app ≡ some u
      → IsKeyFor json shell o app key_r (codes "user-restore") (u.uuid ∷ [])
  exports :
      IsOpen app
      → app.tab ≡ tab_export
      → app.busy ≡ false
      → o.exists (export_path app) ≡ false
      → IsKeyFor json shell o app enter (codes "export") []
  overwrites :
      app.backend_down ≡ false
      → app.pending_delete ≡ none
      → app.pending_export ≡ true
      → IsKeyFor json shell o app key_y (codes "export") []
  imports :
      IsOpen app
      → app.tab ≡ tab_import
      → app.busy ≡ false
      → o.unread app.import_path ≡ none
      → shell.unread app.import_path ≡ none
      → shell.contents app.import_path ≡ o.contents app.import_path
      → IsKeyFor json shell o app enter (codes "import") (app.import_path ∷ [])

module _ {Value : Type 0} (json : Json Value) (shell : Shell Value) (o : Outside Value)
    (app after : App) where
  ran :
      (key : Key) (cmd : Text) (args : List Text) (a : App)
      → press json o app key ≡ running a
      → Asks json shell app a cmd args
      → press json o app key ≡ running after
      → Asks json shell app after cmd args
  ran key cmd args a e k h =
      let whole : running a ≡ running after = sym e ∙ h in
      let same : a ≡ after = ground (arith, whole) in
      subst (λ b. Asks json shell app b cmd args) same k

  toggle-chosen :
      (i : ℕ) (e : IdentityEntry)
      → selected_global_index app ≡ some i
      → get_elem? app.rows i ≡ some e
      → or_panic (toggle_selected json o app) ≡ running (toggle_at json o app i e)
  unfolding toggle_selected
  toggle-chosen i e s g = rw (toggle_selected, s, g) refl

  toggle-devices : app.tab ≡ tab_devices → toggle json o app ≡ or_panic (toggle_selected json o app)
  unfolding toggle
  toggle-devices t = simp t

  press-toggle :
      {key : Key}
      → Toggles key
      → IsOpen app
      → app.tab ≡ tab_devices
      → press json o app key ≡ toggle json o app
  unfolding press press_modal press_plain press_enter
  press-toggle by_enter p t = simp (p.up, p.no_delete, p.no_export, t)
  press-toggle by_space p t = simp (p.up, p.no_delete, p.no_export)

  toggle-pressed :
      {key : Key} (i : ℕ) (e : IdentityEntry)
      → Toggles key
      → IsOpen app
      → app.tab ≡ tab_devices
      → selected_global_index app ≡ some i
      → get_elem? app.rows i ≡ some e
      → press json o app key ≡ running (toggle_at json o app i e)
  toggle-pressed i e k p t s g = press-toggle k p t ∙ toggle-devices t ∙ toggle-chosen i e s g

  delete-pressed :
      (uuid : Text)
      → app.backend_down ≡ false
      → app.pending_delete ≡ some uuid
      → press json o app key_y ≡ running (delete_pending json o app)
  unfolding press press_modal press_delete
  delete-pressed uuid b d = simp (b, d)

  retire-pressed :
      IsOpen app
      → app.tab ≡ tab_users
      → press json o app key_d ≡ running (toggle_user_deleted json o app true)
  unfolding press press_modal press_plain
  retire-pressed p t = simp (p.up, p.no_delete, p.no_export, t)

  restore-pressed :
      IsOpen app
      → app.tab ≡ tab_users
      → press json o app key_r ≡ running (toggle_user_deleted json o app false)
  unfolding press press_modal press_plain
  restore-pressed p t = simp (p.up, p.no_delete, p.no_export, t)

  export-pressed :
      IsOpen app
      → app.tab ≡ tab_export
      → app.busy ≡ false
      → o.exists (export_path app) ≡ false
      → press json o app enter ≡ or_panic (do_export json o app)
  unfolding press press_modal press_plain press_enter ask_export
  export-pressed p t b x = simp (p.up, p.no_delete, p.no_export, t, b, x)

  overwrite-pressed :
      app.backend_down ≡ false
      → app.pending_delete ≡ none
      → app.pending_export ≡ true
      → press json o app key_y ≡ or_panic (do_export json o (record app { pending_export = false }))
  unfolding press press_modal press_export
  overwrite-pressed b d x = simp (b, d, x)

  import-pressed :
      IsOpen app
      → app.tab ≡ tab_import
      → app.busy ≡ false
      → press json o app enter ≡ running (do_import json o app)
  unfolding press press_modal press_plain press_enter
  import-pressed p t b = simp (p.up, p.no_delete, p.no_export, t, b)

  made : (m : Option App) → or_panic m ≡ running after → m ≡ some after
  made none h = absurd (ground arith)
  made (some a) h = ground arith

  overwrite-Asks :
      do_export json o (record app { pending_export = false }) ≡ some after
      → Asks json shell app after (codes "export") []
  overwrite-Asks h =
      let k = do_export-Asks json shell o (record app { pending_export = false }) after h in
      record { asked = k.asked; more = k.more; commanded = k.commanded; pressed = k.pressed }

-- What is sent once an import is answered.
record Then {Value : Type 0} (json : Json Value) (o : Outside Value) (a : App) (r : Reply Value)
    : Type 0 where
  pub rest : List HttpRequest
  pub grown : (imported json o a r).sent ≡ a.sent ++ rest

imported-Then :
    {Value : Type 0} (json : Json Value) (shell : Shell Value) (o : Outside Value) (a : App)
    (r : Reply Value)
    → Then json o a r
unfolding imported
imported-Then json shell o a no_answer = record { rest = []; grown = sym (append-nil a.sent) }
imported-Then json shell o a (answer false status v bytes) = record {
  rest = [];
  grown = sym (append-nil a.sent);
}
imported-Then json shell o a (answer true status v bytes) =
    let start = record a { busy = false } in
    let loaded = fetch_all json o start in
    let devices = request start get (codes "/admin/identities") in
    let people = request loaded get (codes "/admin/users") in
    record {
      rest = devices ∷ people ∷ [];
      grown =
          fetch_users-sent json shell o a loaded
          ∙ ap (λ sent. sent ++ people ∷ []) (fetch_all-sent json o start)
          ∙ append_assoc a.sent (devices ∷ []) (people ∷ []);
    }

module _ {Value : Type 0} (json : Json Value) (shell : Shell Value) (o : Outside Value)
    (app : App) where
  do_import-Asks :
      o.unread app.import_path ≡ none
      → shell.unread app.import_path ≡ none
      → shell.contents app.import_path ≡ o.contents app.import_path
      → Asks json shell app (do_import json o app) (codes "import") (app.import_path ∷ [])
  unfolding do_import send
  do_import-Asks r s c =
      let start = record app { busy = true; message = [] } in
      let asked = record (request app post (codes "/admin/import")) {
        body = o.contents app.import_path;
      } in
      let after =
        imported-Then json shell o
          (send start post (codes "/admin/import") (o.contents app.import_path))
          (next_reply json o start) in
      record {
        asked = asked;
        more = after.rest;
        commanded = rw (← c) (import-sent json shell (environment app) app.import_path s);
        pressed = rw (r, do_import) (after.grown ∙ append_assoc app.sent (asked ∷ []) after.rest);
      }

  -- With a key that has a subcommand, the console sends first the request that this subcommand sends, to the
  -- same server with the same key, whatever else it asks for afterwards: enter and space on a device (confirm or
  -- unconfirm), y to a deletion (delete), d and r on a user (user-delete and user-restore), enter on the Export
  -- tab and y to an overwrite (export), and enter on the Import tab (import) when both find the same archive.
  -- The press is one that leaves the console running.
  pub press-Asks :
      (after : App) {key : Key} {cmd : Text} {args : List Text}
      → IsKeyFor json shell o app key cmd args
      → press json o app key ≡ running after
      → Asks json shell app after cmd args
  press-Asks after (toggles i e t p b s g) h =
      ran json shell o app after _ _ _ _ (toggle-pressed json shell o app after i e t p b s g)
        (toggle_at-Asks json shell o app i e) h
  press-Asks after (deletes uuid b d) h =
      ran json shell o app after _ _ _ _ (delete-pressed json shell o app after uuid b d)
        (delete_pending-Asks json shell o app uuid d) h
  press-Asks after (retires u p t s) h =
      ran json shell o app after _ _ _ _ (retire-pressed json shell o app after p t)
        (toggle_user_deleted-Asks json shell o app u true s) h
  press-Asks after (restores u p t s) h =
      ran json shell o app after _ _ _ _ (restore-pressed json shell o app after p t)
        (toggle_user_deleted-Asks json shell o app u false s) h
  press-Asks after (exports p t b x) h =
      do_export-Asks json shell o app after
        (made json shell o app after _ (sym (export-pressed json shell o app after p t b x) ∙ h))
  press-Asks after (overwrites b d x) h =
      overwrite-Asks json shell o app after
        (made json shell o app after _ (sym (overwrite-pressed json shell o app after b d x) ∙ h))
  press-Asks after (imports p t b r s c) h =
      ran json shell o app after _ _ _ _ (import-pressed json shell o app after p t b)
        (do_import-Asks r s c) h
