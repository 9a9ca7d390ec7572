-- ===== src/Console/Keys.antt =====
-- What a key does: the body of the loop in `run_tui`.
use password_manager_server.Prelude.{
  ◌+◌, ◌-◌, ◌%◌, Option, none, some, true, false, [], ◌++◌, codes, nat_eq, if◌then◌else◌,
}
use password_manager_server.Console.{
  App, Json, Reply, no_answer, answer, Outside, post, send, say, export_path, tab_devices,
  tab_users, tab_export, tab_import, tab_count,
}
use password_manager_server.Console.Fetch.{fetch_all, fetch_users}
use password_manager_server.Console.Actions.{
  do_export, toggle_selected, arm_delete, delete_pending, toggle_user_deleted, toggle_user_approval,
  next_reply,
}
use password_manager_server.Console.Moves.{
  next_user, prev_user, next_page, prev_page, next_row, prev_row,
}

-- The keys that `run_tui` tells apart; `interrupt` is Ctrl+C or Ctrl+D.
pub data Key : Type 0 where
  interrupt enter esc tab_key back_tab up down left right space : Key
  key_q key_Q key_y key_d key_r other : Key

pub data Outcome : Type 0 where
  running : App → Outcome
  quit : Outcome
  panicked : Outcome

abbrev pub or_panic : Option App → Outcome
or_panic none = panicked
or_panic (some app) = running app

-- What a tab does with a key that means one thing for devices and another for users.
abbrev pub by_tab : App → Outcome → Outcome → Outcome
by_tab app devices users =
    if nat_eq app.tab tab_devices
    then devices
    else (if nat_eq app.tab tab_users then users else running app)

module _ {Value : Type 0} (json : Json Value) (o : Outside Value) where
  unfoldable pub imported : App → Reply Value → App
  unfolding fetch_all fetch_users say
  imported app no_answer = record app { busy = false; message = codes "Import failed" }
  imported app (answer false status v bytes) = record app {
    busy = false;
    message = codes "Import failed (" ++ status ++ codes ")";
  }
  imported app (answer true status v bytes) =
      record (fetch_users json o (fetch_all json o (record app { busy = false }))) {
        page = 0;
        message = codes "Import successful — data reloaded";
      }

  unfoldable pub do_import : App → App
  unfolding imported send
  do_import app =
      let path = app.import_path in
      let start = record app { busy = true; message = [] } in
      elim (o.unread path) [
        | some e ↦ record start {
          message = codes "Cannot read " ++ path ++ codes ": " ++ e;
          busy = false;
        }
        | none ↦
            imported (send start post (codes "/admin/import") (o.contents path))
              (next_reply json o start)
      ]

  -- ENTER on the Export tab: an archive is not overwritten without asking.
  unfoldable pub ask_export : App → Outcome
  unfolding do_export export_path
  ask_export app =
      if o.exists (export_path app)
      then running (record app {
        pending_export = true;
        message =
            export_path app
            ++ codes " already exists — overwrite? (y = yes, any other key = cancel)";
      })
      else or_panic (do_export json o app)

  -- ENTER, and space, on a tab with a list.
  unfoldable pub toggle : App → Outcome
  unfolding toggle_selected toggle_user_approval
  toggle app =
      by_tab app (or_panic (toggle_selected json o app)) (running (toggle_user_approval json o app))

  unfoldable pub press_enter : App → Outcome
  unfolding ask_export do_import toggle
  press_enter app =
      if nat_eq app.tab tab_export
      then (if app.busy then toggle app else ask_export app)
      else (if nat_eq app.tab tab_import
          then (if app.busy then toggle app else running (do_import app))
          else toggle app)

  -- The last `match` of the loop.
  unfoldable pub press_plain : App → Key → Outcome
  unfolding press_enter toggle prev_row prev_user next_row next_user prev_page next_page arm_delete
      toggle_user_deleted
  press_plain app interrupt = running app
  press_plain app key_q = quit
  press_plain app esc = quit
  press_plain app tab_key = running (record app { tab = (app.tab + 1) % tab_count; message = [] })
  press_plain app back_tab =
      running (record app { tab = (app.tab + tab_count - 1) % tab_count; message = [] })
  press_plain app enter = press_enter app
  press_plain app up = by_tab app (running (prev_row app)) (running (prev_user app))
  press_plain app down = by_tab app (running (next_row app)) (running (next_user app))
  press_plain app left = if nat_eq app.tab tab_devices then running (prev_page app) else running app
  press_plain app right =
      if nat_eq app.tab tab_devices then running (next_page app) else running app
  press_plain app space = toggle app
  press_plain app key_d =
      by_tab app (running (arm_delete app)) (running (toggle_user_deleted json o app true))
  press_plain app key_r =
      if nat_eq app.tab tab_users
      then running (toggle_user_deleted json o app false)
      else running app
  press_plain app key_Q = running app
  press_plain app key_y = running app
  press_plain app other = running app

  -- With no server there is only a notice.
  abbrev pub press_down : App → Key → Outcome
  press_down app enter = quit
  press_down app key_q = quit
  press_down app key_Q = quit
  press_down app esc = quit
  press_down app _ = running app

  unfoldable pub press_delete : App → Key → Outcome
  unfolding delete_pending say
  press_delete app key_y = running (delete_pending json o app)
  press_delete app _ =
      running (record app { pending_delete = none; message = codes "Delete cancelled" })

  unfoldable pub press_export : App → Key → Outcome
  unfolding do_export say
  press_export app key_y = or_panic (do_export json o (record app { pending_export = false }))
  press_export app _ =
      running (record app { pending_export = false; message = codes "Export cancelled" })

  unfoldable pub press_modal : App → Key → Outcome
  unfolding press_delete press_export press_plain
  press_modal app key = if app.backend_down then press_down app key else elim app.pending_delete [
    | some uuid ↦ press_delete app key
    | none ↦ if app.pending_export then press_export app key else press_plain app key
  ]

  unfoldable pub press : App → Key → Outcome
  unfolding press_modal
  press app interrupt = quit
  press app key = press_modal app key
