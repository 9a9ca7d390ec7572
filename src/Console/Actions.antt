-- ===== src/Console/Actions.antt =====
-- The actions of the console that the server is asked to do. `none` is a panic.
use password_manager_server.Prelude.{
  ℕ, zero, suc, ◌+◌, Option, none, some, Bool, true, false, not, List, [], ◌∷◌, ◌++◌, Text, Bytes,
  codes, length, get_elem?, select, any, ◌==◌, is_value, if◌then◌else◌,
}
use password_manager_server.Error.{decimal}
use password_manager_server.Console.{
  App, IdentityEntry, UserEntry, Json, Reply, no_answer, answer, Outside, get, post, delete, send,
  say, export_path, selected_global_index,
}
use password_manager_server.Console.Fetch.{fetch_all, fetch_users}

-- `identities[i].confirmed = b`
unfoldable pub confirm_at : ℕ → Bool → List IdentityEntry → List IdentityEntry
confirm_at i b [] = []
confirm_at zero b (e ∷ es) = record e { confirmed = b } ∷ es
confirm_at (suc i) b (e ∷ es) = e ∷ confirm_at i b es

-- `if let Some(ident) = identities.iter_mut().find(|i| &i.uuid == uuid) { ident.confirmed = b }`
unfoldable pub confirm_first : Text → Bool → List IdentityEntry → List IdentityEntry
confirm_first uuid b [] = []
confirm_first uuid b (e ∷ es) =
    let rest = confirm_first uuid b es in
    if e.uuid == uuid then record e { confirmed = b } ∷ es else e ∷ rest

abbrev pub succeeded : {Value : Type 0} → Reply Value → Bool
succeeded no_answer = false
succeeded (answer success status v bytes) = success

-- " (404 Not Found)" after a refusal, nothing if there was no answer.
abbrev pub status_note : {Value : Type 0} → Reply Value → Text
status_note no_answer = []
status_note (answer success status v bytes) = codes " (" ++ status ++ codes ")"

abbrev pub approval_verb : Bool → Text
approval_verb true = codes "confirm"
approval_verb false = codes "unconfirm"

abbrev pub deletion_verb : Bool → Text
deletion_verb true = codes "delete"
deletion_verb false = codes "restore"

-- The devices of a user.
unfoldable pub devices_of : Text → List IdentityEntry → List IdentityEntry
devices_of uuid rows = select (λ i. is_value i.user_id uuid) rows

-- (confirmed, total)
unfoldable pub user_conf : Text → List IdentityEntry → ℕ × ℕ
user_conf uuid [] = (0, 0)
user_conf uuid (i ∷ is) =
    let (confirmed, total) = user_conf uuid is in
    if is_value i.user_id uuid
    then (if i.confirmed then (confirmed + 1, total + 1) else (confirmed, total + 1))
    else (confirmed, total)

unfoldable pub arm_delete : App → App
unfolding selected_global_index say
arm_delete app = elim (selected_global_index app) [
  | none ↦ app
  | some i ↦ elim (get_elem? app.rows i) [
    | none ↦ app
    | some e ↦ record app {
      message =
          codes "Delete device "
          ++ e.uuid
          ++ codes "? (the user's passwords are kept) Press 'y' to confirm";
      pending_delete = some e.uuid;
    }
  ]
]

module _ {Value : Type 0} (json : Json Value) (o : Outside Value) where
  -- The answer to the next request.
  abbrev pub next_reply : App → Reply Value
  next_reply app = o.reply (length app.sent)

  abbrev pub written : App → Bytes → Option Text → Text
  written app bytes none =
      codes "Exported " ++ codes (decimal (length bytes)) ++ codes " bytes to " ++ export_path app
  written app bytes (some e) =
      codes "Export: write to " ++ export_path app ++ codes " failed: " ++ e

  abbrev pub exported : App → Reply Value → Option App
  exported app no_answer = some (say app (codes "Export failed"))
  exported app (answer false status v bytes) = some (say app (codes "Export failed"))
  exported app (answer true status v none) = none
  exported app (answer true status v (some bytes)) =
      some (say app (written app bytes (o.unwritten (export_path app))))

  abbrev pub idle : Option App → Option App
  idle none = none
  idle (some app) = some (record app { busy = false })

  unfoldable pub do_export : App → Option App
  unfolding send say export_path
  do_export app =
      let start = record app { busy = true; message = [] } in
      idle (exported (send start get (codes "/admin/export") []) (next_reply start))

  unfoldable pub toggle_at : App → ℕ → IdentityEntry → App
  unfolding send say
  toggle_at app i e =
      let action = approval_verb (not e.confirmed) in
      let asked = send app post (codes "/admin/identities/" ++ e.uuid ++ codes "/" ++ action) [] in
      if succeeded (next_reply app)
      then record asked {
        rows = confirm_at i (not e.confirmed) asked.rows;
        message = action ++ codes "ed " ++ e.uuid;
      }
      else say asked (codes "Failed to " ++ action ++ codes " " ++ e.uuid)

  -- Indexing panics beyond the end.
  unfoldable pub toggle_selected : App → Option App
  unfolding toggle_at selected_global_index
  toggle_selected app = elim (selected_global_index app) [
    | none ↦ some app
    | some i ↦ elim (get_elem? app.rows i) [ none ↦ none | some e ↦ some (toggle_at app i e) ]
  ]

  unfoldable pub delete_pending : App → App
  unfolding fetch_all send say
  delete_pending app = elim app.pending_delete [
    | none ↦ app
    | some uuid ↦
        let taken = record app { pending_delete = none } in
        let asked = send taken delete (codes "/admin/identities/" ++ uuid) [] in
        let done = fetch_all json o (say asked (codes "Deleted " ++ uuid)) in
        let failed =
          say asked (codes "Failed to delete " ++ uuid ++ status_note (next_reply app)) in
        if succeeded (next_reply app) then done else failed
  ]

  -- The user that is selected.
  abbrev pub selected_user : App → Option UserEntry
  selected_user app = elim app.user_state [ none ↦ none | some i ↦ get_elem? app.users i ]

  unfoldable pub toggle_user_deleted : App → Bool → App
  unfolding fetch_users send say
  toggle_user_deleted app set_deleted = elim (selected_user app) [
    | none ↦ app
    | some user ↦
        let action = deletion_verb set_deleted in
        let asked = send app post (codes "/admin/users/" ++ user.uuid ++ codes "/" ++ action) [] in
        let done = fetch_users json o (say asked (action ++ codes "d user " ++ user.uuid)) in
        let failed = say asked (
          codes "Failed to "
          ++ action
          ++ codes " user "
          ++ user.uuid
          ++ status_note (next_reply app)) in
        if succeeded (next_reply app) then done else failed
  ]

  -- The loop of `toggle_user_approval`: the state and how many requests succeeded.
  unfoldable pub approve_each : Bool → List IdentityEntry → App → ℕ → App × ℕ
  unfolding send confirm_first
  approve_each confirm [] app ok = (app, ok)
  approve_each confirm (d ∷ ds) app ok =
      let path = codes "/admin/identities/" ++ d.uuid ++ codes "/" ++ approval_verb confirm in
      let asked = send app post path [] in
      if succeeded (next_reply app)
      then approve_each confirm ds (record asked { rows = confirm_first d.uuid confirm asked.rows })
          (ok + 1)
      else approve_each confirm ds asked ok

  abbrev pub outcome_verb : Bool → Text
  outcome_verb true = codes "approved "
  outcome_verb false = codes "revoked "

  unfoldable pub approve_devices : App → Text → List IdentityEntry → App
  unfolding approve_each fetch_all say
  approve_devices app uuid [] =
      say app (codes "User " ++ uuid ++ codes " has no devices to approve")
  approve_devices app uuid (d ∷ ds) =
      let confirm = any (λ i. not i.confirmed) (d ∷ ds) in
      let (changed, ok) = approve_each confirm (d ∷ ds) app 0 in
      say (fetch_all json o changed) (
        outcome_verb confirm
        ++ codes (decimal ok)
        ++ codes "/"
        ++ codes (decimal (length (d ∷ ds)))
        ++ codes " device(s) for "
        ++ uuid)

  unfoldable pub toggle_user_approval : App → App
  unfolding approve_devices devices_of
  toggle_user_approval app = elim (selected_user app) [
    | none ↦ app
    | some user ↦ approve_devices app user.uuid (devices_of user.uuid app.rows)
  ]
