-- ===== src/Console/InRange/Press.antt =====
-- A key leaves the selection in range, and what makes the console panic.
use password_manager_server.Prelude.{
  ℕ, zero, suc, ◌+◌, ◌*◌, ◌<◌, ◌≡◌, ◌≢◌, inl, inr, refl, Option, none, some, Bool, true, false, [],
  ◌∷◌, Text, List, length, codes, get_elem?, nat_eq, arith, Option-cases, Bool-cases, if◌then◌else◌,
}
use password_manager_server.Console.{
  App, Json, Reply, no_answer, answer, Outside, send, say, get, post, tab_devices, tab_users,
  tab_export, tab_import, page_start, selected_global_index, export_path,
}
use password_manager_server.Console.Fetch.{fetch_all}
use password_manager_server.Console.Actions.{do_export, exported, toggle_selected, idle}
use password_manager_server.Console.Keys.{
  Key, interrupt, enter, esc, tab_key, back_tab, up, down, left, right, space, key_q, key_Q, key_y,
  key_d, key_r, other, Outcome, running, quit, panicked, press, press_modal, press_plain,
  press_enter, press_down, press_delete, press_export, toggle, ask_export, do_import, imported,
  or_panic, by_tab,
}
use password_manager_server.Console.InRange.{
  IsInRange, next_page-IsInRange, prev_page-IsInRange, next_row-IsInRange, prev_row-IsInRange,
  next_user-IsInRange, prev_user-IsInRange, fetch_all-IsInRange, fetch_users-IsInRange,
  toggle_at-IsInRange, delete_pending-IsInRange, toggle_user_deleted-IsInRange,
  toggle_user_approval-IsInRange, arm_delete-IsInRange,
}

get_elem-in : {A : Type 0} (xs : List A) (i : ℕ) → i < length xs → get_elem? xs i ≢ none
get_elem-in [] i h e = absurd (omega (arith, h))
get_elem-in (x ∷ xs) zero h e = absurd (ground arith)
get_elem-in (x ∷ xs) (suc i) h e = get_elem-in xs i (omega (arith, h)) e

-- `bytes().await` of a successful answer fails.
abbrev pub is_broken : {Value : Type 0} → Reply Value → Bool
is_broken (answer true status v none) = true
is_broken _ = false

module _ {Value : Type 0} (json : Json Value) (o : Outside Value) where
  -- The console goes on with its selection in range; it panics only over an export that breaks off.
  abbrev pub Fine : Outcome → Type 0
  Fine (running app) = IsInRange app
  Fine quit = Unit
  Fine panicked = (n : ℕ) × is_broken (o.reply n) ≡ true

  if-Fine : (b : Bool) (x y : Outcome) → Fine x → Fine y → Fine (if b then x else y)
  if-Fine true x y f g = f
  if-Fine false x y f g = g

  modal-Fine :
      (o' : Option Text) (x y : Outcome)
      → Fine x
      → Fine y
      → Fine (elim o' [ some uuid ↦ x | none ↦ y ])
  modal-Fine none x y f g = g
  modal-Fine (some uuid) x y f g = f

  by_tab-Fine :
      (app : App) (devices users : Outcome)
      → IsInRange app
      → Fine devices
      → Fine users
      → Fine (by_tab app devices users)
  by_tab-Fine app devices users r d u =
      if-Fine (nat_eq app.tab tab_devices) _ _ d (if-Fine (nat_eq app.tab tab_users) _ _ u r)

  exported-Fine :
      (app : App) (n : ℕ) (reply : Reply Value)
      → o.reply n ≡ reply
      → IsInRange app
      → Fine (or_panic (idle json o (exported json o app reply)))
  unfolding say
  exported-Fine app n no_answer e r = r
  exported-Fine app n (answer false status v bytes) e r = r
  exported-Fine app n (answer true status v none) e r = (n, rw e refl)
  exported-Fine app n (answer true status v (some bytes)) e r = r

  do_export-Fine : (app : App) → IsInRange app → Fine (or_panic (do_export json o app))
  unfolding do_export send
  do_export-Fine app r =
      let start = record app { busy = true; message = [] } in
      exported-Fine (send start get (codes "/admin/export") []) (length app.sent)
        (o.reply (length app.sent)) refl r

  toggle_selected-Fine : (app : App) → IsInRange app → Fine (or_panic (toggle_selected json o app))
  unfolding toggle_selected selected_global_index page_start
  toggle_selected-Fine app r = elim (Option-cases app.table_state) [
    | inl h ↦ rw (h, toggle_selected) r
    | inr (i, h) ↦ elim (Option-cases (get_elem? app.rows (app.page * 10 + i))) [
      | inl k ↦ absurd (get_elem-in _ _ (r.row_there i h) k)
      | inr (e, k) ↦ rw (h, toggle_selected, k) (toggle_at-IsInRange json o app _ e r)
    ]
  ]

  toggle-Fine : (app : App) → IsInRange app → Fine (toggle json o app)
  unfolding toggle
  toggle-Fine app r =
      by_tab-Fine app _ _ r (toggle_selected-Fine app r)
        (toggle_user_approval-IsInRange json o app r)

  imported-IsInRange :
      (app : App) (reply : Reply Value) → IsInRange app → IsInRange (imported json o app reply)
  unfolding imported
  imported-IsInRange app no_answer r = r
  imported-IsInRange app (answer false status v bytes) r = r
  imported-IsInRange app (answer true status v bytes) r =
      let fetched = fetch_all-IsInRange json o (record app { busy = false }) r in
      let done =
        fetch_users-IsInRange json o (fetch_all json o (record app { busy = false })) fetched in
      record {
        page_there = inl refl;
        pages = done.pages;
        row_there = λ i e. omega (arith, done.row_there i e);
        on_page = done.on_page;
        user_there = done.user_there;
      }

  do_import-IsInRange : (app : App) → IsInRange app → IsInRange (do_import json o app)
  unfolding do_import send
  do_import-IsInRange app r = elim (Option-cases (o.unread app.import_path)) [
    | inl h ↦
        let start = record app { busy = true; message = [] } in
        let asked = send start post (codes "/admin/import") (o.contents app.import_path) in
        rw (h, do_import) (imported-IsInRange asked (o.reply (length app.sent)) r)
    | inr (e, h) ↦ rw (h, do_import) r
  ]

  ask_export-Fine : (app : App) → IsInRange app → Fine (ask_export json o app)
  unfolding ask_export
  ask_export-Fine app r = elim (Bool-cases (o.exists (export_path app))) [
    | inl h ↦ rw (h, ask_export) r
    | inr h ↦ rw (h, ask_export) (do_export-Fine app r)
  ]

  press_enter-Fine : (app : App) → IsInRange app → Fine (press_enter json o app)
  unfolding press_enter
  press_enter-Fine app r =
      let on_list = toggle-Fine app r in
      if-Fine (nat_eq app.tab tab_export) _ _ (if-Fine app.busy _ _ on_list (ask_export-Fine app r))
        (if-Fine (nat_eq app.tab tab_import) _ _
          (if-Fine app.busy _ _ on_list (do_import-IsInRange app r)) on_list)

  press_plain-Fine : (app : App) (key : Key) → IsInRange app → Fine (press_plain json o app key)
  unfolding press_plain
  press_plain-Fine app interrupt r = r
  press_plain-Fine app key_q r = tt
  press_plain-Fine app esc r = tt
  press_plain-Fine app tab_key r = r
  press_plain-Fine app back_tab r = r
  press_plain-Fine app enter r = press_enter-Fine app r
  press_plain-Fine app up r =
      by_tab-Fine app _ _ r (prev_row-IsInRange app r) (prev_user-IsInRange app r)
  press_plain-Fine app down r =
      by_tab-Fine app _ _ r (next_row-IsInRange app r) (next_user-IsInRange app r)
  press_plain-Fine app left r =
      if-Fine (nat_eq app.tab tab_devices) _ _ (prev_page-IsInRange app r) r
  press_plain-Fine app right r =
      if-Fine (nat_eq app.tab tab_devices) _ _ (next_page-IsInRange app r) r
  press_plain-Fine app space r = toggle-Fine app r
  press_plain-Fine app key_d r =
      by_tab-Fine app _ _ r (arm_delete-IsInRange app r)
        (toggle_user_deleted-IsInRange json o app true r)
  press_plain-Fine app key_r r =
      if-Fine (nat_eq app.tab tab_users) _ _ (toggle_user_deleted-IsInRange json o app false r) r
  press_plain-Fine app key_Q r = r
  press_plain-Fine app key_y r = r
  press_plain-Fine app other r = r

  press_down-Fine : (app : App) (key : Key) → IsInRange app → Fine (press_down json o app key)
  press_down-Fine app key r = elim key as (λ k. Fine (press_down json o app k)) [
    | interrupt ↦ r
    | enter ↦ tt
    | esc ↦ tt
    | tab_key ↦ r
    | back_tab ↦ r
    | up ↦ r
    | down ↦ r
    | left ↦ r
    | right ↦ r
    | space ↦ r
    | key_q ↦ tt
    | key_Q ↦ tt
    | key_y ↦ r
    | key_d ↦ r
    | key_r ↦ r
    | other ↦ r
  ]

  press_delete-Fine : (app : App) (key : Key) → IsInRange app → Fine (press_delete json o app key)
  unfolding press_delete
  press_delete-Fine app key r = elim key as (λ k. Fine (press_delete json o app k)) [
    | interrupt ↦ r
    | enter ↦ r
    | esc ↦ r
    | tab_key ↦ r
    | back_tab ↦ r
    | up ↦ r
    | down ↦ r
    | left ↦ r
    | right ↦ r
    | space ↦ r
    | key_q ↦ r
    | key_Q ↦ r
    | key_y ↦ delete_pending-IsInRange json o app r
    | key_d ↦ r
    | key_r ↦ r
    | other ↦ r
  ]

  press_export-Fine : (app : App) (key : Key) → IsInRange app → Fine (press_export json o app key)
  unfolding press_export
  press_export-Fine app key r = elim key as (λ k. Fine (press_export json o app k)) [
    | interrupt ↦ r
    | enter ↦ r
    | esc ↦ r
    | tab_key ↦ r
    | back_tab ↦ r
    | up ↦ r
    | down ↦ r
    | left ↦ r
    | right ↦ r
    | space ↦ r
    | key_q ↦ r
    | key_Q ↦ r
    | key_y ↦ do_export-Fine (record app { pending_export = false }) r
    | key_d ↦ r
    | key_r ↦ r
    | other ↦ r
  ]

  press_modal-Fine : (app : App) (key : Key) → IsInRange app → Fine (press_modal json o app key)
  unfolding press_modal
  press_modal-Fine app key r = if-Fine app.backend_down _ _ (press_down-Fine app key r) (
      modal-Fine app.pending_delete _ _ (press_delete-Fine app key r)
        (if-Fine app.pending_export _ _ (press_export-Fine app key r) (press_plain-Fine app key r)))

  -- With the selection in range, a key leaves it in range or ends the session; it makes the console
  -- panic only if the body of some answer of the server breaks off.
  pub press-Fine : (app : App) (key : Key) → IsInRange app → Fine (press json o app key)
  unfolding press
  press-Fine app key r = elim key as (λ k. Fine (press json o app k)) [
    | interrupt ↦ tt
    | enter ↦ press_modal-Fine app enter r
    | esc ↦ press_modal-Fine app esc r
    | tab_key ↦ press_modal-Fine app tab_key r
    | back_tab ↦ press_modal-Fine app back_tab r
    | up ↦ press_modal-Fine app up r
    | down ↦ press_modal-Fine app down r
    | left ↦ press_modal-Fine app left r
    | right ↦ press_modal-Fine app right r
    | space ↦ press_modal-Fine app space r
    | key_q ↦ press_modal-Fine app key_q r
    | key_Q ↦ press_modal-Fine app key_Q r
    | key_y ↦ press_modal-Fine app key_y r
    | key_d ↦ press_modal-Fine app key_d r
    | key_r ↦ press_modal-Fine app key_r r
    | other ↦ press_modal-Fine app other r
  ]
