-- ===== src/Console/InRange.antt =====
-- The selection stays in range: the moves and the actions.
pub mod Press
pub mod Session
use password_manager_server.Prelude.{
  ℕ, zero, suc, ap, ◌+◌, ◌-◌, ◌*◌, ◌/◌, ◌≤◌, ◌<◌, ◌≡◌, ◌⊎◌, inl, inr, refl, Option, none, some,
  Bool, true, false, not, List, [], ◌∷◌, map, min, max, Text, length, codes, ◌++◌, any, get_elem?,
  ltb, arith, Option-cases, Bool-cases, ◌==◌, if◌then◌else◌,
}
use password_manager_server.Console.{
  App, IdentityEntry, UserEntry, Json, Reply, no_answer, answer, Outside, new, send, say, delete,
  post, page_start, selected_global_index,
}
use password_manager_server.Console.Fetch.{
  show_rows, fetch_all, fetch_users, first_row, kept_user, value_or, rows_reply, users_reply,
}
use password_manager_server.Console.Actions.{
  confirm_at, confirm_first, do_export, toggle_selected, arm_delete, delete_pending,
  toggle_user_deleted, approve_each, approve_devices, toggle_user_approval, toggle_at, succeeded,
  next_reply, selected_user, deletion_verb, devices_of,
}
use password_manager_server.Console.Moves.{
  next_user, prev_user, next_page, prev_page, next_row, prev_row, page_count, one_up,
}

-- The page exists, and the selected row of it; so does the selected user.
pub record InRange (page total rows : ℕ) (row : Option ℕ) (users : ℕ) (user : Option ℕ)
    : Type 0 where
  pub page_there : (page ≡ 0) ⊎ (page * 10 < rows)
  pub pages : (total ≡ 0) ⊎ (total ≡ (max rows 1 - 1) / 10 + 1)
  pub row_there : (i : ℕ) → row ≡ some i → page * 10 + i < rows
  pub on_page : (i : ℕ) → row ≡ some i → i < 10
  pub user_there : (i : ℕ) → user ≡ some i → i < users

abbrev pub IsInRange : App → Type 0
IsInRange app =
    InRange app.page app.total_pages (length app.rows) app.table_state (length app.users)
      app.user_state

one_up-below : (o : Option ℕ) (i : ℕ) → one_up o ≡ some i → (j : ℕ) × (o ≡ some j) × i ≤ j
one_up-below none i e = absurd (ground arith)
one_up-below (some zero) i e = (0, refl, ground arith)
one_up-below (some (suc j)) i e = (suc j, refl, ground arith)

module _ (app : App) where
  next_page-IsInRange : IsInRange app → IsInRange (next_page app)
  unfolding next_page
  next_page-IsInRange r =
      ground (arith, r.page_there, r.pages, r.row_there, r.on_page, r.user_there)

  prev_page-IsInRange : IsInRange app → IsInRange (prev_page app)
  unfolding prev_page
  prev_page-IsInRange r =
      ground (arith, r.page_there, r.pages, r.row_there, r.on_page, r.user_there)

  next_row-IsInRange : IsInRange app → IsInRange (next_row app)
  unfolding next_row page_count page_start
  next_row-IsInRange r = ground (arith, r.page_there, r.pages, r.row_there, r.on_page, r.user_there)

  prev_row-IsInRange : IsInRange app → IsInRange (prev_row app)
  unfolding prev_row
  prev_row-IsInRange r = record {
    page_there = r.page_there;
    pages = r.pages;
    row_there =
        λ i e. let (j, f, l) = one_up-below app.table_state i e in omega (arith, r.row_there j f);
    on_page =
        λ i e. let (j, f, l) = one_up-below app.table_state i e in omega (arith, r.on_page j f);
    user_there = r.user_there;
  }

  next_user-IsInRange : IsInRange app → IsInRange (next_user app)
  unfolding next_user
  next_user-IsInRange r =
      ground (arith, r.page_there, r.pages, r.row_there, r.on_page, r.user_there)

  prev_user-IsInRange : IsInRange app → IsInRange (prev_user app)
  unfolding prev_user
  prev_user-IsInRange r = record {
    page_there = r.page_there;
    pages = r.pages;
    row_there = r.row_there;
    on_page = r.on_page;
    user_there =
        λ i e. let (j, f, l) = one_up-below app.user_state i e in omega (arith, r.user_there j f);
  }

first-below :
    (start : ℕ) (es : List IdentityEntry) (i : ℕ)
    → first_row start es ≡ some i
    → start + i < length es
first-below start [] i e = absurd (ground arith)
first-below start (x ∷ xs) i e = ground arith

first-small : (start : ℕ) (es : List IdentityEntry) (i : ℕ) → first_row start es ≡ some i → i < 10
first-small start [] i e = absurd (ground arith)
first-small start (x ∷ xs) i e = ground arith

kept-below : (o : Option ℕ) (us : List UserEntry) (i : ℕ) → kept_user o us ≡ some i → i < length us
kept-below o [] i e = absurd (ground arith)
kept-below o (u ∷ us) i e = ground arith

length-confirm_at :
    (i : ℕ) (b : Bool) (es : List IdentityEntry) → length (confirm_at i b es) ≡ length es
unfolding confirm_at
length-confirm_at i b [] = refl
length-confirm_at zero b (e ∷ es) = refl
length-confirm_at (suc i) b (e ∷ es) = ap suc (length-confirm_at i b es)

length-confirm_first :
    (uuid : Text) (b : Bool) (es : List IdentityEntry)
    → length (confirm_first uuid b es) ≡ length es
unfolding confirm_first
length-confirm_first uuid b [] = refl
length-confirm_first uuid b (e ∷ es) = ground (arith, length-confirm_first uuid b es)

module _ {Value : Type 0} (json : Json Value) where
  show_rows-IsInRange :
      (app : App) (es : List IdentityEntry) → IsInRange app → IsInRange (show_rows json app es)
  unfolding show_rows
  show_rows-IsInRange app es r = record {
    page_there = ground arith;
    pages = ground arith;
    row_there = λ i e. first-below _ es i e;
    on_page = λ i e. first-small _ es i e;
    user_there = r.user_there;
  }

  rows_reply-IsInRange :
      (app : App) (reply : Reply Value) → IsInRange app → IsInRange (rows_reply json app reply)
  unfolding rows_reply
  rows_reply-IsInRange app no_answer r = r
  rows_reply-IsInRange app (answer false status v bytes) r = r
  rows_reply-IsInRange app (answer true status v bytes) r = show_rows-IsInRange app _ r

  users_reply-IsInRange :
      (app : App) (reply : Reply Value) → IsInRange app → IsInRange (users_reply json app reply)
  unfolding users_reply
  users_reply-IsInRange app no_answer r = r
  users_reply-IsInRange app (answer false status v bytes) r = r
  users_reply-IsInRange app (answer true status v bytes) r = record {
    page_there = r.page_there;
    pages = r.pages;
    row_there = r.row_there;
    on_page = r.on_page;
    user_there = λ i e. kept-below app.user_state _ i e;
  }

  module _ (o : Outside Value) where
    pub fetch_all-IsInRange : (app : App) → IsInRange app → IsInRange (fetch_all json o app)
    unfolding fetch_all send
    fetch_all-IsInRange app r = rows_reply-IsInRange _ (o.reply (length app.sent)) r

    pub fetch_users-IsInRange : (app : App) → IsInRange app → IsInRange (fetch_users json o app)
    unfolding fetch_users send
    fetch_users-IsInRange app r = users_reply-IsInRange _ (o.reply (length app.sent)) r

    pub toggle_at-IsInRange :
        (app : App) (i : ℕ) (e : IdentityEntry)
        → IsInRange app
        → IsInRange (toggle_at json o app i e)
    unfolding toggle_at send say
    toggle_at-IsInRange app i e r = elim (Bool-cases (succeeded (next_reply json o app))) [
      | inl h ↦ rw (h, length-confirm_at i (not e.confirmed) app.rows) r
      | inr h ↦ rw h r
    ]

    pub approve_each-IsInRange :
        (confirm : Bool) (ds : List IdentityEntry) (app : App) (n : ℕ)
        → IsInRange app
        → IsInRange (approve_each json o confirm ds app n).0
    unfolding approve_each send
    approve_each-IsInRange confirm [] app n r = r
    approve_each-IsInRange confirm (d ∷ ds) app n r =
        elim (Bool-cases (succeeded (next_reply json o app))) [
          | inl h ↦ rw h (
              approve_each-IsInRange confirm ds _ (n + 1)
                (rw (length-confirm_first d.uuid confirm app.rows) r))
          | inr h ↦ rw h (approve_each-IsInRange confirm ds _ n r)
        ]

    pub delete_pending-IsInRange :
        (app : App) → IsInRange app → IsInRange (delete_pending json o app)
    unfolding delete_pending send say
    delete_pending-IsInRange app r = elim (Option-cases app.pending_delete) [
      | inl h ↦ rw h r
      | inr (uuid, h) ↦ elim (Bool-cases (succeeded (next_reply json o app))) [
        | inl k ↦
            let taken = record app { pending_delete = none } in
            let asked = send taken delete (codes "/admin/identities/" ++ uuid) [] in
            rw (h, k) (fetch_all-IsInRange (say asked (codes "Deleted " ++ uuid)) r)
        | inr k ↦ rw (h, k) r
      ]
    ]

    pub toggle_user_deleted-IsInRange :
        (app : App) (b : Bool) → IsInRange app → IsInRange (toggle_user_deleted json o app b)
    unfolding toggle_user_deleted send say
    toggle_user_deleted-IsInRange app b r = elim (Option-cases (selected_user json o app)) [
      | inl h ↦ rw (h, toggle_user_deleted) r
      | inr (user, h) ↦ elim (Bool-cases (succeeded (next_reply json o app))) [
        | inl k ↦
            let action = deletion_verb b in
            let asked =
              send app post (codes "/admin/users/" ++ user.uuid ++ codes "/" ++ action) [] in
            rw (h, toggle_user_deleted, k)
              (fetch_users-IsInRange (say asked (action ++ codes "d user " ++ user.uuid)) r)
        | inr k ↦ rw (h, toggle_user_deleted, k) r
      ]
    ]

    approve_devices-IsInRange :
        (app : App) (uuid : Text) (ds : List IdentityEntry)
        → IsInRange app
        → IsInRange (approve_devices json o app uuid ds)
    unfolding approve_devices say
    approve_devices-IsInRange app uuid [] r = r
    approve_devices-IsInRange app uuid (d ∷ ds) r =
        fetch_all-IsInRange
          (approve_each json o (any (λ i. not i.confirmed) (d ∷ ds)) (d ∷ ds) app 0).0
          (approve_each-IsInRange (any (λ i. not i.confirmed) (d ∷ ds)) (d ∷ ds) app 0 r)

    pub toggle_user_approval-IsInRange :
        (app : App) → IsInRange app → IsInRange (toggle_user_approval json o app)
    unfolding toggle_user_approval
    toggle_user_approval-IsInRange app r = elim (Option-cases (selected_user json o app)) [
      | inl h ↦ rw (h, toggle_user_approval) r
      | inr (user, h) ↦
          rw (h, toggle_user_approval)
            (approve_devices-IsInRange app user.uuid (devices_of user.uuid app.rows) r)
    ]

pub arm_delete-IsInRange : (app : App) → IsInRange app → IsInRange (arm_delete app)
unfolding arm_delete
arm_delete-IsInRange app r = elim (Option-cases (selected_global_index app)) [
  | inl h ↦ rw (h, arm_delete) r
  | inr (i, h) ↦ elim (Option-cases (get_elem? app.rows i)) [
    | inl k ↦ rw (h, arm_delete, k) r
    | inr (e, k) ↦ rw (h, arm_delete, k) r
  ]
]
