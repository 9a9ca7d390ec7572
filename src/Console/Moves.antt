-- ===== src/Console/Moves.antt =====
-- The moves of the selection.
use password_manager_server.Prelude.{
  ℕ, suc, ◌+◌, ◌-◌, Option, some, [], ◌∷◌, min, length, ltb, if◌then◌else◌,
}
use password_manager_server.Console.{App, page_rows, page_start}
use password_manager_server.Console.Fetch.{value_or}

unfoldable pub next_user : App → App
next_user app = elim app.users [
  | [] ↦ app
  | u ∷ us ↦ record app { user_state = some (min (value_or 0 app.user_state + 1) (length us)) }
]

-- One up, from the first row no further.
abbrev pub one_up : Option ℕ → Option ℕ
one_up (some (suc i)) = some i
one_up o = o

unfoldable pub prev_user : App → App
prev_user app = record app { user_state = one_up app.user_state }

unfoldable pub next_page : App → App
next_page app =
    if ltb (app.page + 1) app.total_pages
    then record app { page = app.page + 1; table_state = some 0 }
    else app

unfoldable pub prev_page : App → App
prev_page app =
    if ltb 0 app.page then record app { page = app.page - 1; table_state = some 0 } else app

-- `page_count` of `next_row`
unfoldable pub page_count : App → ℕ
unfolding page_start
page_count app =
    let items_len = length app.rows in
    let start = page_start app in
    if ltb start items_len then min (start + page_rows) items_len - start else 0

unfoldable pub next_row : App → App
unfolding page_count
next_row app =
    if ltb 0 (page_count app)
    then record app {
      table_state = some (min (value_or 0 app.table_state + 1) (page_count app - 1));
    }
    else app

unfoldable pub prev_row : App → App
prev_row app = record app { table_state = one_up app.table_state }
