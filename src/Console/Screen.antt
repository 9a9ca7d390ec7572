-- ===== src/Console/Screen.antt =====
-- What the console shows: `render` and what it calls, up to the widgets of ratatui. A widget is the
-- data that it is given; where it puts its letters is ratatui's business.
pub mod Rows
pub mod Shown
pub mod Total
use password_manager_server.Prelude.{
  ℕ, zero, suc, ◌+◌, ◌-◌, ◌*◌, Option, none, some, Bool, true, false, ◌&&◌, ◌||◌, List, [], ◌∷◌,
  ◌++◌, map, min, Text, codes, length, get_elem?, take, drop, ltb, leb, nat_eq, is_value,
  if◌then◌else◌, ℤ,
}
use password_manager_server.Error.{decimal}
use password_manager_server.Console.{
  App, IdentityEntry, UserEntry, export_path, page_rows, page_start, tab_devices, tab_users,
  tab_export, tab_import,
}
use password_manager_server.Console.Fetch.{value_or}
use password_manager_server.Console.Screen.Rows.{
  Style, Span, Row, Color, black, cyan, gray, dark_gray, red, white, yellow, green, plain, span,
  device_rows, user_rows,
}

pub data Content : Type 0 where
  text : Text → Content
  -- The widths and names of the columns, the rows, and the selection.
  table : List ℕ → List Text → List Row → Option ℕ → Content
  paragraph : List Text → Content
  blank : Content

pub data Screen : Type 0 where
  notice : List Span → Screen
  tabs : (tab_bar key_bar : List Span) → (footer : Text) → Content → Screen

unfoldable pub tab_spans : ℕ → ℕ → List Text → List Span
tab_spans tab i [] = []
tab_spans tab i (label ∷ labels) =
    let style : Style = record {
      fg = some (if nat_eq i tab then black else cyan);
      bg = if nat_eq i tab then some cyan else none;
      bold = false;
    } in
    let rest = tab_spans tab (i + 1) labels in
    span (if ltb 0 i then codes "  " else codes " ") plain
    ∷ span (codes " " ++ label ++ codes " ") style
    ∷ rest

unfoldable pub render_tab_bar : App → List Span
unfolding tab_spans
render_tab_bar app =
    tab_spans app.tab 0 (codes "Devices" ∷ codes "Users" ∷ codes "Export" ∷ codes "Import" ∷ [])

abbrev key : Text → Span
key k = span (codes " " ++ k ++ codes " ") (record { fg = some black; bg = some cyan; bold = true })

abbrev desc : Text → Span
desc d = span (codes " " ++ d ++ codes "   ") (record { fg = some gray; bg = none; bold = false })

abbrev tab_keys : ℕ → List (Text × Text)
tab_keys zero =
    (codes "↑/↓", codes "select")
    ∷ (codes "←/→", codes "page")
    ∷ (codes "Space/Enter", codes "confirm/unconfirm")
    ∷ (codes "d", codes "delete device")
    ∷ (codes "Tab", codes "next tab")
    ∷ (codes "q", codes "quit")
    ∷ []
tab_keys (suc zero) =
    (codes "↑/↓", codes "select")
    ∷ (codes "Space/Enter", codes "approve/revoke devices")
    ∷ (codes "d", codes "soft-delete")
    ∷ (codes "r", codes "restore")
    ∷ (codes "Tab", codes "next tab")
    ∷ (codes "q", codes "quit")
    ∷ []
tab_keys (suc (suc zero)) =
    (codes "Enter", codes "export")
    ∷ (codes "Tab", codes "next tab")
    ∷ (codes "q", codes "quit")
    ∷ []
tab_keys (suc (suc (suc zero))) =
    (codes "Enter", codes "import")
    ∷ (codes "Tab", codes "next tab")
    ∷ (codes "q", codes "quit")
    ∷ []
tab_keys _ = []

abbrev key_spans : List (Text × Text) → List Span
key_spans [] = []
key_spans ((k, d) ∷ pairs) = key k ∷ desc d ∷ key_spans pairs

-- The `y` of a modal.
abbrev yes_key : Span
yes_key = span (codes " y ") (record { fg = some black; bg = some red; bold = true })

abbrev is_armed : Option Text → Bool
is_armed none = false
is_armed (some uuid) = true

unfoldable pub render_key_bar : App → List Span
render_key_bar app =
    if is_armed app.pending_delete || app.pending_export
    then yes_key
      ∷ desc (if app.pending_export then codes "confirm overwrite" else codes "confirm delete")
      ∷ key (codes "any other key")
      ∷ desc (codes "cancel")
      ∷ []
    else key_spans (tab_keys app.tab)

abbrev pub device_columns : List Text
device_columns =
    []
    ∷ codes "Created"
    ∷ codes "Updated"
    ∷ codes "Device Token"
    ∷ codes "UUID"
    ∷ codes "IP"
    ∷ codes "Conf"
    ∷ []

abbrev pub device_widths : List ℕ
device_widths = 4 ∷ 16 ∷ 16 ∷ 49 ∷ 19 ∷ 19 ∷ 10 ∷ []

-- `&xs[start..end]`, which panics on a range that is not one of the list.
abbrev pub slice : {A : Type 0} → List A → (start end : ℕ) → Option (List A)
slice xs start end =
    if ltb end start || ltb (length xs) end then none else some (take (end - start) (drop start xs))

-- The rows of a page that was cut out.
unfoldable pub drawn_page : App → Option (List IdentityEntry) → Option Content
unfolding device_rows
drawn_page app none = none
drawn_page app (some page) = elim (device_rows (value_or 0 app.table_state) 0 page) [
  | none ↦ none
  | some rows ↦ some (table device_widths device_columns rows app.table_state)
]

-- `none` is a panic, in the slice of the devices or in that of a device token.
unfoldable pub render_devices : App → Option Content
unfolding page_start drawn_page
render_devices app =
    let start = page_start app in
    let end = min (start + page_rows) (length app.rows) in
    let drawn = drawn_page app (slice app.rows start end) in
    if leb (length app.rows) start || nat_eq (length app.rows) 0
    then some (text (codes " No identities found"))
    else drawn

abbrev user_columns : List Text
user_columns =
    codes "Name"
    ∷ codes "UUID"
    ∷ codes "Devices"
    ∷ codes "Conf"
    ∷ codes "Deleted"
    ∷ codes "Created"
    ∷ codes "Updated"
    ∷ []

abbrev user_widths : List ℕ
user_widths = 24 ∷ 38 ∷ 9 ∷ 8 ∷ 9 ∷ 21 ∷ 21 ∷ []

unfoldable pub render_users : App → Content
unfolding user_rows
render_users app =
    let rows = user_rows app.rows (value_or 0 app.user_state) 0 app.users in
    elim app.users [
      | [] ↦ text (codes " No users found")
      | u ∷ us ↦ table user_widths user_columns rows app.user_state
    ]

-- The last line of the tabs for export and import.
abbrev progress : Bool → Text → (busy : Text) → Text
progress true message busy = busy
progress false message busy = message

unfoldable pub render_export : App → Content
unfolding export_path
render_export app = paragraph (
    []
    ∷ codes " Export All Data"
    ∷ []
    ∷ codes " Downloads the database, secrets (.env), and a README"
    ∷ codes " as a single pwd-export.tar.gz file."
    ∷ []
    ∷ (codes " Writes to: " ++ export_path app)
    ∷ []
    ∷ codes " Press ENTER to export"
    ∷ []
    ∷ progress app.busy app.message (codes " Exporting...")
    ∷ [])

unfoldable pub render_import : App → Content
render_import app = paragraph (
    []
    ∷ codes " Import Data"
    ∷ []
    ∷ codes " Drop a .tar.gz export into the shared export dir on the"
    ∷ codes " host, then press ENTER to import from the path below."
    ∷ []
    ∷ (codes " Host dir mounts to: " ++ app.export_dir)
    ∷ []
    ∷ (codes " Path: " ++ app.import_path)
    ∷ []
    ∷ progress app.busy app.message (codes " Importing...")
    ∷ [])

unfoldable pub render_backend_down : App → List Span
render_backend_down app =
    span [] plain
    ∷ span (codes "  ⚠  The backend server is not running.")
        (record { fg = some red; bg = none; bold = true })
    ∷ span [] plain
    ∷ span (codes "  Could not reach " ++ app.base) plain
    ∷ span [] plain
    ∷ span (codes "  Start the backend server, then relaunch this admin CLI.") plain
    ∷ span [] plain
    ∷ span (codes "  Press Enter (or q / Ctrl+C) to quit now.")
        (record { fg = some yellow; bg = none; bold = true })
    ∷ []

-- `page_info`
abbrev footer_of : App → Text
footer_of app =
    if nat_eq app.tab tab_devices
    then codes "Page "
      ++ codes (decimal (app.page + 1))
      ++ codes "/"
      ++ codes (decimal app.total_pages)
      ++ codes "  |  "
      ++ codes (decimal (length app.rows))
      ++ codes " identities  |  "
      ++ app.message
    else if nat_eq app.tab tab_users
    then codes (decimal (length app.users)) ++ codes " users  |  " ++ app.message
    else []

unfoldable pub render_content : App → Option Content
unfolding render_devices render_users render_export render_import
render_content app =
    if nat_eq app.tab tab_devices
    then render_devices app
    else if nat_eq app.tab tab_users
    then some (render_users app)
    else if nat_eq app.tab tab_export
    then some (render_export app)
    else if nat_eq app.tab tab_import
    then some (render_import app)
    else some blank

unfoldable pub render : App → Option Screen
unfolding render_backend_down render_tab_bar render_key_bar render_content
render app =
    let drawn : Option Screen = (elim (render_content app) [
      | none ↦ none
      | some content ↦ some (tabs (render_tab_bar app) (render_key_bar app) (footer_of app) content)
    ]) in
    if app.backend_down then some (notice (render_backend_down app)) else drawn
