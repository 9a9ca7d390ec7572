-- ===== src/Console/Fetch.antt =====
-- `fetch_all` and `fetch_users`: the lists are loaded and the selection is put right.
use password_manager_server.Prelude.{
  ℕ, ◌+◌, ◌-◌, ◌*◌, ◌/◌, Option, none, some, true, false, List, [], ◌∷◌, map, min, max, Text, codes,
  length, ltb, leb, pos, if◌then◌else◌,
}
use password_manager_server.Console.{
  App, IdentityEntry, UserEntry, Json, Reply, no_answer, answer, Outside, page_rows, get, send,
}

abbrev pub value_or {ℓ} : {A : Type ℓ} → A → Option A → A
value_or a none = a
value_or a (some b) = b

-- `select(if identities.is_empty() { None } else if page_start() < identities.len() ..)`
abbrev pub first_row : ℕ → List IdentityEntry → Option ℕ
first_row start [] = none
first_row start (i ∷ is) = if ltb start (length (i ∷ is)) then some 0 else none

abbrev pub kept_user : Option ℕ → List UserEntry → Option ℕ
kept_user selected [] = none
kept_user selected (u ∷ us) = some (min (value_or 0 selected) (length us))

module _ {Value : Type 0} (json : Json Value) where
  unfoldable pub text_at : Text → Value → Text → Text
  text_at default v key = value_or default (json.as_str (json.field v key))

  unfoldable pub identity_entry : Value → IdentityEntry
  unfolding text_at
  identity_entry v = record {
    uuid = text_at (codes "?") v (codes "uuid");
    user_id = json.as_str (json.field v (codes "user_id"));
    ip_address = text_at (codes "?") v (codes "ip_address");
    confirmed = value_or false (json.as_bool (json.field v (codes "is_confirmed")));
    device_token = text_at (codes "-") v (codes "device_token");
    created_at = text_at (codes "?") v (codes "created_at");
    updated_at = text_at (codes "?") v (codes "updated_at");
  }

  unfoldable pub user_entry : Value → UserEntry
  unfolding text_at
  user_entry v = record {
    uuid = text_at (codes "?") v (codes "uuid");
    name = text_at (codes "?") v (codes "name");
    is_deleted = value_or false (json.as_bool (json.field v (codes "is_deleted")));
    identity_count = value_or (pos 0) (json.as_i64 (json.field v (codes "identity_count")));
    created_at = text_at (codes "?") v (codes "created_at");
    updated_at = text_at (codes "?") v (codes "updated_at");
  }

  -- The tail of the success branch of `fetch_all`, from `self.identities = entries`.
  unfoldable pub show_rows : App → List IdentityEntry → App
  show_rows app entries =
      let total = (max (length entries) 1 - 1) / page_rows + 1 in
      let page = if leb total app.page then total - 1 else app.page in
      record app {
        rows = entries;
        total_pages = total;
        page = page;
        table_state = first_row (page * page_rows) entries;
      }

  unfoldable pub rows_reply : App → Reply Value → App
  unfolding identity_entry show_rows
  rows_reply app no_answer = record app {
    backend_down = true;
    message = codes "Failed to fetch identities";
  }
  rows_reply app (answer false status v bytes) = record app {
    message = codes "Failed to fetch identities";
  }
  rows_reply app (answer true status v bytes) =
      show_rows app (map identity_entry (value_or [] (json.as_array v)))

  unfoldable pub fetch_all : Outside Value → App → App
  unfolding rows_reply send
  fetch_all o app =
      let start = record app { loading = true; backend_down = false } in
      let reply = o.reply (length start.sent) in
      record (rows_reply (send start get (codes "/admin/identities") []) reply) { loading = false }

  unfoldable pub users_reply : App → Reply Value → App
  unfolding user_entry
  users_reply app no_answer = record app {
    backend_down = true;
    message = codes "Failed to fetch users";
  }
  users_reply app (answer false status v bytes) = record app {
    message = codes "Failed to fetch users";
  }
  users_reply app (answer true status v bytes) =
      let users = map user_entry (value_or [] (json.as_array v)) in
      record app { users = users; user_state = kept_user app.user_state users }

  unfoldable pub fetch_users : Outside Value → App → App
  unfolding users_reply send
  fetch_users o app =
      let start = record app { backend_down = false } in
      let reply = o.reply (length start.sent) in
      users_reply (send start get (codes "/admin/users") []) reply
