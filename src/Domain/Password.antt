-- ===== src/Domain/Password.antt =====
-- src/domain/password.rs
use password_manager_server.Prelude.{ℕ, Option, List, Text, ◌==◌, find, select, any}
use password_manager_server.Error.{ok, err}
use password_manager_server.Schema.{Db, Password, NewPassword, UpdatePassword}
use password_manager_server.Prog.{Prog, ◌>>=◌, QueryResult, query, utc_now}
use password_manager_server.Domain.Rows.{
  current_timestamp, changed, passwords_clash, has_group, insert_row, update_row,
}

unfoldable pub find_by_uuid : Text → Prog (QueryResult (Option Password))
find_by_uuid uuid = query λ now db. (ok (find (λ p. p.uuid == uuid) db.passwords), db)

unfoldable pub find_by_groups : List Text → Prog (QueryResult (List Password))
find_by_groups group_ids =
    query λ now db. (ok (select (λ p. any (λ id. p.group_id == id) group_ids) db.passwords), db)

abbrev pub row_of : ℕ → NewPassword → Password
row_of now new = record {
  uuid = new.uuid;
  group_id = new.group_id;
  pwd = new.pwd;
  name = new.name;
  extra = new.extra;
  valid_since_days = new.valid_since_days;
  created_at = current_timestamp now;
  updated_at = current_timestamp now;
  valid_since = new.valid_since;
}

unfoldable pub insert : NewPassword → ℕ → Db → QueryResult Password × Db
insert new now db =
    elim (insert_row passwords_clash (has_group db.groups new.group_id) (row_of now new)
      db.passwords) [
        | ok rows ↦ (ok (row_of now new), record db { passwords = rows })
        | err e ↦ (err e, db)
      ]

unfoldable pub create : NewPassword → Prog (QueryResult Password)
unfolding insert
create new = query (insert new)

-- The validity window starts again at `stamp`.
unfoldable pub apply : UpdatePassword → ℕ → Password → Password
apply changes stamp old = record old {
  pwd = changed changes.pwd old.pwd;
  group_id = changed changes.group_id old.group_id;
  name = changed changes.name old.name;
  extra = changed changes.extra old.extra;
  valid_since_days = changed changes.valid_since_days old.valid_since_days;
  updated_at = stamp;
  valid_since = stamp;
}

unfoldable pub set_row : Text → UpdatePassword → ℕ → ℕ → Db → QueryResult Password × Db
set_row uuid changes stamp now db =
    elim (update_row passwords_clash (λ p. p.uuid == uuid) (apply changes stamp)
      (λ p. has_group db.groups p.group_id) db.passwords) [
        | ok (row, rows) ↦ (ok row, record db { passwords = rows })
        | err e ↦ (err e, db)
      ]

unfoldable pub update : Text → UpdatePassword → Prog (QueryResult Password)
unfolding set_row
update uuid changes = utc_now >>= λ stamp. query (set_row uuid changes stamp)
