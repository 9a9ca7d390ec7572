-- ===== src/Domain/User.antt =====
-- src/domain/user.rs
use password_manager_server.Prelude.{ℕ, Option, List, Text, true, ◌==◌, find}
use password_manager_server.Error.{ok, err}
use password_manager_server.Schema.{Db, User, NewUser, UpdateUser}
use password_manager_server.Prog.{Prog, ◌>>=◌, QueryResult, query, utc_now}
use password_manager_server.Domain.Rows.{
  current_timestamp, changed, users_clash, insert_row, update_row,
}

unfoldable pub find_by_uuid : Text → Prog (QueryResult (Option User))
find_by_uuid uuid = query λ now db. (ok (find (λ u. u.uuid == uuid) db.users), db)

unfoldable pub find_by_name : Text → Prog (QueryResult (Option User))
find_by_name name = query λ now db. (ok (find (λ u. u.name == name) db.users), db)

unfoldable pub find_all : Prog (QueryResult (List User))
find_all = query λ now db. (ok db.users, db)

-- The row that is inserted, with the defaults of its columns.
abbrev pub row_of : ℕ → NewUser → User
row_of now new = record {
  uuid = new.uuid;
  name = new.name;
  ehlo_secret = new.ehlo_secret;
  is_deleted = new.is_deleted;
  extra = new.extra;
  created_at = current_timestamp now;
  updated_at = current_timestamp now;
}

unfoldable pub insert : NewUser → ℕ → Db → QueryResult User × Db
insert new now db = elim (insert_row users_clash true (row_of now new) db.users) [
  | ok rows ↦ (ok (row_of now new), record db { users = rows })
  | err e ↦ (err e, db)
]

unfoldable pub create : NewUser → Prog (QueryResult User)
unfolding insert
create new = query (insert new)

unfoldable pub apply : UpdateUser → ℕ → User → User
apply changes stamp old = record old {
  is_deleted = changed changes.is_deleted old.is_deleted;
  extra = changed changes.extra old.extra;
  updated_at = stamp;
}

unfoldable pub set_row : Text → UpdateUser → ℕ → ℕ → Db → QueryResult User × Db
set_row uuid changes stamp now db =
    elim (update_row users_clash (λ u. u.uuid == uuid) (apply changes stamp) (λ u. true) db.users) [
      | ok (row, rows) ↦ (ok row, record db { users = rows })
      | err e ↦ (err e, db)
    ]

unfoldable pub update : Text → UpdateUser → Prog (QueryResult User)
unfolding set_row
update uuid changes = utc_now >>= λ stamp. query (set_row uuid changes stamp)
