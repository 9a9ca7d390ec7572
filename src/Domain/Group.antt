-- ===== src/Domain/Group.antt =====
-- src/domain/group.rs
use password_manager_server.Prelude.{ℕ, Option, List, Text, ◌==◌, find, select}
use password_manager_server.Error.{ok, err}
use password_manager_server.Schema.{Db, Group, NewGroup}
use password_manager_server.Prog.{Prog, QueryResult, query}
use password_manager_server.Domain.Rows.{current_timestamp, groups_clash, has_user, insert_row}

unfoldable pub find_by_uuid : Text → Prog (QueryResult (Option Group))
find_by_uuid uuid = query λ now db. (ok (find (λ g. g.uuid == uuid) db.groups), db)

unfoldable pub find_by_user : Text → Prog (QueryResult (List Group))
find_by_user user_id = query λ now db. (ok (select (λ g. g.user_id == user_id) db.groups), db)

abbrev pub row_of : ℕ → NewGroup → Group
row_of now new = record {
  uuid = new.uuid;
  user_id = new.user_id;
  name = new.name;
  extra = new.extra;
  created_at = current_timestamp now;
  updated_at = current_timestamp now;
}

unfoldable pub insert : NewGroup → ℕ → Db → QueryResult Group × Db
insert new now db =
    elim (insert_row groups_clash (has_user db.users new.user_id) (row_of now new) db.groups) [
      | ok rows ↦ (ok (row_of now new), record db { groups = rows })
      | err e ↦ (err e, db)
    ]

unfoldable pub create : NewGroup → Prog (QueryResult Group)
unfolding insert
create new = query (insert new)
