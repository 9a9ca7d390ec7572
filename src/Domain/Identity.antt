-- ===== src/Domain/Identity.antt =====
-- src/domain/identity.rs
use password_manager_server.Prelude.{ℕ, Option, List, Text, not, ◌==◌, is_value, find, select}
use password_manager_server.Error.{ok, err}
use password_manager_server.Schema.{Db, Identity, NewIdentity, UpdateIdentity}
use password_manager_server.Prog.{Prog, ◌>>=◌, QueryResult, query, utc_now}
use password_manager_server.Domain.Rows.{
  current_timestamp, changed, changed_nullable, identities_clash, has_owner, insert_row, update_row,
}

unfoldable pub find_by_ip : Text → Prog (QueryResult (Option Identity))
find_by_ip ip = query λ now db. (ok (find (λ i. i.ip_address == ip) db.identities), db)

unfoldable pub find_by_device_token : Text → Prog (QueryResult (Option Identity))
find_by_device_token token =
    query λ now db. (ok (find (λ i. is_value i.device_token token) db.identities), db)

unfoldable pub find_by_uuid : Text → Prog (QueryResult (Option Identity))
find_by_uuid uuid = query λ now db. (ok (find (λ i. i.uuid == uuid) db.identities), db)

unfoldable pub find_all : Prog (QueryResult (List Identity))
find_all = query λ now db. (ok db.identities, db)

unfoldable pub find_pending : Prog (QueryResult (List Identity))
find_pending = query λ now db. (ok (select (λ i. not i.is_confirmed) db.identities), db)

abbrev pub row_of : ℕ → NewIdentity → Identity
row_of now new = record {
  uuid = new.uuid;
  user_id = new.user_id;
  ip_address = new.ip_address;
  device_token = new.device_token;
  server_private_key = new.server_private_key;
  server_public_key = new.server_public_key;
  client_public_key = new.client_public_key;
  extra = new.extra;
  is_confirmed = new.is_confirmed;
  created_at = current_timestamp now;
  updated_at = current_timestamp now;
}

unfoldable pub insert : NewIdentity → ℕ → Db → QueryResult Identity × Db
insert new now db =
    elim (insert_row identities_clash (has_owner db.users new.user_id) (row_of now new)
      db.identities) [
        | ok rows ↦ (ok (row_of now new), record db { identities = rows })
        | err e ↦ (err e, db)
      ]

unfoldable pub create : NewIdentity → Prog (QueryResult Identity)
unfolding insert
create new = query (insert new)

unfoldable pub apply : UpdateIdentity → ℕ → Identity → Identity
apply changes stamp old = record old {
  user_id = changed_nullable changes.user_id old.user_id;
  ip_address = changed changes.ip_address old.ip_address;
  device_token = changed_nullable changes.device_token old.device_token;
  client_public_key = changed changes.client_public_key old.client_public_key;
  extra = changed changes.extra old.extra;
  is_confirmed = changed changes.is_confirmed old.is_confirmed;
  updated_at = stamp;
}

unfoldable pub set_row : Text → UpdateIdentity → ℕ → ℕ → Db → QueryResult Identity × Db
set_row uuid changes stamp now db =
    elim (update_row identities_clash (λ i. i.uuid == uuid) (apply changes stamp)
      (λ i. has_owner db.users i.user_id) db.identities) [
        | ok (row, rows) ↦ (ok row, record db { identities = rows })
        | err e ↦ (err e, db)
      ]

unfoldable pub update : Text → UpdateIdentity → Prog (QueryResult Identity)
unfolding set_row
update uuid changes = utc_now >>= λ stamp. query (set_row uuid changes stamp)

unfoldable pub remove_rows : Text → Db → Db
remove_rows uuid db = record db { identities = select (λ i. not (i.uuid == uuid)) db.identities }

-- The number of deleted rows is not used.
unfoldable pub delete : Text → Prog (QueryResult (Unit {0}))
unfolding remove_rows
delete uuid = query λ now db. (ok tt, remove_rows uuid db)
