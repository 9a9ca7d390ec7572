-- ===== src/Domain/Rows.antt =====
-- The constraints that migrations/ put on the tables, as tests on the rows that are there, and the
-- two statements that write. UNIQUE and PRIMARY KEY are checked row by row, foreign keys at the end
-- of the statement (`PRAGMA foreign_keys = ON` in src/db/mod.rs).
use password_manager_server.Prelude.{
  ℕ, ◌*◌, ◌/◌, Option, none, some, Bool, true, false, not, List, [], ◌∷◌, ◌++◌, ◌&&◌, ◌||◌, Text,
  ◌==◌, is_value, find, any, modify, if◌then◌else◌,
}
use password_manager_server.Error.{ok, err, unique_violation, foreign_key_violation, row_not_found}
use password_manager_server.Schema.{User, Identity, Group, Password}
use password_manager_server.Prog.{QueryResult}

-- CURRENT_TIMESTAMP has whole seconds.
abbrev pub current_timestamp : ℕ → ℕ
current_timestamp now = now / 1000000000 * 1000000000

-- Two values of a nullable UNIQUE column clash; NULLs never do.
abbrev pub same_value : Option Text → Option Text → Bool
same_value a none = false
same_value a (some b) = is_value a b

-- A column of a changeset.
abbrev pub changed {ℓ} : {A : Type ℓ} → Option A → A → A
changed none old = old
changed (some new) old = new

abbrev pub changed_nullable {ℓ} : {A : Type ℓ} → Option A → Option A → Option A
changed_nullable none old = old
changed_nullable (some new) old = some new

unfoldable pub users_clash : User → User → Bool
users_clash a b = a.uuid == b.uuid || a.name == b.name

unfoldable pub identities_clash : Identity → Identity → Bool
identities_clash a b =
    a.uuid == b.uuid || (a.ip_address == b.ip_address || same_value a.device_token b.device_token)

unfoldable pub groups_clash : Group → Group → Bool
groups_clash a b = a.uuid == b.uuid

unfoldable pub passwords_clash : Password → Password → Bool
passwords_clash a b = a.uuid == b.uuid

unfoldable pub has_user : List User → Text → Bool
has_user users id = any (λ (u : User). u.uuid == id) users

unfoldable pub has_group : List Group → Text → Bool
has_group groups id = any (λ (g : Group). g.uuid == id) groups

unfoldable pub has_owner : List User → Option Text → Bool
has_owner users none = true
has_owner users (some id) = has_user users id

module _ {A : Type 0} (clash : A → A → Bool) where
  -- INSERT … RETURNING of one row: the new table. `referenced`: its foreign keys are met.
  unfoldable pub insert_row : Bool → A → List A → QueryResult (List A)
  insert_row referenced row rows =
      if any (clash row) rows
      then err unique_violation
      else if referenced
      then ok (rows ++ row ∷ [])
      else err foreign_key_violation

  -- UPDATE … RETURNING of the row that `at` finds, against the other rows.
  unfoldable pub update_row : (A → Bool) → (A → A) → (A → Bool) → List A → QueryResult (A × List A)
  update_row at change referenced rows = elim (find at rows) [
    | none ↦ err row_not_found
    | some old ↦
        if any (λ other. not (at other) && clash (change old) other) rows
        then err unique_violation
        else if referenced (change old)
        then ok (change old, modify at change rows)
        else err foreign_key_violation
  ]
