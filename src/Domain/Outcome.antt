-- ===== src/Domain/Outcome.antt =====
-- The two outcomes of the statements that write: refused with nothing changed, or carried out with
-- the constraints met.
use password_manager_server.Prelude.{
  ◌≡◌, ◌⊎◌, inl, inr, some, Bool, true, false, not, List, [], ◌∷◌, ◌++◌, ◌&&◌, find, any, modify,
  Bool-cases, Option-cases,
}
use password_manager_server.Error.{
  ok, err, DbError, unique_violation, foreign_key_violation, row_not_found,
}
use password_manager_server.Domain.Rows.{insert_row, update_row}

module _ {A : Type 0} (clash : A → A → Bool) where
  abbrev pub Inserted : Bool → A → List A → Type 0
  Inserted referenced row rows =
      (any (clash row) rows ≡ false)
      × (referenced ≡ true)
      × (insert_row clash referenced row rows ≡ ok (rows ++ row ∷ []))

  pub insert_row-cases :
      (referenced : Bool) (row : A) (rows : List A)
      → ((e : DbError) × (insert_row clash referenced row rows ≡ err e))
        ⊎ Inserted referenced row rows
  unfolding insert_row
  insert_row-cases referenced row rows = elim (Bool-cases (any (clash row) rows)) [
    | inl t ↦ inl (unique_violation, rw (t, insert_row))
    | inr t ↦ elim (Bool-cases referenced) [
      | inl r ↦ inr (t, r, rw (t, r, insert_row))
      | inr r ↦ inl (foreign_key_violation, rw (t, r, insert_row))
    ]
  ]

  module _ (at : A → Bool) (change : A → A) (referenced : A → Bool) (rows : List A) where
    abbrev pub Updated : A → Type 0
    Updated old =
        (find at rows ≡ some old)
        × (any (λ other. not (at other) && clash (change old) other) rows ≡ false)
        × (referenced (change old) ≡ true)
        × (update_row clash at change referenced rows ≡ ok (change old, modify at change rows))

    pub update_row-cases :
        ((e : DbError) × (update_row clash at change referenced rows ≡ err e))
        ⊎ ((old : A) × Updated old)
    unfolding update_row
    update_row-cases = elim (Option-cases (find at rows)) [
      | inl n ↦ inl (row_not_found, rw (n, update_row))
      | inr (old, s) ↦
          elim (Bool-cases (any (λ other. not (at other) && clash (change old) other) rows)) [
            | inl t ↦ inl (unique_violation, rw (s, update_row, t))
            | inr t ↦ elim (Bool-cases (referenced (change old))) [
              | inl r ↦ inr (old, (s, t, r, rw (s, update_row, t, r)))
              | inr r ↦ inl (foreign_key_violation, rw (s, update_row, t, r))
            ]
          ]
    ]
