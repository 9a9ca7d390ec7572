-- ===== src/Prelude/Tables.antt =====
-- Tables as lists of rows: rows that do not clash, and what an insertion, an update or a deletion
-- leaves true of all rows.
use mathlib.Core.Path.{◌≡◌, refl}
use mathlib.Core.Bool.{Bool, true, false, not, ◌||◌, ◌&&◌}
use mathlib.Core.Option.{some}
use mathlib.Core.List.{List, [], ◌∷◌, ◌++◌}
use mathlib.Core.Logic.{inl, inr}
use native.Mathlib.Omega.{arith}
use password_manager_server.Prelude.Tests.{if◌then◌else◌, Bool-cases}
use password_manager_server.Prelude.Lists.{find, select, any, modify}

module _ {ℓ κ} {A : Type ℓ} (P : A → Type κ) where
  abbrev pub All : List A → Type κ
  All [] = Unit
  All (x ∷ xs) = P x × All xs

  pub All-append : (xs ys : List A) → All xs → All ys → All (xs ++ ys)
  All-append [] ys h k = k
  All-append (x ∷ xs) ys (p, h) k = (p, All-append xs ys h k)

  pub All-select : (p : A → Bool) (xs : List A) → All xs → All (select p xs)
  unfolding select
  All-select p [] h = tt
  All-select p (x ∷ xs) (q, h) = elim (Bool-cases (p x)) [
    | inl e ↦ rw e (q, All-select p xs h)
    | inr e ↦ rw e (All-select p xs h)
  ]

  pub All-modify :
      (p : A → Bool) (f : A → A) (xs : List A)
      → ((x : A) → P x → p x ≡ true → P (f x))
      → All xs
      → All (modify p f xs)
  unfolding modify
  All-modify p f [] k h = tt
  All-modify p f (x ∷ xs) k (q, h) = elim (Bool-cases (p x)) [
    | inl e ↦ rw e (k x q e, All-modify p f xs k h)
    | inr e ↦ rw e (q, All-modify p f xs k h)
  ]

  pub All-find : (p : A → Bool) (xs : List A) {x : A} → All xs → find p xs ≡ some x → P x
  unfolding find
  All-find p [] h e = cc
  All-find p (y ∷ xs) {x} (q, h) e = elim (Bool-cases (p y)) [
    | inl t ↦ (let e' : y ≡ x = ground arith in rw e' at q)
    | inr t ↦ All-find p xs h (ground arith)
  ]

module _ {ℓ κ} {A : Type ℓ} {P Q : A → Type κ} where
  pub All-map : ((x : A) → P x → Q x) → (xs : List A) → All P xs → All Q xs
  All-map f [] h = tt
  All-map f (x ∷ xs) (p, h) = (f x p, All-map f xs h)

module _ {ℓ} {A : Type ℓ} where
  pub any-append : (p : A → Bool) (xs ys : List A) → any p (xs ++ ys) ≡ any p xs || any p ys
  unfolding any
  any-append p [] ys = refl
  any-append p (x ∷ xs) ys = ground (arith, any-append p xs ys)

  -- An update that a test does not see.
  pub any-modify :
      (p q : A → Bool) (f : A → A) (xs : List A)
      → ((x : A) → p (f x) ≡ p x)
      → any p (modify q f xs) ≡ any p xs
  unfolding any modify
  any-modify p q f [] h = refl
  any-modify p q f (x ∷ xs) h = ground (arith, h x, any-modify p q f xs h)

  pub find-append :
      (p : A → Bool) (xs ys : List A) {x : A} → find p xs ≡ some x → find p (xs ++ ys) ≡ some x
  unfolding find
  find-append p [] ys h = cc
  find-append p (y ∷ xs) ys {x} h = ground (arith, find-append p xs ys {x = x})

  -- An update that does not change which rows are found.
  pub find-modify :
      (p q : A → Bool) (f : A → A) (xs : List A) {x : A}
      → ((y : A) → p (f y) ≡ p y)
      → find p xs ≡ some x
      → find p (modify q f xs) ≡ some (if q x then f x else x)
  unfolding find modify
  find-modify p q f [] k h = cc
  find-modify p q f (y ∷ xs) {x} k h = ground (arith, k y, find-modify p q f xs {x = x} k)

module _ {ℓ} {A : Type ℓ} (clash : A → A → Bool) where
  -- No two rows clash.
  abbrev pub Distinct : List A → Type 0
  Distinct [] = Unit
  Distinct (x ∷ xs) = (any (clash x) xs ≡ false) × Distinct xs

  module _ (clash_comm : (x y : A) → clash x y ≡ clash y x) where
    pub Distinct-append :
        (xs : List A) (y : A) → Distinct xs → any (clash y) xs ≡ false → Distinct (xs ++ y ∷ [])
    unfolding any
    Distinct-append [] y h e = (refl, tt)
    Distinct-append (x ∷ xs) y (p, h) e = (
      ground (arith, any-append (clash x) xs (y ∷ []), clash_comm x y),
      Distinct-append xs y h (ground arith),
    )

    -- An update of the one row with a key keeps rows distinct if the new row clashes with no other.
    module _ (at : A → Bool) (f : A → A)
        (same_key : (x y : A) → at x ≡ true → at y ≡ true → clash x y ≡ true) where
      none_at : (x : A) (xs : List A) → at x ≡ true → any (clash x) xs ≡ false → any at xs ≡ false
      unfolding any
      none_at x [] t h = refl
      none_at x (y ∷ xs) t h = ground (arith, same_key x y, none_at x xs t)

      modify_none : (xs : List A) → any at xs ≡ false → modify at f xs ≡ xs
      unfolding any modify
      modify_none [] h = refl
      modify_none (y ∷ xs) h = ground (arith, modify_none xs)

      others :
          (row : A) (xs : List A)
          → any (λ o. not (at o) && clash row o) xs ≡ false
          → any at xs ≡ false
          → any (clash row) xs ≡ false
      unfolding any
      others row [] h k = refl
      others row (y ∷ xs) h k = ground (arith, others row xs)

      any-modify_other :
          (x old : A) (xs : List A)
          → Distinct xs
          → find at xs ≡ some old
          → any (clash x) xs ≡ false
          → clash x (f old) ≡ false
          → any (clash x) (modify at f xs) ≡ false
      unfolding any modify find
      any-modify_other x old [] d e h k = refl
      any-modify_other x old (y ∷ xs) (p, d) e h k =
          ground (arith, none_at y xs, modify_none xs, any-modify_other x old xs d)

      pub Distinct-modify :
          (old : A) (xs : List A)
          → Distinct xs
          → find at xs ≡ some old
          → any (λ o. not (at o) && clash (f old) o) xs ≡ false
          → Distinct (modify at f xs)
      unfolding any modify find
      Distinct-modify old [] d e h = tt
      Distinct-modify old (x ∷ xs) (p, d) e h = elim (Bool-cases (at x)) [
        | inl t ↦ (
          ground (arith, none_at x xs, modify_none xs, others (f old) xs),
          rw (modify_none xs (none_at x xs t p)) d,
        )
        | inr t ↦ (
          rw t
              (any-modify_other x old xs d (ground arith) p (ground (arith, clash_comm x (f old)))),
          Distinct-modify old xs d (ground arith) (ground arith),
        )
      ]

  pub any-select : (p q : A → Bool) (xs : List A) → any p xs ≡ false → any p (select q xs) ≡ false
  unfolding any select
  any-select p q [] h = refl
  any-select p q (x ∷ xs) h = ground (arith, any-select p q xs)

  pub Distinct-select : (q : A → Bool) (xs : List A) → Distinct xs → Distinct (select q xs)
  unfolding select
  Distinct-select q [] h = tt
  Distinct-select q (x ∷ xs) (p, h) = elim (Bool-cases (q x)) [
    | inl e ↦ rw e (any-select (clash x) q xs p, Distinct-select q xs h)
    | inr e ↦ rw e (Distinct-select q xs h)
  ]
