-- ===== src/Console/Screen/Shown.antt =====
-- The highlighted row, and the device that the keys act on.
use password_manager_server.Prelude.{
  ℕ, zero, suc, ◌+◌, ◌<◌, ltb, false, ◌-◌, ◌≡◌, refl, some, List, [], ◌∷◌, min, length, get_elem?,
  take, drop, arith,
}
use password_manager_server.Console.Screen.{slice}

module _ {A : Type 0} where
  pub elem-below : (xs : List A) (i : ℕ) → i < length xs → (x : A) × (get_elem? xs i ≡ some x)
  elem-below [] i h = absurd (omega arith)
  elem-below (x ∷ xs) zero h = (x, refl)
  elem-below (x ∷ xs) (suc i) h = elem-below xs i (omega arith)

-- The slice of a page that starts within the list.
pub slice-page :
    {A : Type 0} (xs : List A) (start : ℕ)
    → start < length xs
    → slice xs start (min (start + 10) (length xs))
      ≡ some (take (min (start + 10) (length xs) - start) (drop start xs))
slice-page xs start h =
    let a : ltb (min (start + 10) (length xs)) start ≡ false = ground arith in
    let b : ltb (length xs) (min (start + 10) (length xs)) ≡ false = ground arith in rw (a, b) refl
