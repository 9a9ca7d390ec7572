-- ===== src/Error/Cases.antt =====
-- A result is a value or an error.
use password_manager_server.Prelude.{◌≡◌, ◌⊎◌, inl, inr, refl}
use password_manager_server.Error.{AppResult, Result, ok, err, ◌>>=◌}

pub Result-cases :
    {E A : Type 0} (r : Result E A) → ((a : A) × (r ≡ ok a)) ⊎ ((e : E) × (r ≡ err e))
Result-cases (ok a) = inl (a, refl)
Result-cases (err e) = inr (e, refl)

-- A sequence that succeeds has succeeded in both parts.
pub bind-ok :
    {A B : Type 0} (r : AppResult A) (f : A → AppResult B) {b : B}
    → (r >>= f) ≡ ok b
    → (a : A) × (r ≡ ok a) × (f a ≡ ok b)
bind-ok (ok a) f h = (a, refl, h)
bind-ok (err e) f h = cc
