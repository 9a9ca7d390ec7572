-- ===== src/Prog/Runs.antt =====
-- The run of a program in sequence is a run of its parts.
use password_manager_server.Prelude.{◌≡◌, refl}
use password_manager_server.Error.{AppError, ok, err}
use password_manager_server.Prog.{World, Prog, done, atomic, ◌>>=◌, run}

module _ {A B : Type 0} where
  -- The rest of a program runs where its first part ended.
  pub run-bind :
      (m : Prog A) (f : A → Prog B) (w : World) {a : A}
      → (run m w).0 ≡ ok a
      → run (m >>= f) w ≡ run (f a) (run m w).1
  unfolding run ◌>>=◌
  run-bind (done (ok x)) f w {a} h = let e : x ≡ a = cc in rw e refl
  run-bind (done (err e)) f w h = cc
  run-bind (atomic u k) f w h = run-bind (k w) f (u w) h

  pub run-bind-err :
      (m : Prog A) (f : A → Prog B) (w : World) {e : AppError}
      → (run m w).0 ≡ err e
      → run (m >>= f) w ≡ (err e, (run m w).1)
  unfolding run ◌>>=◌
  run-bind-err (done (ok x)) f w h = cc
  run-bind-err (done (err x)) f w {e} h = let q : x ≡ e = cc in rw q refl
  run-bind-err (atomic u k) f w h = run-bind-err (k w) f (u w) h

  -- A program that succeeds has succeeded in its first part.
  pub run-bind-ok :
      (m : Prog A) (f : A → Prog B) (w : World) {b : B}
      → (run (m >>= f) w).0 ≡ ok b
      → (a : A) × ((run m w).0 ≡ ok a) × ((run (f a) (run m w).1).0 ≡ ok b)
  unfolding run ◌>>=◌
  run-bind-ok (done (ok x)) f w h = (x, refl, h)
  run-bind-ok (done (err e)) f w h = cc
  run-bind-ok (atomic u k) f w h = run-bind-ok (k w) f (u w) h
