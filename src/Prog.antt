-- ===== src/Prog.antt =====
-- A handler as a sequence of atomic actions on the world that all requests share: one query, one
-- transaction, one reading of the clock or one draw of randomness is one action. What other requests
-- do may come between two of them.
pub mod Runs
use password_manager_server.Prelude.{ℕ, ◌+◌, Option, none, some, Bool, true, false, if◌then◌else◌}
use password_manager_server.Error.{AppError, AppResult, Result, ok, err, DbError, database, pool}
use password_manager_server.Schema.{Db}

-- `pool_open`: a connection can be had. `fault`: the error, if any, that every query meets now.
pub record World : Type 0 where
  pub db : Db
  pub now : ℕ
  pub draws : ℕ
  pub pool_open : Bool
  pub fault : Option DbError

-- An action writes the world, and goes on by what it read before.
pub data Prog (A : Type 0) : Type 0 where
  done : AppResult A → Prog A
  atomic : (World → World) → (World → Prog A) → Prog A

infixl 5 ◌>>=◌ ◌>>◌
unfoldable pub ◌>>=◌ : {A B : Type 0} → Prog A → (A → Prog B) → Prog B
done (ok a) >>= f = f a
done (err e) >>= f = done (err e)
atomic u k >>= f = atomic u (λ w. k w >>= f)

unfoldable pub ◌>>◌ : {B : Type 0} → Prog (Unit {0}) → Prog B → Prog B
unfolding ◌>>=◌
m >> k = m >>= λ _. k

unfoldable pub pure : {A : Type 0} → A → Prog A
pure a = done (ok a)

unfoldable pub raise : {A : Type 0} → AppError → Prog A
raise e = done (err e)

-- `?` on the result of a function that does nothing but compute.
unfoldable pub lift : {A : Type 0} → AppResult A → Prog A
lift r = done r

-- `option.ok_or(e)?`
unfoldable pub ok_or : {A : Type 0} → Option A → AppError → Prog A
ok_or none e = done (err e)
ok_or (some a) e = done (ok a)

-- `if !b { return Err(e) }`
unfoldable pub guard : Bool → AppError → Prog (Unit {0})
guard true e = done (ok tt)
guard false e = done (err e)

-- A handler with nothing in between.
unfoldable pub run : {A : Type 0} → Prog A → World → AppResult A × World
run (done r) w = (r, w)
run (atomic u k) w = run (k w) (u w)

abbrev pub QueryResult : Type 0 → Type 0
QueryResult A = Result DbError A

-- One SQL statement, given the clock that CURRENT_TIMESTAMP reads.
abbrev pub Query : Type 0 → Type 0
Query A = ℕ → Db → QueryResult A × Db

module _ {A : Type 0} where
  abbrev pub outcome : Option DbError → QueryResult A × Db → Db → QueryResult A × Db
  outcome none r old = r
  outcome (some e) r old = (err e, old)

  unfoldable pub exec : Query A → World → QueryResult A × Db
  exec q w = outcome w.fault (q w.now w.db) w.db

  unfoldable pub query : Query A → Prog (QueryResult A)
  unfolding exec
  query q = atomic (λ w. record w { db = (exec q w).1 }) (λ w. done (ok (exec q w).0))

  unfoldable pub from_db : QueryResult A → Prog A
  from_db (ok a) = done (ok a)
  from_db (err e) = done (err (database e))

  -- `?` on the result of a query: `AppError::Database` by `#[from]`.
  unfoldable pub attempt : Prog (QueryResult A) → Prog A
  unfolding ◌>>=◌ from_db
  attempt m = m >>= from_db

-- `if b { m } else { k }` for programs.
abbrev pub branch : {A : Type 0} → Bool → Prog A → Prog A → Prog A
branch true m k = m
branch false m k = k

-- `chrono::Utc::now()`
unfoldable pub utc_now : Prog ℕ
utc_now = atomic (λ w. w) (λ w. done (ok w.now))

-- One draw from the generator.
unfoldable pub draw : Prog ℕ
draw = atomic (λ w. record w { draws = w.draws + 1 }) (λ w. done (ok w.draws))

-- `AppState::conn`
unfoldable pub conn : Prog (Unit {0})
conn =
    atomic (λ w. w)
      (λ w.
        if w.pool_open then done (ok tt) else done (err (pool "timed out waiting for connection")))

abbrev pub commit : {A : Type 0} → World → AppResult A × World → World
commit w (ok a, w') = w'
commit w (err e, w') = record w' { db = w.db }

-- `conn.transaction(body)`: the body is one action, and an error takes its writes back.
unfoldable pub transaction : {A : Type 0} → Prog A → Prog A
unfolding run
transaction body = atomic (λ w. commit w (run body w)) (λ w. done (run body w).0)

-- All of the above, for proofs that run a handler.
unfoldable pub program : Unit {0}
unfolding ◌>>=◌ ◌>>◌ pure raise lift ok_or guard run exec query from_db attempt utc_now draw conn
    transaction
program = tt
