-- ===== src/Effects/Steps.antt =====
-- `Follows R m`: every action of the program `m`, in whatever world it is met, takes the database along
-- the relation `R`. `Steps admin m` says so of the changes that a request may make.
use password_manager_server.Prelude.{
  ℕ, ◌≡◌, refl, Option, none, some, Bool, true, false, if◌then◌else◌,
}
use password_manager_server.Error.{AppError, AppResult, DbError, ok, err}
use password_manager_server.Schema.{Db}
use password_manager_server.Prog.{
  World, Prog, done, atomic, ◌>>=◌, ◌>>◌, pure, raise, lift, ok_or, guard, run, QueryResult, Query,
  exec, outcome, query, from_db, attempt, utc_now, draw, conn, commit, transaction, branch,
}
use password_manager_server.Effects.Change.{Change, kept, both}

abbrev pub Relation : Type 1
Relation = Db → Db → Type 0

pub record IsPreorder (R : Relation) : Type 0 where
  pub keep : {a b : Db} → b ≡ a → R a b
  pub trans : {a b : Db} (m : Db) → R a m → R m b → R a b

pub data Follows (R : Relation) {A : Type 0} : Prog A → Type 0 where
  finished : (r : AppResult A) → Follows R (done r)
  acts :
      (u : World → World) (k : World → Prog A)
      → ((w : World) → R w.db (u w).db)
      → ((w : World) → Follows R (k w))
      → Follows R (atomic u k)

pub Follows-map :
    {R S : Relation} {A : Type 0} {m : Prog A}
    → ((a b : Db) → R a b → S a b)
    → Follows R m
    → Follows S m
Follows-map f (finished r) = finished r
Follows-map f (acts u k h s) = acts u k (λ w. f w.db (u w).db (h w)) (λ w. Follows-map f (s w))

abbrev pub Steps : Bool → {A : Type 0} → Prog A → Type 0
Steps admin m = Follows (Change admin) m

pub Change-IsPreorder : {admin : Bool} → IsPreorder (Change admin)
Change-IsPreorder = record { keep = λ e. kept e; trans = λ m h k. both m h k }

module _ {R : Relation} {A : Type 0} where
  pub Follows-pure : (a : A) → Follows R (pure a)
  unfolding pure
  Follows-pure a = finished (ok a)

  pub Follows-raise : (e : AppError) → Follows R (raise {A = A} e)
  unfolding raise
  Follows-raise e = finished (err e)

  pub Follows-lift : (r : AppResult A) → Follows R (lift r)
  unfolding lift
  Follows-lift r = finished r

  pub Follows-ok_or : (o : Option A) (e : AppError) → Follows R (ok_or o e)
  unfolding ok_or
  Follows-ok_or none e = finished (err e)
  Follows-ok_or (some a) e = finished (ok a)

  pub Follows-from_db : (r : QueryResult A) → Follows R (from_db r)
  unfolding from_db
  Follows-from_db (ok a) = finished _
  Follows-from_db (err e) = finished _

module _ {R : Relation} {A : Type 0} (p : IsPreorder R) where
  outcome-Follows :
      (fault : Option DbError) (r : QueryResult A × Db) (old : Db)
      → R old r.1
      → R old (outcome fault r old).1
  outcome-Follows none r old h = h
  outcome-Follows (some e) r old h = p.keep refl

  pub Follows-query :
      (q : Query A) → ((now : ℕ) (db : Db) → R db (q now db).1) → Follows R (query q)
  unfolding query exec
  Follows-query q h =
      acts _ _ (λ w. outcome-Follows w.fault _ w.db (h w.now w.db)) (λ w. finished _)

  -- The whole run of a program is a change, too.
  pub Follows-run : {m : Prog A} (w : World) → Follows R m → R w.db (run m w).1.db
  unfolding run
  Follows-run w (finished r) = p.keep refl
  Follows-run w (acts u k h s) = p.trans (u w).db (h w) (Follows-run (u w) (s w))

module _ {R : Relation} {A B : Type 0} where
  pub Follows-bind :
      (m : Prog A) (f : A → Prog B)
      → Follows R m
      → ((a : A) → Follows R (f a))
      → Follows R (m >>= f)
  unfolding ◌>>=◌
  Follows-bind _ f (finished (ok a)) h = h a
  Follows-bind _ f (finished (err e)) h = finished (err e)
  Follows-bind _ f (acts u k c s) h = acts _ _ c (λ w. Follows-bind (k w) f (s w) h)

module _ {R : Relation} {A : Type 0} where
  -- What follows a check may use that the check has passed.
  pub Follows-check :
      (r : AppResult (Unit {0})) (k : Prog A) → (r ≡ ok tt → Follows R k) → Follows R (lift r >> k)
  unfolding ◌>>=◌ ◌>>◌ lift
  Follows-check (ok a) k h = h refl
  Follows-check (err e) k h = finished (err e)

module _ {R : Relation} where
  pub Follows-guard : (b : Bool) (e : AppError) → Follows R (guard b e)
  unfolding guard
  Follows-guard true e = finished _
  Follows-guard false e = finished _

module _ {R : Relation} (p : IsPreorder R) where
  pub Follows-utc_now : Follows R utc_now
  unfolding utc_now
  Follows-utc_now = acts _ _ (λ w. p.keep refl) (λ w. finished _)

  pub Follows-draw : Follows R draw
  unfolding draw
  Follows-draw = acts _ _ (λ w. p.keep refl) (λ w. finished _)

  conn_result :
      (b : Bool) (r : AppResult (Unit {0})) → Follows R (if b then done (ok tt) else done r)
  conn_result true r = finished _
  conn_result false r = finished _

  pub Follows-conn : Follows R conn
  unfolding conn
  Follows-conn = acts _ _ (λ w. p.keep refl) (λ w. conn_result w.pool_open _)

module _ {R : Relation} {A : Type 0} where
  pub Follows-attempt : (m : Prog (QueryResult A)) → Follows R m → Follows R (attempt m)
  unfolding attempt
  Follows-attempt m s = Follows-bind m from_db s Follows-from_db

  pub Follows-then :
      (m : Prog (Unit {0})) (k : Prog A) → Follows R m → Follows R k → Follows R (m >> k)
  unfolding ◌>>◌
  Follows-then m k s t = Follows-bind m (λ _. k) s (λ _. t)

module _ {R : Relation} {A : Type 0} (p : IsPreorder R) where
  commit-Follows :
      (w : World) (r : AppResult A) (w' : World) → R w.db w'.db → R w.db (commit w (r, w')).db
  commit-Follows w (ok a) w' h = h
  commit-Follows w (err e) w' h = p.keep refl

  pub Follows-transaction : (body : Prog A) → Follows R body → Follows R (transaction body)
  unfolding transaction
  Follows-transaction body s =
      acts _ _ (λ w. commit-Follows w (run body w).0 (run body w).1 (Follows-run p w s))
        (λ w. finished _)

-- Both ways to go on after a test.
pub Follows-branch :
    {R : Relation} {A : Type 0} (b : Bool) (m k : Prog A)
    → Follows R m
    → Follows R k
    → Follows R (branch b m k)
Follows-branch true m k s t = s
Follows-branch false m k s t = t

pub ruleset steps_rules = (
  Change-IsPreorder, Follows-pure, Follows-raise, Follows-lift, Follows-ok_or, Follows-from_db,
  Follows-guard, Follows-utc_now, Follows-draw, Follows-conn, Follows-attempt, Follows-then,
  Follows-bind, Follows-transaction,
)
