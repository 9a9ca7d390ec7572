-- ===== src/Vault/Learns.antt =====
-- What a request knows while others run between its actions. Knowledge persists under the steps that
-- every action makes; an action may rely on it, and adds to it what it has read.
use mathlib.Core.Path.{subst}
use password_manager_server.Prelude.{◌≡◌, refl, ap, ℕ, Option, none, some, Bool, true, false, arith}
use password_manager_server.Error.{AppError, AppResult, DbError, ok, err}
use password_manager_server.Schema.{Db}
use password_manager_server.Prog.{
  World, Prog, done, atomic, ◌>>=◌, ◌>>◌, ok_or, guard, lift, pure, branch, QueryResult, Query,
  query, exec, outcome, from_db, attempt,
}
use password_manager_server.Effects.Constraints.{IsValid}
use password_manager_server.Effects.Steps.{Follows, finished, acts}
use password_manager_server.Vault.Stable.{Stable, Stable-IsPreorder}

abbrev pub Knowledge : Type 1
Knowledge = Db → Type 0

abbrev pub Persists : Knowledge → Type 0
Persists K = (a b : Db) → Stable a b → K a → K b

-- Run by anyone who knows `K`, among others that make stable steps: every action is a stable step, and an
-- answer `a` comes with the knowledge `Q a`. `S` holds of every database that an action meets.
pub data Learns (S : Knowledge) {A : Type 0} (Q : A → Knowledge) : Knowledge → Prog A → Type 1 where
  ends :
      {K : Knowledge} (r : AppResult A)
      → ((a : A) → r ≡ ok a → (db : Db) → K db → Q a db)
      → Learns S Q K (done r)
  learns :
      {K : Knowledge} (u : World → World) (k : World → Prog A) (L : World → Knowledge)
      → ((w : World) → S w.db → IsValid w.db → K w.db → Stable w.db (u w).db)
      → ((w : World) → Persists (L w))
      → ((w : World) → S w.db → IsValid w.db → K w.db → L w (u w).db)
      → ((w : World) → Learns S Q (L w) (k w))
      → Learns S Q K (atomic u k)

module _ {S : Knowledge} {A : Type 0} {Q : A → Knowledge} where
  pub Learns-weaken :
      {K K' : Knowledge} {m : Prog A}
      → ((db : Db) → K db → K' db)
      → Learns S Q K' m
      → Learns S Q K m
  Learns-weaken f (ends r h) = ends r (λ a e db k. h a e db (f db k))
  Learns-weaken f (learns u k L s p l h) =
      learns u k L (λ w z v x. s w z v (f w.db x)) p (λ w z v x. l w z v (f w.db x)) h

  pub Learns-ok_or :
      {K : Knowledge} (o : Option A) (e : AppError)
      → ((a : A) → o ≡ some a → (db : Db) → K db → Q a db)
      → Learns S Q K (ok_or o e)
  unfolding ok_or
  Learns-ok_or none e h = ends (err e) (λ a f. cc)
  Learns-ok_or (some x) e h = ends (ok x) (λ a f. h a (ground (arith, f)))

  pub Learns-pure : {K : Knowledge} (a : A) → ((db : Db) → K db → Q a db) → Learns S Q K (pure a)
  unfolding pure
  Learns-pure a h =
      ends (ok a)
        (λ b e db k. let same : a ≡ b = ground (arith, e) in subst (λ x. Q x db) same (h db k))

  pub Learns-lift :
      {K : Knowledge} (r : AppResult A)
      → ((a : A) → r ≡ ok a → (db : Db) → K db → Q a db)
      → Learns S Q K (lift r)
  unfolding lift
  Learns-lift r h = ends r h

module _ {S : Knowledge} {A B : Type 0} {Q : A → Knowledge} {T : B → Knowledge} where
  pub Learns-bind :
      {K : Knowledge} {m : Prog A} (f : A → Prog B)
      → Learns S Q K m
      → ((a : A) → Learns S T (Q a) (f a))
      → Learns S T K (m >>= f)
  unfolding ◌>>=◌
  Learns-bind f (ends (ok a) q) h = Learns-weaken (q a refl) (h a)
  Learns-bind f (ends (err e) q) h = ends (err e) (λ b n. cc)
  Learns-bind f (learns u k L s p l t) h = learns u _ L s p l (λ w. Learns-bind f (t w) h)

pub Learns-guard :
    {S : Knowledge} {Q : Unit → Knowledge} {K : Knowledge} (b : Bool) (e : AppError)
    → (b ≡ true → (db : Db) → K db → Q tt db)
    → Learns S Q K (guard b e)
unfolding guard
Learns-guard true e h = ends (ok tt) (λ a f. h refl)
Learns-guard false e h = ends (err e) (λ a f. cc)

-- A program whose steps are stable whatever is known.
pub Follows-Learns :
    {S : Knowledge} {A : Type 0} {K : Knowledge} {m : Prog A}
    → Persists K
    → Follows Stable m
    → Learns S (λ a. K) K m
Follows-Learns p (finished r) = ends r (λ a e db k. k)
Follows-Learns {K = K} p (acts u k h s) =
    learns u k (λ w. K) (λ w z v x. h w) (λ w. p) (λ w z v x. p w.db (u w).db (h w) x)
      (λ w. Follows-Learns p (s w))

module _ {A : Type 0} where
  read-unchanged :
      (fault : Option DbError) (r : QueryResult A × Db) (db : Db)
      → r.1 ≡ db
      → (outcome fault r db).1 ≡ db
  read-unchanged none r db h = h
  read-unchanged (some e) r db h = refl

  read-result :
      (fault : Option DbError) (r : QueryResult A × Db) (db : Db) (a : A)
      → (outcome fault r db).0 ≡ ok a
      → r.0 ≡ ok a
  read-result none r db a h = h
  read-result (some e) r db a h = absurd (ground arith)

  write-result :
      (fault : Option DbError) (r : QueryResult A × Db) (db : Db) (a : A) (P : Knowledge)
      → (r.0 ≡ ok a → P r.1)
      → (outcome fault r db).0 ≡ ok a
      → P (outcome fault r db).1
  write-result none r db a P h e = h e
  write-result (some x) r db a P h e = absurd (ground arith)

  write-Stable :
      (fault : Option DbError) (r : QueryResult A × Db) (db : Db)
      → Stable db r.1
      → Stable db (outcome fault r db).1
  write-Stable none r db h = h
  write-Stable (some e) r db h = Stable-IsPreorder.keep refl

module _ {S : Knowledge} {A : Type 0} {K : Knowledge} (p : Persists K) where
  from_db-Learns :
      (F : A → Knowledge) (r : QueryResult A)
      → Learns S (λ a db. F a db × K db) (λ db. K db × ((a : A) → r ≡ ok a → F a db)) (from_db r)
  unfolding from_db
  from_db-Learns F (ok x) =
      ends (ok x) (λ a e db k. let same : x ≡ a = ground (arith, e) in (k.1 a (ap ok same), k.0))
  from_db-Learns F (err x) = ends _ (λ a e. cc)

  -- A query that reads: what it has found is known from then on.
  pub Learns-read :
      (q : Query A) (F : A → Knowledge)
      → ((a : A) → Persists (F a))
      → ((now : ℕ) (db : Db) → (q now db).1 ≡ db)
      → ((now : ℕ) (db : Db) → S db → IsValid db → (a : A) → (q now db).0 ≡ ok a → F a db)
      → Learns S (λ a db. F a db × K db) K (attempt (query q))
  unfolding attempt query exec ◌>>=◌
  Learns-read q F persists reads found =
      learns _ _ (λ w db. K db × ((a : A) → (exec q w).0 ≡ ok a → F a db))
        (λ w z v x.
          Stable-IsPreorder.keep (read-unchanged w.fault (q w.now w.db) w.db (reads w.now w.db)))
        (λ w a b s k. (p a b s k.0, λ x e. persists x a b s (k.1 x e)))
        (λ w z v x.
          let same = read-unchanged w.fault (q w.now w.db) w.db (reads w.now w.db) in
          rw same (x, λ a e. found w.now w.db z v a (read-result w.fault (q w.now w.db) w.db a e)))
        (λ w. from_db-Learns F (exec q w).0)

  -- A query that writes and answers, relying on what is known: what it has made is known from then on.
  pub Learns-make :
      (q : Query A) (F : A → Knowledge)
      → ((a : A) → Persists (F a))
      → ((now : ℕ) (db : Db) → Stable db (q now db).1)
      → ((now : ℕ) (db : Db) → K db → (a : A) → (q now db).0 ≡ ok a → F a (q now db).1)
      → Learns S (λ a db. F a db × K db) K (attempt (query q))
  unfolding attempt query exec ◌>>=◌
  Learns-make q F persists stable made =
      learns _ _ (λ w db. K db × ((a : A) → (exec q w).0 ≡ ok a → F a db))
        (λ w z v x. write-Stable w.fault (q w.now w.db) w.db (stable w.now w.db))
        (λ w a b s k. (p a b s k.0, λ x e. persists x a b s (k.1 x e)))
        (λ w z v x. (
          p w.db _ (write-Stable w.fault (q w.now w.db) w.db (stable w.now w.db)) x,
          λ a e. write-result w.fault (q w.now w.db) w.db a (F a) (made w.now w.db x a) e,
        ))
        (λ w. from_db-Learns F (exec q w).0)

  -- A query that writes, relying on what is known.
  pub Learns-write :
      (q : Query A)
      → ((now : ℕ) (db : Db) → S db → IsValid db → K db → Stable db (q now db).1)
      → Learns S (λ a. K) K (query q)
  unfolding query exec
  Learns-write q h =
      let stable : (w : World)
          → S w.db
          → IsValid w.db
          → K w.db
          → Stable w.db (outcome w.fault (q w.now w.db) w.db).1 =
        λ w z v x. write-Stable w.fault (q w.now w.db) w.db (h w.now w.db z v x) in
      learns _ _ (λ w. K) stable (λ w. p) (λ w z v x. p w.db _ (stable w z v x) x)
        (λ w. ends _ (λ a e db k. k))

  from_db-keeps : (r : QueryResult A) → Learns S (λ a. K) K (from_db r)
  unfolding from_db
  from_db-keeps (ok x) = ends _ (λ a e db k. k)
  from_db-keeps (err x) = ends _ (λ a e db k. k)

  pub Learns-attempt :
      {m : Prog (QueryResult A)} → Learns S (λ a. K) K m → Learns S (λ a. K) K (attempt m)
  unfolding attempt
  Learns-attempt h = Learns-bind from_db h from_db-keeps

-- What comes after a check may use that the check has passed.
module _ {S : Knowledge} {A B : Type 0} {T : B → Knowledge} {K : Knowledge} where
  pub Learns-some :
      (o : Option A) (e : AppError) (f : A → Prog B)
      → ((a : A) → o ≡ some a → Learns S T K (f a))
      → Learns S T K (ok_or o e >>= f)
  unfolding ok_or ◌>>=◌
  Learns-some none e f h = ends (err e) (λ a n. cc)
  Learns-some (some x) e f h = h x refl

module _ {S : Knowledge} {B : Type 0} {T : B → Knowledge} {K : Knowledge} where
  pub Learns-passed :
      (b : Bool) (e : AppError) (m : Prog B)
      → (b ≡ true → Learns S T K m)
      → Learns S T K (guard b e >> m)
  unfolding guard ◌>>=◌ ◌>>◌
  Learns-passed true e m h = h refl
  Learns-passed false e m h = ends (err e) (λ a n. cc)

-- A fact that does not depend on the database is kept to the end.
pub Learns-frame :
    {S : Knowledge} {A : Type 0} {Q Q' : A → Knowledge} {K : Knowledge} {P : Type 0} {m : Prog A}
    → ((a : A) (db : Db) → Q a db → P → Q' a db)
    → Learns S Q K m
    → Learns S Q' (λ db. K db × P) m
Learns-frame f (ends r h) = ends r (λ a e db k. f a db (h a e db k.0) k.1)
Learns-frame {P = P} f (learns u k L s p l h) =
    learns u k (λ w db. L w db × P) (λ w z v x. s w z v x.0) (λ w a b t x. (p w a b t x.0, x.1))
      (λ w z v x. (l w z v x.0, x.1)) (λ w. Learns-frame f (h w))

-- What persists is kept to the end.
pub Learns-keep :
    {S : Knowledge} {A : Type 0} {Q : A → Knowledge} {K P : Knowledge} {m : Prog A}
    → Persists P
    → Learns S Q K m
    → Learns S (λ a db. Q a db × P db) (λ db. K db × P db) m
Learns-keep x (ends r h) = ends r (λ a e db k. (h a e db k.0, k.1))
Learns-keep {P = P} x (learns u k L s p l h) =
    learns u k (λ w db. L w db × P db) (λ w z v y. s w z v y.0)
      (λ w a b t y. (p w a b t y.0, x a b t y.1))
      (λ w z v y. (l w z v y.0, x w.db (u w).db (s w z v y.0) y.1)) (λ w. Learns-keep x (h w))

pub Learns-branch :
    {S : Knowledge} {A : Type 0} {Q : A → Knowledge} {K : Knowledge} (b : Bool) (m k : Prog A)
    → Learns S Q K m
    → Learns S Q K k
    → Learns S Q K (branch b m k)
Learns-branch true m k x y = x
Learns-branch false m k x y = y
