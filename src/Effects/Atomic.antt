-- ===== src/Effects/Atomic.antt =====
-- Programs that read only, and programs that write nothing if they fail, run without interference.
pub mod Requests
use password_manager_server.Prelude.{
  ℕ, ◌≡◌, refl, ◌∙◌, ap, Option, none, some, Bool, true, false, Text, arith, if◌then◌else◌, List,
}
use password_manager_server.Error.{
  AppError, AppResult, DbError, ok, err, unique_violation, database,
}
use password_manager_server.Schema.{
  Db, Identity, NewUser, UpdateUser, NewIdentity, UpdateIdentity, NewGroup, NewPassword,
  UpdatePassword,
}
use password_manager_server.Prog.{
  World, Prog, done, atomic, ◌>>=◌, ◌>>◌, pure, raise, lift, ok_or, guard, run, QueryResult, Query,
  exec, query, from_db, attempt, utc_now, draw, conn, transaction, branch, program,
}
use password_manager_server.Domain.User
use password_manager_server.Domain.Identity
use password_manager_server.Domain.Group
use password_manager_server.Domain.Password
use password_manager_server.Routes.Greet.{created}

pub record Reads {A : Type 0} (m : Prog A) : Type 0 where
  pub same : (w : World) → (run m w).1.db ≡ w.db

pub record IsAtomic {A : Type 0} (m : Prog A) : Type 0 where
  pub undone : (w : World) (e : AppError) → (run m w).0 ≡ err e → (run m w).1.db ≡ w.db

-- A program that cannot fail.
pub record Succeeds {A : Type 0} (m : Prog A) : Type 0 where
  pub result : (w : World) (e : AppError) → (run m w).0 ≡ err e → ⊥

module _ {A : Type 0} where
  pub Reads-pure : (a : A) → Reads (pure a)
  unfolding program
  Reads-pure a = record { same = λ w. refl }

  pub Reads-raise : (e : AppError) → Reads (raise {A = A} e)
  unfolding program
  Reads-raise e = record { same = λ w. refl }

  pub Reads-lift : (r : AppResult A) → Reads (lift r)
  unfolding program
  Reads-lift r = record { same = λ w. refl }

  pub Reads-ok_or : (o : Option A) (e : AppError) → Reads (ok_or o e)
  unfolding program
  Reads-ok_or o e = record { same = λ w. ground arith }

  pub Reads-from_db : (r : QueryResult A) → Reads (from_db r)
  unfolding program
  Reads-from_db r = record { same = λ w. ground arith }

  pub Reads-query : (q : Query A) → ((now : ℕ) (db : Db) → (q now db).1 ≡ db) → Reads (query q)
  unfolding program
  Reads-query q h = record { same = λ w. ground (arith, h w.now w.db) }

  pub Reads-branch : (b : Bool) (m k : Prog A) → Reads m → Reads k → Reads (branch b m k)
  Reads-branch true m k h l = h
  Reads-branch false m k h l = l

  pub Reads-IsAtomic : (m : Prog A) → Reads m → IsAtomic m
  Reads-IsAtomic m r = record { undone = λ w e h. r.same w }

  pub Succeeds-pure : (a : A) → Succeeds (pure a)
  unfolding program
  Succeeds-pure a = record { result = λ w e h. cc }

  pub IsAtomic-transaction : (body : Prog A) → IsAtomic (transaction body)
  unfolding program
  IsAtomic-transaction body = record { undone = λ w e h. ground arith }

module _ {A B : Type 0} where
  same_bind :
      (m : Prog A) (f : A → Prog B) (w : World)
      → ((a : A) → Reads (f a))
      → (run (m >>= f) w).1.db ≡ (run m w).1.db
  unfolding run ◌>>=◌
  same_bind (done (ok a)) f w h = (h a).same w
  same_bind (done (err e)) f w h = refl
  same_bind (atomic u k) f w h = same_bind (k w) f (u w) h

  pub Reads-bind :
      (m : Prog A) (f : A → Prog B) → Reads m → ((a : A) → Reads (f a)) → Reads (m >>= f)
  Reads-bind m f r h = record { same = λ w. same_bind m f w h ∙ r.same w }

  undone_bind :
      (m : Prog A) (f : A → Prog B) (w : World) (e : AppError)
      → ((a : A) → IsAtomic (f a))
      → (run (m >>= f) w).0 ≡ err e
      → (run (m >>= f) w).1.db ≡ (run m w).1.db
  unfolding run ◌>>=◌
  undone_bind (done (ok a)) f w e h k = (h a).undone w e k
  undone_bind (done (err x)) f w e h k = refl
  undone_bind (atomic u g) f w e h k = undone_bind (g w) f (u w) e h k

  -- Reading first, and then something atomic.
  pub IsAtomic-bind :
      (m : Prog A) (f : A → Prog B) → Reads m → ((a : A) → IsAtomic (f a)) → IsAtomic (m >>= f)
  IsAtomic-bind m f r h = record { undone = λ w e k. undone_bind m f w e h k ∙ r.same w }

  failed_first :
      (m : Prog A) (f : A → Prog B) (w v : World) (e : AppError)
      → ((a : A) → Succeeds (f a))
      → ((x : AppError) → (run m w).0 ≡ err x → (run m w).1.db ≡ v.db)
      → (run (m >>= f) w).0 ≡ err e
      → (run (m >>= f) w).1.db ≡ v.db
  unfolding run ◌>>=◌
  failed_first (done (ok a)) f w v e h k l = absurd ((h a).result w e l)
  failed_first (done (err x)) f w v e h k l = k x refl
  failed_first (atomic u g) f w v e h k l = failed_first (g w) f (u w) v e h k l

  -- Something atomic, and then nothing that can fail.
  pub IsAtomic-last :
      (m : Prog A) (f : A → Prog B) → IsAtomic m → ((a : A) → Succeeds (f a)) → IsAtomic (m >>= f)
  IsAtomic-last m f r h = record { undone = λ w e k. failed_first m f w w e h (r.undone w) k }

pub Reads-guard : (b : Bool) (e : AppError) → Reads (guard b e)
unfolding program
Reads-guard b e = record { same = λ w. ground arith }

pub Reads-utc_now : Reads utc_now
unfolding program
Reads-utc_now = record { same = λ w. refl }

pub Reads-draw : Reads draw
unfolding program
Reads-draw = record { same = λ w. refl }

pub Reads-conn : Reads conn
unfolding program
Reads-conn = record { same = λ w. ground arith }

module _ {A : Type 0} where
  pub Reads-attempt : (m : Prog (QueryResult A)) → Reads m → Reads (attempt m)
  unfolding attempt
  Reads-attempt m r = Reads-bind m from_db r Reads-from_db

  pub Reads-then : (m : Prog (Unit {0})) (k : Prog A) → Reads m → Reads k → Reads (m >> k)
  unfolding ◌>>◌
  Reads-then m k r s = Reads-bind m (λ _. k) r (λ _. s)

  pub IsAtomic-then : (m : Prog (Unit {0})) (k : Prog A) → Reads m → IsAtomic k → IsAtomic (m >> k)
  unfolding ◌>>◌
  IsAtomic-then m k r s = IsAtomic-bind m (λ _. k) r (λ _. s)

  pub IsAtomic-then_last :
      (m : Prog (Unit {0})) (k : Prog A) → IsAtomic m → Succeeds k → IsAtomic (m >> k)
  unfolding ◌>>◌
  IsAtomic-then_last m k r s = IsAtomic-last m (λ _. k) r (λ _. s)

-- The queries that write.
pub user_update-IsAtomic :
    (uuid : Text) (changes : UpdateUser) → IsAtomic (attempt (User.update uuid changes))
unfolding program User.update User.set_row
user_update-IsAtomic uuid changes = record { undone = λ w e h. ground arith }

pub identity_update-IsAtomic :
    (uuid : Text) (changes : UpdateIdentity) → IsAtomic (attempt (Identity.update uuid changes))
unfolding program Identity.update Identity.set_row
identity_update-IsAtomic uuid changes = record { undone = λ w e h. ground arith }

pub identity_delete-IsAtomic : (uuid : Text) → IsAtomic (attempt (Identity.delete uuid))
unfolding program Identity.delete
identity_delete-IsAtomic uuid = record { undone = λ w e h. ground arith }

pub group_create-IsAtomic : (new : NewGroup) → IsAtomic (attempt (Group.create new))
unfolding program Group.create Group.insert
group_create-IsAtomic new = record { undone = λ w e h. ground arith }

pub password_update-IsAtomic :
    (uuid : Text) (changes : UpdatePassword) → IsAtomic (attempt (Password.update uuid changes))
unfolding program Password.update Password.set_row
password_update-IsAtomic uuid changes = record { undone = λ w e h. ground arith }

pub greeting-IsAtomic :
    {B : Type 0} (new : NewIdentity) (b : B)
    → IsAtomic (Identity.create new >>= λ r. created r >>= λ i. pure b)
unfolding program Identity.create Identity.insert
greeting-IsAtomic new b = record { undone = λ w e h. ground arith }

-- The queries that read.
pub user_find_by_uuid-Reads : (uuid : Text) → Reads (User.find_by_uuid uuid)
unfolding User.find_by_uuid
user_find_by_uuid-Reads uuid = Reads-query _ (λ now db. refl)

pub user_find_by_name-Reads : (name : Text) → Reads (User.find_by_name name)
unfolding User.find_by_name
user_find_by_name-Reads name = Reads-query _ (λ now db. refl)

pub user_find_all-Reads : Reads (User.find_all)
unfolding User.find_all
user_find_all-Reads = Reads-query _ (λ now db. refl)

pub identity_find_by_ip-Reads : (ip : Text) → Reads (Identity.find_by_ip ip)
unfolding Identity.find_by_ip
identity_find_by_ip-Reads ip = Reads-query _ (λ now db. refl)

pub identity_find_by_device_token-Reads :
    (token : Text) → Reads (Identity.find_by_device_token token)
unfolding Identity.find_by_device_token
identity_find_by_device_token-Reads token = Reads-query _ (λ now db. refl)

pub identity_find_by_uuid-Reads : (uuid : Text) → Reads (Identity.find_by_uuid uuid)
unfolding Identity.find_by_uuid
identity_find_by_uuid-Reads uuid = Reads-query _ (λ now db. refl)

pub identity_find_all-Reads : Reads (Identity.find_all)
unfolding Identity.find_all
identity_find_all-Reads = Reads-query _ (λ now db. refl)

pub identity_find_pending-Reads : Reads (Identity.find_pending)
unfolding Identity.find_pending
identity_find_pending-Reads = Reads-query _ (λ now db. refl)

pub group_find_by_uuid-Reads : (uuid : Text) → Reads (Group.find_by_uuid uuid)
unfolding Group.find_by_uuid
group_find_by_uuid-Reads uuid = Reads-query _ (λ now db. refl)

pub group_find_by_user-Reads : (id : Text) → Reads (Group.find_by_user id)
unfolding Group.find_by_user
group_find_by_user-Reads id = Reads-query _ (λ now db. refl)

pub password_find_by_uuid-Reads : (uuid : Text) → Reads (Password.find_by_uuid uuid)
unfolding Password.find_by_uuid
password_find_by_uuid-Reads uuid = Reads-query _ (λ now db. refl)

pub password_find_by_groups-Reads : (ids : List Text) → Reads (Password.find_by_groups ids)
unfolding Password.find_by_groups
password_find_by_groups-Reads ids = Reads-query _ (λ now db. refl)

pub ruleset reads_rules = (
  Reads-pure, Reads-raise, Reads-lift, Reads-ok_or, Reads-guard, Reads-utc_now, Reads-draw,
  Reads-conn, Reads-attempt, Reads-then, Reads-bind, user_find_by_uuid-Reads,
  user_find_by_name-Reads, user_find_all-Reads, identity_find_by_ip-Reads,
  identity_find_by_device_token-Reads, identity_find_by_uuid-Reads, identity_find_all-Reads,
  identity_find_pending-Reads, group_find_by_uuid-Reads, group_find_by_user-Reads,
  password_find_by_uuid-Reads, password_find_by_groups-Reads,
)

pub ruleset atomic_rules = (
  reads_rules, IsAtomic-bind, IsAtomic-then, IsAtomic-last, IsAtomic-then_last, Succeeds-pure,
  IsAtomic-transaction, user_update-IsAtomic, identity_update-IsAtomic, identity_delete-IsAtomic,
  group_create-IsAtomic, password_update-IsAtomic, greeting-IsAtomic,
)
