-- ===== src/Vault/Peel.antt =====
-- Taking a program that has succeeded apart, part by part.
use password_manager_server.Prelude.{Option, some, arith, ◌≡◌, sym, ◌∙◌, ap}
use password_manager_server.Error.{AppError, ok}
use password_manager_server.Schema.{Db}
use password_manager_server.Prog.{World, Prog, run, program, ok_or, ◌>>=◌}
use password_manager_server.Prog.Runs.{run-bind, run-bind-ok}
use password_manager_server.Effects.Atomic.{Reads}

-- The program, run in a world with the tables `before`, ends in `b` and the tables `after`.
pub record Ends {B : Type 0} (m : Prog B) (w : World) (before after : Db) (b : B) : Type 0 where
  pub result : (run m w).0 ≡ ok b
  pub tables : w.db ≡ before
  pub written : (run m w).1.db ≡ after

-- Behind a first part that only reads, the rest runs over the same tables.
pub peel :
    {A B : Type 0} (m : Prog A) (f : A → Prog B) {w : World} {before after : Db} {b : B}
    → Reads m
    → Ends (m >>= f) w before after b
    → {G : Type 0}
    → ((a : A) (v : World) → (run m w).0 ≡ ok a → w.db ≡ before → Ends (f a) v before after b → G)
    → G
peel m f {w = w} reads h k =
    let (a, e, r) = run-bind-ok m f w h.result in
    k a (run m w).1 e h.tables (record {
      result = r;
      tables = reads.same w ∙ h.tables;
      written = ap (λ x. x.1.db) (sym (run-bind m f w e)) ∙ h.written;
    })

-- What comes behind only reads.
pub then_reads :
    {A B : Type 0} (m : Prog A) (f : A → Prog B) {w : World} {before after : Db} {b : B}
    → ((a : A) → Reads (f a))
    → Ends (m >>= f) w before after b
    → {G : Type 0}
    → ((a : A) (v : World)
        → (run m w).0 ≡ ok a
        → w.db ≡ before
        → (run m w).1.db ≡ after
        → (run (f a) v).0 ≡ ok b
        → G)
    → G
then_reads m f {w = w} reads h k =
    let (a, e, r) = run-bind-ok m f w h.result in
    k a (run m w).1 e h.tables
      (sym ((reads a).same (run m w).1) ∙ ap (λ x. x.1.db) (sym (run-bind m f w e)) ∙ h.written) r

pub ok_or-ok :
    {A : Type 0} (o : Option A) (e : AppError) (w : World) (a : A)
    → (run (ok_or o e) w).0 ≡ ok a
    → o ≡ some a
unfolding program
ok_or-ok o e w a h = ground arith
