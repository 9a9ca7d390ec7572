-- ===== src/Routes/Archive/Installs.antt =====
-- What an import that succeeds has installed.
use password_manager_server.Prelude.{
  suc, ◌≡◌, ◌≢◌, refl, none, some, String, Option, true, Text, Bytes, codes, ◌==◌, ==_iff, arith,
  Option-cases, Bool-cases, inl, inr, length, length-append, ap, sym, ◌∙◌,
}
use password_manager_server.Error.{Result, ok, err}
use password_manager_server.Error.Cases.{Result-cases}
use password_manager_server.Crates.{Crates, HeaderMap, IpAddr}
use password_manager_server.Config.{Config}
use password_manager_server.Routes.Archive.{
  Host, Directory, ArchiveCrates, Faults, accept, install, swap_database, run_migrations,
  then_migrations, migrated, migrated_file, import_handler, put, staged, installed,
}
use password_manager_server.Routes.Archive.Refusals.{IsOurs, accept-IsOurs, put-other}

pub put-same :
    (path : Text) (content : Option Bytes) (files : Directory)
    → put path content files path ≡ content
put-same path content files = let e : (path == path) ≡ true = (==_iff path path).1 refl in rw e refl

module _ {Tar : Type 0} (a : ArchiveCrates Tar) (c : Crates) (cfg : Config) (headers : HeaderMap)
    (addr : IpAddr) (faults : Faults) where
  abbrev there : Text
  there = staged a c cfg headers addr faults

  -- The server runs on the archive's database, migrated, over a new pool; no other file has changed.
  pub record Installed (body : Bytes) (before after : Host) : Type 0 where
    pub db : Bytes
    pub db' : Bytes
    pub ours : IsOurs a c cfg headers addr faults body db
    pub valid : a.is_sqlite db ≡ true
    pub upgraded : a.migrate db ≡ ok db'
    pub database : after.files cfg.database_url ≡ some db'
    pub unstaged : after.files there ≡ none
    pub others :
        (path : Text)
        → path ≢ cfg.database_url
        → path ≢ there
        → after.files path ≡ before.files path
    pub next_pool : after.pool_in_use ≡ suc before.pool_in_use

  staged-other : cfg.database_url ≢ there
  staged-other e =
      absurd (omega (arith, length-append cfg.database_url (codes ".importing"), ap length e))

  -- The files after the renaming, and after the migrations.
  abbrev pub swapped : Bytes → Host → Directory
  swapped db host =
      let written = put there (some db) host.files in
      put there none (put cfg.database_url (written there) written)

  install-parts :
      (db : Bytes) (host : Host)
      → (install a c cfg headers addr faults db host).0 ≡ ok tt
      → (a.is_sqlite db ≡ true)
        × (install a c cfg headers addr faults db host
            ≡ migrated_file a c cfg headers addr faults
                (record { files = swapped db host; pool_in_use = suc host.pool_in_use })
                (swapped db host cfg.database_url))
  unfolding install swap_database then_migrations run_migrations
  install-parts db host h = elim (Option-cases faults.write_file) [
    | inr (m, w) ↦ absurd (let n : err _ ≡ ok tt = rw (w, install) at h in cc)
    | inl w ↦ elim (Bool-cases (a.is_sqlite db)) [
      | inr s ↦ absurd (let n : err _ ≡ ok tt = rw (w, install, s) at h in cc)
      | inl s ↦ elim (Option-cases faults.rename) [
        | inr (m, x) ↦
            absurd (let n : err _ ≡ ok tt = rw (w, install, s, x, swap_database) at h in cc)
        | inl x ↦ elim (Option-cases faults.init_pool) [
          | inr (m, y) ↦
              absurd (let n : err _ ≡ ok tt = rw (w, install, s, x, swap_database, y) at h in cc)
          | inl y ↦ elim (Option-cases faults.get) [
            | inr (m, z) ↦ absurd (
                let n : err _ ≡ ok tt =
                  rw (w, install, s, x, swap_database, y, z, run_migrations) at h in
                cc)
            | inl z ↦ (s, rw (w, install, s, x, swap_database, y, z, run_migrations) refl)
          ]
        ]
      ]
    ]
  ]

  pub swapped-database : (db : Bytes) (host : Host) → swapped db host cfg.database_url ≡ some db
  swapped-database db host =
      let written = put there (some db) host.files in
      put-other there cfg.database_url none (put cfg.database_url (written there) written)
        staged-other
      ∙ put-same cfg.database_url (written there) written
      ∙ put-same there (some db) host.files

  swapped-staged : (db : Bytes) (host : Host) → swapped db host there ≡ none
  swapped-staged db host =
      let written = put there (some db) host.files in
      put-same there none (put cfg.database_url (written there) written)

  swapped-other :
      (db : Bytes) (host : Host) (path : Text)
      → path ≢ cfg.database_url
      → path ≢ there
      → swapped db host path ≡ host.files path
  swapped-other db host path n m =
      let written = put there (some db) host.files in
      put-other there path none (put cfg.database_url (written there) written) m
      ∙ put-other cfg.database_url path (written there) written n
      ∙ put-other there path (some db) host.files m

  migrated-ok :
      (db : Bytes) (host : Host) (m : Result String Bytes)
      → a.migrate db ≡ m
      → let swap : Host = record { files = swapped db host; pool_in_use = suc host.pool_in_use } in
        (migrated a c cfg headers addr faults swap m).0 ≡ ok tt
        → (db' : Bytes) × (a.migrate db ≡ ok db')
          × (migrated a c cfg headers addr faults swap m).1 ≡ record {
            files = put cfg.database_url (some db') (swapped db host);
            pool_in_use = suc host.pool_in_use;
          }
  migrated-ok db host (err e) q h = absurd (let n : err _ ≡ ok tt = h in cc)
  migrated-ok db host (ok db') q h = (db', q, refl)

  -- An import that succeeds had an archive of this server in it: with both of its secrets and with a
  -- database that SQLite opens. The server then runs on that database, migrated, over a new pool; the
  -- staged file is gone, and no other file has changed.
  pub import_handler-Installed :
      (body : Bytes) (host : Host)
      → (import_handler a c cfg headers addr faults body host).0 ≡ ok tt
      → Installed body host (import_handler a c cfg headers addr faults body host).1
  unfolding import_handler installed
  import_handler-Installed body host h =
      elim (Result-cases (accept a c cfg headers addr faults body)) [
        | inr (x, r) ↦ absurd (let n : err _ ≡ ok tt = rw (r, import_handler) at h in cc)
        | inl (db, r) ↦
            let (valid, swap) = install-parts db host (rw (r, import_handler) at h) in
            let swap_host : Host = record {
              files = swapped db host;
              pool_in_use = suc host.pool_in_use;
            } in
            let whole : import_handler a c cfg headers addr faults body host
                ≡ migrated a c cfg headers addr faults swap_host (a.migrate db) =
              rw (r, import_handler)
                (swap
                  ∙ ap (λ f. migrated_file a c cfg headers addr faults swap_host f)
                      (swapped-database db host)) in
            let (db', upgraded, done) =
              migrated-ok db host (a.migrate db) refl (ap (λ x. x.0) (sym whole) ∙ h) in
            rw (ap (λ x. x.1) whole ∙ done) (record {
              db = db;
              db' = db';
              ours = accept-IsOurs a c cfg headers addr faults body db r;
              valid = valid;
              upgraded = upgraded;
              database = put-same cfg.database_url (some db') (swapped db host);
              unstaged =
                  put-other cfg.database_url there (some db') (swapped db host)
                    (λ e. staged-other (sym e))
                  ∙ swapped-staged db host;
              others = λ path n m.
                  put-other cfg.database_url path (some db') (swapped db host) n
                  ∙ swapped-other db host path n m;
              next_pool = refl;
            })
      ]
