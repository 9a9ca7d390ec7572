-- ===== src/Routes/Archive/Refusals.antt =====
-- What an import has done to the server, by its answer.
use password_manager_server.Prelude.{
  ◌<◌, ◌≡◌, ◌≢◌, inl, inr, refl, none, some, String, Option, Text, Bytes, codes, ◌==◌, ==_iff,
  arith, Option-cases, Bool-cases, ap, sym, ◌∙◌,
}
use password_manager_server.Error.{AppError, AppResult, Result, ok, err, status_code, validation}
use password_manager_server.Error.Cases.{Result-cases, bind-ok}
use password_manager_server.Crates.{Crates, HeaderMap, IpAddr}
use password_manager_server.Config.{Config}
use password_manager_server.Utf8.{from_utf8, valid_from}
use password_manager_server.Routes.Auth.{check_admin_key}
use password_manager_server.Routes.Subnet.{check_admin_ip}
use password_manager_server.Routes.Archive.{
  Host, Directory, ArchiveCrates, Faults, accept, install, swap_database, run_migrations,
  then_migrations, import_handler, put, staged, read_to_string, check_secrets, found, or_internal,
  try, installed,
}
use password_manager_server.Routes.Archive.Env.{Secrets, read_env}

pub found-ok :
    (file : Option Bytes) (e : AppError) {b : Bytes} → found file e ≡ ok b → file ≡ some b
found-ok none e h = cc
found-ok (some b) e h = cc

pub internal-ok :
    {A : Type 0} (prefix : String) (r : Result String A) {x : A}
    → or_internal prefix r ≡ ok x
    → r ≡ ok x
internal-ok prefix (ok x) h = cc
internal-ok prefix (err e) h = cc

-- The other files stay as they are.
pub put-other :
    (path name : Text) (content : Option Bytes) (files : Directory)
    → name ≢ path
    → put path content files name ≡ files name
put-other path name content files n = elim (Bool-cases (name == path)) [
  | inl e ↦ absurd (n ((==_iff name path).0 e))
  | inr e ↦ rw e refl
]

module _ {Tar : Type 0} (a : ArchiveCrates Tar) (c : Crates) (cfg : Config) (headers : HeaderMap)
    (addr : IpAddr) (faults : Faults) where
  -- The database and the pool are the ones that they were; a file beside it may be left.
  pub record Untouched (before after : Host) : Type 0 where
    pub files :
        (path : Text)
        → path ≢ staged a c cfg headers addr faults
        → after.files path ≡ before.files path
    pub same_pool : after.pool_in_use ≡ before.pool_in_use

  -- The archive has a database and exactly the secrets of this server.
  pub record IsOurs (body db : Bytes) : Type 0 where
    pub key : check_admin_key c cfg headers ≡ ok tt
    pub address : check_admin_ip addr cfg.admin_allowed_subnet ≡ ok tt
    pub dir : Directory
    pub unpacked : a.tar_unpack body ≡ ok dir
    pub env : Text
    pub env_there : dir (codes ".env") ≡ some env
    pub secrets :
        read_env env
        ≡ (some (c.hex_encode cfg.database_encrypt_secret), some (c.hex_encode cfg.software_secret))
    pub database_there : dir (codes "pwd_manager.db") ≡ some db

  env_text :
      (file : Option Bytes) (env : Text)
      → read_to_string a c cfg headers addr faults file ≡ some env
      → file ≡ some env
  unfolding read_to_string from_utf8
  env_text none env h = h
  env_text (some b) env h = elim (Bool-cases (valid_from 0 128 191 b)) [
    | inl v ↦ rw v at h
    | inr v ↦ absurd (let n : none ≡ some env = rw v at h in cc)
  ]

  both :
      (secrets : Secrets)
      → check_secrets a c cfg headers addr faults secrets ≡ ok tt
      → secrets
        ≡ (some (c.hex_encode cfg.database_encrypt_secret), some (c.hex_encode cfg.software_secret))
  both (none, none) h = absurd (ground arith)
  both (none, some sw) h = absurd (ground arith)
  both (some enc, none) h = absurd (ground arith)
  both (some enc, some sw) h = elim (Bool-cases (enc == c.hex_encode cfg.database_encrypt_secret)) [
    | inr e ↦ absurd (ground arith)
    | inl e ↦ elim (Bool-cases (sw == c.hex_encode cfg.software_secret)) [
      | inr f ↦ absurd (ground arith)
      | inl f ↦
          let same_enc = (==_iff enc (c.hex_encode cfg.database_encrypt_secret)).0 e in
          let same_sw = (==_iff sw (c.hex_encode cfg.software_secret)).0 f in
          rw (same_enc, same_sw) refl
    ]
  ]

  pub accept-IsOurs :
      (body db : Bytes) → accept a c cfg headers addr faults body ≡ ok db → IsOurs body db
  unfolding accept
  accept-IsOurs body db h =
      let (_, k, h1) = bind-ok (check_admin_key c cfg headers) _ h in
      let (_, l, h2) = bind-ok (check_admin_ip addr cfg.admin_allowed_subnet) _ h1 in
      let (_, t, h3) = bind-ok (or_internal "tempdir failed: " (try faults.tempdir tt)) _ h2 in
      let (dir, u, h4) = bind-ok (or_internal "tar unpack failed: " (a.tar_unpack body)) _ h3 in
      let (env, r, h5) =
        bind-ok
          (found (read_to_string a c cfg headers addr faults (dir (codes ".env")))
            (validation "missing .env in archive"))
          _ h4 in
      let (_, s, h6) = bind-ok (check_secrets a c cfg headers addr faults (read_env env)) _ h5 in
      record {
        key = k;
        address = l;
        dir = dir;
        unpacked = internal-ok _ (a.tar_unpack body) u;
        env = env;
        env_there = env_text (dir (codes ".env")) env (found-ok _ _ r);
        secrets = both (read_env env) s;
        database_there = found-ok (dir (codes "pwd_manager.db")) _ h6;
      }

  swap-status :
      (host : Host) (e : AppError)
      → (swap_database a c cfg headers addr faults host).0 ≡ err e
      → status_code e ≡ 500
  unfolding swap_database status_code
  swap-status host e h = ground arith

  migrate-status :
      (host : Host) (e : AppError)
      → (run_migrations a c cfg headers addr faults host).0 ≡ err e
      → status_code e ≡ 500
  unfolding run_migrations status_code
  migrate-status host e h = elim (Option-cases (host.files cfg.database_url)) [
    | inl n ↦ ground arith
    | inr (db, n) ↦ elim (Result-cases (a.migrate db)) [
      | inl (_, m) ↦ ground arith
      | inr (_, m) ↦ ground arith
    ]
  ]

  then-status :
      (r : AppResult (Unit {0}) × Host) (e : AppError)
      → (then_migrations a c cfg headers addr faults r).0 ≡ err e
      → ((x : AppError) → r.0 ≡ err x → status_code x ≡ 500)
      → status_code e ≡ 500
  unfolding then_migrations
  then-status (err x, host) e h k = let q : x ≡ e = cc in rw q at (k x refl)
  then-status (ok _, host) e h k = migrate-status host e h

  install-refused :
      (db : Bytes) (host : Host) (e : AppError)
      → (install a c cfg headers addr faults db host).0 ≡ err e
      → status_code e < 500
      → Untouched host (install a c cfg headers addr faults db host).1
  unfolding install swap_database then_migrations run_migrations status_code
  install-refused db host e h k = elim (Option-cases faults.write_file) [
    | inr (m, w) ↦ absurd (ground arith)
    | inl w ↦ elim (Bool-cases (a.is_sqlite db)) [
      | inr s ↦
          rw (w, install, s)
            (record { files = λ path n. put-other _ path (some db) host.files n; same_pool = refl })
      | inl s ↦
          let written = record host {
            files = put (staged a c cfg headers addr faults) (some db) host.files;
          } in
          let same : install a c cfg headers addr faults db host
              ≡ then_migrations a c cfg headers addr faults
                  (swap_database a c cfg headers addr faults written) =
            rw (w, install, s) refl in
          let failed =
            then-status (swap_database a c cfg headers addr faults written) e
              (ap (λ r. r.0) (sym same) ∙ h) (swap-status written) in
          absurd (omega (arith, failed, k))
    ]
  ]

  -- An import that is answered with a status below 500 (not authorised, not an archive of this server, not
  -- a database) leaves the database, the pool and every other file as they were; the staged file may be
  -- left behind.
  pub import_handler-refused :
      (body : Bytes) (host : Host) (e : AppError)
      → (import_handler a c cfg headers addr faults body host).0 ≡ err e
      → status_code e < 500
      → Untouched host (import_handler a c cfg headers addr faults body host).1
  unfolding import_handler installed
  import_handler-refused body host e h k =
      elim (Result-cases (accept a c cfg headers addr faults body)) [
        | inr (x, r) ↦ rw (r, import_handler) (record { files = λ path n. refl; same_pool = refl })
        | inl (db, r) ↦
            let same : import_handler a c cfg headers addr faults body host
                ≡ install a c cfg headers addr faults db host =
              rw (r, import_handler) refl in
            rw same (install-refused db host e (ap (λ q. q.0) (sym same) ∙ h) k)
      ]
