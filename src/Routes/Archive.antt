-- ===== src/Routes/Archive.antt =====
-- `export_handler` and `import_handler` of src/routes/admin.rs, with `AppState::swap_database` and
-- `run_migrations` as they call them. Files, archives and SQLite are parameters.
pub mod Env
pub mod Refusals
pub mod Installs
pub mod Transfer
use Prim.Native.String.{◌++◌ as ◌<>◌}
use password_manager_server.Prelude.{
  ℕ, suc, ◌+◌, Option, none, some, Bool, true, false, ◌&&◌, ◌||◌, not, List, [], ◌∷◌, ◌++◌, Text,
  Bytes, String, codes, ◌==◌, if◌then◌else◌,
}
use password_manager_server.Error.{
  AppError, AppResult, Result, ok, err, internal, validation, unauthorized, pool, ◌>>=◌, ◌>>◌,
}
use password_manager_server.Crates.{Crates, HeaderMap, IpAddr}
use password_manager_server.Config.{Config}
use password_manager_server.Utf8.{from_utf8}
use password_manager_server.Routes.Auth.{check_admin_key}
use password_manager_server.Routes.Subnet.{check_admin_ip}
use password_manager_server.Routes.Archive.Env.{Secrets, read_env, env_content}

-- A directory, as far as files are read from it by name.
abbrev pub Directory : Type 0
Directory = Text → Option Bytes

-- The server's machine: its files, and which connection pool is in use, counted as they are made.
pub record Host : Type 0 where
  pub files : Directory
  pub pool_in_use : ℕ

-- The tar, flate2, diesel and chrono crates. An error is its message.
pub record ArchiveCrates (Tar : Type 0) : Type 0 where
  pub tar_new : Tar
  pub tar_append : Tar → Text → Bytes → Result String Tar
  pub tar_finish : Tar → Result String Bytes
  pub tar_unpack : Bytes → Result String Directory
  -- Whether SQLite opens such a file, and what the pending migrations make of it.
  pub is_sqlite : Bytes → Bool
  pub migrate : Bytes → Result String Bytes

-- What fails now, with its message: `none` if it succeeds.
pub record Faults : Type 0 where
  pub open_file : Option String
  pub read_file : Option String
  pub tempdir : Option String
  pub write_file : Option String
  pub rename : Option String
  pub init_pool : Option String
  pub get : Option String

abbrev pub put : Text → Option Bytes → Directory → Directory
put path content files name = if name == path then content else files name

-- `r.map_err(|e| AppError::Internal(format!("{prefix}{e}")))`
abbrev pub or_internal : {A : Type 0} → String → Result String A → AppResult A
or_internal prefix (ok a) = ok a
or_internal prefix (err e) = err (internal (prefix <> e))

abbrev pub try : {A : Type 0} → Option String → A → Result String A
try none a = ok a
try (some e) a = err e

abbrev pub found : Option Bytes → AppError → AppResult Bytes
found none e = err e
found (some b) e = ok b

module _ {Tar : Type 0} (a : ArchiveCrates Tar) (c : Crates) (cfg : Config) (headers : HeaderMap)
    (addr : IpAddr) where
  module _ (faults : Faults) where
    -- `README.txt`, but for the time in its second line.
    unfoldable pub readme : (generated : Text) → Text
    readme generated =
        codes "Password Manager Export\nGenerated: "
        ++ generated
        ++ codes
            "\n\nThis archive contains:\n- pwd_manager.db  (SQLite database, all passwords encrypted at rest)\n- .env            (export secrets — KEEP SAFE)\n\nTo import, use the admin CLI Import tab or POST /admin/import.\n"

    -- `File::open` fails where there is no file, too.
    unfoldable pub read_database : Host → AppResult Bytes
    read_database host = do
      or_internal "failed to open db: " (try faults.open_file tt)
      db ←
          found (host.files cfg.database_url)
            (internal "failed to open db: No such file or directory (os error 2)")
      or_internal "failed to read db: " (try faults.read_file db)

    unfoldable pub export_handler : (generated : Text) → Host → AppResult Bytes
    unfolding check_admin_key check_admin_ip readme read_database env_content
    export_handler generated host = do
      check_admin_key c cfg headers
      check_admin_ip addr cfg.admin_allowed_subnet
      db_data ← read_database host
      one ←
          or_internal "tar append db failed: "
            (a.tar_append a.tar_new (codes "pwd_manager.db") db_data)
      two ←
          or_internal "tar append env failed: "
            (a.tar_append one (codes ".env") (env_content c cfg))
      three ←
          or_internal "tar append readme failed: "
            (a.tar_append two (codes "README.txt") (readme generated))
      or_internal "tar finish failed: " (a.tar_finish three)

    abbrev pub staged : Text
    staged = cfg.database_url ++ codes ".importing"

    -- The pool that is made is the next one.
    abbrev pub with_pool : Option String → Host → AppResult (Unit {0}) × Host
    with_pool none host = (ok tt, record host { pool_in_use = suc host.pool_in_use })
    with_pool (some e) host = (err (pool e), host)

    -- `AppState::swap_database(staged)`
    unfoldable pub swap_database : Host → AppResult (Unit {0}) × Host
    swap_database host = elim faults.rename [
      | some e ↦ (err (internal ("rename db failed: " <> e)), host)
      | none ↦ with_pool faults.init_pool (record host {
        files = put staged none (put cfg.database_url (host.files staged) host.files);
      })
    ]

    -- `AppState::reload_pool`, which nothing calls.
    abbrev pub reload_pool : Host → AppResult (Unit {0}) × Host
    reload_pool host = with_pool faults.init_pool host

    abbrev pub migrated : Host → Result String Bytes → AppResult (Unit {0}) × Host
    migrated host (err e) = (err (internal ("migration failed: " <> e)), host)
    migrated host (ok db) =
        (ok tt, record host { files = put cfg.database_url (some db) host.files })

    abbrev pub migrated_file : Host → Option Bytes → AppResult (Unit {0}) × Host
    migrated_file host none = (ok tt, host)
    migrated_file host (some db) = migrated host (a.migrate db)

    -- `run_migrations` over the pool that is in use.
    unfoldable pub run_migrations : Host → AppResult (Unit {0}) × Host
    run_migrations host = elim faults.get [
      | some e ↦ (err (pool e), host)
      | none ↦ migrated_file host (host.files cfg.database_url)
    ]

    unfoldable pub then_migrations : AppResult (Unit {0}) × Host → AppResult (Unit {0}) × Host
    unfolding run_migrations
    then_migrations (err e, host) = (err e, host)
    then_migrations (ok _, host) = run_migrations host

    -- From `std::fs::write(&temp_db, ..)` to the end.
    unfoldable pub install : Bytes → Host → AppResult (Unit {0}) × Host
    unfolding swap_database then_migrations
    install db host = elim faults.write_file [
      | some e ↦ (err (internal ("write temp db failed: " <> e)), host)
      | none ↦
          let written = record host { files = put staged (some db) host.files } in
          if a.is_sqlite db
          then then_migrations (swap_database written)
          else (err (validation "imported db is not a valid SQLite database"), written)
    ]

    unfoldable pub read_to_string : Option Bytes → Option Text
    unfolding from_utf8
    read_to_string none = none
    read_to_string (some b) = from_utf8 b

    -- Both secrets of an archive, compared with those of the server.
    abbrev pub check_secrets : Secrets → AppResult (Unit {0})
    check_secrets (some enc, some sw) =
        if not (enc == c.hex_encode cfg.database_encrypt_secret)
          || not (sw == c.hex_encode cfg.software_secret)
        then err (unauthorized "archive secrets do not match server configuration")
        else ok tt
    check_secrets _ = err (validation "incomplete .env in archive")

    -- All that comes before the first write to the server's own files: the database to install.
    unfoldable pub accept : Bytes → AppResult Bytes
    unfolding check_admin_key check_admin_ip read_to_string read_env
    accept body = do
      check_admin_key c cfg headers
      check_admin_ip addr cfg.admin_allowed_subnet
      or_internal "tempdir failed: " (try faults.tempdir tt)
      dir ← or_internal "tar unpack failed: " (a.tar_unpack body)
      env_str ← found (read_to_string (dir (codes ".env"))) (validation "missing .env in archive")
      check_secrets (read_env env_str)
      found (dir (codes "pwd_manager.db")) (validation "missing pwd_manager.db in archive")

    unfoldable pub installed : AppResult Bytes → Host → AppResult (Unit {0}) × Host
    unfolding install
    installed (err e) host = (err e, host)
    installed (ok db) host = install db host

    unfoldable pub import_handler : Bytes → Host → AppResult (Unit {0}) × Host
    unfolding accept installed
    import_handler body host = installed (accept body) host
