-- ===== src/Routes/Archive/Transfer.antt =====
-- An archive on its way from one server to another.
use password_manager_server.Prelude.{
  ◌≡◌, refl, none, some, String, Text-discrete, Option, true, List, All, [], ◌∷◌, Text, Bytes,
  codes, ◌==◌, ==_iff, ap, ◌∙◌, if◌then◌else◌,
}
use password_manager_server.Error.{ok, internal}
use password_manager_server.Error.Cases.{bind-ok}
use password_manager_server.Crates.{Crates, HeaderMap, IpAddr}
use password_manager_server.Config.{Config}
use password_manager_server.Routes.Archive.{
  Host, Directory, ArchiveCrates, Faults, accept, install, swap_database, run_migrations,
  then_migrations, import_handler, installed, export_handler, read_database, readme, or_internal,
  found, try, read_to_string,
}
use password_manager_server.Routes.Archive.Refusals.{found-ok, internal-ok}
use password_manager_server.Routes.Archive.Env.{env_content, read_env}
use password_manager_server.Routes.Archive.Env.RoundTrip.{
  IsHexDigit, read_env-env_content, from_utf8-env_content,
}
use password_manager_server.Utf8.{from_utf8}
use password_manager_server.Routes.Auth.{check_admin_key}
use password_manager_server.Routes.Subnet.{check_admin_ip}
use password_manager_server.Routes.Archive.Installs.{put-same, swapped, swapped-database}

-- The first entry of that name.
abbrev pub entry_named : Text → List (Text × Bytes) → Option Bytes
entry_named name [] = none
entry_named name ((n, content) ∷ more) = if name == n then some content else entry_named name more

-- What the tar, flate2 and hex crates promise: an archive unpacks to what was appended to it, the last
-- entry of a name counting, and hexadecimal text has hexadecimal digits.
pub record ArchiveLaws {Tar : Type 0} (a : ArchiveCrates Tar) (c : Crates) : Type 0 where
  pub entries : Tar → List (Text × Bytes)
  pub new_empty : entries a.tar_new ≡ []
  pub appended :
      (t u : Tar) (name : Text) (content : Bytes)
      → a.tar_append t name content ≡ ok u
      → entries u ≡ (name, content) ∷ entries t
  pub unpacked :
      (t : Tar) (body : Bytes)
      → a.tar_finish t ≡ ok body
      → (dir : Directory) × (a.tar_unpack body ≡ ok dir)
        × ((name : Text) → dir name ≡ entry_named name (entries t))
  pub hex_digits : (b : Bytes) → All IsHexDigit (c.hex_encode b)

-- The three entries of an archive, and what is found in them.
packed :
    {Tar : Type 0} (a : ArchiveCrates Tar) (c : Crates) (laws : ArchiveLaws a c)
    (db env text : Bytes) (one two three : Tar) (body : Bytes)
    → a.tar_append a.tar_new (codes "pwd_manager.db") db ≡ ok one
    → a.tar_append one (codes ".env") env ≡ ok two
    → a.tar_append two (codes "README.txt") text ≡ ok three
    → a.tar_finish three ≡ ok body
    → (dir : Directory) × (a.tar_unpack body ≡ ok dir)
      × (dir (codes ".env") ≡ some env)
      × (dir (codes "pwd_manager.db") ≡ some db)
unfolding Text-discrete
packed a c laws db env text one two three body r1 r2 r3 r4 =
    let (dir, u, holds) = laws.unpacked three body r4 in
    let all : laws.entries three
        ≡ (codes "README.txt", text) ∷ (codes ".env", env) ∷ (codes "pwd_manager.db", db) ∷ [] =
      laws.appended two three _ text r3
      ∙ ap (λ es. (codes "README.txt", text) ∷ es)
          (laws.appended one two _ env r2
            ∙ ap (λ es. (codes ".env", env) ∷ es)
                (laws.appended a.tar_new one _ db r1
                  ∙ ap (λ es. (codes "pwd_manager.db", db) ∷ es) laws.new_empty)) in
    (
      dir,
      u,
      holds (codes ".env") ∙ ap (entry_named (codes ".env")) all,
      holds (codes "pwd_manager.db") ∙ ap (entry_named (codes "pwd_manager.db")) all,
    )

try-ok : {A : Type 0} (o : Option String) (x : A) {y : A} → try o x ≡ ok y → x ≡ y
try-ok none x h = cc
try-ok (some e) x h = cc

read_database-file :
    {Tar : Type 0} (a : ArchiveCrates Tar) (c : Crates) (cfg : Config) (h : HeaderMap) (p : IpAddr)
    (f : Faults) (host : Host) (db : Bytes)
    → read_database a c cfg h p f host ≡ ok db
    → host.files cfg.database_url ≡ some db
unfolding read_database
read_database-file a c cfg h p f host db r =
    let (_, _, x1) = bind-ok (or_internal "failed to open db: " (try f.open_file tt)) _ r in
    let (raw, there, x2) =
      bind-ok
        (found (host.files cfg.database_url)
          (internal "failed to open db: No such file or directory (os error 2)"))
        _ x1 in
    let same = try-ok f.read_file raw (internal-ok _ _ x2) in found-ok _ _ there ∙ ap some same

accepted :
    {Tar : Type 0} (a : ArchiveCrates Tar) (c : Crates) (cfg : Config) (h : HeaderMap) (p : IpAddr)
    (f : Faults) (body db env : Bytes) (dir : Directory)
    → check_admin_key c cfg h ≡ ok tt
    → check_admin_ip p cfg.admin_allowed_subnet ≡ ok tt
    → f.tempdir ≡ none
    → a.tar_unpack body ≡ ok dir
    → dir (codes ".env") ≡ some env
    → from_utf8 env ≡ some env
    → read_env env
      ≡ (some (c.hex_encode cfg.database_encrypt_secret), some (c.hex_encode cfg.software_secret))
    → dir (codes "pwd_manager.db") ≡ some db
    → accept a c cfg h p f body ≡ ok db
unfolding accept read_to_string
accepted a c cfg h p f body db env dir key address t u there read secrets db_there =
    let enc : (c.hex_encode cfg.database_encrypt_secret == c.hex_encode cfg.database_encrypt_secret)
        ≡ true =
      (==_iff _ _).1 refl in
    let sw : (c.hex_encode cfg.software_secret == c.hex_encode cfg.software_secret) ≡ true =
      (==_iff _ _).1 refl in
    rw (key, address, t, u, there, read, secrets, enc, sw, db_there) refl

accept-export_handler :
    {Tar : Type 0} (a : ArchiveCrates Tar) (c : Crates)
    → ArchiveLaws a c
    → (from to : Config) (h k : HeaderMap) (p q : IpAddr) (f g : Faults) (generated : Text)
      (host : Host) (body : Bytes)
    → to.database_encrypt_secret ≡ from.database_encrypt_secret
    → to.software_secret ≡ from.software_secret
    → export_handler a c from h p f generated host ≡ ok body
    → check_admin_key c to k ≡ ok tt
    → check_admin_ip q to.admin_allowed_subnet ≡ ok tt
    → g.tempdir ≡ none
    → (db : Bytes) × (host.files from.database_url ≡ some db) × (accept a c to k q g body ≡ ok db)
unfolding export_handler read_database accept
accept-export_handler a c laws from to h k p q f g generated host body e s x key address t =
    let (_, _, x1) = bind-ok (check_admin_key c from h) _ x in
    let (_, _, x2) = bind-ok (check_admin_ip p from.admin_allowed_subnet) _ x1 in
    let (db, r, x3) = bind-ok (read_database a c from h p f host) _ x2 in
    let (one, r1, x4) =
      bind-ok
        (or_internal "tar append db failed: " (a.tar_append a.tar_new (codes "pwd_manager.db") db))
        _ x3 in
    let (two, r2, x5) =
      bind-ok
        (or_internal "tar append env failed: "
          (a.tar_append one (codes ".env") (env_content c from)))
        _ x4 in
    let (three, r3, x6) =
      bind-ok
        (or_internal "tar append readme failed: "
          (a.tar_append two (codes "README.txt") (readme a c from h p f generated)))
        _ x5 in
    let (dir, u, env_there, db_there) =
      packed a c laws db (env_content c from) _ one two three body (internal-ok _ _ r1)
        (internal-ok _ _ r2) (internal-ok _ _ r3) (internal-ok _ _ x6) in
    let read = from_utf8-env_content c laws.hex_digits from in
    let secrets = read_env-env_content c laws.hex_digits from in
    (
      db,
      read_database-file a c from h p f host db r,
      accepted a c to k q g body db (env_content c from) dir key address t u env_there read
          (rw (e, s) secrets) db_there,
    )

-- Nothing fails now.
abbrev pub no_faults : Faults
no_faults = record {
  open_file = none;
  read_file = none;
  tempdir = none;
  write_file = none;
  rename = none;
  init_pool = none;
  get = none;
}

installs :
    {Tar : Type 0} (a : ArchiveCrates Tar) (c : Crates) (cfg : Config) (h : HeaderMap) (p : IpAddr)
    (db db' : Bytes) (host : Host)
    → a.is_sqlite db ≡ true
    → a.migrate db ≡ ok db'
    → let done = install a c cfg h p no_faults db host in
      (done.0 ≡ ok tt) × (done.1.files cfg.database_url ≡ some db')
unfolding install swap_database then_migrations run_migrations
installs a c cfg h p db db' host s m =
    let file = swapped-database a c cfg h p no_faults db host in
    rw (s, file, m)
      (refl, put-same cfg.database_url (some db') (swapped a c cfg h p no_faults db host))

-- What one server exports, another server with the same secrets imports: if the administrator passes
-- both gates there, nothing fails, SQLite opens the database and the migrations succeed on it, then the
-- import succeeds, and the other server's database is the exported one, migrated.
pub import_handler-export_handler :
    {Tar : Type 0} (a : ArchiveCrates Tar) (c : Crates)
    → ArchiveLaws a c
    → (from to : Config) (h k : HeaderMap) (p q : IpAddr) (f : Faults) (generated : Text)
      (host other : Host) (body db db' : Bytes)
    → to.database_encrypt_secret ≡ from.database_encrypt_secret
    → to.software_secret ≡ from.software_secret
    → export_handler a c from h p f generated host ≡ ok body
    → host.files from.database_url ≡ some db
    → check_admin_key c to k ≡ ok tt
    → check_admin_ip q to.admin_allowed_subnet ≡ ok tt
    → a.is_sqlite db ≡ true
    → a.migrate db ≡ ok db'
    → let done = import_handler a c to k q no_faults body other in
      (done.0 ≡ ok tt) × (done.1.files to.database_url ≡ some db')
unfolding import_handler installed
import_handler-export_handler a c laws from to h k p q f generated host other body db db' e s x
      there key address valid m =
    let (file, stored, r) =
      accept-export_handler a c laws from to h k p q f no_faults generated host body e s x key
        address refl in
    let same : file ≡ db = cc in rw (r, same) (installs a c to k q db db' other valid m)
