-- ===== src/Lib.antt =====
-- The password manager's server, its handlers and its administrator's console.
--
-- The program. Devices register with the server at their address (greet), get a user (sign-up,
-- sign-in), wait for an administrator to approve them, and then keep passwords in groups. Every
-- password is stored sealed under the key of the database and travels sealed under a key that the
-- device shares with the server. Administrators prove a key and an address in a subnet; their console
-- is a program of its own that talks to the server over HTTP.
--
-- What models what:
--   Error               src/error.rs
--   Config              src/config.rs
--   Schema              src/schema.rs and the structs of src/domain/
--   Crypto              src/crypto/
--   Domain              src/domain/; Domain.Rows has the constraints of migrations/
--   Routes.Auth         validate_auth and check_admin_key of src/routes/mod.rs, src/routes/verify.rs
--   Routes.Subnet       check_admin_ip of src/routes/mod.rs
--   Routes.Greet, Sign, Refresh, Resign, Admin, Groups, Passwords
--                       src/routes/greet.rs, signin.rs, refresh.rs, resign.rs, admin.rs, group.rs,
--                       passwords.rs
--   Routes.Archive      export_handler and import_handler of src/routes/admin.rs, swap_database of
--                       src/routes/mod.rs, run_migrations of src/db/mod.rs
--   Server              build_router of src/routes/mod.rs, as a function from requests to handlers
--   Server.Http, Server.RouteTable, Server.Router
--                       the same function's routes, limiters and layers, from an HTTP request to a handler
--   Server.System       the running server: requests in progress, interleaved action by action
--   Console             src/bin/admin_cli.rs: the state, the requests, and each key of run_tui
--   Console.Command     the subcommands in main of the same file, (Routed) the handlers they reach, and
--                       (Pressed) the keys that ask for the same, (Ends) why one panics
--   Console.Screen      the same file: render and the functions that it calls
--   Effects             what the actions of all handlers can do to the database; Consistency has the
--                       columns that do not repeat
--   Vault               the tables as an abstract map from users and identifiers to passwords, and
--                       what each request of src/routes/ does to it, alone (Refines) and among others
--                       (Stable, Learns, Guards, Secure, Shows, Lists, Made, Answers, Interleaved: what a
--                       request knows between its actions, and when it answers)
--   Prelude, Prog       the shared names, lists and integers; programs and their runs
--   Utf8, Crates        String::from_utf8; the parameters for the third-party crates
--   Examples            the theorems tried on a small server and a small console
--
-- How it is modelled. A handler is a program (Prog) of atomic actions on one world: a query, a
-- transaction, a reading of the clock, a draw of randomness. `run` is a handler by itself; a System
-- interleaves any number of them. The database is four lists of rows, and an insert or an update
-- fails on the unique and foreign keys that the migrations declare. World has the fault that the
-- database reports now, if any, and whether the pool has a connection, so each query can fail.
-- A name, a byte sequence and a hexadecimal text are lists of numbers; a text holds its UTF-8.
-- Timestamps count nanoseconds. Signed numbers are unbounded, where the source has i32 and i64: the
-- days of a password are clamped to 1..365 before they are kept. The only fuel is that of
-- Error.decimal_from, which prints a number: n + 1 steps, and n has fewer digits. Rows come back in the
-- order of their insertion; the queries have no ORDER BY, so SQLite may choose another.
--
-- Code that is not in the repository is a parameter: Crates holds the operations of hex, sha2, x25519,
-- aes-gcm, uuid, rand, chrono and axum that the handlers use, and CratesLaws what the round trips ask
-- of them. The console takes serde_json's values (Json) and all that comes from the server and the
-- file system (Outside, and Shell for the subcommands) in the same way.
--
-- ArchiveCrates stands for tar, flate2, SQLite's check of a file and the pending migrations, Faults for
-- the calls of the file system and of the pool that may fail, and ArchiveLaws says what tar and hex
-- promise. An import works on a Host, which is the server's files and the pool in use; other requests
-- during an import are not interleaved with it. The screen is what ratatui's widgets are given to show.
--
-- Extractors stands for what axum, serde_json and uuid read from a request, Framework for axum's choice of
-- a route, for which requests a limiter lets pass (the others get 429) and for the layers of
-- tower-http, and FrameworkLaws has what their documentation promises.
--
-- Not modelled: the start of the server (src/main.rs), the making of the pool and its pragmas
-- (src/db/mod.rs), when the governor crate lets a request through, tracing, time-outs (a request that
-- one drops makes no more actions, which the theorems on reachable states allow), how ratatui lays out
-- its widgets, and the tester src/bin/test_sender.rs.
pub mod Prelude
pub mod Error
pub mod Crates
pub mod Config
pub mod Schema
pub mod Prog
pub mod Crypto
pub mod Domain
pub mod Utf8
pub mod Routes
pub mod Effects
pub mod Server
pub mod Vault
pub mod Console
pub mod Examples
