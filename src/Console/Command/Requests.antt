-- ===== src/Console/Command/Requests.antt =====
-- The requests of the subcommands and those of the keys.
use mathlib.Core.List.{append_assoc}
use password_manager_server.Prelude.{
  ℕ, ◌≡◌, refl, ◌∙◌, Option, none, some, Bool, true, false, not, List, [], ◌∷◌, ◌++◌, Text,
  Text-discrete, codes, length, arith, nat_eq, Bytes, Bool-cases, Option-cases, inl, inr,
}
use password_manager_server.Console.{
  App, IdentityEntry, UserEntry, Json, Outside, HttpRequest, get, post, delete, send, say,
  no_answer, answer, Reply,
}
use password_manager_server.Console.Fetch.{fetch_users, users_reply}
use password_manager_server.Console.Actions.{
  toggle_at, approval_verb, deletion_verb, delete_pending, toggle_user_deleted, selected_user,
  do_export, exported, idle, succeeded, next_reply,
}
use password_manager_server.Console.Approvals.{fetch_all-sent, request}
use password_manager_server.Console.Command
use password_manager_server.Console.Command.{
  Shell, Environment, Outcome, Answer, unreachable, reply, End, listed, told, save_body, fetched,
  with_uuid, run_command,
}

-- `main` gives its environment to the console, too.
abbrev pub environment : App → Environment
environment app = record { base = app.base; admin_key = app.admin_key; export_dir = app.export_dir }

-- The first request that the keys make is that of the subcommand.
pub record Asks {Value : Type 0} (json : Json Value) (shell : Shell Value) (before after : App)
    (cmd : Text) (args : List Text) : Type 0 where
  pub asked : HttpRequest
  pub more : List HttpRequest
  pub commanded : (run_command json shell (environment before) cmd args).sent ≡ some asked
  pub pressed : after.sent ≡ before.sent ++ asked ∷ more

abbrev pub user_verb : Bool → Text
user_verb true = codes "user-delete"
user_verb false = codes "user-restore"

module _ {Value : Type 0} (json : Json Value) (shell : Shell Value) where
  pub told-sent :
      (env : Environment) (asked : HttpRequest) (success : Text) (a : Answer Value)
      → (told json shell env asked success a).sent ≡ some asked
  told-sent env asked success unreachable = refl
  told-sent env asked success (reply status body bytes) = refl

  pub listed-sent :
      (env : Environment) (asked : HttpRequest) (lines : List Value → List Text × End)
      (a : Answer Value)
      → (listed json shell env asked lines a).sent ≡ some asked
  listed-sent env asked lines unreachable = refl
  listed-sent env asked lines (reply status body bytes) = refl

  pub confirm-sent :
      (env : Environment) (b : Bool) (uuid : Text)
      → (run_command json shell env (approval_verb b) (uuid ∷ [])).sent
        ≡ some (
            Command.request json shell env post
              (codes "/admin/identities/" ++ uuid ++ codes "/" ++ approval_verb b)
              [])
  unfolding run_command Text-discrete
  confirm-sent env true uuid = told-sent env _ _ shell.answer
  confirm-sent env false uuid = told-sent env _ _ shell.answer

  pub delete-sent :
      (env : Environment) (uuid : Text)
      → (run_command json shell env (codes "delete") (uuid ∷ [])).sent
        ≡ some (Command.request json shell env delete (codes "/admin/identities/" ++ uuid) [])
  unfolding run_command Text-discrete
  delete-sent env uuid = told-sent env _ _ shell.answer

  pub user-sent :
      (env : Environment) (b : Bool) (uuid : Text)
      → (run_command json shell env (user_verb b) (uuid ∷ [])).sent
        ≡ some (
            Command.request json shell env post
              (codes "/admin/users/" ++ uuid ++ codes "/" ++ deletion_verb b)
              [])
  unfolding run_command Text-discrete
  user-sent env true uuid = told-sent env _ _ shell.answer
  user-sent env false uuid = told-sent env _ _ shell.answer

  save_body-sent :
      (env : Environment) (asked : HttpRequest) (path : Text) (bytes : Option Bytes)
      → (save_body json shell env asked path bytes).sent ≡ some asked
  save_body-sent env asked path none = refl
  save_body-sent env asked path (some bytes) = elim (Option-cases (shell.unwritten path)) [
    | inl w ↦ rw w refl
    | inr (e, w) ↦ rw w refl
  ]

  pub fetched-sent :
      (env : Environment) (asked : HttpRequest) (a : Answer Value)
      → (fetched json shell env asked a).sent ≡ some asked
  fetched-sent env asked unreachable = refl
  fetched-sent env asked (reply status body bytes) = elim (Bool-cases (nat_eq status 200)) [
    | inl s ↦ rw s (save_body-sent env asked _ bytes)
    | inr s ↦ rw s refl
  ]

  module _ (o : Outside Value) (app : App) where
    pub toggle_at-Asks :
        (i : ℕ) (e : IdentityEntry)
        → Asks json shell app
            (toggle_at json o app i e)
            (approval_verb (not e.confirmed))
            (e.uuid ∷ [])
    unfolding toggle_at send say
    toggle_at-Asks i e = record {
      asked =
          request app post
            (codes "/admin/identities/" ++ e.uuid ++ codes "/" ++ approval_verb (not e.confirmed));
      more = [];
      commanded = confirm-sent (environment app) (not e.confirmed) e.uuid;
      pressed = elim (Bool-cases (succeeded (next_reply json o app))) [
        | inl s ↦ rw s refl
        | inr s ↦ rw s refl
      ];
    }

    -- A device that is chosen for deletion.
    pub delete_pending-Asks :
        (uuid : Text)
        → app.pending_delete ≡ some uuid
        → Asks json shell app (delete_pending json o app) (codes "delete") (uuid ∷ [])
    unfolding delete_pending send say
    delete_pending-Asks uuid h =
        let asked = request app delete (codes "/admin/identities/" ++ uuid) in
        let commanded = delete-sent (environment app) uuid in
        elim (Bool-cases (succeeded (next_reply json o app))) [
          | inl s ↦ record {
            asked = asked;
            more = request app get (codes "/admin/identities") ∷ [];
            commanded = commanded;
            pressed =
                rw (h, s)
                  (fetch_all-sent json o (
                      say
                        (send (record app { pending_delete = none }) delete
                          (codes "/admin/identities/" ++ uuid) [])
                        (codes "Deleted " ++ uuid))
                    ∙ append_assoc app.sent (asked ∷ []) _);
          }
          | inr s ↦ record {
            asked = asked;
            more = [];
            commanded = commanded;
            pressed = rw (h, s) refl;
          }
        ]

    users_reply-sent : (a : App) (r : Reply Value) → (users_reply json a r).sent ≡ a.sent
    unfolding users_reply
    users_reply-sent a no_answer = refl
    users_reply-sent a (answer true status v bytes) = refl
    users_reply-sent a (answer false status v bytes) = refl

    pub fetch_users-sent :
        (a : App)
        → (fetch_users json o a).sent ≡ a.sent ++ request a get (codes "/admin/users") ∷ []
    unfolding fetch_users send
    fetch_users-sent a = users_reply-sent _ (o.reply (length a.sent))

    pub toggle_user_deleted-Asks :
        (u : UserEntry) (b : Bool)
        → selected_user json o app ≡ some u
        → Asks json shell app (toggle_user_deleted json o app b) (user_verb b) (u.uuid ∷ [])
    unfolding toggle_user_deleted send say
    toggle_user_deleted-Asks u b h =
        let path = codes "/admin/users/" ++ u.uuid ++ codes "/" ++ deletion_verb b in
        let asked = request app post path in
        let commanded = user-sent (environment app) b u.uuid in
        elim (Bool-cases (succeeded (next_reply json o app))) [
          | inl s ↦ record {
            asked = asked;
            more = request app get (codes "/admin/users") ∷ [];
            commanded = commanded;
            pressed =
                rw (h, toggle_user_deleted, s)
                  (fetch_users-sent
                      (say (send app post path []) (deletion_verb b ++ codes "d user " ++ u.uuid))
                    ∙ append_assoc app.sent (asked ∷ []) _);
          }
          | inr s ↦ record {
            asked = asked;
            more = [];
            commanded = commanded;
            pressed = rw (h, toggle_user_deleted, s) refl;
          }
        ]

    exported-sent :
        (a after : App) (r : Reply Value)
        → idle json o (exported json o a r) ≡ some after
        → after.sent ≡ a.sent
    unfolding say
    exported-sent a after no_answer h = ground arith
    exported-sent a after (answer false status v bytes) h = ground arith
    exported-sent a after (answer true status v none) h = absurd (ground arith)
    exported-sent a after (answer true status v (some bytes)) h = ground arith

    pub do_export-Asks :
        (after : App)
        → do_export json o app ≡ some after
        → Asks json shell app after (codes "export") []
    unfolding do_export send run_command Text-discrete
    do_export-Asks after h = record {
      asked = request app get (codes "/admin/export");
      more = [];
      commanded = fetched-sent (environment app) _ shell.answer;
      pressed =
          exported-sent
            (send (record app { message = []; busy = true }) get (codes "/admin/export") []) after _
            h;
    }
