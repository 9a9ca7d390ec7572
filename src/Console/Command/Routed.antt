-- ===== src/Console/Command/Routed.antt =====
-- The subcommands of the console and the handlers of the server that they reach.
use password_manager_server.Prelude.{
  ◌≤◌, ◌≡◌, refl, none, some, true, false, List, [], ◌∷◌, ◌++◌, Text, Text-discrete, Bytes, codes,
  length,
}
use password_manager_server.Console
use password_manager_server.Console.{Json, Method, HttpRequest}
use password_manager_server.Console.Command.{
  Shell, Environment, request, import_from, import_command, run_command,
}
use password_manager_server.Console.Command.Requests.{
  told-sent, listed-sent, fetched-sent, confirm-sent, delete-sent, user-sent,
}
use password_manager_server.Server.{
  identities, identity_delete, identity_action, users, user_action,
}
use password_manager_server.Server.Http
use password_manager_server.Server.Http.{
  Verb, HttpCall, Endpoint, Extractors, Tier, Quota, quota, Segment, Route, Reception, is_options,
  same_verb, split_slash, segments, filled, match, routed, select, get, post, put, delete, head,
  options, handled, export, import, strict, moderate, admin, literal, parameter, preflight,
  too_large, not_found, method_not_allowed, rejected, reached,
}
use password_manager_server.Server.Router.{Framework, FrameworkLaws, body_limit, receive}
use password_manager_server.Server.Router.Endpoints.{verb_of, path_of, tier_of, Writes}
use password_manager_server.Server.Router.Paths.{receive-path_of}

-- The method on the wire.
abbrev pub wire : Method → Verb
wire Console.get = Http.get
wire Console.post = Http.post
wire Console.delete = Http.delete

-- What the server gets of a request to `path`.
abbrev pub arrives : HttpRequest → Text → HttpCall
arrives q path = record { verb = wire q.method; path = path; query = []; body = q.body }

-- What a subcommand is for. `default` and the file system say which archive an import reads.
pub data Means {Value : Type 0} (json : Json Value) (shell : Shell Value) (env : Environment)
    : Text → List Text → Endpoint → Type 0 where
  lists : Means json shell env (codes "list") [] (handled identities)
  confirms :
      (uuid : Text)
      → Means json shell env
          (codes "confirm")
          (uuid ∷ [])
          (handled (identity_action uuid (codes "confirm")))
  unconfirms :
      (uuid : Text)
      → Means json shell env
          (codes "unconfirm")
          (uuid ∷ [])
          (handled (identity_action uuid (codes "unconfirm")))
  deletes :
      (uuid : Text)
      → Means json shell env (codes "delete") (uuid ∷ []) (handled (identity_delete uuid))
  lists_users : Means json shell env (codes "users") [] (handled users)
  deletes_user :
      (uuid : Text)
      → Means json shell env
          (codes "user-delete")
          (uuid ∷ [])
          (handled (user_action uuid (codes "delete")))
  restores_user :
      (uuid : Text)
      → Means json shell env
          (codes "user-restore")
          (uuid ∷ [])
          (handled (user_action uuid (codes "restore")))
  exports : Means json shell env (codes "export") [] Http.export
  imports :
      (path : Text)
      → shell.unread path ≡ none
      → Means json shell env (codes "import") (path ∷ []) (Http.import (shell.contents path))

-- The request that was sent, and where it arrives.
pub record Reaches {Value : Type 0} (json : Json Value) (shell : Shell Value) (env : Environment)
    (f : Framework) (x : Extractors) (cmd : Text) (args : List Text) (e : Endpoint) : Type 0 where
  pub asked : HttpRequest
  pub path : Text
  pub sent : (run_command json shell env cmd args).sent ≡ some asked
  pub addressed : asked.url ≡ env.base ++ path
  pub arrived : receive f x (arrives asked path) ≡ reached admin e

abbrev pub body_of : Endpoint → Bytes
body_of (Http.import archive) = archive
body_of _ = []

-- A request to the path of an endpoint, as it arrives.
reaches :
    {Value : Type 0} (json : Json Value) (shell : Shell Value) (env : Environment) (f : Framework)
    (x : Extractors) (cmd : Text) (args : List Text) (e : Endpoint) (method : Method)
    → wire method ≡ verb_of e
    → tier_of e ≡ admin
    → FrameworkLaws f
    → length (body_of e) ≤ body_limit
    → Writes x e [] (body_of e)
    → (run_command json shell env cmd args).sent
      ≡ some (request json shell env method (path_of e) (body_of e))
    → Reaches json shell env f x cmd args e
reaches json shell env f x cmd args e method v t laws small w h = record {
  asked = request json shell env method (path_of e) (body_of e);
  path = path_of e;
  sent = h;
  addressed = refl;
  arrived = rw (v, ← t) (receive-path_of f x e [] (body_of e) laws small w);
}

module _ {Value : Type 0} (json : Json Value) (shell : Shell Value) (env : Environment) where
  identities-sent :
      (run_command json shell env (codes "list") []).sent
      ≡ some (request json shell env Console.get (codes "/admin/identities") [])
  unfolding run_command Text-discrete
  identities-sent = listed-sent json shell env _ _ shell.answer

  users-sent :
      (run_command json shell env (codes "users") []).sent
      ≡ some (request json shell env Console.get (codes "/admin/users") [])
  unfolding run_command Text-discrete
  users-sent = listed-sent json shell env _ _ shell.answer

  export-sent :
      (run_command json shell env (codes "export") []).sent
      ≡ some (request json shell env Console.get (codes "/admin/export") [])
  unfolding run_command Text-discrete
  export-sent = fetched-sent json shell env _ shell.answer

  import_from-sent :
      (path : Text)
      → shell.unread path ≡ none
      → (import_from json shell env path).sent
        ≡ some (request json shell env Console.post (codes "/admin/import") (shell.contents path))
  unfolding import_from
  import_from-sent path r = rw (r, import_from) (told-sent json shell env _ _ shell.answer)

  pub import-sent :
      (path : Text)
      → shell.unread path ≡ none
      → (run_command json shell env (codes "import") (path ∷ [])).sent
        ≡ some (request json shell env Console.post (codes "/admin/import") (shell.contents path))
  unfolding run_command Text-discrete import_command
  import-sent path r = import_from-sent path r

-- With axum and its layers as documented, parameters that axum reads back as they were meant, an archive of at
-- most a mebibyte, and that archive readable where the subcommand has one, a subcommand sends its request to
-- the server, and there it reaches the handler that it is for, behind the limiter of the administrators.
pub run_command-Reaches :
    {Value : Type 0} (json : Json Value) (shell : Shell Value) (env : Environment) (f : Framework)
    (x : Extractors) {cmd : Text} {args : List Text} {e : Endpoint}
    → Means json shell env cmd args e
    → FrameworkLaws f
    → length (body_of e) ≤ body_limit
    → Writes x e [] (body_of e)
    → Reaches json shell env f x cmd args e
run_command-Reaches json shell env f x lists laws small w =
    reaches json shell env f x _ _ _ Console.get refl refl laws small w
      (identities-sent json shell env)
run_command-Reaches json shell env f x (confirms uuid) laws small w =
    reaches json shell env f x _ _ _ Console.post refl refl laws small w
      (confirm-sent json shell env true uuid)
run_command-Reaches json shell env f x (unconfirms uuid) laws small w =
    reaches json shell env f x _ _ _ Console.post refl refl laws small w
      (confirm-sent json shell env false uuid)
run_command-Reaches json shell env f x (deletes uuid) laws small w =
    reaches json shell env f x _ _ _ Console.delete refl refl laws small w
      (delete-sent json shell env uuid)
run_command-Reaches json shell env f x lists_users laws small w =
    reaches json shell env f x _ _ _ Console.get refl refl laws small w (users-sent json shell env)
run_command-Reaches json shell env f x (deletes_user uuid) laws small w =
    reaches json shell env f x _ _ _ Console.post refl refl laws small w
      (user-sent json shell env true uuid)
run_command-Reaches json shell env f x (restores_user uuid) laws small w =
    reaches json shell env f x _ _ _ Console.post refl refl laws small w
      (user-sent json shell env false uuid)
run_command-Reaches json shell env f x exports laws small w =
    reaches json shell env f x _ _ _ Console.get refl refl laws small w (export-sent json shell env)
run_command-Reaches json shell env f x (imports path r) laws small w =
    reaches json shell env f x _ _ _ Console.post refl refl laws small w
      (import-sent json shell env path r)
