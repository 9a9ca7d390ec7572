-- ===== src/Examples/Routing.antt =====
-- The routes, and the vault among interleaved requests, tried on the small server.
use password_manager_server.Prelude.{
  ◌++◌, ◌-ℤ◌, List, ap, get_elem?, Bool, ℕ, ==_iff, ◌≤◌, ◌≡◌, ◌≢◌, refl, none, some, true, false,
  [], ◌∷◌, Text-discrete, codes, ltb, length, find, arith,
}
use password_manager_server.Schema.{Password}
use password_manager_server.Console.Command.Requests.{environment}
use password_manager_server.Console.Command.Routed.{deletes, Reaches, run_command-Reaches}
use password_manager_server.Server.{pwd_update, identity_delete}
use password_manager_server.Server.Http.{
  HttpCall, Endpoint, Extractors, is_options, same_verb, segments, select, put, handled, moderate,
  reached,
}
use password_manager_server.Server.Router.{
  Framework, FrameworkLaws, body_limit, receive, serve, routing,
}
use password_manager_server.Server.Router.Endpoints.{IsUuid, tier_of}
use password_manager_server.Server.Router.Paths.{receive-path_of}
use password_manager_server.Server.Router.Tiers.{serve-tier_of}
use password_manager_server.Vault.{vault}
use password_manager_server.Vault.Answers.{Answers}
use password_manager_server.Vault.Interleaved.{reachable-vault, requests, Passed, reachable-Answers}
use password_manager_server.Crates.{Crates}
use password_manager_server.Config.{Config}
use password_manager_server.Error.{ok}
use password_manager_server.Prog.{World, Prog, done, atomic, run, program}
use password_manager_server.Routes.Auth.{authorised, check_admin_key, header_text, validate_auth}
use password_manager_server.Routes.Passwords.{
  get_handler, get_for, encrypt_for_client, days_remaining,
}
use password_manager_server.Crypto.{encrypt_with_shared_key}
use password_manager_server.Domain.User
use password_manager_server.Domain.Identity
use password_manager_server.Domain.Group
use password_manager_server.Domain.Password
use password_manager_server.Server.{Request, Response, detail, pwd_get, handle, dispatch}
use password_manager_server.Server.System.{Reach, start, next, arrive, act}
use password_manager_server.Examples.{
  crates, config, peer, device_headers, shown, change, password_row, world,
}
use password_manager_server.Examples.Terminal.{json, second}
use password_manager_server.Examples.Commands.{silent}
use password_manager_server.Examples.Histories.{waiting, history, tables-IsValid}

-- Texts are read as they are, and every update is the same.
abbrev extractors : Extractors
extractors = record {
  parse_uuid = λ t. some t;
  percent_decode = λ t. some t;
  header_value = λ t. true;
  greet_body = λ b. some b;
  sign_body = λ b. none;
  resign_body = λ b. none;
  refresh_body = λ b. none;
  list_query = λ q. none;
  create_body = λ b. none;
  update_body = λ b. some change;
  group_body = λ b. none;
}

-- The documented framework itself.
abbrev framework : Framework
framework = record {
  preflights = λ call. is_options call.verb;
  oversized = λ n call. ltb n (length call.body);
  choose = λ routes call. select routes (segments call.path) call none;
  admits = λ tier call. true;
}

framework-FrameworkLaws : FrameworkLaws framework
framework-FrameworkLaws = record {
  only_options = λ call h. h;
  measured = λ n call. refl;
  chosen = λ routes call h. refl;
}

abbrev updated : Endpoint
updated = handled (pwd_update (codes "p") change)

letter : IsUuid extractors (codes "p")
letter = record {
  segment = record { nonempty = λ e. cc; plain = (λ e. absurd (omega arith), tt); decoded = refl };
  parsed = refl;
}

abbrev asked : HttpCall
asked = record { verb = put; path = codes "/pwd/update/p"; query = []; body = codes "{}" }

short : length (codes "{}") ≤ body_limit
unfolding length
short = omega arith

empty : length {A = ℕ} [] ≤ body_limit
unfolding length
empty = omega arith

receive-path_of_example : receive framework extractors asked ≡ reached moderate updated
receive-path_of_example =
    receive-path_of framework extractors updated [] (codes "{}") framework-FrameworkLaws short
      (letter, refl)

served : serve framework extractors asked ≡ reached moderate updated
unfolding routing receive serve length
served = refl

serve-tier_of_example :
    (framework.admits (tier_of updated) asked ≡ true)
    × (same_verb put put ≡ true)
    × (length (codes "{}") ≤ body_limit)
serve-tier_of_example =
    serve-tier_of framework extractors asked moderate updated framework-FrameworkLaws served

run_command-Reaches_example :
    Reaches json silent
      (environment second)
      framework
      extractors
      (codes "delete")
      (codes "p" ∷ [])
      (handled (identity_delete (codes "p")))
run_command-Reaches_example =
    run_command-Reaches json silent (environment second) framework extractors (deletes (codes "p"))
      framework-FrameworkLaws empty letter

held : vault world.db (codes "u") (codes "p") ≡ some password_row
unfolding vault find Text-discrete
held = refl

not-ann : codes "v" ≢ codes "u"
unfolding Text-discrete
not-ann e = let h : false ≡ true = (==_iff (codes "v") (codes "u")).1 e in cc

reachable-vault_example :
    ((q : Password) × (vault waiting.world.db (codes "u") (codes "p") ≡ some q))
    × (vault waiting.world.db (codes "v") (codes "p") ≡ none)
reachable-vault_example =
    reachable-vault (codes "u") (codes "v") (codes "p") password_row history tables-IsValid held
      not-ann

-- The device asks for its password, and gets it.
abbrev ask_get : Request
ask_get = record { peer = peer; headers = device_headers; call = pwd_get (codes "p") }

-- A history goes on to the end of a request that it has in progress.
to_end :
    {c : Crates} {cfg : Config} {admin : Bool} {w : World} (front back : List (Prog Response))
    (m : Prog Response) (v : World)
    (r : Reach c cfg admin w (record { world = v; threads = front ++ m ∷ back }))
    → (t : Reach c cfg admin w
        (record { world = (run m v).1; threads = front ++ done (run m v).0 ∷ back }))
      × (requests t ≡ requests r)
unfolding run requests
to_end front back (done a) v r = (r, refl)
to_end front back (atomic u k) v r =
    let end = to_end front back (k v) (u v) (next r (act front back u k refl)) in (end.0, end.1)

unfoldable came :
    Reach crates config false world
      (record { world = world; threads = handle crates config ask_get ∷ [] })
unfolding authorised check_admin_key header_text Text-discrete
came = next start (arrive ask_get (λ h. h))

went :
    (t : Reach crates config false world (record {
      world = (run (handle crates config ask_get) world).1;
      threads = done (run (handle crates config ask_get) world).0 ∷ [];
    }))
    × (requests t ≡ requests came)
went = to_end [] [] (handle crates config ask_get) world came

asked_first : get_elem? (requests went.0) 0 ≡ some ask_get
unfolding requests came
asked_first = rw went.1 refl

answer : (run (handle crates config ask_get) world).0 ≡ ok (detail shown)
unfolding program handle dispatch get_handler get_for find validate_auth Text-discrete
    Identity.find_by_device_token User.find_by_uuid Password.find_by_uuid Group.find_by_uuid
    encrypt_for_client encrypt_with_shared_key days_remaining ◌-ℤ◌
answer = refl

reachable-Answers_example :
    Answers
      (Passed went.0)
      crates
      ask_get
      (detail shown)
      (run (handle crates config ask_get) world).1.db
reachable-Answers_example =
    reachable-Answers went.0 0 ask_get (detail shown) tables-IsValid asked_first
      (ap (λ a. some (done a)) answer)
