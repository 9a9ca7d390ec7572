-- ===== src/Effects/Handlers.antt =====
-- Every handler makes changes only, and without both gates of an administrator only the changes
-- that need none.
use password_manager_server.Prelude.{Bool, Text, Bytes}
use password_manager_server.Crates.{Crates, HeaderMap}
use password_manager_server.Config.{Config}
use password_manager_server.Schema.{Identity}
use password_manager_server.Crypto.{generate_identity_keys, encrypt_with_shared_key}
use password_manager_server.Prog.{QueryResult}
use password_manager_server.Error.{ok, err, unique_violation}
use password_manager_server.Routes.Auth.{validate_auth, verify_handler}
use password_manager_server.Routes.Greet.{greet_handler, created}
use password_manager_server.Routes.Sign.{
  SignRequest, decode_request, link_device, register, sign_up_handler, sign_in_handler,
}
use password_manager_server.Routes.Refresh.{RefreshRequest, refresh_handler}
use password_manager_server.Routes.Resign.{ResignRequest, resign_handler}
use password_manager_server.Effects.Steps.{Relation, IsPreorder, Follows, Steps, steps_rules}
use password_manager_server.Effects.Queries.{query_rules}

module _ {R : Relation} (p : IsPreorder R) (c : Crates) where
  pub keys-Follows : Follows R (generate_identity_keys c)
  unfolding generate_identity_keys
  keys-Follows = search steps_rules

  pub seal-Follows : (message key : Bytes) → Follows R (encrypt_with_shared_key c message key)
  unfolding encrypt_with_shared_key
  seal-Follows message key = search steps_rules

  pub validate_auth-Follows :
      (headers : HeaderMap) (ip : Text) → Follows R (validate_auth c headers ip)
  unfolding validate_auth
  validate_auth-Follows headers ip = search (steps_rules, query_rules) depth 30

  pub verify-Follows : (headers : HeaderMap) (ip : Text) → Follows R (verify_handler c headers ip)
  unfolding verify_handler
  verify-Follows headers ip = search (steps_rules, validate_auth-Follows)

  pub decode-Follows :
      (cfg : Config) (ip : Text) (req : SignRequest) → Follows R (decode_request c cfg ip req)
  unfolding decode_request
  decode-Follows cfg ip req = search (steps_rules, query_rules) depth 30

module _ {admin : Bool} (c : Crates) where
  created-Steps : (r : QueryResult Identity) → Steps admin (created r)
  created-Steps (ok identity) = search steps_rules
  created-Steps (err unique_violation) = search steps_rules
  created-Steps (err _) = search steps_rules

  link_device-Steps : (uuid user_id : Text) → Steps admin (link_device c uuid user_id)
  unfolding link_device
  link_device-Steps uuid user_id = search (steps_rules, query_rules) depth 30

  register-Steps : (uuid name ehlo : Text) → Steps admin (register c uuid name ehlo)
  unfolding register
  register-Steps uuid name ehlo = search (steps_rules, query_rules, link_device-Steps) depth 30

  module _ (cfg : Config) where
    pub greet-Steps : (ip key : Text) → Steps admin (greet_handler c cfg ip key)
    unfolding greet_handler
    greet-Steps ip key =
        search (steps_rules, query_rules, created-Steps, keys-Follows, seal-Follows) depth 30

    pub sign_up-Steps : (ip : Text) (req : SignRequest) → Steps admin (sign_up_handler c cfg ip req)
    unfolding sign_up_handler
    sign_up-Steps ip req =
        search (steps_rules, query_rules, decode-Follows, seal-Follows, register-Steps) depth 30

    pub sign_in-Steps : (ip : Text) (req : SignRequest) → Steps admin (sign_in_handler c cfg ip req)
    unfolding sign_in_handler
    sign_in-Steps ip req =
        search (steps_rules, query_rules, decode-Follows, link_device-Steps) depth 30

    pub refresh-Steps :
        (ip : Text) (req : RefreshRequest) → Steps admin (refresh_handler c cfg ip req)
    unfolding refresh_handler
    refresh-Steps ip req = search (steps_rules, query_rules) depth 40

    pub resign-Steps : (ip : Text) (req : ResignRequest) → Steps admin (resign_handler c cfg ip req)
    unfolding resign_handler
    resign-Steps ip req = search (steps_rules, query_rules) depth 40
