-- ===== src/Effects/Data.antt =====
-- The handlers of groups, passwords and administration.
use password_manager_server.Prelude.{
  ℕ, zero, suc, none, some, Bool, true, false, List, [], ◌∷◌, ◌&&◌, Text, arith, Option, ℤ, pos,
  negsuc, sym,
}
use password_manager_server.Crates.{Crates, HeaderMap, IpAddr}
use password_manager_server.Config.{Config}
use password_manager_server.Schema.{Identity, Password}
use password_manager_server.Routes.Subnet.{check_admin_ip}
use password_manager_server.Routes.Auth.{check_admin_key, is_ok, authorised}
use password_manager_server.Routes.Admin.{
  set_confirm, list_identities, delete_identity, list_users, toggle_user, toggle_identity,
}
use password_manager_server.Routes.Groups
use password_manager_server.Routes.Groups.{CreateGroupRequest}
use password_manager_server.Routes.Passwords
use password_manager_server.Routes.Passwords.{
  ListParams, CreatePasswordRequest, UpdatePasswordRequest, encrypt_for_client, decrypt_from_client,
  entry_of, entries_from, days_of_request, is_expired,
}
use password_manager_server.Effects.Change.{DaysInRange}
use password_manager_server.Prog.{Prog, ◌>>◌, lift}
use mathlib.Core.Path.{subst, ap₂}
use password_manager_server.Effects.Steps.{
  Relation, IsPreorder, Follows, Steps, steps_rules, Follows-check, Follows-branch, Follows-pure,
}
use password_manager_server.Effects.Queries.{query_rules}
use password_manager_server.Effects.Handlers.{seal-Follows, validate_auth-Follows}

days_of_request-InRange : (o : Option ℤ) → DaysInRange (days_of_request o)
unfolding days_of_request
days_of_request-InRange none = ground arith
days_of_request-InRange (some (pos n)) = ground arith
days_of_request-InRange (some (negsuc n)) = ground arith

module _ {R : Relation} (pre : IsPreorder R) (c : Crates) (headers : HeaderMap) where
  pub group_list-Follows : (ip : Text) → Follows R (Groups.list_handler c headers ip)
  unfolding Groups.list_handler
  group_list-Follows ip = search (steps_rules, query_rules, validate_auth-Follows) depth 30

  module _ (cfg : Config) where
    pub encrypt-Follows : (t : Text) (i : Identity) → Follows R (encrypt_for_client c cfg t i)
    unfolding encrypt_for_client
    encrypt-Follows t i = search (steps_rules, seal-Follows) depth 30

    pub decrypt-Follows : (t : Text) (i : Identity) → Follows R (decrypt_from_client c cfg t i)
    unfolding decrypt_from_client
    decrypt-Follows t i = search steps_rules depth 30

    entry-Follows : (e : Bool) (i : Identity) (p : Password) → Follows R (entry_of c cfg e i p)
    unfolding entry_of
    entry-Follows true i p = search (steps_rules, encrypt-Follows) depth 30
    entry-Follows false i p = search (steps_rules, encrypt-Follows) depth 30

    entries-Follows :
        (e : Bool) (i : Identity) (skip size : ℕ) (ps : List Password)
        → Follows R (entries_from c cfg e i skip size ps)
    unfolding entries_from
    entries-Follows e i skip zero ps = Follows-pure []
    entries-Follows e i skip (suc size) [] = Follows-pure []
    entries-Follows e i zero (suc size) (p ∷ ps) =
        search
          (
            steps_rules,
            Follows-branch,
            entry-Follows,
            entries-Follows e i zero size ps,
            entries-Follows e i zero (suc size) ps,
          )
          depth 20
    entries-Follows e i (suc skip) (suc size) (p ∷ ps) =
        search
          (
            steps_rules,
            Follows-branch,
            entries-Follows e i skip (suc size) ps,
            entries-Follows e i (suc skip) (suc size) ps,
          )
          depth 20

    pub password_list-Follows :
        (ip : Text) (params : ListParams)
        → Follows R (Passwords.list_handler c cfg headers ip params)
    unfolding Passwords.list_handler Passwords.list_for
    password_list-Follows ip params =
        search (steps_rules, query_rules, validate_auth-Follows, entries-Follows) depth 30

    pub password_get-Follows :
        (ip uuid : Text) → Follows R (Passwords.get_handler c cfg headers ip uuid)
    unfolding Passwords.get_handler Passwords.get_for
    password_get-Follows ip uuid =
        search (steps_rules, query_rules, validate_auth-Follows, encrypt-Follows) depth 40

  module _ (cfg : Config) (addr : IpAddr) where
    pub pending-Follows : Follows R (Groups.pending_handler c headers cfg addr)
    unfolding Groups.pending_handler
    pending-Follows = search (steps_rules, query_rules) depth 30

    pub list_identities-Follows : Follows R (list_identities c headers cfg addr)
    unfolding list_identities
    list_identities-Follows = search (steps_rules, query_rules) depth 30

    pub list_users-Follows : Follows R (list_users c headers cfg addr)
    unfolding list_users
    list_users-Follows = search (steps_rules, query_rules) depth 30

module _ (c : Crates) (headers : HeaderMap) where
  module _ {admin : Bool} where
    pub group_create-Steps :
        (ip : Text) (req : CreateGroupRequest)
        → Steps admin (Groups.create_handler c headers ip req)
    unfolding Groups.create_handler
    group_create-Steps ip req = search (steps_rules, query_rules, validate_auth-Follows) depth 30

    module _ (cfg : Config) where
      pub password_create-Steps :
          (ip : Text) (req : CreatePasswordRequest)
          → Steps admin (Passwords.create_handler c cfg headers ip req)
      unfolding Passwords.create_handler Passwords.create_for
      password_create-Steps ip req =
          search
            (
              steps_rules, query_rules, validate_auth-Follows, encrypt-Follows, decrypt-Follows,
              seal-Follows, days_of_request-InRange,
            )
            depth 40

      pub password_update-Steps :
          (ip uuid : Text) (req : UpdatePasswordRequest)
          → Steps admin (Passwords.update_handler c cfg headers ip uuid req)
      unfolding Passwords.update_handler Passwords.update_for
      password_update-Steps ip uuid req =
          search (steps_rules, query_rules, validate_auth-Follows, decrypt-Follows, seal-Follows)
            depth 40

set_confirm-Steps : (uuid : Text) (b : Bool) → Steps true (set_confirm uuid b)
unfolding set_confirm
set_confirm-Steps uuid b = search (steps_rules, query_rules) depth 30

-- Behind both gates every change is allowed.
gated :
    (c : Crates) (headers : HeaderMap) (cfg : Config) (addr : IpAddr) {A : Type 0} (m : Prog A)
    → Steps true m
    → Steps (authorised c headers cfg addr) (
        lift (check_admin_key c cfg headers)
        >> (lift (check_admin_ip addr cfg.admin_allowed_subnet) >> m))
unfolding authorised
gated c headers cfg addr m s = Follows-check _ _ (λ p.
    Follows-check _ _ (λ q. subst (λ b. Steps b m) (sym (ap₂ (λ x y. is_ok x && is_ok y) p q)) s))

module _ (c : Crates) (headers : HeaderMap) (cfg : Config) (addr : IpAddr) where
  pub approve-Steps :
      (uuid : Text)
      → Steps (authorised c headers cfg addr) (Groups.approve_handler c headers cfg addr uuid)
  unfolding Groups.approve_handler
  approve-Steps uuid = gated c headers cfg addr _ (set_confirm-Steps uuid true)

  pub delete_identity-Steps :
      (uuid : Text)
      → Steps (authorised c headers cfg addr) (delete_identity c headers cfg addr uuid)
  unfolding delete_identity
  delete_identity-Steps uuid =
      gated c headers cfg addr _ (search (steps_rules, query_rules) depth 30)

  pub toggle_user-Steps :
      (uuid action : Text)
      → Steps (authorised c headers cfg addr) (toggle_user c headers cfg addr uuid action)
  unfolding toggle_user
  toggle_user-Steps uuid action =
      gated c headers cfg addr _ (search (steps_rules, query_rules) depth 30)

  pub toggle_identity-Steps :
      (uuid action : Text)
      → Steps (authorised c headers cfg addr) (toggle_identity c headers cfg addr uuid action)
  unfolding toggle_identity
  toggle_identity-Steps uuid action =
      gated c headers cfg addr _ (search (steps_rules, query_rules, set_confirm-Steps) depth 30)
