-- ===== src/Vault/Requests.antt =====
-- The requests that leave the groups and the passwords alone.
use password_manager_server.Prelude.{Text}
use password_manager_server.Crates.{Crates, HeaderMap, IpAddr}
use password_manager_server.Config.{Config}
use password_manager_server.Routes.Greet.{greet_handler}
use password_manager_server.Routes.Sign.{
  SignRequest, link_device, register, sign_up_handler, sign_in_handler,
}
use password_manager_server.Routes.Refresh.{RefreshRequest, refresh_handler}
use password_manager_server.Routes.Resign.{ResignRequest, resign_handler}
use password_manager_server.Routes.Admin.{
  set_confirm, delete_identity, toggle_user, toggle_identity,
}
use password_manager_server.Routes.Groups
use password_manager_server.Effects.Handlers.{keys-Follows, seal-Follows, decode-Follows}
use password_manager_server.Vault.Spares.{Spares, spares_rules}

module _ (c : Crates) where
  link-Spares : (uuid user : Text) → Spares (link_device c uuid user)
  unfolding link_device
  link-Spares uuid user = search spares_rules depth 30

  register-Spares : (uuid name secret : Text) → Spares (register c uuid name secret)
  unfolding register
  register-Spares uuid name secret = search (spares_rules, link-Spares) depth 30

  module _ (cfg : Config) where
    pub greet-Spares : (ip key : Text) → Spares (greet_handler c cfg ip key)
    unfolding greet_handler
    greet-Spares ip key = search (spares_rules, keys-Follows, seal-Follows) depth 30

    pub sign_up-Spares : (ip : Text) (req : SignRequest) → Spares (sign_up_handler c cfg ip req)
    unfolding sign_up_handler
    sign_up-Spares ip req =
        search (spares_rules, decode-Follows, seal-Follows, register-Spares) depth 30

    pub sign_in-Spares : (ip : Text) (req : SignRequest) → Spares (sign_in_handler c cfg ip req)
    unfolding sign_in_handler
    sign_in-Spares ip req = search (spares_rules, decode-Follows, link-Spares) depth 30

    pub refresh-Spares : (ip : Text) (req : RefreshRequest) → Spares (refresh_handler c cfg ip req)
    unfolding refresh_handler
    refresh-Spares ip req = search spares_rules depth 40 fits 40000

    pub resign-Spares : (ip : Text) (req : ResignRequest) → Spares (resign_handler c cfg ip req)
    unfolding resign_handler
    resign-Spares ip req = search spares_rules depth 40 fits 40000

module _ (c : Crates) (h : HeaderMap) (cfg : Config) (peer : IpAddr) where
  pub approve-Spares : (uuid : Text) → Spares (Groups.approve_handler c h cfg peer uuid)
  unfolding Groups.approve_handler set_confirm
  approve-Spares uuid = search spares_rules depth 30

  pub delete-Spares : (uuid : Text) → Spares (delete_identity c h cfg peer uuid)
  unfolding delete_identity
  delete-Spares uuid = search spares_rules depth 30

  pub toggle_user-Spares : (uuid action : Text) → Spares (toggle_user c h cfg peer uuid action)
  unfolding toggle_user
  toggle_user-Spares uuid action = search spares_rules depth 30

  pub toggle_identity-Spares :
      (uuid action : Text) → Spares (toggle_identity c h cfg peer uuid action)
  unfolding toggle_identity set_confirm
  toggle_identity-Spares uuid action = search spares_rules depth 30
