-- ===== src/Routes/Groups.antt =====
-- src/routes/group.rs: the groups of a user, and the two handlers of an administrator that stand
-- there.
use password_manager_server.Prelude.{Option, none, some, true, List, map, Text, codes}
use password_manager_server.Error.{refused, validate_length}
use password_manager_server.Crates.{Crates, HeaderMap, IpAddr}
use password_manager_server.Config.{Config}
use password_manager_server.Schema.{Group, Identity}
use password_manager_server.Prog.{Prog, ◌>>=◌, ◌>>◌, pure, lift, ok_or, attempt, conn, draw}
use password_manager_server.Domain.Group
use password_manager_server.Domain.Identity
use password_manager_server.Routes.Subnet.{check_admin_ip}
use password_manager_server.Routes.Auth.{check_admin_key, validate_auth}
use password_manager_server.Routes.Admin.{set_confirm}

pub record GroupResponse : Type 0 where
  pub uuid : Text
  pub name : Text
  pub extra : Text

pub record CreateGroupRequest : Type 0 where
  pub name : Text
  pub extra : Option Text

pub record PendingIdentity : Type 0 where
  pub uuid : Text
  pub ip_address : Text

abbrev pub extra_or_default : Option Text → Text
extra_or_default none = codes "{}"
extra_or_default (some e) = e

abbrev group_response : Group → GroupResponse
group_response g = record { uuid = g.uuid; name = g.name; extra = g.extra }

module _ (c : Crates) (headers : HeaderMap) where
  unfoldable pub create_handler : Text → CreateGroupRequest → Prog GroupResponse
  unfolding validate_length
  create_handler ip req = do
    lift (validate_length "group name" req.name 128)
    identity ← validate_auth c headers ip
    user_id ← ok_or identity.user_id refused
    conn
    n ← draw
    group ← attempt (
        Group.create (record {
          uuid = c.new_v4 n;
          user_id = user_id;
          name = req.name;
          extra = extra_or_default req.extra;
        }))
    pure (group_response group)

  unfoldable pub list_handler : Text → Prog (List GroupResponse)
  list_handler ip = do
    identity ← validate_auth c headers ip
    user_id ← ok_or identity.user_id refused
    conn
    groups ← attempt (Group.find_by_user user_id)
    pure (map group_response groups)

  module _ (cfg : Config) (addr : IpAddr) where
    unfoldable pub pending_handler : Prog (List PendingIdentity)
    unfolding check_admin_key check_admin_ip
    pending_handler = do
      lift (check_admin_key c cfg headers)
      lift (check_admin_ip addr cfg.admin_allowed_subnet)
      conn
      pending ← attempt Identity.find_pending
      pure (map (λ (i : Identity). record { uuid = i.uuid; ip_address = i.ip_address }) pending)

    unfoldable pub approve_handler : Text → Prog (Unit {0})
    unfolding check_admin_key check_admin_ip set_confirm
    approve_handler uuid = do
      lift (check_admin_key c cfg headers)
      lift (check_admin_ip addr cfg.admin_allowed_subnet)
      set_confirm uuid true
