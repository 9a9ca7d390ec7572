-- ===== src/Server.antt =====
-- `build_router` of src/routes/mod.rs: which handler answers which request. Path, method and body are
-- taken apart by axum and serde; a request here is what they hand to the handler.
pub mod System
pub mod Http
pub mod RouteTable
pub mod Router
use password_manager_server.Prelude.{List, Text, Bool, false}
use password_manager_server.Crates.{Crates, HeaderMap, IpAddr}
use password_manager_server.Config.{Config}
use password_manager_server.Prog.{Prog, ◌>>=◌, pure}
use password_manager_server.Routes.Auth.{verify_handler}
use password_manager_server.Routes.Greet.{GreetResponse, greet_handler}
use password_manager_server.Routes.Sign.{
  SignRequest, SignResponse, sign_up_handler, sign_in_handler,
}
use password_manager_server.Routes.Refresh.{RefreshRequest, RefreshResponse, refresh_handler}
use password_manager_server.Routes.Resign.{ResignRequest, resign_handler}
use password_manager_server.Routes.Groups
use password_manager_server.Routes.Groups.{GroupResponse, CreateGroupRequest, PendingIdentity}
use password_manager_server.Routes.Passwords
use password_manager_server.Routes.Passwords.{
  ListParams, PasswordEntry, PasswordDetail, CreatePasswordRequest, UpdatePasswordRequest,
}
use password_manager_server.Routes.Admin
use password_manager_server.Routes.Admin.{IdentityResponse, UserResponse}

-- One constructor for each route, but for export and import.
pub data Call : Type 0 where
  greet : Text → Call
  sign_up sign_in : SignRequest → Call
  pending : Call
  approve : Text → Call
  identities : Call
  identity_delete : Text → Call
  identity_action : Text → Text → Call
  users : Call
  user_action : Text → Text → Call
  health : Call
  re_sign : ResignRequest → Call
  refresh : RefreshRequest → Call
  verify : Call
  pwd_list : ListParams → Call
  pwd_create : CreatePasswordRequest → Call
  pwd_update : Text → UpdatePasswordRequest → Call
  pwd_get : Text → Call
  group_create : CreateGroupRequest → Call
  group_list : Call

-- `peer` is the address of the TCP connection.
pub record Request : Type 0 where
  pub peer : IpAddr
  pub headers : HeaderMap
  pub call : Call

pub data Response : Type 0 where
  empty : Response
  greeted : GreetResponse → Response
  signed : SignResponse → Response
  refreshed : RefreshResponse → Response
  group_made : GroupResponse → Response
  group_rows : List GroupResponse → Response
  pending_rows : List PendingIdentity → Response
  identity_rows : List IdentityResponse → Response
  user_rows : List UserResponse → Response
  entry : PasswordEntry → Response
  entry_rows : List PasswordEntry → Response
  detail : PasswordDetail → Response

infixl 6 ◌to◌
abbrev pub ◌to◌ : {A : Type 0} → Prog A → (A → Response) → Prog Response
m to f = m >>= λ a. pure (f a)

unfoldable pub dispatch : Crates → Config → IpAddr → HeaderMap → Call → Prog Response
dispatch c cfg peer h (greet key) = greet_handler c cfg (c.ip_to_string peer) key to greeted
dispatch c cfg peer h (sign_up req) = sign_up_handler c cfg (c.ip_to_string peer) req to signed
dispatch c cfg peer h (sign_in req) = sign_in_handler c cfg (c.ip_to_string peer) req to signed
dispatch c cfg peer h pending = Groups.pending_handler c h cfg peer to pending_rows
dispatch c cfg peer h (approve uuid) = Groups.approve_handler c h cfg peer uuid to λ _. empty
dispatch c cfg peer h identities = Admin.list_identities c h cfg peer to identity_rows
dispatch c cfg peer h (identity_delete uuid) = Admin.delete_identity c h cfg peer uuid to λ _. empty
dispatch c cfg peer h (identity_action uuid action) =
    Admin.toggle_identity c h cfg peer uuid action to λ _. empty
dispatch c cfg peer h users = Admin.list_users c h cfg peer to user_rows
dispatch c cfg peer h (user_action uuid action) =
    Admin.toggle_user c h cfg peer uuid action to λ _. empty
dispatch c cfg peer h health = pure empty
dispatch c cfg peer h (re_sign req) = resign_handler c cfg (c.ip_to_string peer) req to λ _. empty
dispatch c cfg peer h (refresh req) = refresh_handler c cfg (c.ip_to_string peer) req to refreshed
dispatch c cfg peer h verify = verify_handler c h (c.ip_to_string peer) to λ _. empty
dispatch c cfg peer h (pwd_list params) =
    Passwords.list_handler c cfg h (c.ip_to_string peer) params to entry_rows
dispatch c cfg peer h (pwd_create req) =
    Passwords.create_handler c cfg h (c.ip_to_string peer) req to entry
dispatch c cfg peer h (pwd_update uuid req) =
    Passwords.update_handler c cfg h (c.ip_to_string peer) uuid req to λ _. empty
dispatch c cfg peer h (pwd_get uuid) =
    Passwords.get_handler c cfg h (c.ip_to_string peer) uuid to detail
dispatch c cfg peer h (group_create req) =
    Groups.create_handler c h (c.ip_to_string peer) req to group_made
dispatch c cfg peer h group_list = Groups.list_handler c h (c.ip_to_string peer) to group_rows

unfoldable pub handle : Crates → Config → Request → Prog Response
unfolding dispatch
handle c cfg r = dispatch c cfg r.peer r.headers r.call
