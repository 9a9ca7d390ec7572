-- ===== src/Routes/Auth.antt =====
-- `check_admin_key` and `validate_auth` of src/routes/mod.rs, and src/routes/verify.rs.
pub mod Exact
use password_manager_server.Prelude.{
  Option, none, some, Bool, true, false, ◌&&◌, not, Text, codes, ◌==◌, if◌then◌else◌,
}
use password_manager_server.Error.{AppResult, ok, err, refused}
use password_manager_server.Crates.{Crates, HeaderMap, IpAddr}
use password_manager_server.Config.{Config}
use password_manager_server.Routes.Subnet.{check_admin_ip}
use password_manager_server.Schema.{Identity}
use password_manager_server.Prog.{Prog, ◌>>=◌, ◌>>◌, pure, ok_or, guard, attempt, conn}
use password_manager_server.Crypto.{hash_token}
use password_manager_server.Domain.Identity
use password_manager_server.Domain.User

-- `headers.get(name).and_then(|v| v.to_str().ok())`
unfoldable pub header_text : Crates → HeaderMap → Text → Option Text
header_text c headers name = elim (headers name) [ none ↦ none | some v ↦ c.to_str v ]

unfoldable pub check_admin_key : Crates → Config → HeaderMap → AppResult (Unit {0})
unfolding header_text
check_admin_key c cfg headers = elim (header_text c headers (codes "admin-key")) [
  | none ↦ err refused
  | some key ↦ if key == c.hex_encode cfg.software_secret then ok tt else err refused
]

abbrev pub is_ok : {A : Type 0} → AppResult A → Bool
is_ok (ok a) = true
is_ok (err e) = false

-- Both gates of an administrator.
unfoldable pub authorised : Crates → HeaderMap → Config → IpAddr → Bool
authorised c headers cfg addr =
    is_ok (check_admin_key c cfg headers) && is_ok (check_admin_ip addr cfg.admin_allowed_subnet)

module _ (c : Crates) (headers : HeaderMap) (ip : Text) where
  unfoldable pub validate_auth : Prog Identity
  unfolding header_text hash_token
  validate_auth = do
    device_token ← ok_or (header_text c headers (codes "device-token")) refused
    conn
    found ← attempt (Identity.find_by_device_token (hash_token c device_token))
    identity ← ok_or found refused
    guard (identity.ip_address == ip) refused
    guard identity.is_confirmed refused
    user_id ← ok_or identity.user_id refused
    owner ← attempt (User.find_by_uuid user_id)
    user ← ok_or owner refused
    guard (not user.is_deleted) refused
    pure identity

  unfoldable pub verify_handler : Prog (Unit {0})
  unfolding validate_auth
  verify_handler = validate_auth >>= λ identity. pure tt
