-- ===== src/Examples/Access.antt =====
-- Who is let in, tried on the small server.
use password_manager_server.Prelude.{◌≡◌, refl, Text-discrete, any, ◌-ℤ◌, some, codes, find, ◌==◌}
use password_manager_server.Error.{ok, err, refused}
use password_manager_server.Schema.{Identity, Group, Password}
use password_manager_server.Prog.{run, program}
use password_manager_server.Domain.Rows.{update_row, has_group}
use password_manager_server.Domain.Identity
use password_manager_server.Domain.User
use password_manager_server.Domain.Group
use password_manager_server.Domain.Password
use password_manager_server.Crypto.{hash_token, encrypt_with_shared_key}
use password_manager_server.Routes.Auth.{header_text, validate_auth}
use password_manager_server.Routes.Auth.Exact.{
  IsAuthentic, validate_auth-IsAuthentic, IsAuthentic-validate_auth, validate_auth-refused,
}
use password_manager_server.Routes.Passwords.{get_handler, update_handler}
use password_manager_server.Routes.Passwords.Isolation.{
  MayRead, Shows, Writes, get_handler-MayRead, update_handler-MayWrite,
}
use password_manager_server.Examples.{
  crates, config, world, device, device_headers, no_headers, home, shown, change,
}

let_in : (run (validate_auth crates device_headers home) world).0 ≡ ok device
unfolding program validate_auth header_text hash_token Identity.find_by_device_token
    User.find_by_uuid find Text-discrete
let_in = refl

turned_away : (run (validate_auth crates no_headers home) world).0 ≡ err refused
unfolding program validate_auth header_text
turned_away = refl

validate_auth-IsAuthentic_example : IsAuthentic crates device_headers home world.db device
validate_auth-IsAuthentic_example =
    validate_auth-IsAuthentic crates device_headers home world device let_in

IsAuthentic-validate_auth_example :
    (run (validate_auth crates device_headers home) world).0 ≡ ok device
IsAuthentic-validate_auth_example =
    IsAuthentic-validate_auth crates device_headers home world device refl refl
      (validate_auth-IsAuthentic crates device_headers home world device let_in)

validate_auth-refused_example : refused ≡ refused
validate_auth-refused_example =
    validate_auth-refused crates no_headers home world refused refl refl turned_away

got : (run (get_handler crates config device_headers home (codes "p")) world).0 ≡ ok shown
unfolding program get_handler find validate_auth Text-discrete Identity.find_by_device_token
    User.find_by_uuid Password.find_by_uuid Group.find_by_uuid ◌-ℤ◌
got = refl

get_handler-MayRead_example :
    (i : Identity) × (p : Password) × (g : Group) × IsAuthentic crates device_headers home world.db
      i
    × MayRead world.db i (codes "p") p g
    × Shows crates config i world shown p g
get_handler-MayRead_example =
    get_handler-MayRead crates device_headers home world config (codes "p") shown got

pub set :
    (run (update_handler crates config device_headers home (codes "p") change) world).0 ≡ ok tt
unfolding program update_handler find validate_auth Text-discrete Identity.find_by_device_token
    User.find_by_uuid Password.find_by_uuid Group.find_by_uuid encrypt_with_shared_key
    Password.update update_row any has_group Password.apply
set = refl

update_handler-MayWrite_example :
    (i : Identity) × (p : Password) × (g target : Group) × IsAuthentic crates device_headers home
      world.db i
    × MayRead world.db i (codes "p") p g
    × (find (λ (g : Group). g.uuid == change.group_id) world.db.groups ≡ some target)
    × (i.user_id ≡ some target.user_id)
    × Writes crates config i change
        (codes "p")
        world
        (run (update_handler crates config device_headers home (codes "p") change) world).1.db
update_handler-MayWrite_example =
    update_handler-MayWrite crates device_headers home world config (codes "p") change set
