-- ===== src/Examples/Vaults.antt =====
-- The vault, tried on the small server.
use password_manager_server.Prelude.{
  ◌≡◌, refl, Text-discrete, any, modify, ◌-ℤ◌, codes, find, Bytes, ◌++◌, ◌∷◌, [],
}
use password_manager_server.Error.{ok}
use password_manager_server.Schema.{Identity}
use password_manager_server.Prog.{World, run, program}
use password_manager_server.Domain.Rows.{update_row, has_group}
use password_manager_server.Domain.Identity
use password_manager_server.Domain.User
use password_manager_server.Domain.Group
use password_manager_server.Domain.Password
use password_manager_server.Crypto.{encrypt_with_shared_key}
use password_manager_server.Routes.Auth.{validate_auth}
use password_manager_server.Routes.Auth.Exact.{IsAuthentic}
use password_manager_server.Routes.Passwords.{
  PasswordDetail, get_handler, update_handler, decrypt_from_client,
}
use password_manager_server.Server.{Request, pwd_update, empty, handle, dispatch}
use password_manager_server.Vault.Refines.{Promise, handle-Promise}
use password_manager_server.Vault.Delivery.{get_handler-update_handler}
use password_manager_server.Examples.{
  crates, crates-CratesLaws, config, world, device_headers, home, peer, shown, change,
}
use password_manager_server.Examples.Access.{set}
use password_manager_server.Examples.Histories.{tables-IsValid}

abbrev ask_change : Request
ask_change = record { peer = peer; headers = device_headers; call = pwd_update (codes "p") change }

changed_ok : (run (handle crates config ask_change) world).0 ≡ ok empty
unfolding program handle dispatch update_handler find validate_auth Text-discrete
    Identity.find_by_device_token User.find_by_uuid Password.find_by_uuid Group.find_by_uuid
    encrypt_with_shared_key Password.update update_row any has_group Password.apply
changed_ok = refl

handle-Promise_example :
    Promise crates config world device_headers home
      (run (handle crates config ask_change) world).1.db
      empty
      (pwd_update (codes "p") change)
handle-Promise_example =
    handle-Promise crates config ask_change world empty tables-IsValid changed_ok

-- The device asks again a little later.
abbrev later : World
later = record (run (update_handler crates config device_headers home (codes "p") change) world).1 {
  now = 9;
}

abbrev shown_later : PasswordDetail
shown_later = record shown {
  pwd = crates.nonce 1 ++ codes "new";
  name = codes "work";
  updated_at = 5 ∷ [];
}

got_later :
    (run (get_handler crates config device_headers home (codes "p")) later).0 ≡ ok shown_later
unfolding program get_handler update_handler find validate_auth Text-discrete
    Identity.find_by_device_token User.find_by_uuid Password.find_by_uuid Group.find_by_uuid
    encrypt_with_shared_key Password.update update_row any has_group Password.apply ◌-ℤ◌ modify
got_later = refl

get_handler-update_handler_example :
    (i j : Identity) × (plain : Bytes) × IsAuthentic crates device_headers home world.db i
    × IsAuthentic crates device_headers home later.db j
    × ((run (decrypt_from_client crates config change.pwd i) world).0 ≡ ok plain)
    × ((run (decrypt_from_client crates config shown_later.pwd j) later).0 ≡ ok plain)
get_handler-update_handler_example =
    get_handler-update_handler crates config (codes "p") crates-CratesLaws device_headers
      device_headers home home change world later shown_later set refl got_later
