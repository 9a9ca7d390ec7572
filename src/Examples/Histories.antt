-- ===== src/Examples/Histories.antt =====
-- Requests in progress, failures and round trips, tried on the small server.
use password_manager_server.Prelude.{
  ◌≡◌, ◌↔◌, refl, none, some, true, false, [], ◌∷◌, ◌++◌, Text-discrete, Bytes, codes, pos, All,
  any, arith, ◌≤ℤ◌, ◌/◌, ◌-◌,
}
use password_manager_server.Error.{ok}
use password_manager_server.Prog.{World, Prog, done, atomic, run, program}
use password_manager_server.Crypto.{
  seal, decrypt_with_shared_key, derive_shared_key, encrypt_with_shared_key, decrypt_db,
}
use password_manager_server.Crypto.RoundTrip.{seal-decrypt}
use password_manager_server.Routes.Auth.{
  validate_auth, verify_handler, authorised, check_admin_key, header_text,
}
use password_manager_server.Domain.Rows.{has_user, has_group, has_owner}
use password_manager_server.Routes.Passwords.{
  encrypt_for_client, decrypt_from_client, is_expired, day,
}
use password_manager_server.Routes.Passwords.Window.{is_expired_iff}
use password_manager_server.Routes.Passwords.RoundTrip.{encrypt-decrypt}
use password_manager_server.Server.{Request, Response, verify, handle, dispatch}
use password_manager_server.Server.System.{System, arrive, act, elapse, Reach, start, next}
use password_manager_server.Effects.Approval.{is_approved, approved_row, approval_needs_admin}
use password_manager_server.Effects.Constraints.{IsValid}
use password_manager_server.Effects.Consistency.{IsConsistent, reachable-IsConsistent}
use password_manager_server.Effects.Windows.{RowInRange, reachable-DaysInRange}
use password_manager_server.Examples.{
  crates, crates-CratesLaws, config, world, device, device_headers, no_headers, home, peer,
  zeros_12, zeros_32,
}

abbrev pub ask : Request
ask = record { peer = peer; headers = no_headers; call = verify }

abbrev pub visit : Request
visit = record { peer = peer; headers = device_headers; call = verify }

-- The program with its first action done.
abbrev after : World → Prog Response → Prog Response
after w (done r) = done r
after w (atomic u k) = k w

abbrev pub waiting : System
waiting = record {
  world = record world { now = 9 };
  threads = after world (handle crates config visit) ∷ [];
}

-- A request arrives, takes a connection, and time passes.
pub history : Reach crates config false world waiting
unfolding authorised check_admin_key header_text program handle dispatch verify_handler
    validate_auth Text-discrete
history =
    next (next (next start (arrive visit (λ h. h))) (act [] [] _ _ refl))
      (elapse 9 true none (omega arith))

approved_now : is_approved (codes "d") (codes "u") home zeros_32 waiting.world.db ≡ true
unfolding is_approved any Text-discrete approved_row
approved_now = refl

approval_needs_admin_example : is_approved (codes "d") (codes "u") home zeros_32 world.db ≡ true
approval_needs_admin_example =
    approval_needs_admin (codes "d") (codes "u") home zeros_32 history approved_now

pub tables-IsValid : IsValid world.db
unfolding has_owner has_user has_group any Text-discrete
tables-IsValid = record {
  users = (refl, tt);
  identities = (refl, tt);
  groups = (refl, tt);
  passwords = (refl, tt);
  owners = (refl, tt);
  members = (refl, tt);
  contents = (refl, tt);
}

tables-IsConsistent : IsConsistent world.db
unfolding any Text-discrete
tables-IsConsistent = record {
  user_ids = (refl, tt);
  user_names = (refl, tt);
  device_ids = (refl, tt);
  addresses = (refl, tt);
  tokens = (refl, tt);
  group_ids = (refl, tt);
  password_ids = (refl, tt);
  owners = (refl, tt);
  members = (refl, tt);
  contents = (refl, tt);
}

reachable-IsConsistent_example : IsConsistent waiting.world.db
reachable-IsConsistent_example = reachable-IsConsistent history tables-IsConsistent

reachable-DaysInRange_example : All RowInRange waiting.world.db.passwords
reachable-DaysInRange_example = reachable-DaysInRange history ((omega arith, omega arith), tt)

abbrev boxed : Bytes
boxed = zeros_12 ++ codes "secret"

sealed_once : seal crates (crates.nonce 0) (codes "secret") zeros_32 ≡ ok boxed
unfolding seal
sealed_once = refl

seal-decrypt_example : decrypt_with_shared_key crates boxed zeros_32 ≡ ok (codes "secret")
seal-decrypt_example = seal-decrypt crates crates-CratesLaws 0 (codes "secret") zeros_32 sealed_once

delivered : (run (encrypt_for_client crates config boxed device) world).0 ≡ ok boxed
unfolding program encrypt_for_client derive_shared_key decrypt_with_shared_key
    encrypt_with_shared_key seal
delivered = refl

encrypt-decrypt_example :
    (bytes plain : Bytes) × (crates.hex_decode boxed ≡ some bytes)
    × (decrypt_db crates bytes config.database_encrypt_secret ≡ ok plain)
    × ((run (decrypt_from_client crates config boxed device) world).0 ≡ ok plain)
encrypt-decrypt_example =
    encrypt-decrypt crates crates-CratesLaws config device boxed world boxed world delivered

is_expired_iff_example : (is_expired 5 1 (pos 30) ≡ true) ↔ (pos 30 ≤ℤ pos ((5 - 1) / day))
is_expired_iff_example = is_expired_iff 5 1 (pos 30)
