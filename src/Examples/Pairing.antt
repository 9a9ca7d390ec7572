-- ===== src/Examples/Pairing.antt =====
-- Greetings, subnets and pages, tried on the small server.
use password_manager_server.Prelude.{
  none, Text, ◌/◌, ◌-◌, ◌^◌, ◌≡◌, ◌↔◌, refl, true, Text, Text-discrete, codes, any, find, arith,
}
use password_manager_server.Error.{ok}
use password_manager_server.Schema.{Password}
use password_manager_server.Prog.{run, program}
use password_manager_server.Domain.Rows.{insert_row, identities_clash, has_owner}
use password_manager_server.Domain.Identity
use password_manager_server.Crypto.{generate_identity_keys, encrypt_with_shared_key}
use password_manager_server.Routes.Greet.{GreetResponse, greet_handler}
use password_manager_server.Routes.Greet.Once.{Greeted, greet_handler-Greeted}
use password_manager_server.Routes.Subnet.{same_subnet}
use password_manager_server.Routes.Subnet.Prefix.{same_subnet_iff}
use password_manager_server.Routes.Passwords.{ListParams, PasswordEntry}
use password_manager_server.Domain.User
use password_manager_server.Domain.Group
use password_manager_server.Domain.Password
use password_manager_server.Schema.{Identity}
use password_manager_server.Examples.{crates, config, world, shown, zeros_32}

abbrev elsewhere : Text
elsewhere = codes "10.0.0.9"

abbrev reply : GreetResponse
reply = record { server_public_key = zeros_32 }

greeted : (run (greet_handler crates config elsewhere zeros_32) world).0 ≡ ok reply
unfolding program greet_handler generate_identity_keys encrypt_with_shared_key Identity.find_by_ip
    Identity.create Identity.insert find Text-discrete insert_row any identities_clash has_owner
greeted = refl

greet_handler-Greeted_example :
    Greeted crates elsewhere zeros_32 reply world.db
      (run (greet_handler crates config elsewhere zeros_32) world).1.db
greet_handler-Greeted_example =
    greet_handler-Greeted crates config elsewhere zeros_32 world reply greeted

-- 10.0.0.2 and 10.9.9.9 in 10.0.0.0/8.
same_subnet_iff_example :
    (same_subnet 8 167772162 168364297 ≡ true)
    ↔ (167772162 / 2 ^ (32 - 8) ≡ 168364297 / 2 ^ (32 - 8))
same_subnet_iff_example =
    same_subnet_iff 8 167772162 168364297 (omega arith) (omega arith) (omega arith)

abbrev listed : PasswordEntry
listed = record {
  uuid = shown.uuid;
  pwd = shown.pwd;
  expires = shown.expires;
  created_at = shown.created_at;
  updated_at = shown.updated_at;
  valid_since_days = shown.valid_since_days;
}

abbrev anything : ListParams
anything = record { expired = none; take = none; size = none }
