-- ===== src/Routes/Passwords/RoundTrip.antt =====
-- What the server seals for a device, the same shared key opens.
use password_manager_server.Prelude.{◌≡◌, some, Text, Bytes, arith, Option-cases, inl, inr}
use password_manager_server.Error.{ok}
use password_manager_server.Error.Cases.{Result-cases}
use password_manager_server.Crates.{Crates, CratesLaws}
use password_manager_server.Config.{Config}
use password_manager_server.Schema.{Identity}
use password_manager_server.Prog.{World, run, program}
use password_manager_server.Crypto.{seal, decrypt_db, encrypt_with_shared_key, derive_shared_key}
use password_manager_server.Crypto.RoundTrip.{seal-decrypt}
use password_manager_server.Routes.Passwords.{encrypt_for_client, decrypt_from_client}

module _ (c : Crates) (laws : CratesLaws c) (cfg : Config) (i : Identity) (stored : Text)
    (w : World) where
  -- If the crates keep their laws, what a device is sent for a stored password opens under the key it shares with the server, to the
  -- text that the stored password opens to under the key of the database.
  pub encrypt-decrypt :
      (sent : Text) (v : World)
      → (run (encrypt_for_client c cfg stored i) w).0 ≡ ok sent
      → (bytes plain : Bytes) × (c.hex_decode stored ≡ some bytes)
        × (decrypt_db c bytes cfg.database_encrypt_secret ≡ ok plain)
        × ((run (decrypt_from_client c cfg sent i) v).0 ≡ ok plain)
  unfolding program encrypt_for_client decrypt_from_client encrypt_with_shared_key
  encrypt-decrypt sent v h = elim (Option-cases (c.hex_decode stored)) [
    | inl e ↦ absurd (ground arith)
    | inr (bytes, e) ↦ elim (Result-cases (decrypt_db c bytes cfg.database_encrypt_secret)) [
      | inr (x, f) ↦ absurd (ground arith)
      | inl (plain, f) ↦
          elim (Result-cases (decrypt_db c i.server_private_key cfg.database_encrypt_secret)) [
            | inr (x, g) ↦ absurd (ground arith)
            | inl (private, g) ↦
                elim (Result-cases (derive_shared_key c private i.client_public_key)) [
                  | inr (x, k) ↦ absurd (ground arith)
                  | inl (shared, k) ↦ elim (Result-cases (seal c (c.nonce w.draws) plain shared)) [
                    | inr (x, l) ↦ absurd (ground arith)
                    | inl (sealed, l) ↦
                        let opened = seal-decrypt c laws w.draws plain shared l in
                        let written : sent ≡ c.hex_encode sealed = ground arith in
                        let read : c.hex_decode sent ≡ some sealed =
                          rw written (laws.hex_round_trip sealed) in
                        (bytes, plain, e, f, ground (arith, read, g, k, opened))
                  ]
                ]
          ]
    ]
  ]
