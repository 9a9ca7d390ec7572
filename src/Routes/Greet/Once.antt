-- ===== src/Routes/Greet/Once.antt =====
-- What a greeting that succeeds adds.
use password_manager_server.Prelude.{
  ◌+◌, ◌≡◌, refl, none, some, false, [], ◌∷◌, ◌++◌, Text, codes, ◌==◌, find, arith, Option-cases,
  inl, inr, length,
}
use password_manager_server.Error.{ok}
use password_manager_server.Error.Cases.{Result-cases}
use password_manager_server.Crates.{Crates}
use password_manager_server.Config.{Config}
use password_manager_server.Schema.{Db, Identity}
use password_manager_server.Prog.{World, run, program}
use password_manager_server.Crypto.{
  generate_identity_keys, keys_from, encrypt_with_shared_key, seal,
}
use password_manager_server.Domain.Rows.{identities_clash, has_owner}
use password_manager_server.Domain.Outcome.{insert_row-cases}
use password_manager_server.Domain.Identity
use password_manager_server.Routes.Greet.{GreetResponse, greet_handler}

-- The row that a greeting adds: unapproved, of no user, at the address of the request, with the key
-- of the client and a key of the server.
pub record Greeted (c : Crates) (ip key : Text) (r : GreetResponse) (a b : Db) : Type 0 where
  pub row : Identity
  pub absent : find (λ (d : Identity). d.ip_address == ip) a.identities ≡ none
  pub added : b.identities ≡ a.identities ++ row ∷ []
  pub others : (b.users ≡ a.users) × (b.groups ≡ a.groups) × (b.passwords ≡ a.passwords)
  pub unapproved : row.is_confirmed ≡ false
  pub unowned : row.user_id ≡ none
  pub tokenless : row.device_token ≡ none
  pub at : row.ip_address ≡ ip
  pub client : c.hex_decode key ≡ some row.client_public_key
  pub long : length row.client_public_key ≡ 32
  pub server : r.server_public_key ≡ c.hex_encode row.server_public_key

module _ (c : Crates) (cfg : Config) (ip key : Text) where
  -- A greeting that succeeds comes from an address that no device had, and adds one device there and
  -- nothing else: unapproved, without user or token, with the key that was sent, which has 32 bytes, and
  -- the key that is answered.
  pub greet_handler-Greeted :
      (w : World) (r : GreetResponse)
      → (run (greet_handler c cfg ip key) w).0 ≡ ok r
      → Greeted c ip key r w.db (run (greet_handler c cfg ip key) w).1.db
  unfolding program greet_handler generate_identity_keys encrypt_with_shared_key Identity.find_by_ip
      Identity.create Identity.insert
  greet_handler-Greeted w r h = elim (Option-cases (c.hex_decode key)) [
    | inl e ↦ absurd (ground arith)
    | inr (bytes, e) ↦
        let keys = keys_from c (c.random_32 w.draws) in
        elim (Result-cases (
          seal c (c.nonce (w.draws + 1 + 1)) keys.server_private_key cfg.database_encrypt_secret)) [
            | inr (x, f) ↦ absurd (ground arith)
            | inl (sealed, f) ↦
                let row : Identity = Identity.row_of w.now (record {
                  uuid = c.new_v4 (w.draws + 1);
                  user_id = none;
                  ip_address = ip;
                  device_token = none;
                  server_private_key = sealed;
                  server_public_key = keys.server_public_key;
                  client_public_key = bytes;
                  extra = codes "{}";
                  is_confirmed = false;
                }) in
                elim (insert_row-cases identities_clash (has_owner w.db.users none) row
                  w.db.identities) [
                    | inl (x, q) ↦ absurd (ground arith)
                    | inr (fresh, owner, q) ↦ record {
                      row = row;
                      absent = ground arith;
                      added = ground arith;
                      others = ground arith;
                      unapproved = refl;
                      unowned = refl;
                      tokenless = refl;
                      at = refl;
                      client = e;
                      long = ground arith;
                      server = ground arith;
                    }
                  ]
          ]
  ]
