-- ===== src/Vault/Shows.antt =====
-- `get_handler` of src/routes/passwords.rs among other requests: what is known of the device that asks, and
-- of the password that it is shown.
use mathlib.Core.Path.{subst}
use password_manager_server.Prelude.{
  ◌≡◌, refl, ◌∙◌, some, true, false, Text, ◌==◌, ==_iff, is_value, codes, find, arith,
}
use password_manager_server.Crates.{Crates, HeaderMap}
use password_manager_server.Config.{Config}
use password_manager_server.Schema.{Db, User, Identity}
use password_manager_server.Prog.{◌>>◌, attempt, pure}
use password_manager_server.Crypto.{hash_token}
use password_manager_server.Domain.User
use password_manager_server.Domain.Identity
use password_manager_server.Routes.Auth.{validate_auth, header_text}
use password_manager_server.Routes.Passwords.{get_for, get_handler}
use password_manager_server.Effects.Steps.{Follows-conn, Follows-utc_now}
use password_manager_server.Effects.Data.{encrypt-Follows}
use password_manager_server.Vault.Stable.{Stable-IsPreorder}
use password_manager_server.Vault.Learns.{
  Knowledge, Persists, Learns, ends, Learns-bind, Learns-weaken, Learns-some, Learns-passed,
  Learns-read, Learns-frame, Follows-Learns,
}
use password_manager_server.Vault.Guards.{Nothing, Nothing-persists, Owned, own_row-Learns}

-- In some database that the request met, the device that has the request's token was approved, at home at
-- the request's address, and the user's; in some such database, that user was not deleted.
pub record WasLetIn (S : Knowledge) (c : Crates) (headers : HeaderMap) (ip user : Text)
    : Type 0 where
  pub token : Text
  pub carried : header_text c headers (codes "device-token") ≡ some token
  pub met : Db
  pub seen : S met
  pub device : Identity
  pub known :
      find (λ (d : Identity). is_value d.device_token (hash_token c token)) met.identities
      ≡ some device
  pub at_home : device.ip_address ≡ ip
  pub approved : device.is_confirmed ≡ true
  pub owned : device.user_id ≡ some user
  pub later : Db
  pub later_seen : S later
  pub owner : User
  pub owner_known : find (λ (u : User). u.uuid == user) later.users ≡ some owner
  pub active : owner.is_deleted ≡ false

-- The answer to a query, in some database that was met.
abbrev Met : {A : Type 0} → Knowledge → (Db → A) → A → Type 0
Met S f a = (db : Db) × S db × (f db ≡ a)

module _ {S : Knowledge} {K : Type 0} where
  user_find-Learns :
      (uuid : Text)
      → Learns S
          (λ o db. Met S (λ (d : Db). find (λ (u : User). u.uuid == uuid) d.users) o × K)
          (λ db. K)
          (attempt (User.find_by_uuid uuid))
  unfolding User.find_by_uuid
  user_find-Learns uuid =
      Learns-read (λ a b s k. k) _ _ (λ o a b s k. k) (λ now db. refl)
        (λ now db z v o e. (db, z, ground (arith, e)))

  token_find-Learns :
      (hash : Text)
      → Learns S
          (λ o db.
            Met S (λ (d : Db). find (λ (i : Identity). is_value i.device_token hash) d.identities) o
            × K)
          (λ db. K)
          (attempt (Identity.find_by_device_token hash))
  unfolding Identity.find_by_device_token
  token_find-Learns hash =
      Learns-read (λ a b s k. k) _ _ (λ o a b s k. k) (λ now db. refl)
        (λ now db z v o e. (db, z, ground (arith, e)))

module _ {S : Knowledge} (c : Crates) (headers : HeaderMap) (ip : Text) where
  pub validate_auth-Learns :
      Learns S
        (λ i db. (user : Text) × (i.user_id ≡ some user) × WasLetIn S c headers ip user)
        Nothing
        (validate_auth c headers ip)
  unfolding validate_auth ◌>>◌ pure
  validate_auth-Learns = Learns-some _ _ _ (λ token carried.
      Learns-bind _ (Follows-Learns Nothing-persists (Follows-conn Stable-IsPreorder)) (λ _.
        Learns-bind _ (token_find-Learns (hash_token c token)) (λ found.
          Learns-some found _ _ (λ i e. Learns-passed _ _ _ (λ home.
            Learns-passed _ _ _ (λ approved. Learns-some i.user_id _ _ (λ user owned.
              Learns-bind _ (user_find-Learns user) (λ answer. Learns-some answer _ _ (λ owner f.
                Learns-passed _ _ _ (λ active. ends _ (λ j same db k.
                  let ij : i ≡ j = ground (arith, same) in
                  (
                    user,
                    rw ij at owned,
                    record {
                      token = token;
                      carried = carried;
                      met = k.1.0.0;
                      seen = k.1.0.1;
                      device = i;
                      known = k.1.0.2 ∙ e;
                      at_home = (==_iff i.ip_address ip).0 home;
                      approved = approved;
                      owned = owned;
                      later = k.0.0;
                      later_seen = k.0.1;
                      owner = owner;
                      owner_known = k.0.2 ∙ f;
                      active = ground (arith, active);
                    },
                  ))))))))))))

  module _ (cfg : Config) where
    get_for-Learns :
        (i : Identity) (uuid : Text)
        → Learns S
            (λ d db. (user : Text) × (i.user_id ≡ some user) × Owned uuid user db × (d.uuid ≡ uuid))
            Nothing
            (get_for c cfg i uuid)
    unfolding get_for ◌>>◌ pure
    get_for-Learns i uuid = Learns-some i.user_id _ _ (λ user owned.
        Learns-bind _ (Follows-Learns Nothing-persists (Follows-conn Stable-IsPreorder)) (λ _.
          own_row-Learns uuid user _ (λ p g.
            let keeps : Persists (λ db. Owned uuid user db × (p.uuid ≡ uuid)) =
              λ a b s k. (s.passwords uuid user k.0, k.1) in
            Learns-bind _
              (Follows-Learns keeps (encrypt-Follows Stable-IsPreorder c headers cfg p.pwd i))
              (λ pwd.
                Learns-bind _ (Follows-Learns keeps (Follows-utc_now Stable-IsPreorder))
                  (λ now. ends _ (λ d e db k. (user, owned, k.0, ground (arith, e, k.1))))))))

    pub get_handler-Learns :
        (uuid : Text)
        → Learns S
            (λ d db.
              (user : Text) × WasLetIn S c headers ip user × Owned uuid user db × (d.uuid ≡ uuid))
            Nothing
            (get_handler c cfg headers ip uuid)
    unfolding get_handler
    get_handler-Learns uuid = Learns-bind _ validate_auth-Learns (λ i.
        Learns-weaken (λ db k. (tt, k))
          (Learns-frame
            (λ d db q k.
              let same : q.0 ≡ k.0 = ground (arith, q.1, k.1) in
              (k.0, k.2, subst (λ u. Owned uuid u db) same q.2, q.3))
            (get_for-Learns i uuid)))
