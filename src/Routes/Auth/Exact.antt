-- ===== src/Routes/Auth/Exact.antt =====
-- `validate_auth` lets in exactly the devices that it should, and tells all others the same.
use password_manager_server.Prelude.{
  ◌≡◌, none, some, true, false, Text, codes, ◌==◌, is_value, find, arith, Option-cases, inl, inr,
}
use password_manager_server.Error.{AppError, ok, err, refused}
use password_manager_server.Crates.{Crates, HeaderMap}
use password_manager_server.Schema.{Db, Identity, User}
use password_manager_server.Prog.{World, run, program}
use password_manager_server.Crypto.{hash_token}
use password_manager_server.Domain.Identity
use password_manager_server.Domain.User
use password_manager_server.Routes.Auth.{header_text, validate_auth}

-- The request carries a token whose hash some device has; the device is approved and at home at the
-- address of the request; it belongs to a user that is not deleted.
pub record IsAuthentic (c : Crates) (headers : HeaderMap) (ip : Text) (db : Db) (i : Identity)
    : Type 0 where
  pub token : Text
  pub carried : header_text c headers (codes "device-token") ≡ some token
  pub known :
      find (λ (d : Identity). is_value d.device_token (hash_token c token)) db.identities ≡ some i
  pub at_home : i.ip_address ≡ ip
  pub approved : i.is_confirmed ≡ true
  pub owner : User
  pub owner_id : Text
  pub owned : i.user_id ≡ some owner_id
  pub owner_known : find (λ (u : User). u.uuid == owner_id) db.users ≡ some owner
  pub active : owner.is_deleted ≡ false

module _ (c : Crates) (headers : HeaderMap) (ip : Text) (w : World) where
  -- A request is let in only as a device whose token it carries and that is approved, at its own
  -- address, and of a user that is not deleted.
  pub validate_auth-IsAuthentic :
      (i : Identity)
      → (run (validate_auth c headers ip) w).0 ≡ ok i
      → IsAuthentic c headers ip w.db i
  unfolding program validate_auth Identity.find_by_device_token User.find_by_uuid
  validate_auth-IsAuthentic i h =
      elim (Option-cases (header_text c headers (codes "device-token"))) [
        | inl e ↦ absurd (ground arith)
        | inr (token, e) ↦
            elim (Option-cases (
              find (λ (d : Identity). is_value d.device_token (hash_token c token))
                w.db.identities)) [
                  | inl f ↦ absurd (ground arith)
                  | inr (d, f) ↦ elim (Option-cases d.user_id) [
                    | inl g ↦ absurd (ground arith)
                    | inr (id, g) ↦
                        elim (Option-cases (find (λ (u : User). u.uuid == id) w.db.users)) [
                          | inl k ↦ absurd (ground arith)
                          | inr (u, k) ↦
                              let same : d ≡ i = ground arith in
                              record {
                                token = token;
                                carried = e;
                                known = ground arith;
                                at_home = ground arith;
                                approved = ground arith;
                                owner = u;
                                owner_id = id;
                                owned = ground arith;
                                owner_known = k;
                                active = ground arith;
                              }
                        ]
                  ]
                ]
      ]

  -- A request from a device whose token it carries and that is approved, at its own address, and of a
  -- user that is not deleted, is let in as that device, if a connection can be had and the database
  -- answers.
  pub IsAuthentic-validate_auth :
      (i : Identity)
      → w.pool_open ≡ true
      → w.fault ≡ none
      → IsAuthentic c headers ip w.db i
      → (run (validate_auth c headers ip) w).0 ≡ ok i
  unfolding program validate_auth Identity.find_by_device_token User.find_by_uuid
  IsAuthentic-validate_auth i p f a =
      ground (arith, a.carried, a.known, a.at_home, a.approved, a.owned, a.owner_known, a.active)

  -- If a connection can be had and the database answers, every request that is not let in gets one
  -- and the same refusal, whatever it lacks.
  pub validate_auth-refused :
      (e : AppError)
      → w.pool_open ≡ true
      → w.fault ≡ none
      → (run (validate_auth c headers ip) w).0 ≡ err e
      → e ≡ refused
  unfolding program validate_auth Identity.find_by_device_token User.find_by_uuid
  validate_auth-refused e p f h = ground arith

  -- The check writes nothing.
  pub validate_auth-world : (run (validate_auth c headers ip) w).1 ≡ w
  unfolding program validate_auth Identity.find_by_device_token User.find_by_uuid
  validate_auth-world = ground arith
