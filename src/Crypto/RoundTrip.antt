-- ===== src/Crypto/RoundTrip.antt =====
-- What was sealed under a key opens again under it, and what is too short for a nonce is refused.
use password_manager_server.Prelude.{
  ℕ, zero, suc, ◌≤◌, ◌<◌, ◌≡◌, refl, some, [], ◌∷◌, ◌++◌, Bytes, length, take, drop, arith, ap,
  length-append, Option-cases, inl, inr,
}
use password_manager_server.Error.{ok, err, crypto}
use password_manager_server.Crates.{Crates, CratesLaws}
use password_manager_server.Crypto.{seal, decrypt_with_shared_key}

take-length-append : (xs ys : Bytes) (n : ℕ) → length xs ≡ n → take n (xs ++ ys) ≡ xs
take-length-append [] ys zero h = refl
take-length-append [] ys (suc n) h = absurd (omega arith)
take-length-append (x ∷ xs) ys zero h = absurd (omega arith)
take-length-append (x ∷ xs) ys (suc n) h = ap (◌∷◌ x) (take-length-append xs ys n (omega arith))

drop-length-append : (xs ys : Bytes) (n : ℕ) → length xs ≡ n → drop n (xs ++ ys) ≡ ys
drop-length-append [] ys zero h = refl
drop-length-append [] ys (suc n) h = absurd (omega arith)
drop-length-append (x ∷ xs) ys zero h = absurd (omega arith)
drop-length-append (x ∷ xs) ys (suc n) h = drop-length-append xs ys n (omega arith)

module _ (c : Crates) (laws : CratesLaws c) where
  -- If the crates keep their laws, a message that was sealed under a key, with the nonce of any draw,
  -- opens under that key to the same message.
  pub seal-decrypt :
      (n : ℕ) (message key : Bytes) {sealed : Bytes}
      → seal c (c.nonce n) message key ≡ ok sealed
      → decrypt_with_shared_key c sealed key ≡ ok message
  unfolding seal decrypt_with_shared_key
  seal-decrypt n message key {sealed} h =
      elim (Option-cases (c.aes_encrypt key (c.nonce n) message)) [
        | inl e ↦ absurd (ground arith)
        | inr (ct, e) ↦
            let whole : sealed ≡ c.nonce n ++ ct = ground arith in
            let long : 12 ≤ length (c.nonce n ++ ct) =
              omega (arith, length-append (c.nonce n) ct, laws.nonce_length n) in
            let front : take 12 (c.nonce n ++ ct) ≡ c.nonce n =
              take-length-append _ ct 12 (laws.nonce_length n) in
            let back : drop 12 (c.nonce n ++ ct) ≡ ct =
              drop-length-append _ ct 12 (laws.nonce_length n) in
            let opened : c.aes_decrypt key (c.nonce n) ct ≡ some message =
              laws.aes_round_trip key _ message ct e in
            rw whole (ground arith)
      ]

-- A text without room for the nonce is refused, whatever the key.
pub decrypt_short :
    (c : Crates) (sealed key : Bytes)
    → length sealed < 12
    → decrypt_with_shared_key c sealed key ≡ err (crypto "encrypted data too short")
unfolding decrypt_with_shared_key
decrypt_short c sealed key h = ground arith
