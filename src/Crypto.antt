-- ===== src/Crypto.antt =====
-- src/crypto/: keys.rs, encrypt.rs and mod.rs.
pub mod RoundTrip
use Prim.Native.Nat.{bit_and, bit_or}
use password_manager_server.Prelude.{
  ℕ, zero, suc, none, some, [], ◌∷◌, ◌++◌, Bytes, Text, ltb, nat_eq, length, take, drop,
  if◌then◌else◌,
}
use password_manager_server.Error.{AppResult, ok, err, crypto}
use password_manager_server.Crates.{Crates}
use password_manager_server.Prog.{Prog, ◌>>=◌, pure, lift, draw}

abbrev pub x25519_basepoint : Bytes
x25519_basepoint =
    9 ∷ 0 ∷ 0 ∷ 0 ∷ 0 ∷ 0 ∷ 0 ∷ 0 ∷ 0 ∷ 0 ∷ 0 ∷ 0 ∷ 0 ∷ 0 ∷ 0 ∷ 0 ∷ 0 ∷ 0 ∷ 0 ∷ 0 ∷ 0 ∷ 0 ∷ 0 ∷ 0
    ∷ 0 ∷ 0 ∷ 0 ∷ 0 ∷ 0 ∷ 0 ∷ 0 ∷ 0 ∷ []

pub record IdentityKeys : Type 0 where
  pub server_private_key : Bytes
  pub server_public_key : Bytes

-- `bytes[i] = f(bytes[i])`
unfoldable pub change_at : ℕ → (ℕ → ℕ) → Bytes → Bytes
change_at i f [] = []
change_at zero f (b ∷ bs) = f b ∷ bs
change_at (suc i) f (b ∷ bs) = b ∷ change_at i f bs

-- The scalar is clamped as X25519 wants it.
unfoldable pub clamp_scalar : Bytes → Bytes
unfolding change_at
clamp_scalar bytes =
    change_at 31 (λ b. bit_or b 64)
      (change_at 31 (λ b. bit_and b 127) (change_at 0 (λ b. bit_and b 248) bytes))

module _ (c : Crates) where
  unfoldable pub hash_token : Text → Text
  hash_token token = c.hex_encode (c.sha256 token)

  unfoldable pub keys_from : Bytes → IdentityKeys
  unfolding clamp_scalar
  keys_from bytes =
      let private = clamp_scalar bytes in
      record { server_private_key = private; server_public_key = c.x25519 private x25519_basepoint }

  unfoldable pub generate_identity_keys : Prog IdentityKeys
  unfolding keys_from
  generate_identity_keys = draw >>= λ n. pure (keys_from (c.random_32 n))

  unfoldable pub derive_shared_key : Bytes → Bytes → AppResult Bytes
  derive_shared_key my_private peer_public =
      if nat_eq (length my_private) 32
      then (if nat_eq (length peer_public) 32
          then ok (c.x25519 my_private peer_public)
          else err (crypto "invalid public key length"))
      else err (crypto "invalid private key length")

  -- The nonce stands before the ciphertext.
  unfoldable pub seal : Bytes → Bytes → Bytes → AppResult Bytes
  seal nonce message shared_key = elim (c.aes_encrypt shared_key nonce message) [
    | none ↦ err (crypto "encryption failed: aead::Error")
    | some ciphertext ↦ ok (nonce ++ ciphertext)
  ]

  unfoldable pub encrypt_with_shared_key : Bytes → Bytes → Prog Bytes
  unfolding seal
  encrypt_with_shared_key message shared_key =
      draw >>= λ n. lift (seal (c.nonce n) message shared_key)

  unfoldable pub decrypt_with_shared_key : Bytes → Bytes → AppResult Bytes
  decrypt_with_shared_key message shared_key =
      if ltb (length message) 12
      then err (crypto "encrypted data too short")
      else elim (c.aes_decrypt shared_key (take 12 message) (drop 12 message)) [
        | none ↦ err (crypto "decryption failed: aead::Error")
        | some plain ↦ ok plain
      ]

  abbrev pub encrypt_db : Bytes → Bytes → Prog Bytes
  encrypt_db = encrypt_with_shared_key

  abbrev pub decrypt_db : Bytes → Bytes → AppResult Bytes
  decrypt_db = decrypt_with_shared_key
