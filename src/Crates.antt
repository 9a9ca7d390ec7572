-- ===== src/Crates.antt =====
-- The third-party crates that the handlers call, as one record of operations: hex, sha2, x25519-dalek,
-- aes-gcm, rand, uuid, the printing of times and addresses, and the `to_str` of a header value. What is random is a
-- function of the number of the draw. `CratesLaws` states what their documentation promises.
use password_manager_server.Prelude.{ℕ, ◌≡◌, Option, some, Bytes, Text, length}

-- std::net::IpAddr, by its bits.
pub data IpAddr : Type 0 where
  v4 : ℕ → IpAddr
  v6 : ℕ → IpAddr

pub record Crates : Type 0 where
  pub hex_encode : Bytes → Text
  pub hex_decode : Text → Option Bytes
  pub sha256 : Bytes → Bytes
  -- x25519(scalar, point)
  pub x25519 : Bytes → Bytes → Bytes
  -- key, nonce, message; `none` is the error of the crate
  pub aes_encrypt : Bytes → Bytes → Bytes → Option Bytes
  pub aes_decrypt : Bytes → Bytes → Bytes → Option Bytes
  pub random_32 : ℕ → Bytes
  pub nonce : ℕ → Bytes
  pub new_v4 : ℕ → Text
  pub format_time : ℕ → Text
  pub ip_to_string : IpAddr → Text
  pub to_str : Bytes → Option Text

pub record CratesLaws (c : Crates) : Type 0 where
  pub hex_round_trip : (b : Bytes) → c.hex_decode (c.hex_encode b) ≡ some b
  pub aes_round_trip :
      (key nonce message ciphertext : Bytes)
      → c.aes_encrypt key nonce message ≡ some ciphertext
      → c.aes_decrypt key nonce ciphertext ≡ some message
  pub nonce_length : (n : ℕ) → length (c.nonce n) ≡ 12
  pub x25519_length : (scalar point : Bytes) → length (c.x25519 scalar point) ≡ 32

-- `headers.get(name)`
abbrev pub HeaderMap : Type 0
HeaderMap = Text → Option Bytes
