-- ===== src/Routes/Subnet/Prefix/Digits.antt =====
-- `&` digit by digit.
use Prim.Native.Nat.{bit_and, digits, bit_and-bitwise}
use password_manager_server.Prelude.{ℕ, zero, suc, ◌+◌, ◌*◌, ◌/◌, ◌%◌, ◌≤◌, ◌≡◌, refl, min, arith}

-- A count that is large enough may be larger.
spare : (n m a b : ℕ) → a ≤ n → n ≤ m → digits (λ _. zero) min m a b ≡ digits (λ _. zero) min n a b
spare zero zero zero b h l = refl
spare zero (suc m) zero b h l = refl
spare zero m (suc a) b h l = absurd (omega arith)
spare (suc n) zero a b h l = absurd (omega arith)
spare (suc n) (suc m) zero b h l = refl
spare (suc n) (suc m) (suc a) b h l =
    omega (arith, spare n m (suc a / 2) (b / 2) (omega arith) (omega arith))

pub bit_and_digit : (a b : ℕ) → bit_and a b ≡ bit_and (a / 2) (b / 2) * 2 + min (a % 2) (b % 2)
bit_and_digit zero b = omega (arith, bit_and-bitwise 0 b, bit_and-bitwise 0 (b / 2))
bit_and_digit (suc a) b = omega (
  arith,
  bit_and-bitwise (suc a) b,
  bit_and-bitwise (suc a / 2) (b / 2),
  spare (suc a / 2) a (suc a / 2) (b / 2) (omega arith) (omega arith),
)
