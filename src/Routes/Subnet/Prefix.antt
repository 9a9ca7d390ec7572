-- ===== src/Routes/Subnet/Prefix.antt =====
-- The mask of a prefix: two addresses are in one subnet exactly when they agree in the top bits.
mod Digits
use mathlib.Core.Path.{subst}
use native.Mathlib.Nat.{
  pow-suc, one-le-pow, div-lt_iff_lt-mul, div-add-mod', mod-lt, mul-div_cancel,
}
use Prim.Native.Nat.{bit_and}
use password_manager_server.Prelude.{
  ℕ, zero, suc, ◌+◌, ◌*◌, ◌-◌, ◌/◌, ◌%◌, ◌^◌, ◌≤◌, ◌<◌, ◌≡◌, ◌↔◌, refl, sym, ◌∙◌, ap, Bool, true,
  false, ◌&&◌, nat_eq, arith, if◌then◌else◌, min,
}
use password_manager_server.Routes.Subnet.{mask_of, same_subnet}
use Digits.{bit_and_digit}

half : (p : ℕ) → (2 ^ suc p - 1) / 2 ≡ 2 ^ p - 1
half p = omega (arith, pow-suc 2 p, one-le-pow p 2)

-- The lowest bits of a mask of ones keep a number that fits.
bit_and_ones : (p a : ℕ) → a < 2 ^ p → bit_and a (2 ^ p - 1) ≡ a
bit_and_ones zero zero h = refl
bit_and_ones zero (suc a) h = absurd (omega arith)
bit_and_ones (suc p) a h =
    let kept : bit_and (a / 2) ((2 ^ suc p - 1) / 2) ≡ a / 2 =
      rw (half p) (bit_and_ones p (a / 2) (omega (arith, pow-suc 2 p))) in
    omega (arith, pow-suc 2 p, one-le-pow p 2, bit_and_digit a (2 ^ suc p - 1), kept)

double : (x k : ℕ) → x * 2 ^ suc k ≡ 2 * (x * 2 ^ k)
double x k = rw (pow-suc 2 k) (grind arith)

-- A mask of ones that is shifted up by k keeps the digits from k on.
bit_and_fields :
    (k p q r : ℕ)
    → q < 2 ^ p
    → r < 2 ^ k
    → bit_and (q * 2 ^ k + r) ((2 ^ p - 1) * 2 ^ k) ≡ q * 2 ^ k
bit_and_fields zero p q r h l =
    let zero_r : r ≡ 0 = omega (arith, l) in
    let top : q * 2 ^ 0 + r ≡ q = omega (arith, l) in
    let mask : (2 ^ p - 1) * 2 ^ 0 ≡ 2 ^ p - 1 = omega arith in
    rw (top, mask) (bit_and_ones p q h ∙ omega arith)
bit_and_fields (suc k) p q r h l =
    let number : (q * 2 ^ suc k + r) / 2 ≡ q * 2 ^ k + r / 2 = omega (arith, double q k) in
    let mask : (2 ^ p - 1) * 2 ^ suc k / 2 ≡ (2 ^ p - 1) * 2 ^ k =
      omega (arith, double (2 ^ p - 1) k) in
    let even : (2 ^ p - 1) * 2 ^ suc k % 2 ≡ 0 = omega (arith, double (2 ^ p - 1) k) in
    let kept : bit_and ((q * 2 ^ suc k + r) / 2) ((2 ^ p - 1) * 2 ^ suc k / 2) ≡ q * 2 ^ k =
      rw (number, mask) (bit_and_fields k p q (r / 2) h (omega (arith, pow-suc 2 k))) in
    omega
      (arith, double q k, bit_and_digit (q * 2 ^ suc k + r) ((2 ^ p - 1) * 2 ^ suc k), kept, even)

-- `mask_of` for every length that a prefix can have, and the number of addresses.
all_masks : ℕ → Bool
all_masks zero = true
all_masks (suc p) =
    nat_eq (mask_of p) ((2 ^ p - 1) * 2 ^ (32 - p))
    && nat_eq (2 ^ p * 2 ^ (32 - p)) (2 ^ 32)
    && all_masks p

masks_checked : all_masks 33 ≡ true
unfolding all_masks mask_of
masks_checked = refl

mask_below :
    (n p : ℕ)
    → p < n
    → all_masks n ≡ true
    → (mask_of p ≡ (2 ^ p - 1) * 2 ^ (32 - p)) × (2 ^ p * 2 ^ (32 - p) ≡ 2 ^ 32)
unfolding all_masks
mask_below zero p h t = absurd (omega arith)
mask_below (suc n) p h t = ground (arith, mask_below n p)

-- The address without the digits below the prefix.
masked : (p a : ℕ) → p ≤ 32 → a < 2 ^ 32 → bit_and a (mask_of p) ≡ a / 2 ^ (32 - p) * 2 ^ (32 - p)
masked p a h l =
    let (mask, all) = mask_below 33 p (omega arith) masks_checked in
    let some_address : 0 < 2 ^ (32 - p) = one-le-pow (32 - p) 2 (omega arith) in
    let fits : a / 2 ^ (32 - p) < 2 ^ p = (div-lt_iff_lt-mul some_address).1 (rw all l) in
    rw mask (
      ap (λ x. bit_and x ((2 ^ p - 1) * 2 ^ (32 - p))) (sym (div-add-mod' a (2 ^ (32 - p))))
      ∙ bit_and_fields (32 - p) p _ _ fits (mod-lt a some_address))

-- For a prefix of at most 32 bits, two addresses of 32 bits are in one subnet exactly when they agree
-- in the bits of the prefix.
pub same_subnet_iff :
    (prefix a b : ℕ)
    → prefix ≤ 32
    → a < 2 ^ 32
    → b < 2 ^ 32
    → (same_subnet prefix a b ≡ true) ↔ (a / 2 ^ (32 - prefix) ≡ b / 2 ^ (32 - prefix))
unfolding same_subnet
same_subnet_iff prefix a b h l m =
    let k = 2 ^ (32 - prefix) in
    let some_address : 0 < 2 ^ (32 - prefix) = one-le-pow (32 - prefix) 2 (omega arith) in
    let x = masked prefix a h l in
    let y = masked prefix b h m in
    let back = λ (q : ℕ). mul-div_cancel q some_address in
    (
      (λ t.
          let same : a / k * k ≡ b / k * k = ground (arith, x, y) in
          sym (back (a / k)) ∙ ap (λ z. z / k) same ∙ back (b / k)),
      λ t. let same : a / k * k ≡ b / k * k = ap (λ z. z * k) t in ground (arith, x, y, same),
    )
