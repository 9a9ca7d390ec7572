-- ===== src/Routes/Subnet.antt =====
-- `check_admin_ip` of src/routes/mod.rs, with the parsing of the standard library that it uses.
pub mod Prefix
use Prim.Native.Nat.{bit_and}
use password_manager_server.Prelude.{
  ℕ, zero, suc, ◌+◌, ◌*◌, ◌-◌, ◌%◌, ◌^◌, Option, none, some, Bool, ◌&&◌, ◌||◌, not, [], ◌∷◌, Text,
  codes, ltb, leb, nat_eq, length, if◌then◌else◌,
}
use password_manager_server.Error.{AppResult, ok, err, internal, refused, ◌>>=◌}
use password_manager_server.Crates.{IpAddr, v4, v6}
use password_manager_server.Config.{parse_digits, parse_unsigned}

-- `text.split_once(sep)`
unfoldable pub split_once : ℕ → Text → Option (Text × Text)
split_once sep [] = none
split_once sep (b ∷ bs) =
    if nat_eq b sep
    then some ([], bs)
    else elim (split_once sep bs) [ none ↦ none | some (front, back) ↦ some (b ∷ front, back) ]

-- An octet has one to three digits, no leading zero, and is at most 255.
unfoldable pub parse_octet : Text → Option ℕ
unfolding parse_digits
parse_octet [] = none
parse_octet (d ∷ ds) =
    if leb (length ds) 2 && (nat_eq (length ds) 0 || not (nat_eq d 48))
    then parse_digits 256 0 (d ∷ ds)
    else none

-- The first `more` octets end in a dot, the last one at the end of the text.
unfoldable pub parse_octets : ℕ → ℕ → Text → Option ℕ
unfolding parse_octet split_once
parse_octets zero acc text = elim (parse_octet text) [ none ↦ none | some n ↦ some (acc * 256 + n) ]
parse_octets (suc more) acc text = elim (split_once 46 text) [
  | none ↦ none
  | some (front, back) ↦ elim (parse_octet front) [
    | none ↦ none
    | some n ↦ parse_octets more (acc * 256 + n) back
  ]
]

-- `str::parse::<Ipv4Addr>`, as `u32::from` reads the address.
unfoldable pub parse_ipv4 : Text → Option ℕ
unfolding parse_octets
parse_ipv4 = parse_octets 3 0

-- `if prefix == 0 { 0u32 } else { !0u32 << (32 - prefix) }`
unfoldable pub mask_of : ℕ → ℕ
mask_of prefix = if nat_eq prefix 0 then 0 else (2 ^ 32 - 1) * 2 ^ (32 - prefix) % 2 ^ 32

unfoldable pub same_subnet : ℕ → ℕ → ℕ → Bool
unfolding mask_of
same_subnet prefix a b = nat_eq (bit_and a (mask_of prefix)) (bit_and b (mask_of prefix))

abbrev pub internal_or : {A : Type 0} → Option A → (message : AppResult A) → AppResult A
internal_or none message = message
internal_or (some a) message = ok a

abbrev cidr_parts : Text → Option (Text × Text) → Text × Text
cidr_parts cidr none = (cidr, codes "32")
cidr_parts cidr (some parts) = parts

abbrev member : ℕ → ℕ → IpAddr → AppResult (Unit {0})
member base prefix (v6 bits) = err refused
member base prefix (v4 bits) = if same_subnet prefix bits base then ok tt else err refused

-- The subnet is text of the configuration, and is parsed at every request.
unfoldable pub check_admin_ip : IpAddr → Text → AppResult (Unit {0})
unfolding split_once parse_ipv4 parse_unsigned same_subnet
check_admin_ip addr cidr =
    let parts = cidr_parts cidr (split_once 47 cidr) in
    internal_or (parse_ipv4 parts.0) (err (internal "invalid ADMIN_ALLOWED_SUBNET")) >>= λ base.
    internal_or (parse_unsigned 256 parts.1) (err (internal "invalid ADMIN_ALLOWED_SUBNET prefix"))
    >>= λ prefix.
        if ltb 32 prefix
        then err (internal "ADMIN_ALLOWED_SUBNET prefix must be 0-32")
        else member base prefix addr
