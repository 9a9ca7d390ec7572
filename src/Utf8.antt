-- ===== src/Utf8.antt =====
-- `String::from_utf8`: the check that bytes are well-formed UTF-8 (the table of the Unicode standard,
-- which the standard library of Rust follows). A string keeps its bytes.
use password_manager_server.Prelude.{
  ℕ, zero, suc, Option, none, some, Bool, true, false, ◌&&◌, [], ◌∷◌, Bytes, Text, ltb, leb, nat_eq,
  if◌then◌else◌,
}

-- `left` continuation bytes are due, the next one between `lo` and `hi`.
unfoldable pub valid_from : ℕ → ℕ → ℕ → Bytes → Bool
valid_from zero lo hi [] = true
valid_from (suc left) lo hi [] = false
valid_from (suc left) lo hi (b ∷ bs) = leb lo b && (leb b hi && valid_from left 128 191 bs)
valid_from zero lo hi (b ∷ bs) =
    let ascii = valid_from 0 128 191 bs in
    let two = valid_from 1 128 191 bs in
    let three_low = valid_from 2 160 191 bs in
    let three_high = valid_from 2 128 159 bs in
    let three = valid_from 2 128 191 bs in
    let four_low = valid_from 3 144 191 bs in
    let four_high = valid_from 3 128 143 bs in
    let four = valid_from 3 128 191 bs in
    if ltb b 128
    then ascii
    else if ltb b 194
    then false
    else if ltb b 224
    then two
    else if nat_eq b 224
    then three_low
    else if nat_eq b 237
    then three_high
    else if ltb b 240
    then three
    else if nat_eq b 240
    then four_low
    else if ltb b 244
    then four
    else if nat_eq b 244
    then four_high
    else false

unfoldable pub from_utf8 : Bytes → Option Text
unfolding valid_from
from_utf8 bytes = if valid_from 0 128 191 bytes then some bytes else none
