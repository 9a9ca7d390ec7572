-- ===== src/Routes/Archive/Env/RoundTrip.antt =====
-- The `.env` of an archive, written and read back.
use mathlib.Core.List.{append_assoc}
use password_manager_server.Prelude.{
  ℕ, ◌<◌, ◌≤◌, ◌≡◌, ◌⊎◌, inl, inr, refl, sym, ap, ◌∙◌, none, some, true, false, List, [], ◌∷◌, ◌++◌,
  Text, codes, nat_eq, arith, All, All-append, All-map, ltb,
}
use password_manager_server.Crates.{Crates}
use password_manager_server.Config.{Config}
use password_manager_server.Utf8.{valid_from, from_utf8}
use password_manager_server.Routes.Archive.Env.{
  env_content, trim_return, first_line, lines, lines_of, strip_prefix, read_line, read_lines,
  read_env,
}

-- A letter or a sign of a line: ASCII, and neither of the two line ends.
abbrev pub IsPrintable : ℕ → Type 0
IsPrintable b = (13 < b) × (b < 128)

-- A lower-case hexadecimal digit.
abbrev pub IsHexDigit : ℕ → Type 0
IsHexDigit b = ((48 ≤ b) × (b ≤ 57)) ⊎ ((97 ≤ b) × (b ≤ 102))

trim_plain : (line : Text) → All IsPrintable line → trim_return line ≡ line
trim_plain [] h = refl
trim_plain (b ∷ []) ((p, q), h) = ground arith
trim_plain (b ∷ d ∷ bs) (p, h) = ap (◌∷◌ b) (trim_plain (d ∷ bs) h)

first_line-append :
    (line rest : Text)
    → All IsPrintable line
    → first_line (line ++ 10 ∷ rest) ≡ (line, some (lines rest))
unfolding first_line lines
first_line-append [] rest h = refl
first_line-append (b ∷ bs) rest ((p, q), h) =
    let tail = first_line-append bs rest h in
    let plain : nat_eq b 10 ≡ false = ground arith in rw (tail, plain) refl

ended : (line : Text) (more : List Text) → lines_of line (some more) ≡ trim_return line ∷ more
ended [] more = refl
ended (b ∷ bs) more = refl

lines-append :
    (line rest : Text) → All IsPrintable line → lines (line ++ 10 ∷ rest) ≡ line ∷ lines rest
unfolding lines
lines-append line rest h =
    rw (first_line-append line rest h)
      (ended line (lines rest) ∙ ap (λ l. l ∷ lines rest) (trim_plain line h))

strip-append : (prefix rest : Text) → strip_prefix prefix (prefix ++ rest) ≡ some rest
unfolding strip_prefix
strip-append [] rest = refl
strip-append (p ∷ ps) rest =
    let same : nat_eq p p ≡ true = ground arith in rw (same, strip-append ps rest) refl

ascii_valid : (t : Text) → All (λ b. b < 128) t → valid_from 0 128 191 t ≡ true
unfolding valid_from
ascii_valid [] h = refl
ascii_valid (b ∷ bs) (p, h) = let low : ltb b 128 ≡ true = ground arith in rw low (ascii_valid bs h)

module _ (c : Crates) (hex : (b : Text) → All IsHexDigit (c.hex_encode b)) (cfg : Config) where
  abbrev enc : Text
  enc = c.hex_encode cfg.database_encrypt_secret

  abbrev sw : Text
  sw = c.hex_encode cfg.software_secret

  abbrev first_text : Text
  first_text = codes "DATABASEENCRYPTSECRET=" ++ enc

  abbrev second_text : Text
  second_text = codes "SOFTWARESECRET=" ++ sw

  printable : (b : Text) → All IsPrintable (c.hex_encode b)
  printable b =
      All-map
        (λ d h. elim h [
          | inl (p, q) ↦ (omega arith, omega arith)
          | inr (p, q) ↦ (omega arith, omega arith)
        ])
        _ (hex b)

  two_lines : env_content c cfg ≡ first_text ++ 10 ∷ (second_text ++ 10 ∷ [])
  unfolding env_content
  two_lines =
      append_assoc (first_text ++ 10 ∷ codes "SOFTWARESECRET=") sw (10 ∷ [])
      ∙ append_assoc first_text (10 ∷ codes "SOFTWARESECRET=") (sw ++ 10 ∷ [])
      ∙ ap (λ t. first_text ++ 10 ∷ t) (sym (append_assoc (codes "SOFTWARESECRET=") sw (10 ∷ [])))

  first-plain : All IsPrintable first_text
  first-plain =
      All-append IsPrintable (codes "DATABASEENCRYPTSECRET=") enc (ground arith) (printable _)

  second-plain : All IsPrintable second_text
  second-plain = All-append IsPrintable (codes "SOFTWARESECRET=") sw (ground arith) (printable _)

  both_lines : lines (env_content c cfg) ≡ first_text ∷ second_text ∷ []
  unfolding lines first_line
  both_lines =
      ap lines two_lines
      ∙ lines-append first_text (second_text ++ 10 ∷ []) first-plain
      ∙ ap (◌∷◌ first_text) (lines-append second_text [] second-plain)

  -- The secrets that an archive carries are read back.
  pub read_env-env_content : read_env (env_content c cfg) ≡ (some enc, some sw)
  unfolding read_env read_lines read_line
  read_env-env_content =
      let one : strip_prefix (codes "DATABASEENCRYPTSECRET=") first_text ≡ some enc =
        strip-append (codes "DATABASEENCRYPTSECRET=") enc in
      ap (λ l. read_lines l (none, none)) both_lines ∙ rw one refl

  -- And they are ASCII.
  pub from_utf8-env_content : from_utf8 (env_content c cfg) ≡ some (env_content c cfg)
  unfolding from_utf8
  from_utf8-env_content =
      let ascii : All (λ b. b < 128) (env_content c cfg) = rw two_lines (
        All-append (λ b. b < 128) first_text _ (All-map (λ b h. h.1) first_text first-plain)
          (
            omega arith,
            All-append (λ b. b < 128) second_text _ (All-map (λ b h. h.1) second_text second-plain)
                (omega arith, tt),
          )) in
      rw (ascii_valid (env_content c cfg) ascii) refl
