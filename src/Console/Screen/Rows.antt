-- ===== src/Console/Screen/Rows.antt =====
-- The rows of the two tables.
use password_manager_server.Prelude.{
  ℕ, ◌+◌, Option, none, some, Bool, true, false, ◌&&◌, List, [], ◌∷◌, ◌++◌, Text, codes, length,
  get_elem?, take, ltb, leb, nat_eq, if◌then◌else◌, ℤ, pos, negsuc,
}
use password_manager_server.Error.{decimal}
use password_manager_server.Console.{IdentityEntry, UserEntry}
use password_manager_server.Console.Actions.{user_conf}

pub data Color : Type 0 where
  black cyan gray dark_gray red white yellow green : Color

pub record Style : Type 0 where
  pub fg : Option Color
  pub bg : Option Color
  pub bold : Bool

abbrev pub plain : Style
plain = record { fg = none; bg = none; bold = false }

pub record Span : Type 0 where
  pub text : Text
  pub style : Style

abbrev pub span : Text → Style → Span
span t s = record { text = t; style = s }

pub record Row : Type 0 where
  pub cells : List Span
  pub style : Style

abbrev cell : Text → Span
cell t = span t plain

abbrev pub row_style : Bool → Style
row_style true = record { fg = some white; bg = some dark_gray; bold = true }
row_style false = plain

-- `&s[..max]` panics inside a character: where the next byte continues one.
unfoldable pub trunc : Text → ℕ → Option Text
trunc s max =
    if ltb max (length s)
    then (elim (get_elem? s max) [
      | none ↦ none
      | some b ↦ if leb 128 b && ltb b 192 then none else some (take max s ++ codes "...")
    ])
    else some s

unfoldable pub device_row : Bool → IdentityEntry → Text → Row
device_row highlighted e device_token = record {
  cells =
      cell (if e.confirmed then codes "✓" else codes "  ")
      ∷ cell e.created_at
      ∷ cell e.updated_at
      ∷ cell device_token
      ∷ cell e.uuid
      ∷ cell e.ip_address
      ∷ cell (if e.confirmed then codes "Yes" else codes "No")
      ∷ [];
  style = row_style highlighted;
}

-- The rows of a page, numbered from `idx`.
unfoldable pub device_rows : (selected idx : ℕ) → List IdentityEntry → Option (List Row)
unfolding trunc device_row
device_rows selected idx [] = some []
device_rows selected idx (e ∷ es) = elim (trunc e.device_token 45) [
  | none ↦ none
  | some token ↦ elim (device_rows selected (idx + 1) es) [
    | none ↦ none
    | some rows ↦ some (device_row (nat_eq selected idx) e token ∷ rows)
  ]
]

-- The approval of a user, and its color.
abbrev pub conf_cell : ℕ × ℕ → Text × Color
conf_cell (confirmed, total) =
    if nat_eq total 0
    then (codes "—", dark_gray)
    else if nat_eq confirmed total
    then (codes "Yes", green)
    else if nat_eq confirmed 0
    then (codes "No", red)
    else (codes (decimal confirmed) ++ codes "/" ++ codes (decimal total), yellow)

abbrev pub signed : ℤ → Text
signed (pos n) = codes (decimal n)
signed (negsuc n) = codes "-" ++ codes (decimal (n + 1))

abbrev user_style : (highlighted is_deleted : Bool) → Style
user_style highlighted true = record (row_style highlighted) { fg = some red }
user_style highlighted false = row_style highlighted

unfoldable pub user_row : List IdentityEntry → Bool → UserEntry → Row
unfolding user_conf
user_row devices highlighted u =
    let (conf_text, conf_color) = conf_cell (user_conf u.uuid devices) in
    record {
      cells =
          cell u.name
          ∷ cell u.uuid
          ∷ cell (signed u.identity_count)
          ∷ span conf_text (record { fg = some conf_color; bg = none; bold = true })
          ∷ cell (if u.is_deleted then codes "Yes" else codes "No")
          ∷ cell u.created_at
          ∷ cell u.updated_at
          ∷ [];
      style = user_style highlighted u.is_deleted;
    }

unfoldable pub user_rows : List IdentityEntry → (selected idx : ℕ) → List UserEntry → List Row
unfolding user_row
user_rows devices selected idx [] = []
user_rows devices selected idx (u ∷ us) =
    user_row devices (nat_eq selected idx) u ∷ user_rows devices selected (idx + 1) us
