-- ===== src/Routes/Passwords/Pages.antt =====
-- The page that a listing shows.
use password_manager_server.Prelude.{
  Option, none, some, any, Text, ◌==◌, ltb, if◌then◌else◌, ℤ, pos, negsuc, ℕ, zero, ◌≡◌, Bool,
  false, List, ◌∷◌, map, take, drop, select,
}
use password_manager_server.Crates.{Crates}
use password_manager_server.Config.{Config}
use password_manager_server.Schema.{Db, Group, Identity, Password}
use password_manager_server.Domain.Group
use password_manager_server.Domain.Password
use password_manager_server.Prog.{World, Prog, branch, utc_now, ◌>>=◌, pure}
use password_manager_server.Routes.Passwords.{PasswordEntry, entries_from, is_expired, same_bool}

-- The listing asks for the expired passwords or for the others.
abbrev pub is_listed : Bool → ℕ → Password → Bool
is_listed expired now p = same_bool (is_expired now p.valid_since p.valid_since_days) expired

-- The passwords of a page, by their definition.
abbrev pub page : Bool → ℕ → (skip size : ℕ) → List Password → List Password
page expired now skip size ps = take size (drop skip (select (is_listed expired now) ps))

module _ (c : Crates) (cfg : Config) (e : Bool) (i : Identity) where
  abbrev Shown : ℕ → (skip size : ℕ) → List Password → List PasswordEntry → Type 0
  Shown now skip size ps es =
      map (λ (x : PasswordEntry). x.uuid) es
      ≡ map (λ (p : Password). p.uuid) (page e now skip size ps)

  abbrev rest_of : PasswordEntry → (size : ℕ) → List Password → Prog (List PasswordEntry)
  rest_of x size ps = entries_from c cfg e i zero size ps >>= λ rest. pure (x ∷ rest)

  module _ (w : World) (p : Password) (m k : Prog (List PasswordEntry)) where
    -- One turn of the loop: the clock is read, and the password is taken or left.
    turn : Prog (List PasswordEntry)
    unfolding ◌>>=◌ utc_now
    turn = utc_now >>= λ now. branch (is_listed e now p) m k

-- docs/API.md: `size` is 50 by default and between 1 and 200, `take` is the number of entries to leave out, 0
-- by default, and `expired` is false by default.
abbrev pub asked_size : Option ℤ → ℕ
asked_size none = 50
asked_size (some (negsuc n)) = 1
asked_size (some (pos n)) = if ltb n 1 then 1 else if ltb 200 n then 200 else n

abbrev pub asked_skip : Option ℤ → ℕ
asked_skip none = 0
asked_skip (some (negsuc n)) = 0
asked_skip (some (pos n)) = n

abbrev pub asked_state : Option Bool → Bool
asked_state none = false
asked_state (some b) = b

-- The passwords in the groups of a user.
abbrev pub passwords_of : Db → Text → List Password
passwords_of db user =
    select
      (λ (p : Password).
        any (λ id. p.group_id == id)
          (map (λ (g : Group). g.uuid) (select (λ (g : Group). g.user_id == user) db.groups)))
      db.passwords
