-- ===== src/Effects/Consistency.antt =====
-- What the constraints of migrations/ are for: columns without repetitions, and references that are met,
-- written out column by column.
use password_manager_server.Prelude.{
  ◌≡◌, refl, Option, none, some, Bool, true, false, ◌||◌, List, [], ◌∷◌, Text, ◌==◌, is_value, any,
  arith, All, All-map, Distinct,
}
use password_manager_server.Crates.{Crates}
use password_manager_server.Config.{Config}
use password_manager_server.Schema.{Db, User, Identity, Group, Password}
use password_manager_server.Prog.{World}
use password_manager_server.Server.System.{System, Reach}
use password_manager_server.Domain.Rows.{
  users_clash, identities_clash, same_value, groups_clash, passwords_clash, has_user, has_group,
  has_owner,
}
use password_manager_server.Effects.Constraints.{IsValid, reachable-IsValid}

-- The value of a column stands in one row at most.
abbrev Unique : {A : Type 0} → (A → Text) → List A → Type 0
Unique column rows = Distinct (λ a b. column a == column b) rows

-- Two devices with one token. A device without a token has none in common with another.
abbrev one_token : Option Text → Option Text → Bool
one_token a none = false
one_token a (some t) = is_value a t

abbrev IsUser : Db → Text → Type 0
IsUser db id = any (λ (u : User). u.uuid == id) db.users ≡ true

abbrev IsUnownedOr : Db → Option Text → Type 0
IsUnownedOr db none = Unit
IsUnownedOr db (some id) = IsUser db id

pub record IsConsistent (db : Db) : Type 0 where
  pub user_ids : Unique (λ (u : User). u.uuid) db.users
  pub user_names : Unique (λ (u : User). u.name) db.users
  pub device_ids : Unique (λ (i : Identity). i.uuid) db.identities
  pub addresses : Unique (λ (i : Identity). i.ip_address) db.identities
  pub tokens : Distinct (λ (i j : Identity). one_token i.device_token j.device_token) db.identities
  pub group_ids : Unique (λ (g : Group). g.uuid) db.groups
  pub password_ids : Unique (λ (p : Password). p.uuid) db.passwords
  pub owners : All (λ (i : Identity). IsUnownedOr db i.user_id) db.identities
  pub members : All (λ (g : Group). IsUser db g.user_id) db.groups
  pub contents :
      All
        (λ (p : Password). any (λ (g : Group). g.uuid == p.group_id) db.groups ≡ true)
        db.passwords

-- Rows that share neither of two things.
module _ {A : Type 0} (p q r : A → A → Bool) (h : (a b : A) → p a b ≡ (q a b || r a b)) where
  any-or : (x : A) (xs : List A) → any (p x) xs ≡ (any (q x) xs || any (r x) xs)
  unfolding any
  any-or x [] = refl
  any-or x (y ∷ xs) = ground (arith, h x y, any-or x xs)

  Distinct-split : (xs : List A) → Distinct p xs → Distinct q xs × Distinct r xs
  Distinct-split [] d = (tt, tt)
  Distinct-split (x ∷ xs) (e, d) =
      let (one, other) = Distinct-split xs d in
      let both = any-or x xs in ((ground (arith, both, e), one), (ground (arith, both, e), other))

  Distinct-join : (xs : List A) → Distinct q xs → Distinct r xs → Distinct p xs
  Distinct-join [] d e = tt
  Distinct-join (x ∷ xs) (a, d) (b, e) =
      let both = any-or x xs in (ground (arith, both, a, b), Distinct-join xs d e)

users_clash-split : (a b : User) → users_clash a b ≡ (a.uuid == b.uuid || a.name == b.name)
unfolding users_clash
users_clash-split a b = refl

abbrev address_or_token : Identity → Identity → Bool
address_or_token a b = a.ip_address == b.ip_address || one_token a.device_token b.device_token

one_token-same : (s t : Option Text) → one_token s t ≡ same_value s t
one_token-same s none = refl
one_token-same s (some t) = refl

identities_clash-split :
    (a b : Identity) → identities_clash a b ≡ (a.uuid == b.uuid || address_or_token a b)
unfolding identities_clash
identities_clash-split a b = ground (arith, one_token-same a.device_token b.device_token)

owner-known : (db : Db) (o : Option Text) → has_owner db.users o ≡ true → IsUnownedOr db o
unfolding has_owner has_user
owner-known db none h = tt
owner-known db (some id) h = h

known-owner : (db : Db) (o : Option Text) → IsUnownedOr db o → has_owner db.users o ≡ true
unfolding has_owner has_user
known-owner db none h = refl
known-owner db (some id) h = h

IsValid-IsConsistent : (db : Db) → IsValid db → IsConsistent db
unfolding groups_clash passwords_clash has_user has_group
IsValid-IsConsistent db v =
    let (ids, names) = Distinct-split users_clash _ _ users_clash-split db.users v.users in
    let (devices, more) =
      Distinct-split identities_clash _ address_or_token identities_clash-split db.identities
        v.identities in
    let (addresses, tokens) =
      Distinct-split address_or_token _ _ (λ a b. refl) db.identities more in
    record {
      user_ids = ids;
      user_names = names;
      device_ids = devices;
      addresses = addresses;
      tokens = tokens;
      group_ids = v.groups;
      password_ids = v.passwords;
      owners = All-map (λ i h. owner-known db i.user_id h) db.identities v.owners;
      members = v.members;
      contents = v.contents;
    }

pub IsConsistent-IsValid : (db : Db) → IsConsistent db → IsValid db
unfolding groups_clash passwords_clash has_user has_group
IsConsistent-IsValid db k = record {
  users = Distinct-join users_clash _ _ users_clash-split db.users k.user_ids k.user_names;
  identities =
      Distinct-join identities_clash _ address_or_token identities_clash-split db.identities
        k.device_ids
        (Distinct-join address_or_token _ _ (λ a b. refl) db.identities k.addresses k.tokens);
  groups = k.group_ids;
  passwords = k.password_ids;
  owners = All-map (λ i h. known-owner db i.user_id h) db.identities k.owners;
  members = k.members;
  contents = k.contents;
}

-- From a database in which identifiers, user names, device addresses and device tokens do not repeat and every
-- owner, member and group exists, every reachable one is such a database, whatever requests run at once and
-- however their actions interleave.
pub reachable-IsConsistent :
    {c : Crates} {cfg : Config} {admin : Bool} {w : World} {s : System}
    → Reach c cfg admin w s
    → IsConsistent w.db
    → IsConsistent s.world.db
reachable-IsConsistent {w = w} {s = s} r k =
    IsValid-IsConsistent s.world.db (reachable-IsValid r (IsConsistent-IsValid w.db k))
