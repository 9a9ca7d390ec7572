-- ===== src/Vault/Interleaved.antt =====
-- Whatever requests come, in whatever order their actions are made, a password stays with its owner.
use password_manager_server.Prelude.{
  ◌⊎◌, inl, inr, arith, ℕ, zero, suc, get_elem?, ◌≡◌, ◌≢◌, refl, none, some, Bool, List, [], ◌∷◌,
  ◌++◌, Text,
}
use mathlib.Core.Path.{subst}
use password_manager_server.Crates.{Crates}
use password_manager_server.Config.{Config}
use password_manager_server.Schema.{Db, Password}
use password_manager_server.Error.{ok}
use password_manager_server.Prog.{done, World, Prog, atomic}
use password_manager_server.Server.{Request, Response}
use password_manager_server.Server.System.{System, Reach, start, next, arrive, act, elapse}
use password_manager_server.Effects.Constraints.{IsValid, reachable-IsValid}
use password_manager_server.Vault.{vault}
use password_manager_server.Vault.Stable.{
  Stable, Stable-IsPreorder, vault-Owns, Owns-vault, Owns-others,
}
use password_manager_server.Vault.Learns.{Knowledge, Persists, Learns, ends, learns}
use password_manager_server.Vault.Guards.{Nothing, Nothing-persists}
use password_manager_server.Vault.Answers.{Answers, handle-IsSecure}

module _ (S : Knowledge) (c : Crates) where
  -- What is left of a request, and what it has come to know.
  abbrev IsAware : Db → Request → Prog Response → Type 1
  IsAware db q m = (K : Knowledge) × Persists K × K db × Learns S (Answers S c q) K m

  -- Each request beside what is left of it.
  abbrev AllAware : Db → List Request → List (Prog Response) → Type 1
  AllAware db [] [] = Unit
  AllAware db (q ∷ qs) (m ∷ ms) = IsAware db q m × AllAware db qs ms
  AllAware db _ _ = ⊥ × Unit

  module _ (a b : Db) (s : Stable a b) where
    IsAware-Stable : (q : Request) (m : Prog Response) → IsAware a q m → IsAware b q m
    IsAware-Stable q m h = (h.0, h.1, h.1 a b s h.2, h.3)

    AllAware-Stable :
        (qs : List Request) (ms : List (Prog Response)) → AllAware a qs ms → AllAware b qs ms
    AllAware-Stable [] [] h = tt
    AllAware-Stable (q ∷ qs) (m ∷ ms) h = (IsAware-Stable q m h.0, AllAware-Stable qs ms h.1)
    AllAware-Stable [] (m ∷ ms) h = absurd h.0
    AllAware-Stable (q ∷ qs) [] h = absurd h.0

  AllAware-append :
      (db : Db) (qs : List Request) (ms : List (Prog Response)) (q : Request) (m : Prog Response)
      → AllAware db qs ms
      → IsAware db q m
      → AllAware db (qs ++ q ∷ []) (ms ++ m ∷ [])
  AllAware-append db [] [] q m h k = (k, tt)
  AllAware-append db (r ∷ qs) (n ∷ ms) q m h k = (h.0, AllAware-append db qs ms q m h.1 k)
  AllAware-append db [] (n ∷ ms) q m h k = absurd h.0
  AllAware-append db (r ∷ qs) [] q m h k = absurd h.0

  -- One action of one request: a stable step, after which it knows what it has read.
  IsAware-act :
      {u : World → World} {k : World → Prog Response} (w : World) (q : Request)
      → S w.db
      → IsValid w.db
      → IsAware w.db q (atomic u k)
      → Stable w.db (u w).db × IsAware (u w).db q (k w)
  IsAware-act w q z v (K, p, x, learns u k L s r l h) = (s w z v x, (L w, r w, l w z v x, h w))

  AllAware-act :
      (front back : List (Prog Response)) (u : World → World) (k : World → Prog Response)
      (w : World) (qs : List Request)
      → S w.db
      → IsValid w.db
      → AllAware w.db qs (front ++ atomic u k ∷ back)
      → Stable w.db (u w).db × AllAware (u w).db qs (front ++ k w ∷ back)
  AllAware-act [] back u k w [] z v h = absurd h.0
  AllAware-act [] back u k w (q ∷ qs) z v (x, h) =
      let r = IsAware-act w q z v x in (r.0, (r.1, AllAware-Stable w.db (u w).db r.0 qs back h))
  AllAware-act (m ∷ front) back u k w [] z v h = absurd h.0
  AllAware-act (m ∷ front) back u k w (q ∷ qs) z v (x, h) =
      let r = AllAware-act front back u k w qs z v h in
      (r.0, (IsAware-Stable w.db (u w).db r.0 q m x, r.1))

  IsAware-done :
      (db : Db) (q : Request) (r : Response) → IsAware db q (done (ok r)) → Answers S c q r db
  IsAware-done db q r (K, p, x, ends a h) = h r refl db x

  -- The answer of the request at a position.
  AllAware-elem :
      (db : Db) (qs : List Request) (ms : List (Prog Response)) (n : ℕ) (q : Request) (r : Response)
      → AllAware db qs ms
      → get_elem? qs n ≡ some q
      → get_elem? ms n ≡ some (done (ok r))
      → Answers S c q r db
  AllAware-elem db [] ms n q r h e f = cc
  AllAware-elem db (p ∷ qs) [] n q r h e f = absurd h.0
  AllAware-elem db (p ∷ qs) (m ∷ ms) zero q r (x, h) e f =
      let same : p ≡ q = ground (arith, e) in
      let over : m ≡ done (ok r) = ground (arith, f) in
      IsAware-done db q r (subst (λ n. IsAware db q n) over (subst (λ t. IsAware db t m) same x))
  AllAware-elem db (p ∷ qs) (m ∷ ms) (suc n) q r (x, h) e f = AllAware-elem db qs ms n q r h e f

module _ {c : Crates} {cfg : Config} {admin : Bool} {w : World} where
  -- The databases of the states that a history has passed.
  abbrev pub Passed : {s : System} → Reach c cfg admin w s → Knowledge
  Passed start db = w.db ≡ db
  Passed (next {t = t} r p) db = (t.world.db ≡ db) ⊎ Passed r db

  Passed-last : {s : System} (r : Reach c cfg admin w s) → Passed r s.world.db
  Passed-last start = refl
  Passed-last (next r p) = inl refl

  -- The requests that came, in their order, which is that of what is left of them.
  unfoldable pub requests : {s : System} → Reach c cfg admin w s → List Request
  requests start = []
  requests (next r (arrive q h)) = requests r ++ q ∷ []
  requests (next r (act front back u k e)) = requests r
  requests (next r (elapse now pool_open fault h)) = requests r

  Reach-invariant :
      {s : System} (S : Knowledge) (r : Reach c cfg admin w s)
      → ((db : Db) → Passed r db → S db)
      → IsValid w.db
      → Stable w.db s.world.db × AllAware S c s.world.db (requests r) s.threads
  unfolding requests
  Reach-invariant S start p v = (Stable-IsPreorder.keep refl, tt)
  Reach-invariant S (next {s = s} r (arrive q h)) p v =
      let i = Reach-invariant S r (λ db x. p db (inr x)) v in
      (
        i.0,
        AllAware-append S c s.world.db (requests r) s.threads q _ i.1
            (Nothing, Nothing-persists, tt, handle-IsSecure S c cfg q),
      )
  Reach-invariant S (next {s = s} r (act front back u k e)) p v =
      let i = Reach-invariant S r (λ db x. p db (inr x)) v in
      let j =
        AllAware-act S c front back u k s.world (requests r) (p s.world.db (inr (Passed-last r)))
          (reachable-IsValid r v) (subst (AllAware S c s.world.db (requests r)) e i.1) in
      (Stable-IsPreorder.trans s.world.db i.0 j.0, j.1)
  Reach-invariant S (next r (elapse now pool_open fault h)) p v =
      Reach-invariant S r (λ db x. p db (inr x)) v

  -- A password that a user's vault has at the start is in that user's vault, and in no other user's, in
  -- every state that requests reach from a database that meets its constraints, whatever requests run
  -- at once and however their actions interleave. An import, which replaces the database, is not among
  -- the requests.
  pub reachable-vault :
      {s : System} (user other id : Text) (p : Password)
      → Reach c cfg admin w s
      → IsValid w.db
      → vault w.db user id ≡ some p
      → other ≢ user
      → ((q : Password) × (vault s.world.db user id ≡ some q)) × (vault s.world.db other id ≡ none)
  reachable-vault {s} user other id p r v h n =
      let o =
        (Reach-invariant (Passed r) r (λ db x. x) v).0.passwords id user
          (vault-Owns w.db user id p h) in
      (Owns-vault s.world.db user id o, Owns-others s.world.db user other id o n)

  -- Among any other requests, from a database that meets its constraints: when the n-th request that came has
  -- been answered with passwords, be it one that was asked for, a listing or one that was created, the request
  -- had asked for that, every password in the answer is in a group of one user, and on the way there were a
  -- state in which a device of this user, with the request's token, was approved at the request's address, and
  -- a state in which the user was not deleted.
  pub reachable-Answers :
      {s : System} (r : Reach c cfg admin w s) (n : ℕ) (q : Request) (resp : Response)
      → IsValid w.db
      → get_elem? (requests r) n ≡ some q
      → get_elem? s.threads n ≡ some (done (ok resp))
      → Answers (Passed r) c q resp s.world.db
  reachable-Answers {s} r n q resp v e f =
      AllAware-elem (Passed r) c s.world.db (requests r) s.threads n q resp
        (Reach-invariant (Passed r) r (λ db x. x) v).1 e f
