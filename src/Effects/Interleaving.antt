-- ===== src/Effects/Interleaving.antt =====
-- Whatever requests come, in whatever order their actions are made, the database has come to where it
-- is by changes that the requests are allowed.
use mathlib.Core.Path.{subst}
use password_manager_server.Prelude.{◌≡◌, refl, Bool, true, List, [], ◌∷◌, ◌++◌}
use password_manager_server.Crates.{Crates, HeaderMap, IpAddr}
use password_manager_server.Config.{Config}
use password_manager_server.Schema.{Db}
use password_manager_server.Prog.{World, Prog, atomic}
use password_manager_server.Routes.Auth.{authorised}
use password_manager_server.Server.{Response, Call, dispatch, handle}
use password_manager_server.Server.System.{System, arrive, act, elapse, Reach, start, next}
use password_manager_server.Effects.Change.{
  Change, kept, user_added, user_set, identity_added, identity_set, identity_removed, group_added,
  password_added, password_set, both,
}
use password_manager_server.Effects.Steps.{Steps, acts, Follows-map, steps_rules}
use password_manager_server.Effects.Handlers.{
  verify-Follows, greet-Steps, sign_up-Steps, sign_in-Steps, refresh-Steps, resign-Steps,
}
use password_manager_server.Effects.Data.{
  group_create-Steps, group_list-Follows, password_list-Follows, password_create-Steps,
  password_update-Steps, password_get-Follows, pending-Follows, approve-Steps,
  list_identities-Follows, delete_identity-Steps, list_users-Follows, toggle_user-Steps,
  toggle_identity-Steps,
}

ruleset handler_rules = (
  steps_rules, verify-Follows, greet-Steps, sign_up-Steps, sign_in-Steps, refresh-Steps,
  resign-Steps, group_create-Steps, group_list-Follows, password_list-Follows,
  password_create-Steps, password_update-Steps, password_get-Follows, pending-Follows,
  approve-Steps, list_identities-Follows, delete_identity-Steps, list_users-Follows,
  toggle_user-Steps, toggle_identity-Steps,
)

-- Every request makes changes only, those of an administrator only behind both gates.
pub dispatch-Steps :
    (c : Crates) (cfg : Config) (peer : IpAddr) (h : HeaderMap) (call : Call)
    → Steps (authorised c h cfg peer) (dispatch c cfg peer h call)
unfolding dispatch
dispatch-Steps c cfg peer h Call.health = search handler_rules
dispatch-Steps c cfg peer h call = search handler_rules

pub Change-weaken : {a b : Bool} {d e : Db} → (a ≡ true → b ≡ true) → Change a d e → Change b d e
Change-weaken f (kept p) = kept p
Change-weaken f (user_added new now d p) = user_added new now d p
Change-weaken f (user_set uuid changes stamp now a p) = user_set uuid changes stamp now (f a) p
Change-weaken f (identity_added new now d p) = identity_added new now d p
Change-weaken f (identity_set uuid changes stamp now a p) =
    identity_set uuid changes stamp now
      (record { approves = λ e. f (a.approves e); rebinds = a.rebinds; same_key = a.same_key }) p
Change-weaken f (identity_removed uuid a p) = identity_removed uuid (f a) p
Change-weaken f (group_added new now p) = group_added new now p
Change-weaken f (password_added new now d p) = password_added new now d p
Change-weaken f (password_set uuid changes stamp now d p) = password_set uuid changes stamp now d p
Change-weaken f (both m s t) = both m (Change-weaken f s) (Change-weaken f t)

Steps-weaken :
    {a b : Bool} {A : Type 0} {m : Prog A} → (a ≡ true → b ≡ true) → Steps a m → Steps b m
Steps-weaken f s = Follows-map (λ d e. Change-weaken f) s

abbrev AllSteps : Bool → List (Prog Response) → Type 0
AllSteps admin [] = Unit
AllSteps admin (m ∷ ms) = Steps admin m × AllSteps admin ms

AllSteps-append :
    (admin : Bool) (ms ns : List (Prog Response))
    → AllSteps admin ms
    → AllSteps admin ns
    → AllSteps admin (ms ++ ns)
AllSteps-append admin [] ns h k = k
AllSteps-append admin (m ∷ ms) ns h k = (h.0, AllSteps-append admin ms ns h.1 k)

Steps-act :
    {admin : Bool} {u : World → World} {k : World → Prog Response} (w : World)
    → Steps admin (atomic u k)
    → Change admin w.db (u w).db × Steps admin (k w)
Steps-act w (acts u k h s) = (h w, s w)

AllSteps-act :
    {admin : Bool} (front back : List (Prog Response)) (u : World → World)
    (k : World → Prog Response) (w : World)
    → AllSteps admin (front ++ atomic u k ∷ back)
    → Change admin w.db (u w).db × AllSteps admin (front ++ k w ∷ back)
AllSteps-act [] back u k w (s, h) = let r = Steps-act w s in (r.0, (r.1, h))
AllSteps-act (m ∷ front) back u k w (s, h) =
    let r = AllSteps-act front back u k w h in (r.0, (s, r.1))

Reach-invariant :
    {c : Crates} {cfg : Config} {admin : Bool} {w : World} {s : System}
    → Reach c cfg admin w s
    → Change admin w.db s.world.db × AllSteps admin s.threads
Reach-invariant start = (kept refl, tt)
Reach-invariant {c} {cfg} (next {s = s} r (arrive q h)) =
    let i = Reach-invariant r in
    (
      i.0,
      AllSteps-append _ s.threads _ i.1
          (unfold handle in Steps-weaken h (dispatch-Steps c cfg q.peer q.headers q.call), tt),
    )
Reach-invariant (next {s = s} r (act front back u k e)) =
    let i = Reach-invariant r in
    let j = AllSteps-act front back u k s.world (subst (AllSteps _) e i.1) in
    (both s.world.db i.0 j.0, j.1)
Reach-invariant (next r (elapse now pool_open fault h)) = Reach-invariant r

-- In every reachable state the database differs from the first one by allowed changes.
pub Reach-Change :
    {c : Crates} {cfg : Config} {admin : Bool} {w : World} {s : System}
    → Reach c cfg admin w s
    → Change admin w.db s.world.db
Reach-Change r = (Reach-invariant r).0
