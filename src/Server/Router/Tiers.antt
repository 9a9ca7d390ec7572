-- ===== src/Server/Router/Tiers.antt =====
-- The limiter and the method of whatever reaches a handler.
use password_manager_server.Prelude.{
  ℕ, ◌≤◌, ◌≡◌, refl, sym, ◌∙◌, Option, none, some, Bool, true, false, List, [], ◌∷◌, ◌++◌, Text,
  length, ltb, All, All-append, arith, Option-cases, Bool-cases, inl, inr, if◌then◌else◌,
}
use password_manager_server.Server.{Call}
use password_manager_server.Server.Http.{
  not_found, method_not_allowed, rejected, too_many, Verb, HttpCall, Endpoint, Extractors, Tier,
  Route, Reception, same_verb, segments, match, routed, select, handled, strict, moderate, admin,
  preflight, too_large, reached,
}
use password_manager_server.Server.RouteTable.{
  reading, tiered, uuid_of, path_uuid, path_uuid_action, public_routes, admin_routes,
  general_routes, all_routes,
}
use password_manager_server.Server.Router.{
  Framework, FrameworkLaws, body_limit, receive, limited, serve,
}
use password_manager_server.Server.Router.Endpoints.{verb_of, tier_of}
use password_manager_server.Server.Router.Paths.{routes-apart}

-- A route of the table, whatever it makes of a request.
abbrev IsFaithful : Tier × Route → Type 0
IsFaithful (tier, r) =
    (ps : List Text) (call : HttpCall) (e : Endpoint)
    → r.target ps call ≡ some e
    → (tier ≡ tier_of e) × (r.verb ≡ verb_of e)

-- The limiter and the method are those of the endpoint.
abbrev Agrees : Tier → Verb → Endpoint → Type 0
Agrees tier verb e = (tier ≡ tier_of e) × (verb ≡ verb_of e)

fixed-Agrees :
    {tier : Tier} {verb : Verb} (target : Endpoint)
    → Agrees tier verb target
    → (e : Endpoint) → some target ≡ some e
    → Agrees tier verb e
fixed-Agrees target a e h = let q : target ≡ e = cc in rw (← q) a

reading-Agrees :
    {A : Type 0} {tier : Tier} {verb : Verb} (f : A → Call)
    → ((a : A) → Agrees tier verb (handled (f a)))
    → (o : Option A) (e : Endpoint) → reading f o ≡ some e
    → Agrees tier verb e
reading-Agrees f h none e k = absurd (ground arith)
reading-Agrees f h (some a) e k = fixed-Agrees (handled (f a)) (h a) e k

module _ (x : Extractors) where
  path_uuid-Agrees :
      {tier : Tier} {verb : Verb} (f : Text → Option Endpoint)
      → ((uuid : Text) (e : Endpoint) → f uuid ≡ some e → Agrees tier verb e)
      → (ps : List Text) (e : Endpoint) → path_uuid x f ps ≡ some e
      → Agrees tier verb e
  path_uuid-Agrees f h [] e k = absurd (ground arith)
  path_uuid-Agrees f h (s ∷ t ∷ ts) e k = absurd (ground arith)
  path_uuid-Agrees f h (s ∷ []) e k = elim (Option-cases (uuid_of x (x.percent_decode s))) [
    | inl n ↦ absurd (ground arith)
    | inr (uuid, n) ↦ h uuid e (ground arith)
  ]

  path_uuid_action-Agrees :
      {tier : Tier} {verb : Verb} (f : Text → Text → Call)
      → ((uuid action : Text) → Agrees tier verb (handled (f uuid action)))
      → (ps : List Text) (e : Endpoint) → path_uuid_action x f ps ≡ some e
      → Agrees tier verb e
  path_uuid_action-Agrees f h [] e k = absurd (ground arith)
  path_uuid_action-Agrees f h (s ∷ []) e k = absurd (ground arith)
  path_uuid_action-Agrees f h (s ∷ t ∷ u ∷ us) e k = absurd (ground arith)
  path_uuid_action-Agrees f h (s ∷ t ∷ []) e k =
      elim (Option-cases (uuid_of x (x.percent_decode s))) [
        | inl n ↦ absurd (ground arith)
        | inr (uuid, n) ↦ elim (Option-cases (x.percent_decode t)) [
          | inl m ↦ absurd (ground arith)
          | inr (action, m) ↦
              fixed-Agrees (handled (f uuid action)) (h uuid action) e (ground arith)
        ]
      ]

  public-IsFaithful : All IsFaithful (tiered strict (public_routes x))
  unfolding public_routes
  public-IsFaithful = (
    λ ps call e h. reading-Agrees _ (λ key. (refl, refl)) (x.greet_body call.body) e h,
    (
      λ ps call e h. reading-Agrees _ (λ req. (refl, refl)) (x.sign_body call.body) e h,
      (λ ps call e h. reading-Agrees _ (λ req. (refl, refl)) (x.sign_body call.body) e h, tt),
    ),
  )

  admin-IsFaithful : All IsFaithful (tiered admin (admin_routes x))
  unfolding admin_routes
  admin-IsFaithful = (
    λ ps call. fixed-Agrees _ (refl, refl),
    (
      λ ps call. path_uuid-Agrees _ (λ uuid. fixed-Agrees _ (refl, refl)) ps,
      (
        λ ps call. fixed-Agrees _ (refl, refl),
        (
          λ ps call. path_uuid-Agrees _ (λ uuid. fixed-Agrees _ (refl, refl)) ps,
          (
            λ ps call. path_uuid_action-Agrees _ (λ uuid action. (refl, refl)) ps,
            (
              λ ps call. fixed-Agrees _ (refl, refl),
              (
                λ ps call. path_uuid_action-Agrees _ (λ uuid action. (refl, refl)) ps,
                (
                  λ ps call. fixed-Agrees _ (refl, refl),
                  (λ ps call. fixed-Agrees _ (refl, refl), tt),
                ),
              ),
            ),
          ),
        ),
      ),
    ),
  )

  general-IsFaithful : All IsFaithful (tiered moderate (general_routes x))
  unfolding general_routes
  general-IsFaithful = (
    λ ps call. fixed-Agrees _ (refl, refl),
    (
      λ ps call. reading-Agrees _ (λ req. (refl, refl)) (x.resign_body call.body),
      (
        λ ps call. reading-Agrees _ (λ req. (refl, refl)) (x.refresh_body call.body),
        (
          λ ps call. fixed-Agrees _ (refl, refl),
          (
            λ ps call. reading-Agrees _ (λ req. (refl, refl)) (x.list_query call.query),
            (
              λ ps call. reading-Agrees _ (λ req. (refl, refl)) (x.create_body call.body),
              (
                λ ps call.
                    path_uuid-Agrees _
                      (λ uuid. reading-Agrees _ (λ req. (refl, refl)) (x.update_body call.body)) ps,
                (
                  λ ps call. path_uuid-Agrees _ (λ uuid. fixed-Agrees _ (refl, refl)) ps,
                  (
                    λ ps call. reading-Agrees _ (λ req. (refl, refl)) (x.group_body call.body),
                    (λ ps call. fixed-Agrees _ (refl, refl), tt),
                  ),
                ),
              ),
            ),
          ),
        ),
      ),
    ),
  )

routed-reached :
    (tier t : Tier) (o : Option Endpoint) (e : Endpoint)
    → routed tier o ≡ reached t e
    → (tier ≡ t) × (o ≡ some e)
routed-reached tier t none e h = absurd (ground arith)
routed-reached tier t (some d) e h = ground arith

chosen-Agrees :
    (routes : List (Tier × Route)) (parts : List Text) (call : HttpCall) (known : Option Tier)
    (t : Tier) (e : Endpoint)
    → All IsFaithful routes
    → select routes parts call known ≡ reached t e
    → (t ≡ tier_of e) × (same_verb (verb_of e) call.verb ≡ true)
unfolding select
chosen-Agrees [] parts call none t e h k = absurd (ground arith)
chosen-Agrees [] parts call (some tier) t e h k = absurd (ground arith)
chosen-Agrees ((tier, r) ∷ routes) parts call known t e (f, h) k =
    elim (Option-cases (match r.pattern parts)) [
      | inl n ↦ chosen-Agrees routes parts call known t e h (rw (n, select) at k)
      | inr (ps, n) ↦ elim (Bool-cases (same_verb r.verb call.verb)) [
        | inr v ↦ chosen-Agrees routes parts call (some tier) t e h (rw (n, select, v) at k)
        | inl v ↦
            let (same_tier, target) =
              routed-reached tier t (r.target ps call) e (rw (n, select, v) at k) in
            let (tier_e, verb_e) = f ps call e target in (sym same_tier ∙ tier_e, rw verb_e at v)
      ]
    ]

all-IsFaithful : (x : Extractors) → All IsFaithful (all_routes x)
unfolding all_routes
all-IsFaithful x =
    All-append IsFaithful (tiered strict (public_routes x))
      (tiered admin (admin_routes x) ++ tiered moderate (general_routes x)) (public-IsFaithful x)
      (All-append IsFaithful (tiered admin (admin_routes x)) (tiered moderate (general_routes x))
        (admin-IsFaithful x) (general-IsFaithful x))

behind_cors :
    (b : Bool) (s : Reception) (t : Tier) (e : Endpoint)
    → (if b then preflight else s) ≡ reached t e
    → s ≡ reached t e
behind_cors true s t e h = absurd (ground arith)
behind_cors false s t e h = h

behind_limit :
    (b : Bool) (s : Reception) (t : Tier) (e : Endpoint)
    → (if b then too_large else s) ≡ reached t e
    → (b ≡ false) × (s ≡ reached t e)
behind_limit true s t e h = absurd (ground arith)
behind_limit false s t e h = (refl, h)

under : (n : ℕ) → ltb body_limit n ≡ false → n ≤ body_limit
under n h = ground arith

receive-tier_of :
    (f : Framework) (x : Extractors) (call : HttpCall) (t : Tier) (e : Endpoint)
    → FrameworkLaws f
    → receive f x call ≡ reached t e
    → (t ≡ tier_of e) × (same_verb (verb_of e) call.verb ≡ true) × (length call.body ≤ body_limit)
unfolding receive
receive-tier_of f x call t e laws h =
    let (fits, routed) =
      behind_limit (f.oversized body_limit call) _ t e (behind_cors (f.preflights call) _ t e h) in
    let choice = sym (laws.chosen (all_routes x) call (routes-apart x)) ∙ routed in
    let (tier, verb) =
      chosen-Agrees (all_routes x) (segments call.path) call none t e (all-IsFaithful x) choice in
    (tier, verb, under (length call.body) (sym (laws.measured body_limit call) ∙ fits))

behind_limiter :
    (f : Framework) (call : HttpCall) (r : Reception) (t : Tier) (e : Endpoint)
    → limited f call r ≡ reached t e
    → (f.admits t call ≡ true) × (r ≡ reached t e)
behind_limiter f call (reached s d) t e h = elim (Bool-cases (f.admits s call)) [
  | inl a ↦
      let same : reached s d ≡ reached t e = rw a at h in
      let tier : s ≡ t = ground (arith, same) in (rw (← tier) a, same)
  | inr a ↦ absurd (let n : too_many ≡ reached t e = rw a at h in ground arith)
]
behind_limiter f call (rejected s) t e h = elim (Bool-cases (f.admits s call)) [
  | inl a ↦ absurd (let n : rejected s ≡ reached t e = rw a at h in ground arith)
  | inr a ↦ absurd (let n : too_many ≡ reached t e = rw a at h in ground arith)
]
behind_limiter f call (method_not_allowed s) t e h = elim (Bool-cases (f.admits s call)) [
  | inl a ↦ absurd (let n : method_not_allowed s ≡ reached t e = rw a at h in ground arith)
  | inr a ↦ absurd (let n : too_many ≡ reached t e = rw a at h in ground arith)
]
behind_limiter f call preflight t e h = absurd (ground arith)
behind_limiter f call too_large t e h = absurd (ground arith)
behind_limiter f call too_many t e h = absurd (ground arith)
behind_limiter f call not_found t e h = absurd (ground arith)

-- With axum and its layers as documented, whatever reaches a handler has been let pass by the limiter of that
-- handler's group (moderate for /health too, which docs/API.md exempts), and has the handler's method (HEAD
-- counts as GET) and a body of at most a mebibyte.
pub serve-tier_of :
    (f : Framework) (x : Extractors) (call : HttpCall) (t : Tier) (e : Endpoint)
    → FrameworkLaws f
    → serve f x call ≡ reached t e
    → (f.admits (tier_of e) call ≡ true)
      × (same_verb (verb_of e) call.verb ≡ true)
      × (length call.body ≤ body_limit)
unfolding serve
serve-tier_of f x call t e laws h =
    let (pass, got) = behind_limiter f call (receive f x call) t e h in
    let (tier, verb, small) = receive-tier_of f x call t e laws got in
    (rw (← tier) pass, verb, small)
