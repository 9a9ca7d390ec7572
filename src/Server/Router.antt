-- ===== src/Server/Router.antt =====
-- `build_router` of src/routes/mod.rs: the layers around the routes of Server.RouteTable. What axum and
-- tower-http do with them is a parameter. When a limiter lets a request through is the governor crate's
-- business.
pub mod Endpoints
pub mod Slashes
pub mod Paths
pub mod Tiers
use password_manager_server.Prelude.{
  ℕ, ◌*◌, Option, none, some, Bool, true, false, ◌||◌, ◌&&◌, not, ◌≡◌, List, [], ◌∷◌, ◌++◌, map,
  Text, Bytes, codes, length, ltb, nat_eq, ◌==◌, if◌then◌else◌, Text-discrete,
}
use password_manager_server.Config.{Config}
use password_manager_server.Routes.Sign.{SignRequest}
use password_manager_server.Routes.Refresh.{RefreshRequest}
use password_manager_server.Routes.Resign.{ResignRequest}
use password_manager_server.Routes.Groups.{CreateGroupRequest}
use password_manager_server.Routes.Passwords.{
  ListParams, CreatePasswordRequest, UpdatePasswordRequest,
}
use password_manager_server.Server.{
  Call, greet, sign_up, sign_in, pending, approve, identities, identity_delete, identity_action,
  users, user_action, health, re_sign, refresh, verify, pwd_list, pwd_create, pwd_update, pwd_get,
  group_create, group_list,
}
use password_manager_server.Server.Http.{
  Verb, HttpCall, Endpoint, Extractors, Tier, Quota, quota, Segment, Route, Reception, is_options,
  same_verb, split_slash, segments, filled, match, routed, select, get, post, put, delete, head,
  options, handled, export, import, strict, moderate, admin, literal, parameter, preflight,
  too_large, not_found, too_many, method_not_allowed, rejected, reached,
}
use password_manager_server.Server.RouteTable.{
  reading, tiered, uuid_of, path_uuid, path_uuid_action, public_routes, admin_routes, update_target,
  general_routes, all_routes,
}

-- `RequestBodyLimitLayer::new(1024 * 1024)`
abbrev pub body_limit : ℕ
body_limit = 1024 * 1024

-- axum, the layers of tower-http and the limiters: whether the layer of CORS answers a request itself, whether
-- the layer of limits turns a body away, the choice of a route, and whether a limiter lets a request pass
-- when it comes. A route's own method and parameters come with it.
pub record Framework : Type 0 where
  pub preflights : HttpCall → Bool
  pub oversized : ℕ → HttpCall → Bool
  pub choose : List (Tier × Route) → HttpCall → Reception
  pub admits : Tier → HttpCall → Bool

-- The layers from the outside in, and then the routes, with the limiter that each is behind.
unfoldable pub receive : Framework → Extractors → HttpCall → Reception
unfolding all_routes
receive f x call =
    if f.preflights call
    then preflight
    else if f.oversized body_limit call
    then too_large
    else f.choose (all_routes x) call

-- The limiter of a route stands before its handler, its extractors and its refusal of a method.
abbrev pub limited : Framework → HttpCall → Reception → Reception
limited f call (reached tier e) = if f.admits tier call then reached tier e else too_many
limited f call (rejected tier) = if f.admits tier call then rejected tier else too_many
limited f call (method_not_allowed tier) =
    if f.admits tier call then method_not_allowed tier else too_many
limited f call r = r

-- What becomes of a request in the end.
unfoldable pub serve : Framework → Extractors → HttpCall → Reception
unfolding receive
serve f x call = limited f call (receive f x call)

-- No path is for two of the routes.
abbrev overlap : List Segment → List Segment → Bool
overlap [] [] = true
overlap (literal l ∷ ls) (literal m ∷ ms) = l == m && overlap ls ms
overlap (_ ∷ ls) (_ ∷ ms) = overlap ls ms
overlap _ _ = false

abbrev overlaps : List Segment → List (Tier × Route) → Bool
overlaps p [] = false
overlaps p ((tier, r) ∷ routes) = overlap p r.pattern || overlaps p routes

abbrev pub unambiguous : List (Tier × Route) → Bool
unambiguous [] = true
unambiguous ((tier, r) ∷ routes) = not (overlaps r.pattern routes) && unambiguous routes

-- What their documentation promises: preflights are OPTIONS, a body is measured by its length, and
-- among routes that do not overlap the one that matches is chosen, if it has the method.
pub record FrameworkLaws (f : Framework) : Type 0 where
  pub only_options : (call : HttpCall) → is_options call.verb ≡ false → f.preflights call ≡ false
  pub measured : (n : ℕ) (call : HttpCall) → f.oversized n call ≡ ltb n (length call.body)
  pub chosen :
      (routes : List (Tier × Route)) (call : HttpCall)
      → unambiguous routes ≡ true
      → f.choose routes call ≡ select routes (segments call.path) call none

-- The layer of CORS: none is allowed, or one origin with these methods and headers.
pub data Cors : Type 0 where
  closed : Cors
  allowing : (origin : Text) → (methods : List Verb) → (headers : List Text) → Cors

unfoldable pub cors_layer : Extractors → Config → Cors
cors_layer x cfg = elim cfg.cors_origin [
  | none ↦ closed
  | some origin ↦
      if x.header_value origin
      then allowing origin (get ∷ post ∷ put ∷ delete ∷ []) (
          codes "content-type"
          ∷ codes "authorization"
          ∷ codes "device-token"
          ∷ codes "admin-key"
          ∷ [])
      else closed
]

-- All of the above, for proofs that follow a request to its handler.
unfoldable pub routing : Unit {0}
unfolding segments select all_routes match Text-discrete public_routes admin_routes general_routes
    split_slash
routing = tt
