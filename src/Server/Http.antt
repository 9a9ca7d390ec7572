-- ===== src/Server/Http.antt =====
-- Requests and routes, and what the documentation of axum says of the route that is chosen for a request.
-- A request here has a path without its query, and its body has the length that Content-Length says
-- and the content type that its handler asks for.
use password_manager_server.Prelude.{
  ℕ, Option, none, some, Bool, true, false, List, [], ◌∷◌, Text, Bytes, nat_eq, ◌==◌, if◌then◌else◌,
}
use password_manager_server.Routes.Sign.{SignRequest}
use password_manager_server.Routes.Refresh.{RefreshRequest}
use password_manager_server.Routes.Resign.{ResignRequest}
use password_manager_server.Routes.Groups.{CreateGroupRequest}
use password_manager_server.Routes.Passwords.{
  ListParams, CreatePasswordRequest, UpdatePasswordRequest,
}
use password_manager_server.Server.{Call}

pub data Verb : Type 0 where
  get post put delete head options : Verb

pub record HttpCall : Type 0 where
  pub verb : Verb
  pub path : Text
  pub query : Text
  pub body : Bytes

-- What axum hands to a handler: its call, or one of the two handlers that work on the files.
pub data Endpoint : Type 0 where
  handled : Call → Endpoint
  export : Endpoint
  import : Bytes → Endpoint

-- The extractors of axum, serde_json and uuid; `none` is a rejection. A UUID is read in any of its
-- notations and printed by `to_string`. `header_value`: whether a text may be the value of a header.
pub record Extractors : Type 0 where
  pub parse_uuid : Text → Option Text
  pub percent_decode : Text → Option Text
  pub header_value : Text → Bool
  pub greet_body : Bytes → Option Text
  pub sign_body : Bytes → Option SignRequest
  pub resign_body : Bytes → Option ResignRequest
  pub refresh_body : Bytes → Option RefreshRequest
  pub list_query : Text → Option ListParams
  pub create_body : Bytes → Option CreatePasswordRequest
  pub update_body : Bytes → Option UpdatePasswordRequest
  pub group_body : Bytes → Option CreateGroupRequest

-- `strict_config`, `moderate_config` and `admin_config`.
pub data Tier : Type 0 where
  strict moderate admin : Tier

-- The two numbers of a GovernorConfigBuilder.
pub record Quota : Type 0 where
  pub per_second : ℕ
  pub burst_size : ℕ

abbrev pub quota : Tier → Quota
quota strict = record { per_second = 2; burst_size = 5 }
quota moderate = record { per_second = 10; burst_size = 20 }
quota admin = record { per_second = 5; burst_size = 10 }

pub data Segment : Type 0 where
  literal : Text → Segment
  parameter : Segment

pub record Route : Type 0 where
  pub verb : Verb
  pub pattern : List Segment
  pub target : List Text → HttpCall → Option Endpoint

-- What becomes of a request.
pub data Reception : Type 0 where
  preflight : Reception
  too_large : Reception
  not_found : Reception
  too_many : Reception
  method_not_allowed : Tier → Reception
  rejected : Tier → Reception
  reached : Tier → Endpoint → Reception

abbrev pub is_options : Verb → Bool
is_options options = true
is_options _ = false

abbrev pub same_verb : Verb → Verb → Bool
same_verb get get = true
same_verb get head = true
same_verb post post = true
same_verb put put = true
same_verb delete delete = true
same_verb _ _ = false

-- `path.split('/')`
unfoldable pub split_slash : Text → Text × List Text
split_slash [] = ([], [])
split_slash (b ∷ bs) =
    let (first, more) = split_slash bs in
    if nat_eq b 47 then ([], first ∷ more) else (b ∷ first, more)

-- The segments behind the first slash; a path starts with one.
unfoldable pub segments : Text → List Text
unfolding split_slash
segments path = let (first, more) = split_slash path in more

abbrev pub filled : Text → Option (List Text) → Option (List Text)
filled [] rest = none
filled s none = none
filled s (some params) = some (s ∷ params)

-- The parameters of a path that a pattern matches. A parameter is not empty.
unfoldable pub match : List Segment → List Text → Option (List Text)
match [] [] = some []
match (literal l ∷ ls) (s ∷ ss) = let rest = match ls ss in if l == s then rest else none
match (parameter ∷ ls) (s ∷ ss) = filled s (match ls ss)
match _ _ = none

abbrev pub routed : Tier → Option Endpoint → Reception
routed tier none = rejected tier
routed tier (some e) = reached tier e

-- The choice of a route that is documented. `known`: a route of another method has
-- matched the path.
unfoldable pub select :
    List (Tier × Route) → List Text → HttpCall → (known : Option Tier) → Reception
unfolding match
select [] parts call none = not_found
select [] parts call (some tier) = method_not_allowed tier
select ((tier, r) ∷ routes) parts call known = elim (match r.pattern parts) [
  | none ↦ select routes parts call known
  | some params ↦
      let later = select routes parts call (some tier) in
      if same_verb r.verb call.verb then routed tier (r.target params call) else later
]
