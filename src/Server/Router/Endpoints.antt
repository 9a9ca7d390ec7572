-- ===== src/Server/Router/Endpoints.antt =====
-- The method and the path that docs/API.md gives each handler, and the limiter that the handler is meant to
-- be behind. docs/API.md exempts /health from the limiters; `build_router` does not, and neither does `tier_of`.
use password_manager_server.Prelude.{◌≡◌, ◌≢◌, some, [], ◌++◌, Text, Bytes, codes, All}
use password_manager_server.Server.{
  greet, sign_up, sign_in, pending, approve, identities, identity_delete, identity_action, users,
  user_action, health, re_sign, refresh, verify, pwd_list, pwd_create, pwd_update, pwd_get,
  group_create, group_list,
}
use password_manager_server.Server.Http.{
  Verb, Endpoint, Extractors, Tier, get, post, put, delete, handled, export, import, strict,
  moderate, admin,
}

-- A text that stands as it is between two slashes.
pub record IsSegment (x : Extractors) (t : Text) : Type 0 where
  pub nonempty : t ≢ []
  pub plain : All (λ b. b ≢ 47) t
  pub decoded : x.percent_decode t ≡ some t

-- A UUID as it is printed.
pub record IsUuid (x : Extractors) (t : Text) : Type 0 where
  pub segment : IsSegment x t
  pub parsed : x.parse_uuid t ≡ some t

abbrev pub verb_of : Endpoint → Verb
verb_of (handled (greet key)) = post
verb_of (handled (sign_up req)) = post
verb_of (handled (sign_in req)) = post
verb_of (handled pending) = get
verb_of (handled (approve uuid)) = post
verb_of (handled identities) = get
verb_of (handled (identity_delete uuid)) = delete
verb_of (handled (identity_action uuid action)) = post
verb_of (handled users) = get
verb_of (handled (user_action uuid action)) = post
verb_of (handled health) = get
verb_of (handled (re_sign req)) = post
verb_of (handled (refresh req)) = post
verb_of (handled verify) = get
verb_of (handled (pwd_list params)) = get
verb_of (handled (pwd_create req)) = post
verb_of (handled (pwd_update uuid req)) = put
verb_of (handled (pwd_get uuid)) = get
verb_of (handled (group_create req)) = post
verb_of (handled group_list) = get
verb_of export = get
verb_of (import body) = post

abbrev pub path_of : Endpoint → Text
path_of (handled (greet key)) = codes "/greet"
path_of (handled (sign_up req)) = codes "/sign-up"
path_of (handled (sign_in req)) = codes "/sign-in"
path_of (handled pending) = codes "/admin/pending"
path_of (handled (approve uuid)) = codes "/admin/approve/" ++ uuid
path_of (handled identities) = codes "/admin/identities"
path_of (handled (identity_delete uuid)) = codes "/admin/identities/" ++ uuid
path_of (handled (identity_action uuid action)) =
    codes "/admin/identities/" ++ uuid ++ codes "/" ++ action
path_of (handled users) = codes "/admin/users"
path_of (handled (user_action uuid action)) = codes "/admin/users/" ++ uuid ++ codes "/" ++ action
path_of (handled health) = codes "/health"
path_of (handled (re_sign req)) = codes "/re-sign"
path_of (handled (refresh req)) = codes "/refresh"
path_of (handled verify) = codes "/verify"
path_of (handled (pwd_list params)) = codes "/pwd/list"
path_of (handled (pwd_create req)) = codes "/pwd/create"
path_of (handled (pwd_update uuid req)) = codes "/pwd/update/" ++ uuid
path_of (handled (pwd_get uuid)) = codes "/pwd/get/" ++ uuid
path_of (handled (group_create req)) = codes "/group/create"
path_of (handled group_list) = codes "/group/list"
path_of export = codes "/admin/export"
path_of (import body) = codes "/admin/import"

abbrev pub tier_of : Endpoint → Tier
tier_of (handled (greet key)) = strict
tier_of (handled (sign_up req)) = strict
tier_of (handled (sign_in req)) = strict
tier_of (handled pending) = admin
tier_of (handled (approve uuid)) = admin
tier_of (handled identities) = admin
tier_of (handled (identity_delete uuid)) = admin
tier_of (handled (identity_action uuid action)) = admin
tier_of (handled users) = admin
tier_of (handled (user_action uuid action)) = admin
tier_of export = admin
tier_of (import body) = admin
tier_of _ = moderate

-- The query, the body and the parameters are written so that axum reads back what was meant.
abbrev pub Writes : Extractors → Endpoint → Text → Bytes → Type 0
Writes x (handled (greet key)) query body = x.greet_body body ≡ some key
Writes x (handled (sign_up req)) query body = x.sign_body body ≡ some req
Writes x (handled (sign_in req)) query body = x.sign_body body ≡ some req
Writes x (handled (approve uuid)) query body = IsUuid x uuid
Writes x (handled (identity_delete uuid)) query body = IsUuid x uuid
Writes x (handled (identity_action uuid action)) query body = IsUuid x uuid × IsSegment x action
Writes x (handled (user_action uuid action)) query body = IsUuid x uuid × IsSegment x action
Writes x (handled (re_sign req)) query body = x.resign_body body ≡ some req
Writes x (handled (refresh req)) query body = x.refresh_body body ≡ some req
Writes x (handled (pwd_list params)) query body = x.list_query query ≡ some params
Writes x (handled (pwd_create req)) query body = x.create_body body ≡ some req
Writes x (handled (pwd_update uuid req)) query body =
    IsUuid x uuid × (x.update_body body ≡ some req)
Writes x (handled (pwd_get uuid)) query body = IsUuid x uuid
Writes x (handled (group_create req)) query body = x.group_body body ≡ some req
Writes x (import archive) query body = body ≡ archive
Writes x _ query body = Unit
