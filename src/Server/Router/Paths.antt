-- ===== src/Server/Router/Paths.antt =====
-- The way from a path of docs/API.md to its handler.
use mathlib.Core.List.{append_assoc}
use password_manager_server.Prelude.{
  ◌≤◌, ◌≡◌, refl, ap, ◌∙◌, Option, none, some, true, false, List, [], ◌∷◌, ◌++◌, Text, Bytes, codes,
  length, ltb, All, arith,
}
use password_manager_server.Routes.Passwords.{UpdatePasswordRequest}
use password_manager_server.Server.{
  Call, greet, sign_up, sign_in, pending, approve, identities, identity_delete, identity_action,
  users, user_action, health, re_sign, refresh, verify, pwd_list, pwd_create, pwd_update, pwd_get,
  group_create, group_list,
}
use password_manager_server.Server.Http.{
  Verb, HttpCall, Endpoint, Extractors, is_options, segments, routed, select, get, post, handled,
  export, import, strict, moderate, admin, reached,
}
use password_manager_server.Server.RouteTable.{
  reading, path_uuid, path_uuid_action, update_target, all_routes,
}
use password_manager_server.Server.Router.{
  Framework, FrameworkLaws, body_limit, unambiguous, receive, routing,
}
use password_manager_server.Server.Router.Endpoints.{
  IsSegment, IsUuid, verb_of, path_of, tier_of, Writes,
}
use password_manager_server.Server.Router.Slashes.{join, IsPlain, plain, split-join}

pub routes-apart : (x : Extractors) → unambiguous (all_routes x) ≡ true
unfolding routing
routes-apart x = refl

module _ (f : Framework) (laws : FrameworkLaws f) (x : Extractors) (query : Text) (body : Bytes)
    (small : length body ≤ body_limit) where
  abbrev asked : Endpoint → HttpCall
  asked e = record { verb = verb_of e; path = path_of e; query = query; body = body }

  fits : ltb body_limit (length body) ≡ false
  fits = ground (arith, small)

  -- A request for an endpoint, written at its path, comes to that endpoint through its group's limiter.
  abbrev Comes : Endpoint → Type 0
  Comes e = receive f x (asked e) ≡ reached (tier_of e) e

  received :
      (verb : Verb) (path : Text)
      → is_options verb ≡ false
      → (let call : HttpCall = record { verb = verb; path = path; query = query; body = body } in
          receive f x call ≡ select (all_routes x) (segments path) call none)
  unfolding receive
  received verb path h =
      let call : HttpCall = record { verb = verb; path = path; query = query; body = body } in
      rw (laws.only_options call h, laws.measured body_limit call, fits)
        (laws.chosen (all_routes x) call (routes-apart x))

  -- The two steps of a request: its path is taken apart, and its segments choose the route.
  comes :
      (e : Endpoint) (s : Text) (ss : List Text)
      → is_options (verb_of e) ≡ false
      → path_of e ≡ join (s ∷ ss)
      → All IsPlain (s ∷ ss)
      → select (all_routes x) (s ∷ ss) (asked e) none ≡ reached (tier_of e) e
      → Comes e
  unfolding segments
  comes e s ss v p h k =
      let parts : segments (path_of e) ≡ s ∷ ss =
        ap segments p ∙ ap (λ r. r.1) (split-join s ss h) in
      received (verb_of e) (path_of e) v
      ∙ ap (λ ps. select (all_routes x) ps (asked e) none) parts
      ∙ k

  uuid-read :
      (g : Text → Option Endpoint) (uuid : Text)
      → IsUuid x uuid
      → path_uuid x g (uuid ∷ []) ≡ g uuid
  uuid-read g uuid u = ground (arith, u.segment.decoded, u.parsed)

  action-read :
      (g : Text → Text → Call) (uuid action : Text)
      → IsUuid x uuid
      → IsSegment x action
      → path_uuid_action x g (uuid ∷ action ∷ []) ≡ some (handled (g uuid action))
  action-read g uuid action u a = ground (arith, u.segment.decoded, u.parsed, a.decoded)

  approve-chosen :
      (uuid : Text)
      → IsUuid x uuid
      → select
          (all_routes x)
          (codes "admin" ∷ codes "approve" ∷ uuid ∷ [])
          (asked (handled (approve uuid)))
          none
        ≡ reached admin (handled (approve uuid))
  unfolding routing
  approve-chosen [] u = absurd (u.segment.nonempty refl)
  approve-chosen (b ∷ bs) u = ap (routed admin) (uuid-read _ (b ∷ bs) u)

  delete-chosen :
      (uuid : Text)
      → IsUuid x uuid
      → select
          (all_routes x)
          (codes "admin" ∷ codes "identities" ∷ uuid ∷ [])
          (asked (handled (identity_delete uuid)))
          none
        ≡ reached admin (handled (identity_delete uuid))
  unfolding routing
  delete-chosen [] u = absurd (u.segment.nonempty refl)
  delete-chosen (b ∷ bs) u = ap (routed admin) (uuid-read _ (b ∷ bs) u)

  get-chosen :
      (uuid : Text)
      → IsUuid x uuid
      → select
          (all_routes x)
          (codes "pwd" ∷ codes "get" ∷ uuid ∷ [])
          (asked (handled (pwd_get uuid)))
          none
        ≡ reached moderate (handled (pwd_get uuid))
  unfolding routing
  get-chosen [] u = absurd (u.segment.nonempty refl)
  get-chosen (b ∷ bs) u = ap (routed moderate) (uuid-read _ (b ∷ bs) u)

  update-chosen :
      (uuid : Text) (req : UpdatePasswordRequest)
      → IsUuid x uuid
      → x.update_body body ≡ some req
      → select
          (all_routes x)
          (codes "pwd" ∷ codes "update" ∷ uuid ∷ [])
          (asked (handled (pwd_update uuid req)))
          none
        ≡ reached moderate (handled (pwd_update uuid req))
  unfolding routing
  update-chosen [] req u r = absurd (u.segment.nonempty refl)
  update-chosen (b ∷ bs) req u r =
      ap (routed moderate) (uuid-read _ (b ∷ bs) u ∙ ap (update_target x (b ∷ bs)) r)

  identity_action-chosen :
      (uuid action : Text)
      → IsUuid x uuid
      → IsSegment x action
      → select
          (all_routes x)
          (codes "admin" ∷ codes "identities" ∷ uuid ∷ action ∷ [])
          (asked (handled (identity_action uuid action)))
          none
        ≡ reached admin (handled (identity_action uuid action))
  unfolding routing
  identity_action-chosen [] action u a = absurd (u.segment.nonempty refl)
  identity_action-chosen (b ∷ bs) [] u a = absurd (a.nonempty refl)
  identity_action-chosen (b ∷ bs) (d ∷ ds) u a =
      ap (routed admin) (action-read identity_action (b ∷ bs) (d ∷ ds) u a)

  user_action-chosen :
      (uuid action : Text)
      → IsUuid x uuid
      → IsSegment x action
      → select
          (all_routes x)
          (codes "admin" ∷ codes "users" ∷ uuid ∷ action ∷ [])
          (asked (handled (user_action uuid action)))
          none
        ≡ reached admin (handled (user_action uuid action))
  unfolding routing
  user_action-chosen [] action u a = absurd (u.segment.nonempty refl)
  user_action-chosen (b ∷ bs) [] u a = absurd (a.nonempty refl)
  user_action-chosen (b ∷ bs) (d ∷ ds) u a =
      ap (routed admin) (action-read user_action (b ∷ bs) (d ∷ ds) u a)

  action-joined :
      (prefix uuid action : Text)
      → prefix ++ uuid ++ codes "/" ++ action ≡ prefix ++ (uuid ++ 47 ∷ action)
  action-joined prefix uuid action =
      append_assoc (prefix ++ uuid) (47 ∷ []) action ∙ append_assoc prefix uuid (47 ∷ action)

  -- A fixed path.
  call-reached : (call : Call) → Writes x (handled call) query body → Comes (handled call)
  unfolding routing
  call-reached (greet key) h =
      received post (codes "/greet") refl ∙ ap (λ o. routed strict (reading greet o)) h
  call-reached (sign_up req) h =
      received post (codes "/sign-up") refl ∙ ap (λ o. routed strict (reading sign_up o)) h
  call-reached (sign_in req) h =
      received post (codes "/sign-in") refl ∙ ap (λ o. routed strict (reading sign_in o)) h
  call-reached pending h = received get (codes "/admin/pending") refl
  call-reached (approve uuid) h =
      comes (handled (approve uuid)) (codes "admin") (codes "approve" ∷ uuid ∷ []) refl refl
        (plain (codes "admin") refl, (plain (codes "approve") refl, (h.segment.plain, tt)))
        (approve-chosen uuid h)
  call-reached identities h = received get (codes "/admin/identities") refl
  call-reached (identity_delete uuid) h =
      comes (handled (identity_delete uuid)) (codes "admin") (codes "identities" ∷ uuid ∷ []) refl
        refl (plain (codes "admin") refl, (plain (codes "identities") refl, (h.segment.plain, tt)))
        (delete-chosen uuid h)
  call-reached (identity_action uuid action) (u, a) =
      comes (handled (identity_action uuid action)) (codes "admin")
        (codes "identities" ∷ uuid ∷ action ∷ []) refl
        (action-joined (codes "/admin/identities/") uuid action)
        (
          plain (codes "admin") refl,
          (plain (codes "identities") refl, (u.segment.plain, (a.plain, tt))),
        )
        (identity_action-chosen uuid action u a)
  call-reached users h = received get (codes "/admin/users") refl
  call-reached (user_action uuid action) (u, a) =
      comes (handled (user_action uuid action)) (codes "admin") (codes "users" ∷ uuid ∷ action ∷ [])
        refl (action-joined (codes "/admin/users/") uuid action)
        (plain (codes "admin") refl, (plain (codes "users") refl, (u.segment.plain, (a.plain, tt))))
        (user_action-chosen uuid action u a)
  call-reached health h = received get (codes "/health") refl
  call-reached (re_sign req) h =
      received post (codes "/re-sign") refl ∙ ap (λ o. routed moderate (reading re_sign o)) h
  call-reached (refresh req) h =
      received post (codes "/refresh") refl ∙ ap (λ o. routed moderate (reading refresh o)) h
  call-reached verify h = received get (codes "/verify") refl
  call-reached (pwd_list params) h =
      received get (codes "/pwd/list") refl ∙ ap (λ o. routed moderate (reading pwd_list o)) h
  call-reached (pwd_create req) h =
      received post (codes "/pwd/create") refl ∙ ap (λ o. routed moderate (reading pwd_create o)) h
  call-reached (pwd_update uuid req) (u, r) =
      comes (handled (pwd_update uuid req)) (codes "pwd") (codes "update" ∷ uuid ∷ []) refl refl
        (plain (codes "pwd") refl, (plain (codes "update") refl, (u.segment.plain, tt)))
        (update-chosen uuid req u r)
  call-reached (pwd_get uuid) h =
      comes (handled (pwd_get uuid)) (codes "pwd") (codes "get" ∷ uuid ∷ []) refl refl
        (plain (codes "pwd") refl, (plain (codes "get") refl, (h.segment.plain, tt)))
        (get-chosen uuid h)
  call-reached (group_create req) h =
      received post (codes "/group/create") refl
      ∙ ap (λ o. routed moderate (reading group_create o)) h
  call-reached group_list h = received get (codes "/group/list") refl

-- Every endpoint can be asked for: with axum and its layers as documented, a request with the endpoint's
-- method and its path of the API's documentation, a body of at most a mebibyte, and parameters, query and body
-- that axum reads back as they were meant, comes to that endpoint, behind the limiter of its group.
pub receive-path_of :
    (f : Framework) (x : Extractors) (e : Endpoint) (query : Text) (body : Bytes)
    → FrameworkLaws f
    → length body ≤ body_limit
    → Writes x e query body
    → receive f x (record { verb = verb_of e; path = path_of e; query = query; body = body })
      ≡ reached (tier_of e) e
unfolding routing
receive-path_of f x (handled call) query body laws small h =
    call-reached f laws x query body small call h
receive-path_of f x export query body laws small h =
    received f laws x query body small get (codes "/admin/export") refl
receive-path_of f x (import archive) query body laws small h =
    received f laws x query body small post (codes "/admin/import") refl
    ∙ ap (λ b. reached admin (import b)) h
