-- ===== src/Server/RouteTable.antt =====
-- The three groups of routes that `build_router` of src/routes/mod.rs makes, with what each hands to its
-- handler.
use password_manager_server.Prelude.{Option, none, some, List, [], ◌∷◌, ◌++◌, Text, codes}
use password_manager_server.Routes.Passwords.{UpdatePasswordRequest}
use password_manager_server.Server.{
  Call, greet, sign_up, sign_in, pending, approve, identities, identity_delete, identity_action,
  users, user_action, health, re_sign, refresh, verify, pwd_list, pwd_create, pwd_update, pwd_get,
  group_create, group_list,
}
use password_manager_server.Server.Http.{
  Endpoint, Extractors, Tier, Route, get, post, put, delete, handled, export, import, strict,
  moderate, admin, literal, parameter,
}

-- `POST` of a body that an extractor reads, and `GET` of nothing.
abbrev pub reading : {A : Type 0} → (A → Call) → Option A → Option Endpoint
reading f none = none
reading f (some a) = some (handled (f a))

abbrev pub tiered : Tier → List Route → List (Tier × Route)
tiered tier [] = []
tiered tier (r ∷ rs) = (tier, r) ∷ tiered tier rs

module _ (x : Extractors) where
  abbrev pub uuid_of : Option Text → Option Text
  uuid_of none = none
  uuid_of (some s) = x.parse_uuid s

  -- `Path(uuid): Path<Uuid>`
  abbrev pub path_uuid : (Text → Option Endpoint) → List Text → Option Endpoint
  path_uuid f (s ∷ []) = elim (uuid_of (x.percent_decode s)) [ none ↦ none | some uuid ↦ f uuid ]
  path_uuid f _ = none

  -- `Path((uuid, action)): Path<(Uuid, String)>`
  abbrev pub path_uuid_action : (Text → Text → Call) → List Text → Option Endpoint
  path_uuid_action f (s ∷ t ∷ []) = elim (uuid_of (x.percent_decode s)) [
    | none ↦ none
    | some uuid ↦ elim (x.percent_decode t) [
      | none ↦ none
      | some action ↦ some (handled (f uuid action))
    ]
  ]
  path_uuid_action f _ = none

  unfoldable pub public_routes : List Route
  public_routes =
      record {
        verb = post;
        pattern = literal (codes "greet") ∷ [];
        target = λ ps call. reading greet (x.greet_body call.body);
      }
      ∷ record {
        verb = post;
        pattern = literal (codes "sign-up") ∷ [];
        target = λ ps call. reading sign_up (x.sign_body call.body);
      }
      ∷ record {
        verb = post;
        pattern = literal (codes "sign-in") ∷ [];
        target = λ ps call. reading sign_in (x.sign_body call.body);
      }
      ∷ []

  unfoldable pub admin_routes : List Route
  admin_routes =
      record {
        verb = get;
        pattern = literal (codes "admin") ∷ literal (codes "pending") ∷ [];
        target = λ ps call. some (handled pending);
      }
      ∷ record {
        verb = post;
        pattern = literal (codes "admin") ∷ literal (codes "approve") ∷ parameter ∷ [];
        target = λ ps call. path_uuid (λ uuid. some (handled (approve uuid))) ps;
      }
      ∷ record {
        verb = get;
        pattern = literal (codes "admin") ∷ literal (codes "identities") ∷ [];
        target = λ ps call. some (handled identities);
      }
      ∷ record {
        verb = delete;
        pattern = literal (codes "admin") ∷ literal (codes "identities") ∷ parameter ∷ [];
        target = λ ps call. path_uuid (λ uuid. some (handled (identity_delete uuid))) ps;
      }
      ∷ record {
        verb = post;
        pattern =
            literal (codes "admin") ∷ literal (codes "identities") ∷ parameter ∷ parameter ∷ [];
        target = λ ps call. path_uuid_action identity_action ps;
      }
      ∷ record {
        verb = get;
        pattern = literal (codes "admin") ∷ literal (codes "users") ∷ [];
        target = λ ps call. some (handled users);
      }
      ∷ record {
        verb = post;
        pattern = literal (codes "admin") ∷ literal (codes "users") ∷ parameter ∷ parameter ∷ [];
        target = λ ps call. path_uuid_action user_action ps;
      }
      ∷ record {
        verb = get;
        pattern = literal (codes "admin") ∷ literal (codes "export") ∷ [];
        target = λ ps call. some export;
      }
      ∷ record {
        verb = post;
        pattern = literal (codes "admin") ∷ literal (codes "import") ∷ [];
        target = λ ps call. some (import call.body);
      }
      ∷ []

  abbrev pub update_target : Text → Option UpdatePasswordRequest → Option Endpoint
  update_target uuid req = reading (pwd_update uuid) req

  unfoldable pub general_routes : List Route
  general_routes =
      record {
        verb = get;
        pattern = literal (codes "health") ∷ [];
        target = λ ps call. some (handled health);
      }
      ∷ record {
        verb = post;
        pattern = literal (codes "re-sign") ∷ [];
        target = λ ps call. reading re_sign (x.resign_body call.body);
      }
      ∷ record {
        verb = post;
        pattern = literal (codes "refresh") ∷ [];
        target = λ ps call. reading refresh (x.refresh_body call.body);
      }
      ∷ record {
        verb = get;
        pattern = literal (codes "verify") ∷ [];
        target = λ ps call. some (handled verify);
      }
      ∷ record {
        verb = get;
        pattern = literal (codes "pwd") ∷ literal (codes "list") ∷ [];
        target = λ ps call. reading pwd_list (x.list_query call.query);
      }
      ∷ record {
        verb = post;
        pattern = literal (codes "pwd") ∷ literal (codes "create") ∷ [];
        target = λ ps call. reading pwd_create (x.create_body call.body);
      }
      ∷ record {
        verb = put;
        pattern = literal (codes "pwd") ∷ literal (codes "update") ∷ parameter ∷ [];
        target = λ ps call. path_uuid (λ uuid. update_target uuid (x.update_body call.body)) ps;
      }
      ∷ record {
        verb = get;
        pattern = literal (codes "pwd") ∷ literal (codes "get") ∷ parameter ∷ [];
        target = λ ps call. path_uuid (λ uuid. some (handled (pwd_get uuid))) ps;
      }
      ∷ record {
        verb = post;
        pattern = literal (codes "group") ∷ literal (codes "create") ∷ [];
        target = λ ps call. reading group_create (x.group_body call.body);
      }
      ∷ record {
        verb = get;
        pattern = literal (codes "group") ∷ literal (codes "list") ∷ [];
        target = λ ps call. some (handled group_list);
      }
      ∷ []

  unfoldable pub all_routes : List (Tier × Route)
  unfolding public_routes admin_routes general_routes
  all_routes =
      tiered strict public_routes ++ (tiered admin admin_routes ++ tiered moderate general_routes)
