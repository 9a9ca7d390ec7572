-- ===== src/Vault/Spares.antt =====
-- Programs that leave the groups and the passwords alone, in every action.
use password_manager_server.Prelude.{◌≡◌, refl, ◌∙◌, ap, Text, List}
use password_manager_server.Error.{ok, err, unique_violation}
use password_manager_server.Schema.{
  Db, Group, Password, NewUser, UpdateUser, NewIdentity, UpdateIdentity, Identity,
}
use password_manager_server.Prog.{Prog, QueryResult}
use password_manager_server.Domain.User
use password_manager_server.Domain.Identity
use password_manager_server.Effects.Frames.{
  user_insert-frame, user_set-frame, identity_insert-frame, identity_set-frame,
}
use password_manager_server.Effects.Steps.{
  Relation, IsPreorder, Follows, Follows-query, Follows-bind, Follows-utc_now, steps_rules,
}
use password_manager_server.Effects.Queries.{query_rules}
use password_manager_server.Routes.Greet.{created}

-- What the vault is made of.
abbrev pub content : Db → List Group × List Password
content db = (db.groups, db.passwords)

abbrev pub SameContent : Relation
SameContent a b = content b ≡ content a

pub SameContent-IsPreorder : IsPreorder SameContent
SameContent-IsPreorder = record { keep = λ e. ap content e; trans = λ m h k. k ∙ h }

abbrev pub Spares : {A : Type 0} → Prog A → Type 0
Spares m = Follows SameContent m

pub user_create-Spares : (new : NewUser) → Spares (User.create new)
unfolding User.create
user_create-Spares new =
    Follows-query SameContent-IsPreorder _
      (λ now db. let f = user_insert-frame now db new in λ i. (f.groups i, f.passwords i))

pub user_update-Spares : (uuid : Text) (changes : UpdateUser) → Spares (User.update uuid changes)
unfolding User.update
user_update-Spares uuid changes =
    Follows-bind _ _ (Follows-utc_now SameContent-IsPreorder) (λ stamp.
      Follows-query SameContent-IsPreorder _ (λ now db.
        let f = user_set-frame now db uuid changes stamp in λ i. (f.groups i, f.passwords i)))

pub identity_create-Spares : (new : NewIdentity) → Spares (Identity.create new)
unfolding Identity.create
identity_create-Spares new =
    Follows-query SameContent-IsPreorder _
      (λ now db. let f = identity_insert-frame now db new in λ i. (f.groups i, f.passwords i))

pub identity_update-Spares :
    (uuid : Text) (changes : UpdateIdentity) → Spares (Identity.update uuid changes)
unfolding Identity.update
identity_update-Spares uuid changes =
    Follows-bind _ _ (Follows-utc_now SameContent-IsPreorder) (λ stamp.
      Follows-query SameContent-IsPreorder _ (λ now db.
        let f = identity_set-frame now db uuid changes stamp in λ i. (f.groups i, f.passwords i)))

pub identity_delete-Spares : (uuid : Text) → Spares (Identity.delete uuid)
unfolding Identity.delete Identity.remove_rows
identity_delete-Spares uuid = Follows-query SameContent-IsPreorder _ (λ now db. refl)

pub created-Spares : (r : QueryResult Identity) → Spares (created r)
created-Spares (ok identity) = search steps_rules
created-Spares (err unique_violation) = search steps_rules
created-Spares (err _) = search steps_rules

pub ruleset spares_rules = (
  steps_rules, SameContent-IsPreorder, query_rules, user_create-Spares, user_update-Spares,
  identity_create-Spares, identity_update-Spares, identity_delete-Spares, created-Spares,
)
