-- ===== src/Vault/Secure.antt =====
-- The handlers of src/routes/ among others: each relies on what it has read, and no action of one takes a
-- password from its owner.
use password_manager_server.Error.{refused}
use password_manager_server.Prelude.{◌≡◌, refl, some, Text}
use password_manager_server.Crates.{Crates, HeaderMap}
use password_manager_server.Config.{Config}
use password_manager_server.Schema.{Identity, NewGroup, UpdatePassword}
use password_manager_server.Prog.{◌>>=◌, ◌>>◌, attempt, pure}
use password_manager_server.Domain.Group
use password_manager_server.Domain.Password
use password_manager_server.Routes.Groups
use password_manager_server.Routes.Groups.{CreateGroupRequest}
use password_manager_server.Routes.Passwords
use password_manager_server.Routes.Passwords.{
  CreatePasswordRequest, UpdatePasswordRequest, update_for,
}
use password_manager_server.Effects.Steps.{
  Follows, Follows-query, Follows-lift, Follows-conn, Follows-utc_now, steps_rules,
}
use password_manager_server.Effects.Queries.{query_rules}
use password_manager_server.Effects.Handlers.{seal-Follows, validate_auth-Follows}
use password_manager_server.Effects.Data.{decrypt-Follows}
use password_manager_server.Vault.Stable.{
  Stable, Stable-IsPreorder, insert_group-Stable, set_row-Stable,
}
use password_manager_server.Vault.Learns.{
  Knowledge, Persists, Learns, ends, Learns-ok_or, Learns-bind, Follows-Learns, Learns-write,
  Learns-attempt, Learns-weaken,
}
use password_manager_server.Vault.Guards.{
  Nothing, Nothing-persists, Belongs, Owned, own_row-Learns, own_target-Learns,
}

target-persists : (gid uuid user : Text) → Persists (λ db. Belongs gid user db × Owned uuid user db)
target-persists gid uuid user a b s k = (s.groups gid user k.0, s.passwords uuid user k.1)

-- The row is written: it goes to a group of the user's, whose password it is.
write-Learns :
    {S : Knowledge} (uuid user : Text) (changes : UpdatePassword) (gid : Text)
    → changes.group_id ≡ some gid
    → Learns S
        (λ _. Nothing)
        (λ db. Belongs gid user db × Owned uuid user db)
        (attempt (Password.update uuid changes) >>= λ _. pure tt)
unfolding Password.update pure
write-Learns uuid user changes gid e =
    let keeps = target-persists gid uuid user in
    Learns-bind _
      (Learns-attempt keeps (
        Learns-bind _ (Follows-Learns keeps (Follows-utc_now Stable-IsPreorder)) (λ stamp.
          Learns-write keeps _
            (λ now db z v k. set_row-Stable uuid user gid changes stamp now db e k.1 k.0))))
      (λ r. ends _ (λ a f db k. tt))

module _ (c : Crates) (h : HeaderMap) (cfg : Config) where
  update_for-Learns :
      {S : Knowledge} (i : Identity) (uuid : Text) (req : UpdatePasswordRequest)
      → Learns S (λ _. Nothing) Nothing (update_for c cfg i uuid req)
  unfolding update_for ◌>>◌
  update_for-Learns i uuid req =
      Learns-bind {Q = λ _. Nothing} _ (Learns-ok_or i.user_id refused (λ _ e db k. tt)) (λ user.
        Learns-bind _ (Follows-Learns Nothing-persists (Follows-conn Stable-IsPreorder)) (λ _.
          let p = target-persists req.group_id uuid user in
          own_row-Learns uuid user _ (λ existing group.
            Learns-weaken (λ db x. x.0)
              (own_target-Learns uuid user req.group_id _ (
                Learns-bind _
                  (Follows-Learns p (decrypt-Follows Stable-IsPreorder c h cfg req.pwd i))
                  (λ plain.
                    Learns-bind _
                      (Follows-Learns p
                        (seal-Follows Stable-IsPreorder c plain cfg.database_encrypt_secret))
                      (λ sealed. write-Learns uuid user _ req.group_id refl)))))))

  pub update_handler-Learns :
      {S : Knowledge} (ip uuid : Text) (req : UpdatePasswordRequest)
      → Learns S (λ _. Nothing) Nothing (Passwords.update_handler c cfg h ip uuid req)
  unfolding Passwords.update_handler ◌>>◌
  update_handler-Learns ip uuid req =
      Learns-bind _ (Follows-Learns Nothing-persists (Follows-lift _)) (λ _.
        Learns-bind _ (Follows-Learns Nothing-persists (Follows-lift _)) (λ _.
          Learns-bind _
            (Follows-Learns Nothing-persists (validate_auth-Follows Stable-IsPreorder c h ip))
            (λ i. update_for-Learns i uuid req)))

  group_create-Stable : (new : NewGroup) → Follows Stable (Group.create new)
  unfolding Group.create
  group_create-Stable new = Follows-query Stable-IsPreorder _ (insert_group-Stable new)

  pub create_group-Stable :
      (ip : Text) (req : CreateGroupRequest) → Follows Stable (Groups.create_handler c h ip req)
  unfolding Groups.create_handler
  create_group-Stable ip req =
      search
        (steps_rules, Stable-IsPreorder, query_rules, validate_auth-Follows, group_create-Stable)
        depth 40
