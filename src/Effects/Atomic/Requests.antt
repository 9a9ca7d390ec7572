-- ===== src/Effects/Atomic/Requests.antt =====
-- What requests that are answered with an error leave behind; the creation of a password is not among them.
use password_manager_server.Prelude.{
  ℕ, zero, suc, ◌≡◌, Bool, true, false, List, [], ◌∷◌, Text, Bytes,
}
use password_manager_server.Crates.{Crates, HeaderMap, IpAddr}
use password_manager_server.Config.{Config}
use password_manager_server.Schema.{Identity, Password}
use password_manager_server.Prog.{Prog}
use password_manager_server.Crypto.{generate_identity_keys, encrypt_with_shared_key}
use password_manager_server.Routes.Auth.{validate_auth, verify_handler}
use password_manager_server.Routes.Sign.{SignRequest, decode_request}
use password_manager_server.Routes.Admin.{list_identities, list_users}
use password_manager_server.Routes.Groups
use password_manager_server.Routes.Passwords
use password_manager_server.Routes.Passwords.{
  ListParams, encrypt_for_client, decrypt_from_client, entry_of, entries_from,
}
use password_manager_server.Server
use password_manager_server.Server.{Call, pwd_create}
use password_manager_server.Effects.Atomic.{
  Reads, Reads-branch, Reads-pure, Reads-bind, Reads-utc_now, reads_rules,
}

module _ (c : Crates) where
  pub keys-Reads : Reads (generate_identity_keys c)
  unfolding generate_identity_keys
  keys-Reads = search reads_rules

  pub seal-Reads : (message key : Bytes) → Reads (encrypt_with_shared_key c message key)
  unfolding encrypt_with_shared_key
  seal-Reads message key = search reads_rules

  pub auth-Reads : (h : HeaderMap) (ip : Text) → Reads (validate_auth c h ip)
  unfolding validate_auth
  auth-Reads h ip = search reads_rules depth 30

  pub verify-Reads : (h : HeaderMap) (ip : Text) → Reads (verify_handler c h ip)
  unfolding verify_handler
  verify-Reads h ip = search (reads_rules, auth-Reads)

  module _ (cfg : Config) where
    pub decode-Reads : (ip : Text) (req : SignRequest) → Reads (decode_request c cfg ip req)
    unfolding decode_request
    decode-Reads ip req = search reads_rules depth 30

    pub encrypt-Reads : (t : Text) (i : Identity) → Reads (encrypt_for_client c cfg t i)
    unfolding encrypt_for_client
    encrypt-Reads t i = search (reads_rules, seal-Reads) depth 30

    pub decrypt-Reads : (t : Text) (i : Identity) → Reads (decrypt_from_client c cfg t i)
    unfolding decrypt_from_client
    decrypt-Reads t i = search reads_rules depth 30

    entry-Reads : (e : Bool) (i : Identity) (p : Password) → Reads (entry_of c cfg e i p)
    unfolding entry_of
    entry-Reads true i p = search (reads_rules, encrypt-Reads) depth 30
    entry-Reads false i p = search (reads_rules, encrypt-Reads) depth 30

    entries-Reads :
        (e : Bool) (i : Identity) (skip size : ℕ) (ps : List Password)
        → Reads (entries_from c cfg e i skip size ps)
    unfolding entries_from
    entries-Reads e i skip zero ps = Reads-pure []
    entries-Reads e i skip (suc size) [] = Reads-pure []
    entries-Reads e i zero (suc size) (p ∷ ps) =
        let rest = entries-Reads e i zero size ps in
        let other = entries-Reads e i zero (suc size) ps in
        Reads-bind _ _ Reads-utc_now (λ now.
          Reads-branch _ _ _
            (Reads-bind _ _ (entry-Reads e i p) (λ entry. Reads-bind _ _ rest (λ es. Reads-pure _)))
            other)
    entries-Reads e i (suc skip) (suc size) (p ∷ ps) =
        let skipped = entries-Reads e i skip (suc size) ps in
        let other = entries-Reads e i (suc skip) (suc size) ps in
        Reads-bind _ _ Reads-utc_now (λ now. Reads-branch _ _ _ skipped other)

    module _ (h : HeaderMap) (ip : Text) where
      pub list-Reads : (params : ListParams) → Reads (Passwords.list_handler c cfg h ip params)
      unfolding Passwords.list_handler Passwords.list_for
      list-Reads params = search (reads_rules, auth-Reads, entries-Reads) depth 30

      pub get-Reads : (uuid : Text) → Reads (Passwords.get_handler c cfg h ip uuid)
      unfolding Passwords.get_handler Passwords.get_for
      get-Reads uuid = search (reads_rules, auth-Reads, encrypt-Reads) depth 40

module _ (c : Crates) (h : HeaderMap) where
  pub group_list-Reads : (ip : Text) → Reads (Groups.list_handler c h ip)
  unfolding Groups.list_handler
  group_list-Reads ip = search (reads_rules, auth-Reads) depth 30

  module _ (cfg : Config) (peer : IpAddr) where
    pub pending-Reads : Reads (Groups.pending_handler c h cfg peer)
    unfolding Groups.pending_handler
    pending-Reads = search reads_rules depth 30

    pub identities-Reads : Reads (list_identities c h cfg peer)
    unfolding list_identities
    identities-Reads = search reads_rules depth 30

    pub users-Reads : Reads (list_users c h cfg peer)
    unfolding list_users
    users-Reads = search reads_rules depth 30

-- The one call that may have written when it fails is the creation of a password.
abbrev pub IsCreation : Call → Type 0
IsCreation call = (req : Passwords.CreatePasswordRequest) × call ≡ Server.pwd_create req
