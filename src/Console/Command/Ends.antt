-- ===== src/Console/Command/Ends.antt =====
-- How a subcommand ends.
use password_manager_server.Prelude.{
  ℕ, suc, ◌≡◌, refl, Option, none, some, Bool, true, false, List, [], ◌∷◌, Text, codes, ◌==◌, arith,
  nat_eq, Bytes, Option-cases, Bool-cases, inl, inr, if◌then◌else◌, get_elem?,
}
use password_manager_server.Console.{Json, HttpRequest}
use password_manager_server.Console.Fetch.{value_or, text_at}
use password_manager_server.Console.Screen.Rows.{trunc}
use password_manager_server.Console.Command.{
  Answer, unreachable, reply, Shell, returned, panicked, Outcome, Environment, device_lines,
  list_lines, user_lines, listed, told, archive_path, save_body, fetched, import_from, with_uuid,
  user_command, import_command, run_command,
}

-- The subcommands that are given an identifier.
pub data TakesUuid (cmd : Text) : Type 0 where
  confirms : (cmd == codes "confirm") ≡ true → TakesUuid cmd
  unconfirms : (cmd == codes "unconfirm") ≡ true → TakesUuid cmd
  deletes : (cmd == codes "delete") ≡ true → TakesUuid cmd
  deletes_user : (cmd == codes "user-delete") ≡ true → TakesUuid cmd
  restores_user : (cmd == codes "user-restore") ≡ true → TakesUuid cmd

module _ {Value : Type 0} (json : Json Value) (shell : Shell Value) (env : Environment) where
  -- The device token of an entry cannot be cut after 45 bytes.
  pub record SplitsToken (entries : List Value) : Type 0 where
    pub place : ℕ
    pub entry : Value
    pub listed_there : get_elem? entries place ≡ some entry
    pub splits : trunc (text_at json (codes "-") entry (codes "device_token")) 45 ≡ none

  -- Why a subcommand panics, whose outcome is given.
  pub data Cause (cmd : Text) (args : List Text) (outcome : Outcome) : Type 0 where
    -- The identifier is not given.
    no_uuid : TakesUuid cmd → args ≡ [] → Cause cmd args outcome
    -- The request was sent, and the server cannot be reached.
    no_answer :
        (asked : HttpRequest)
        → outcome.sent ≡ some asked
        → shell.answer ≡ unreachable
        → Cause cmd args outcome
    -- The 45th byte of a listed token is inside a character.
    split_token :
        (status : ℕ) (body : Option Value) (bytes : Option Bytes) (entries : List Value)
        → (cmd == codes "list") ≡ true
        → shell.answer ≡ reply status body bytes
        → json.as_array (value_or shell.null body) ≡ some entries
        → SplitsToken entries
        → Cause cmd args outcome
    -- The archive breaks off, or cannot be written.
    broken_off :
        (body : Option Value)
        → (cmd == codes "export") ≡ true
        → shell.answer ≡ reply 200 body none
        → Cause cmd args outcome
    unsaved :
        (body : Option Value) (bytes : Bytes) (e : Text)
        → (cmd == codes "export") ≡ true
        → shell.answer ≡ reply 200 body (some bytes)
        → shell.unwritten (archive_path json shell env) ≡ some e
        → Cause cmd args outcome

  record Explained (cmd : Text) (args : List Text) (outcome : Outcome) : Type 0 where
    pub why : outcome.ended ≡ panicked → Cause cmd args outcome

  list_lines-SplitsToken :
      (entries : List Value)
      → (list_lines json shell env entries).1 ≡ panicked
      → SplitsToken entries
  unfolding list_lines device_lines
  list_lines-SplitsToken [] h = absurd (ground arith)
  list_lines-SplitsToken (entry ∷ more) h =
      elim (Option-cases (trunc (text_at json (codes "-") entry (codes "device_token")) 45)) [
        | inl e ↦ record { place = 0; entry = entry; listed_there = refl; splits = e }
        | inr (t, e) ↦
            let k = list_lines-SplitsToken more (rw (e, list_lines) at h) in
            record {
              place = suc k.place;
              entry = k.entry;
              listed_there = k.listed_there;
              splits = k.splits;
            }
      ]

  user_lines-returned : (entries : List Value) → (user_lines json shell env entries).1 ≡ returned
  unfolding user_lines
  user_lines-returned [] = refl
  user_lines-returned (entry ∷ more) = user_lines-returned more

  module _ (cmd : Text) (args : List Text) where
    told-Cause :
        (asked : HttpRequest) (success : Text) (a : Answer Value)
        → shell.answer ≡ a
        → (told json shell env asked success a).ended ≡ panicked
        → Cause cmd args (told json shell env asked success a)
    told-Cause asked success unreachable a h = no_answer asked refl a
    told-Cause asked success (reply status body bytes) a h = absurd (ground arith)

    devices-Cause :
        (asked : HttpRequest) (a : Answer Value)
        → (cmd == codes "list") ≡ true
        → shell.answer ≡ a
        → (listed json shell env asked (list_lines json shell env) a).ended ≡ panicked
        → Cause cmd args (listed json shell env asked (list_lines json shell env) a)
    devices-Cause asked unreachable c a h = no_answer asked refl a
    devices-Cause asked (reply status body bytes) c a h =
        elim (Option-cases (json.as_array (value_or shell.null body))) [
          | inl e ↦ absurd (ground arith)
          | inr (entries, e) ↦
              split_token status body bytes entries c a e
                (list_lines-SplitsToken entries (rw e at h))
        ]

    users-Cause :
        (asked : HttpRequest) (a : Answer Value)
        → shell.answer ≡ a
        → (listed json shell env asked (user_lines json shell env) a).ended ≡ panicked
        → Cause cmd args (listed json shell env asked (user_lines json shell env) a)
    users-Cause asked unreachable a h = no_answer asked refl a
    users-Cause asked (reply status body bytes) a h =
        elim (Option-cases (json.as_array (value_or shell.null body))) [
          | inl e ↦ absurd (ground arith)
          | inr (entries, e) ↦
              let n : returned ≡ panicked = rw (e, user_lines-returned entries) at h in
              absurd (ground arith)
        ]

    saved-Cause :
        (asked : HttpRequest) (body : Option Value) (bytes : Option Bytes)
        → (cmd == codes "export") ≡ true
        → shell.answer ≡ reply 200 body bytes
        → (save_body json shell env asked (archive_path json shell env) bytes).ended ≡ panicked
        → (outcome : Outcome) → Cause cmd args outcome
    saved-Cause asked body none c a h outcome = broken_off body c a
    saved-Cause asked body (some bytes) c a h outcome =
        elim (Option-cases (shell.unwritten (archive_path json shell env))) [
          | inr (e, w) ↦ unsaved body bytes e c a w
          | inl w ↦ absurd (ground arith)
        ]

    fetched-Cause :
        (asked : HttpRequest) (a : Answer Value)
        → (cmd == codes "export") ≡ true
        → shell.answer ≡ a
        → (fetched json shell env asked a).ended ≡ panicked
        → Cause cmd args (fetched json shell env asked a)
    fetched-Cause asked unreachable c a h = no_answer asked refl a
    fetched-Cause asked (reply status body bytes) c a h = elim (Bool-cases (nat_eq status 200)) [
      | inl s ↦
          saved-Cause asked body bytes c
            (let same : status ≡ 200 = ground (arith, s) in rw (← same) a) (rw s at h) _
      | inr s ↦ absurd (let n : returned ≡ panicked = rw s at h in ground arith)
    ]

    with_uuid-Explained :
        (f : Text → Outcome) (given : List Text)
        → TakesUuid cmd
        → args ≡ given
        → ((uuid : Text) → Explained cmd args (f uuid))
        → Explained cmd args (with_uuid json shell env f given)
    with_uuid-Explained f [] t g k = record { why = λ h. no_uuid t g }
    with_uuid-Explained f (uuid ∷ more) t g k = k uuid

    import_from-Explained : (path : Text) → Explained cmd args (import_from json shell env path)
    unfolding import_from
    import_from-Explained path = elim (Option-cases (shell.unread path)) [
      | inr (e, r) ↦ record { why = λ h. absurd (ground arith) }
      | inl r ↦ rw (import_from, r) (record { why = told-Cause _ _ shell.answer refl })
    ]

    import-Explained :
        (given : List Text) → Explained cmd args (import_command json shell env given)
    unfolding import_command
    import-Explained [] = import_from-Explained _
    import-Explained (path ∷ more) = import_from-Explained path

    told-Explained :
        (asked : HttpRequest) (success : Text)
        → Explained cmd args (told json shell env asked success shell.answer)
    told-Explained asked success = record { why = told-Cause asked success shell.answer refl }

    uuid-Explained :
        (f : Text → Outcome)
        → TakesUuid cmd
        → ((uuid : Text) → Explained cmd args (f uuid))
        → Explained cmd args (with_uuid json shell env f args)
    uuid-Explained f t k = with_uuid-Explained f args t refl k

    branch-Explained :
        (b : Bool) (one other : Outcome)
        → (b ≡ true → Explained cmd args one)
        → Explained cmd args other
        → Explained cmd args (if b then one else other)
    branch-Explained true one other h k = h refl
    branch-Explained false one other h k = k

    user-Explained :
        (action uuid : Text) → Explained cmd args (user_command json shell env action uuid)
    user-Explained action uuid = told-Explained _ _

    command-Explained : Explained cmd args (run_command json shell env cmd args)
    unfolding run_command
    command-Explained =
        branch-Explained (cmd == codes "list") _ _
          (λ c. record { why = devices-Cause _ shell.answer c refl })
          (branch-Explained (cmd == codes "confirm") _ _
            (λ c. uuid-Explained _ (confirms c) (λ uuid. told-Explained _ _))
            (branch-Explained (cmd == codes "unconfirm") _ _
              (λ c. uuid-Explained _ (unconfirms c) (λ uuid. told-Explained _ _))
              (branch-Explained (cmd == codes "delete") _ _
                (λ c. uuid-Explained _ (deletes c) (λ uuid. told-Explained _ _))
                (branch-Explained (cmd == codes "users") _ _
                  (λ c. record { why = users-Cause _ shell.answer refl })
                  (branch-Explained (cmd == codes "user-delete") _ _
                    (λ c. uuid-Explained _ (deletes_user c) (user-Explained _))
                    (branch-Explained (cmd == codes "user-restore") _ _
                      (λ c. uuid-Explained _ (restores_user c) (user-Explained _))
                      (branch-Explained (cmd == codes "export") _ _
                        (λ c. record { why = fetched-Cause _ shell.answer c refl })
                        (branch-Explained (cmd == codes "import") _ _ (λ c. import-Explained args)
                          (record {
                            why = λ h. absurd (let n : returned ≡ panicked = h in ground arith);
                          })))))))))

  -- A subcommand panics only for one of these causes: it takes an identifier and is given none; it has sent its
  -- request and the server cannot be reached; it lists the devices, and the token of one that the server sent
  -- cannot be cut after 45 bytes; or it exports, the server answers with 200, and the archive breaks off or
  -- cannot be written.
  pub run_command-Cause :
      (cmd : Text) (args : List Text)
      → (run_command json shell env cmd args).ended ≡ panicked
      → Cause cmd args (run_command json shell env cmd args)
  run_command-Cause cmd args h = (command-Explained cmd args).why h
