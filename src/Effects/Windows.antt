-- ===== src/Effects/Windows.antt =====
-- The windows of validity stay between a day and a year.
use password_manager_server.Prelude.{
  ℕ, ◌≡◌, inl, inr, none, Bool, Text, ◌==◌, All, All-append, All-modify,
}
use password_manager_server.Crates.{Crates}
use password_manager_server.Config.{Config}
use password_manager_server.Schema.{Db, Password, NewPassword, UpdatePassword}
use password_manager_server.Prog.{World}
use password_manager_server.Domain.Rows.{passwords_clash, has_group}
use password_manager_server.Domain.Outcome.{insert_row-cases, update_row-cases}
use password_manager_server.Domain.Password
use password_manager_server.Domain.Identity
use password_manager_server.Server.System.{System, Reach}
use password_manager_server.Effects.Interleaving.{Reach-Change}
use password_manager_server.Effects.Frames.{
  user_insert-frame, user_set-frame, identity_insert-frame, identity_set-frame, group_insert-frame,
}
use password_manager_server.Effects.Change.{
  Change, DaysInRange, kept, user_added, user_set, identity_added, identity_set, identity_removed,
  group_added, password_added, password_set, both,
}

-- The window of the row is in range.
abbrev pub RowInRange : Password → Type 0
RowInRange p = DaysInRange p.valid_since_days

inserted :
    (new : NewPassword) (now : ℕ) (a : Db)
    → DaysInRange new.valid_since_days
    → All RowInRange a.passwords
    → All RowInRange (Password.insert new now a).1.passwords
unfolding Password.insert
inserted new now a d h =
    elim (insert_row-cases passwords_clash (has_group a.groups new.group_id)
      (Password.row_of now new) a.passwords) [
        | inl (e, r) ↦ rw (r, Password.insert) h
        | inr (fresh, _, r) ↦
            rw (r, Password.insert) (All-append RowInRange a.passwords _ h (d, tt))
      ]

updated :
    (uuid : Text) (changes : UpdatePassword) (stamp now : ℕ) (a : Db)
    → changes.valid_since_days ≡ none
    → All RowInRange a.passwords
    → All RowInRange (Password.set_row uuid changes stamp now a).1.passwords
unfolding Password.set_row Password.apply
updated uuid changes stamp now a e h =
    elim (update_row-cases passwords_clash (λ p. p.uuid == uuid) (Password.apply changes stamp)
      (λ p. has_group a.groups p.group_id) a.passwords) [
        | inl (_, r) ↦ rw (r, Password.set_row) h
        | inr (old, (found, fresh, _, r)) ↦
            rw (r, Password.set_row) (All-modify RowInRange _ _ a.passwords (λ p q _. rw e q) h)
      ]

Change-windows :
    {admin : Bool} {a b : Db}
    → Change admin a b
    → All RowInRange a.passwords
    → All RowInRange b.passwords
Change-windows (kept e) h = rw e h
Change-windows {a = a} (user_added new now d e) h =
    rw (e, (user_insert-frame now a new).passwords) h
Change-windows {a = a} (user_set uuid changes stamp now p e) h =
    rw (e, (user_set-frame now a uuid changes stamp).passwords) h
Change-windows {a = a} (identity_added new now d e) h =
    rw (e, (identity_insert-frame now a new).passwords) h
Change-windows {a = a} (identity_set uuid changes stamp now p e) h =
    rw (e, (identity_set-frame now a uuid changes stamp).passwords) h
Change-windows (identity_removed uuid p e) h = rw e (unfold Identity.remove_rows in h)
Change-windows {a = a} (group_added new now e) h =
    rw (e, (group_insert-frame now a new).passwords) h
Change-windows (password_added new now d e) h = rw e (inserted new now _ d h)
Change-windows (password_set uuid changes stamp now d e) h =
    rw e (updated uuid changes stamp now _ d h)
Change-windows (both m s t) h = Change-windows t (Change-windows s h)

-- Whatever is asked for, every password that the server has lives between 1 and 365 days, if those it
-- started with do, however the requests interleave.
pub reachable-DaysInRange :
    {c : Crates} {cfg : Config} {admin : Bool} {w : World} {s : System}
    → Reach c cfg admin w s
    → All RowInRange w.db.passwords
    → All RowInRange s.world.db.passwords
reachable-DaysInRange r = Change-windows (Reach-Change r)
