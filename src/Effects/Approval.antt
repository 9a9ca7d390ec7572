-- ===== src/Effects/Approval.antt =====
-- Only an administrator approves a device.
use password_manager_server.Prelude.{
  ℕ, ◌≡◌, inl, inr, Bool, true, false, List, [], ◌∷◌, ◌&&◌, Text, Bytes, ◌==◌, is_value, any,
  modify, arith, any-append,
}
use password_manager_server.Crates.{Crates}
use password_manager_server.Config.{Config}
use password_manager_server.Schema.{Db, Identity, NewIdentity, UpdateIdentity}
use password_manager_server.Prog.{World}
use password_manager_server.Domain.Rows.{identities_clash, has_owner}
use password_manager_server.Domain.Outcome.{insert_row-cases, update_row-cases}
use password_manager_server.Domain.Identity
use password_manager_server.Server.System.{System, Reach}
use password_manager_server.Effects.Interleaving.{Reach-Change}
use password_manager_server.Effects.Frames.{
  user_insert-frame, group_insert-frame, password_insert-frame, password_set-frame,
}
use password_manager_server.Effects.Change.{
  Change, IsCautious, kept, user_added, user_set, identity_added, identity_set, identity_removed,
  group_added, password_added, password_set, both,
}

-- The device `uuid` is approved, as a device of `user` at the address `ip` with the key `key`.
unfoldable pub approved_row : Text → Text → Text → Bytes → Identity → Bool
approved_row uuid user ip key i =
    i.uuid == uuid
    && (i.is_confirmed
        && (is_value i.user_id user && (i.ip_address == ip && i.client_public_key == key)))

unfoldable pub is_approved : Text → Text → Text → Bytes → Db → Bool
is_approved uuid user ip key db = any (approved_row uuid user ip key) db.identities

module _ (uuid user ip : Text) (key : Bytes) where
  -- A row that is approved after a cautious change was approved before.
  row_before :
      (changes : UpdateIdentity) (stamp : ℕ) (i : Identity)
      → IsCautious false changes
      → approved_row uuid user ip key (Identity.apply changes stamp i) ≡ true
      → approved_row uuid user ip key i ≡ true
  unfolding approved_row Identity.apply
  row_before changes stamp i c h = ground (arith, c.approves)

  any_before :
      (p : Identity → Bool) (changes : UpdateIdentity) (stamp : ℕ) (is : List Identity)
      → IsCautious false changes
      → any (approved_row uuid user ip key) (modify p (Identity.apply changes stamp) is) ≡ true
      → any (approved_row uuid user ip key) is ≡ true
  unfolding any modify
  any_before p changes stamp [] c h = h
  any_before p changes stamp (i ∷ is) c h =
      ground (arith, row_before changes stamp i, any_before p changes stamp is)

  set_before :
      (id : Text) (changes : UpdateIdentity) (stamp now : ℕ) (db : Db)
      → IsCautious false changes
      → is_approved uuid user ip key (Identity.set_row id changes stamp now db).1 ≡ true
      → is_approved uuid user ip key db ≡ true
  unfolding is_approved Identity.set_row
  set_before id changes stamp now db c =
      elim (update_row-cases identities_clash (λ i. i.uuid == id) (Identity.apply changes stamp)
        (λ i. has_owner db.users i.user_id) db.identities) [
          | inl (e, r) ↦ rw (r, Identity.set_row) (λ h. h)
          | inr (old, (found, fresh, owned, r)) ↦
              rw (r, Identity.set_row) (any_before _ changes stamp db.identities c)
        ]

  insert_before :
      (new : NewIdentity) (now : ℕ) (db : Db)
      → new.is_confirmed ≡ false
      → is_approved uuid user ip key (Identity.insert new now db).1 ≡ true
      → is_approved uuid user ip key db ≡ true
  unfolding is_approved Identity.insert any approved_row
  insert_before new now db c =
      elim (insert_row-cases identities_clash (has_owner db.users new.user_id)
        (Identity.row_of now new) db.identities) [
          | inl (e, r) ↦ rw (r, Identity.insert) (λ h. h)
          | inr (fresh, owned, r) ↦
              rw (r, Identity.insert)
                (λ h. ground (
                  arith,
                  any-append (approved_row uuid user ip key) db.identities
                      (Identity.row_of now new ∷ []),
                ))
        ]

  approved-Change :
      {a b : Db}
      → Change false a b
      → is_approved uuid user ip key b ≡ true
      → is_approved uuid user ip key a ≡ true
  approved-Change (kept e) h = rw e at h
  approved-Change {a} (user_added new now d e) h =
      unfold is_approved in rw (← (user_insert-frame now a new).identities) (rw e at h)
  approved-Change (user_set id changes stamp now p e) h = cc
  approved-Change {a} (identity_added new now d e) h = insert_before new now a d (rw e at h)
  approved-Change {a} (identity_set id changes stamp now p e) h =
      set_before id changes stamp now a p (rw e at h)
  approved-Change (identity_removed id p e) h = cc
  approved-Change {a} (group_added new now e) h =
      unfold is_approved in rw (← (group_insert-frame now a new).identities) (rw e at h)
  approved-Change {a} (password_added new now d e) h =
      unfold is_approved in rw (← (password_insert-frame now a new).identities) (rw e at h)
  approved-Change {a} (password_set id changes stamp now d e) h =
      unfold is_approved in
      rw (← (password_set-frame now a id changes stamp).identities) (rw e at h)
  approved-Change (both m s t) h = approved-Change s (approved-Change t h)

  -- While no request passes both gates of an administrator, a device that is approved for a user, at
  -- an address and with a client key, was so from the beginning: no public request, in whatever order
  -- requests interleave, approves a device or carries an approval over to another user, address or key.
  pub approval_needs_admin :
      {c : Crates} {cfg : Config} {w : World} {s : System}
      → Reach c cfg false w s
      → is_approved uuid user ip key s.world.db ≡ true
      → is_approved uuid user ip key w.db ≡ true
  approval_needs_admin r = approved-Change (Reach-Change r)
