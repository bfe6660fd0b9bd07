-- ===== src/Sync/Engine/Echo.antt =====
-- internal/sync/engine.go: what of the rows that are received goes out again, and what becomes of a
-- reply to a row that was sent.
use flightdeck.Base.{
  ℕ, ◌≡◌, refl, sym, ap, ◌∙◌, subst, ◌↔◌, inl, inr, Bool, true, false, some, List, [], ◌∷◌, arith,
  nat_beq_iff, nat_eq, string_eq, Option-cases,
}
use flightdeck.Base.Assoc.{lookup, set}
use flightdeck.Base.Bytes.{Bytes, bytes_eq}
use flightdeck.Sync.Payload.{Item, ItemPayload, overwritten}
use flightdeck.Sync.Merge.{merge_conflict}
use flightdeck.Sync.Engine.{
  conflict_note, Wire, Db, Kind, Share, item, item_hash, is_unedited, kind_beq, put_state,
  record_applied, record_merged_base, settle_item, apply_straight, apply_merged, log_conflict,
  conflict_changes,
}
use flightdeck.Sync.Engine.Exchange.{sent_hashes, already_sent, item_row, push_outbound}
use flightdeck.Sync.Engine.Settle.{
  IsKeyed, Agrees, settled, settle_item-Agrees, settled-new, settled-unedited, settled-edited,
}
use flightdeck.Sync.Engine.Outbound.{Keeps, already_sent_iff, push_outbound-Keeps}

module _ (wire : Wire) where
  open wire use {
    Doc, Hash, hash_eq, hash, marshal_item, marshal_activity, uuid_string, uuid_parse, new_id,
  }

  apply_straight-sent :
      (saved : Item) (db : Db Hash)
      → already_sent wire (sent_hashes wire (apply_straight wire saved db)) (item_row wire saved)
        ≡ true
  unfolding apply_straight record_applied put_state sent_hashes item_row item_hash kind_beq
  apply_straight-sent saved db =
      (already_sent_iff wire (sent_hashes wire (apply_straight wire saved db))
          (item_row wire saved)).1
        (ground (arith, nat_beq_iff saved.id saved.id))

  is_unedited-base :
      (it : Item) (before after : Db Hash)
      → (after.states item it.id).base ≡ (before.states item it.id).base
      → is_unedited wire it after ≡ is_unedited wire it before
  unfolding is_unedited
  is_unedited-base it before after e = rw (is_unedited, e)

  -- A row that has an edit is sent, or not, by an outbound pass, and then the peer's next
  -- version of it arrives, which the peer may have made from what was sent: still, the two are
  -- merged as a conflict. The rows stand under their own ids.
  pub reply_is_merged :
      (accepts : ℕ → Bool) (a b : Bytes) (share : Share) (id : ℕ) (reply : ItemPayload)
      (db : Db Hash) (local : Item)
      → IsKeyed wire db
      → lookup id db.items ≡ some local
      → is_unedited wire local db ≡ false
      → Agrees wire
          (settle_item wire a b share id reply (push_outbound wire accepts a db).db)
          id
          (overwritten local (merge_conflict a b local reply))
  unfolding IsKeyed Keeps
  reply_is_merged accepts a b share id reply db local k h u =
      let after = (push_outbound wire accepts a db).db in
      let kept = push_outbound-Keeps wire accepts a db in
      let found : lookup id after.items ≡ some local = ap (lookup id) kept.0 ∙ h in
      let edited : is_unedited wire local after ≡ false =
        is_unedited-base local db after (kept.3 item local.id) ∙ u in
      subst (Agrees wire (settle_item wire a b share id reply after) id)
        (settled-edited wire a b share id reply after local found edited).1
        (settle_item-Agrees wire a b share id reply after
          (subst (λ m. (i : ℕ) (it : Item) → lookup i m ≡ some it → it.id ≡ i) (sym kept.0) k))

  -- A row that was not edited, or was not there, is not sent back after it took the received version.
  pub received_item_is_quiet :
      (a b : Bytes) (share : Share) (id : ℕ) (remote : ItemPayload) (db : Db Hash)
      → ((local : Item) → lookup id db.items ≡ some local → is_unedited wire local db ≡ true)
      → already_sent wire
          (sent_hashes wire (settle_item wire a b share id remote db))
          (item_row wire (settled wire a b share id remote db))
        ≡ true
  received_item_is_quiet a b share id remote db unedited =
      elim (Option-cases (lookup id db.items)) [
        | inl h ↦ quiet (settled-new wire a b share id remote db h)
        | inr (local, h) ↦
            quiet (settled-unedited wire a b share id remote db local h (unedited local h))
      ]
    where
      quiet :
          {saved : Item}
          → (settle_item wire a b share id remote db ≡ apply_straight wire saved db)
            × (settled wire a b share id remote db ≡ saved)
          → already_sent wire
              (sent_hashes wire (settle_item wire a b share id remote db))
              (item_row wire (settled wire a b share id remote db))
            ≡ true
      quiet {saved} e = rw (e.0, e.1) (apply_straight-sent saved db)

  apply_merged-sent :
      (saved : Item) (db : Db Hash)
      → (already_sent wire (sent_hashes wire (apply_merged wire saved db)) (item_row wire saved)
          ≡ true)
        ↔ ((db.states item saved.id).sent ≡ some (item_hash wire saved))
  unfolding apply_merged record_merged_base put_state sent_hashes item_row item_hash kind_beq
  apply_merged-sent saved db = ground (
    arith,
    nat_beq_iff saved.id saved.id,
    already_sent_iff wire (sent_hashes wire (apply_merged wire saved db)) (item_row wire saved),
  )

  log_conflict-states :
      (share : Share) (local : Item) (p : ItemPayload) (db : Db Hash) (k : Kind) (i : ℕ)
      → (log_conflict wire share local p db).states k i ≡ db.states k i
  unfolding log_conflict
  log_conflict-states share local p db k i = if_nil (conflict_changes wire local p)
    where
      if_nil :
          (cs : List Bytes)
          → (elim cs as (λ _. Db Hash) [
            | [] ↦ db
            | c ∷ cs ↦ record db {
              activities =
                  set
                    (new_id db)
                    (conflict_note wire share local (c ∷ cs) (new_id db))
                    db.activities;
            }
          ]).states
              k i
            ≡ db.states k i
      if_nil [] = refl
      if_nil (c ∷ cs) = refl

  -- In a database whose rows stand under their own ids, a row that was edited when an item for
  -- it was received counts as sent just where the merge is what this side sent last; else it is
  -- sent.
  merged_item_is_sent :
      (a b : Bytes) (share : Share) (id : ℕ) (remote : ItemPayload) (db : Db Hash) (local : Item)
      → IsKeyed wire db
      → lookup id db.items ≡ some local
      → is_unedited wire local db ≡ false
      → (already_sent wire
            (sent_hashes wire (settle_item wire a b share id remote db))
            (item_row wire (settled wire a b share id remote db))
          ≡ true)
        ↔ ((db.states item id).sent
            ≡ some (item_hash wire (overwritten local (merge_conflict a b local remote))))
  unfolding IsKeyed overwritten
  merged_item_is_sent a b share id remote db local k h u =
      let e = settled-edited wire a b share id remote db local h u in
      let saved = overwritten local (merge_conflict a b local remote) in
      let logged = log_conflict wire share local (merge_conflict a b local remote) db in
      rw (e.0, e.1)
        (subst
          (λ st.
            (already_sent wire (sent_hashes wire (apply_merged wire saved logged))
                (item_row wire saved)
              ≡ true)
            ↔ (st.sent ≡ some (item_hash wire saved)))
          (log_conflict-states share local (merge_conflict a b local remote) db item local.id
            ∙ ap (db.states item) (k id local h))
          (apply_merged-sent saved logged))
