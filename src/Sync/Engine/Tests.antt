-- ===== src/Sync/Engine/Tests.antt =====
-- internal/sync/engine.go: the theorems on two sample databases.
use flightdeck.Base.{
  ℕ, ◌≡◌, refl, subst, ◌↔◌, true, false, Option, some, List, [], ◌∷◌, map, arith, nat_eq, string_eq,
}
use flightdeck.Base.Bytes.{Bytes, codes, bytes_eq, contains_text}
use flightdeck.Base.Assoc.{lookup}
use flightdeck.Sync.Payload.{
  Item, ItemPayload, item_payload, overwritten, Activity, ActivityPayload, activity_payload,
}
use flightdeck.Sync.Merge.{merge_conflict}
use flightdeck.Sync.Merge.Bodies.{merge_conflict-keeps_bodies}
use flightdeck.Sync.Merge.Symmetry.{SameRest, merge_agrees_iff}
use flightdeck.Sync.Engine.{
  is_valid_activity, Db, apply_item, kind_beq, apply, open_sealed, Envelope, is_unedited,
  settle_item, settle_activity, received_activity,
}
use flightdeck.Sync.Engine.Exchange.{
  pull_inbound, sent_hashes, already_sent, item_row, activity_row, rows, push_outbound,
}
use flightdeck.Sync.Engine.Settle.{
  IsKeyed, Agrees, settled, settle_item-Agrees, redelivery_overwrites, conflict_exchange,
}
use flightdeck.Sync.Engine.Traffic.{Handled, pull_inbound-acked}
use flightdeck.Sync.Engine.Outbound.{same_row, Separate, push_outbound-quiet}
use flightdeck.Sync.Engine.Echo.{reply_is_merged, received_item_is_quiet}
use flightdeck.Sync.Engine.Notes.{IsFaithful, unattached_activity_echoes}
use flightdeck.Sync.Engine.Samples.{
  a_wire, an_item, with_item, shared, a_share, digits, fields_faithful,
}

abbrev us : Bytes
us = codes "a"

abbrev them : Bytes
them = codes "b"

abbrev theirs : ItemPayload
theirs = item_payload digits (an_item (codes "red"))

keyed : (body : Bytes) → IsKeyed a_wire (with_item body)
unfolding IsKeyed lookup
keyed body i it h = ground arith

unkept : (body : Bytes) → is_unedited a_wire (an_item body) (with_item body) ≡ false
unfolding is_unedited
unkept body = refl

here : (body : Bytes) → lookup 4 (with_item body).items ≡ some (an_item body)
unfolding lookup
here body = refl

merge_conflict-keeps_bodies_example :
    (contains_text (merge_conflict us them (an_item (codes "blue")) theirs).body (codes "blue")
      ≡ true)
    × (contains_text (merge_conflict us them (an_item (codes "blue")) theirs).body (codes "red")
        ≡ true)
unfolding item_payload
merge_conflict-keeps_bodies_example =
    merge_conflict-keeps_bodies us them (an_item (codes "blue")) theirs

settle_item-Agrees_example :
    Agrees a_wire
      (settle_item a_wire us them a_share 4 theirs (with_item (codes "blue")))
      4
      (settled a_wire us them a_share 4 theirs (with_item (codes "blue")))
settle_item-Agrees_example =
    settle_item-Agrees a_wire us them a_share 4 theirs (with_item (codes "blue"))
      (keyed (codes "blue"))

abbrev merged_here : Item
merged_here =
    overwritten (an_item (codes "blue")) (merge_conflict us them (an_item (codes "blue")) theirs)

redelivery_overwrites_example :
    (Agrees a_wire
      (settle_item a_wire us them a_share 4 theirs (with_item (codes "blue")))
      4
      merged_here)
    × (Agrees a_wire
        (settle_item a_wire us them a_share 4 theirs
          (settle_item a_wire us them a_share 4 theirs (with_item (codes "blue"))))
        4
        (overwritten merged_here theirs))
redelivery_overwrites_example =
    redelivery_overwrites a_wire us them a_share 4 theirs (with_item (codes "blue"))
      (an_item (codes "blue")) (keyed (codes "blue")) (here (codes "blue")) (unkept (codes "blue"))

abbrev merged_there : Item
merged_there =
    overwritten (an_item (codes "red")) (
      merge_conflict them us (an_item (codes "red")) (item_payload digits (an_item (codes "blue"))))

conflict_exchange_example :
    (Agrees a_wire
      (settle_item a_wire us them a_share 4
        (item_payload digits merged_there)
        (settle_item a_wire us them a_share 4 theirs (with_item (codes "blue"))))
      4
      (overwritten merged_here (item_payload digits merged_there)))
    × (Agrees a_wire
        (settle_item a_wire them us a_share 4 (item_payload digits merged_here) (
          settle_item a_wire them us a_share 4
            (item_payload digits (an_item (codes "blue")))
            (with_item (codes "red"))))
        4
        (overwritten merged_there (item_payload digits merged_here)))
conflict_exchange_example =
    conflict_exchange a_wire us them a_share a_share 4 (with_item (codes "blue"))
      (with_item (codes "red")) (an_item (codes "blue")) (an_item (codes "red"))
      (keyed (codes "blue")) (keyed (codes "red")) (here (codes "blue")) (here (codes "red"))
      (unkept (codes "blue")) (unkept (codes "red"))

merge_agrees_iff_example :
    (merge_conflict us them (an_item (codes "blue")) theirs
      ≡ merge_conflict them us
          (an_item (codes "red"))
          (item_payload digits (an_item (codes "blue"))))
    ↔ SameRest (item_payload digits (an_item (codes "blue"))) theirs
merge_agrees_iff_example =
    merge_agrees_iff digits us them (ground arith) (an_item (codes "blue")) (an_item (codes "red"))
      refl

reply_is_merged_example :
    Agrees a_wire
      (settle_item a_wire us them a_share 4 theirs
        (push_outbound a_wire (λ _. true) us (with_item (codes "blue"))).db)
      4
      merged_here
reply_is_merged_example =
    reply_is_merged a_wire (λ _. true) us them a_share 4 theirs (with_item (codes "blue"))
      (an_item (codes "blue")) (keyed (codes "blue")) (here (codes "blue")) (unkept (codes "blue"))

received_item_is_quiet_example :
    already_sent a_wire
      (sent_hashes a_wire (settle_item a_wire us them a_share 4 theirs (shared [])))
      (item_row a_wire (settled a_wire us them a_share 4 theirs (shared [])))
    ≡ true
unfolding lookup
received_item_is_quiet_example =
    received_item_is_quiet a_wire us them a_share 4 theirs (shared []) λ local h. ground arith

push_outbound-quiet_example :
    (push_outbound a_wire
      (λ _. true)
      us
      (push_outbound a_wire (λ _. true) us (with_item (codes "blue"))).db).sent
    ≡ []
unfolding Separate rows same_row kind_beq push_outbound
push_outbound-quiet_example =
    push_outbound-quiet a_wire (λ _. true) (λ _. true) us (with_item (codes "blue"))
      (((refl, tt), (refl, tt)), ((tt, tt), tt)) refl

abbrev two_messages : List (ℕ × Envelope a_wire.Doc)
two_messages =
    (
      8,
      record {
        version = 1;
        kind = codes "item";
        origin = them;
        payload = a_wire.marshal_item theirs;
      },
    )
    ∷ (
      9,
      record {
        version = 1;
        kind = codes "item";
        origin = us;
        payload = a_wire.marshal_item theirs;
      },
    )
    ∷ []

pull_inbound-acked_example :
    (8 ∷ 9 ∷ [] ≡ map (λ m. m.0) two_messages)
    × Handled a_wire us a_share
        (shared [])
        two_messages
        (pull_inbound a_wire us a_share two_messages (shared [])).db
unfolding pull_inbound open_sealed apply apply_item item_payload
pull_inbound-acked_example =
    pull_inbound-acked a_wire us a_share two_messages (shared []) (8 ∷ 9 ∷ []) refl

abbrev a_note : Option ℕ → Activity
a_note item_id = record {
  id = 6;
  project_id = 1;
  item_id = item_id;
  kind = codes "comment";
  actor = codes "ann";
  body = codes "ok";
  metadata = codes "{}";
  confidence = codes "unspecified";
  created_at = 12;
}

abbrev note_sent : ActivityPayload
note_sent = activity_payload digits (a_note (some 4))

unattached_activity_echoes_example :
    (after : Db (List Bytes)) × (settle_activity a_wire a_share 6 note_sent (shared [])
      ≡ some after)
    × (lookup 6 after.activities ≡ some (received_activity a_wire a_share 6 note_sent (shared [])))
    × (already_sent a_wire
          (sent_hashes a_wire after)
          (activity_row a_wire (received_activity a_wire a_share 6 note_sent (shared [])))
        ≡ false)
unfolding IsFaithful lookup activity_payload is_valid_activity received_activity
unattached_activity_echoes_example =
    unattached_activity_echoes a_wire a_share 6 4 (digits 4) note_sent (shared []) fields_faithful
      refl refl refl refl refl

attachable :
    (i : ℕ)
    → (a_note (some 4)).item_id ≡ some i
    → (it : Item) × (lookup i (with_item (codes "blue")).items ≡ some it)
attachable i e =
    let same : 4 ≡ i = ground arith in
    (
      an_item (codes "blue"),
      subst (λ j. lookup j (with_item (codes "blue")).items ≡ some (an_item (codes "blue"))) same
          (here (codes "blue")),
    )
