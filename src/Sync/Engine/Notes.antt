-- ===== src/Sync/Engine/Notes.antt =====
-- internal/sync/engine.go, `applyActivity`: the activity rows that are received.
use flightdeck.Base.{
  ℕ, ◌≡◌, refl, sym, ap, ◌↔◌, inl, inr, true, false, Option, none, some, [], ◌∷◌, arith,
  nat_beq_iff, nat_eq, string_eq, Bool-cases,
}
use flightdeck.Base.Assoc.{lookup, lookup-set_self}
use flightdeck.Base.Bytes.{Bytes, bytes_eq}
use flightdeck.Sync.Payload.{Item, empty_json_stays, Activity, ActivityPayload, activity_payload}
use flightdeck.Sync.Engine.{
  Wire, Db, Share, activity, kind_beq, put_state, record_applied, settle_activity,
  received_activity, upsert_activity, attach, is_valid_activity, add_activity,
}
use flightdeck.Sync.Engine.Exchange.{sent_hashes, already_sent, activity_row}
use flightdeck.Sync.Engine.Outbound.{already_sent_iff}

module _ (wire : Wire) where
  open wire use {Doc, Hash, hash_eq, hash, marshal_activity, uuid_string, uuid_parse}

  -- Hashing does not confuse two activities: SHA-256 has no collision, and json.Marshal is injective.
  unfoldable pub IsFaithful : Type 0
  IsFaithful =
      (p q : ActivityPayload) → hash (marshal_activity p) ≡ hash (marshal_activity q) → p ≡ q

  -- The database after an activity that it takes.
  abbrev taken_in : Share → ℕ → ActivityPayload → Db Hash → Db Hash
  taken_in share id remote db =
      record_applied activity id (hash (marshal_activity remote))
        (add_activity wire (received_activity wire share id remote db) db)

  settle_activity-valid :
      (share : Share) (id : ℕ) (remote : ActivityPayload) (db : Db Hash)
      → is_valid_activity wire (received_activity wire share id remote db) ≡ true
      → settle_activity wire share id remote db ≡ some (taken_in share id remote db)
  unfolding settle_activity upsert_activity
  settle_activity-valid share id remote db valid = rw (valid, settle_activity)

  taken_in-sent :
      (share : Share) (id : ℕ) (remote : ActivityPayload) (db : Db Hash)
      → ((taken_in share id remote db).states activity id).sent
        ≡ some (hash (marshal_activity remote))
  unfolding record_applied put_state kind_beq
  taken_in-sent share id remote db = ground (arith, nat_beq_iff id id)

  taken_in-stored :
      (share : Share) (id : ℕ) (remote : ActivityPayload) (db : Db Hash)
      → lookup id db.activities ≡ none
      → lookup id (taken_in share id remote db).activities
        ≡ some (received_activity wire share id remote db)
  unfolding record_applied put_state add_activity received_activity
  taken_in-stored share id remote db h =
      rw (h, add_activity)
        (lookup-set_self id (received_activity wire share id remote db) db.activities)

  attach-missing :
      (text : Bytes) (i : ℕ) (db : Db Hash)
      → uuid_parse text ≡ some i
      → lookup i db.items ≡ none
      → attach wire (some text) db ≡ none
  unfolding attach
  attach-missing text i db u n = rw (attach, u, n)

  attach-here :
      (i : ℕ) (it : Item) (db : Db Hash)
      → uuid_parse (uuid_string i) ≡ some i
      → lookup i db.items ≡ some it
      → attach wire (some (uuid_string i)) db ≡ some i
  unfolding attach
  attach-here i it db u n = rw (attach, u, n)

  attach-sent :
      (o : Option ℕ) (db : Db Hash)
      → ((i : ℕ) → uuid_parse (uuid_string i) ≡ some i)
      → ((i : ℕ) → o ≡ some i → (it : Item) × (lookup i db.items ≡ some it))
      → attach wire (elim o [ none ↦ none | some i ↦ some (uuid_string i) ]) db ≡ o
  unfolding attach
  attach-sent none db parses here = refl
  attach-sent (some i) db parses here =
      let found = here i refl in attach-here i found.0 db (parses i) found.1

  confidence_stays :
      (c : Bytes)
      → elim (elim c as (λ _. Option Bytes) [ [] ↦ none | x ∷ xs ↦ some (x ∷ xs) ])
          as (λ _. Bytes) [ none ↦ [] | some d ↦ d ]
        ≡ c
  confidence_stays [] = refl
  confidence_stays (x ∷ xs) = refl

  received_activity-payload :
      (share : Share) (a : Activity) (db : Db Hash)
      → ((i : ℕ) → uuid_parse (uuid_string i) ≡ some i)
      → ((i : ℕ) → a.item_id ≡ some i → (it : Item) × (lookup i db.items ≡ some it))
      → activity_payload uuid_string
          (received_activity wire share a.id (activity_payload uuid_string a) db)
        ≡ activity_payload uuid_string a
  unfolding activity_payload received_activity
  received_activity-payload share a db parses here = rw (
    attach-sent a.item_id db parses here,
    confidence_stays a.confidence,
    empty_json_stays a.metadata,
  )

  resent :
      (share : Share) (id : ℕ) (remote : ActivityPayload) (db : Db Hash)
      → (already_sent wire
            (sent_hashes wire (taken_in share id remote db))
            (activity_row wire (received_activity wire share id remote db))
          ≡ true)
        ↔ (hash (marshal_activity remote)
            ≡ hash (
                marshal_activity
                  (activity_payload uuid_string (received_activity wire share id remote db))))
  unfolding sent_hashes activity_row received_activity
  resent share id remote db = ground (
    arith,
    taken_in-sent share id remote db,
    already_sent_iff wire (sent_hashes wire (taken_in share id remote db))
        (activity_row wire (received_activity wire share id remote db)),
  )

  -- A new activity of a kind and a confidence that the table takes, which names an item that is not
  -- here, is stored, and its row does not count as sent, so that it goes back to the instance it came
  -- from, if hashing tells different activities apart.
  pub unattached_activity_echoes :
      (share : Share) (id i : ℕ) (text : Bytes) (remote : ActivityPayload) (db : Db Hash)
      → IsFaithful
      → is_valid_activity wire (received_activity wire share id remote db) ≡ true
      → lookup id db.activities ≡ none
      → remote.item_id ≡ some text
      → uuid_parse text ≡ some i
      → lookup i db.items ≡ none
      → let a = received_activity wire share id remote db in
        (after : Db Hash) × (settle_activity wire share id remote db ≡ some after)
        × (lookup id after.activities ≡ some a)
        × (already_sent wire (sent_hashes wire after) (activity_row wire a) ≡ false)
  unfolding IsFaithful sent_hashes activity_row activity_payload received_activity attach
  unattached_activity_echoes share id i text remote db f valid h t u n = (
    taken_in share id remote db,
    settle_activity-valid share id remote db valid,
    taken_in-stored share id remote db h,
    elim (Bool-cases _) [
      | inr e ↦ e
      | inl e ↦
          let same = f remote _ ((resent share id remote db).0 e) in
          ground (arith, ap (λ p. p.item_id) same, attach-missing text i db u n, t)
    ],
  )

  -- A new activity of the other instance, on an item that is here or on none, is stored with the
  -- same payload as there once it is taken, and counts as sent, if parsing an id undoes printing it.
  attached_activity_is_quiet :
      (share : Share) (a : Activity) (db : Db Hash)
      → ((i : ℕ) → uuid_parse (uuid_string i) ≡ some i)
      → ((i : ℕ) → a.item_id ≡ some i → (it : Item) × (lookup i db.items ≡ some it))
      → lookup a.id db.activities ≡ none
      → let p = activity_payload uuid_string a in
        let got = received_activity wire share a.id p db in
        (lookup a.id (taken_in share a.id p db).activities ≡ some got)
        × (activity_payload uuid_string got ≡ p)
        × (already_sent wire (sent_hashes wire (taken_in share a.id p db)) (activity_row wire got)
            ≡ true)
  unfolding sent_hashes activity_row
  attached_activity_is_quiet share a db parses here h = (
    taken_in-stored share a.id (activity_payload uuid_string a) db h,
    received_activity-payload share a db parses here,
    (resent share a.id (activity_payload uuid_string a) db).1 (
        ap (λ p. hash (marshal_activity p))
          (sym (received_activity-payload share a db parses here))),
  )
