-- ===== src/Sync/Engine.antt =====
-- internal/sync/engine.go: one side of the exchange, for one share. The database is the items and
-- activities of all projects, which are looked up by id, the shared project and the hashes of
-- project_share_state. What the code takes from other packages is a `Wire`: JSON, SHA-256, the
-- cipher, UUIDs, `%q` and the ids that the database draws. Of the failures of a database call, a
-- missing row and the refusal of an activity's kind or confidence are modelled; the others are left
-- out, and so are the timestamps and the log.
mod State
pub mod Exchange
pub mod Settle
pub mod Traffic
pub mod Outbound
pub mod Echo
pub mod Notes
pub mod Samples
mod Tests
unfoldable pub use State.*
use flightdeck.Base.{
  ◌&&◌, contains, ℕ, ◌+◌, Bool, false, Option, none, some, List, [], ◌∷◌, ◌++◌, if◌then◌else◌, ◌==◌,
  nat_eq, string_eq,
}
use flightdeck.Base.Assoc.{lookup, set}
use flightdeck.Base.Bytes.{Bytes, codes, bytes_eq}
use flightdeck.Sync.Payload.{
  Item, ItemPayload, Activity, ActivityPayload, Project, item_payload, project_payload, inserted,
  overwritten, or_empty_json,
}
use flightdeck.Sync.Merge.{merge_conflict}

-- " → " in UTF-8.
abbrev arrow : Bytes
arrow = 32 ∷ 226 ∷ 134 ∷ 146 ∷ 32 ∷ []

pub join_many : Bytes → List Bytes → Bytes
join_many out [] = out
join_many out (c ∷ []) = out ++ codes ", and " ++ c
join_many out (c ∷ cs) = join_many (out ++ codes ", " ++ c) cs

pub join_changes : List Bytes → Bytes
unfolding join_many
join_changes [] = []
join_changes (a ∷ []) = a
join_changes (a ∷ b ∷ []) = a ++ codes " and " ++ b
join_changes (a ∷ b ∷ cs) = join_many a (b ∷ cs)

module _ (wire : Wire) where
  open wire use {
    Doc, Hash, Sealed, hash_eq, hash, marshal_item, marshal_activity, marshal_project, decode_item,
    decode_activity, decode_project, seal, decrypt, uuid_string, uuid_parse, quote, new_id, now,
  }

  -- ContentHash of a row's payload.
  unfoldable pub item_hash : Item → Hash
  item_hash it = hash (marshal_item (item_payload uuid_string it))

  -- Open: what does not decrypt, decode or carry the protocol's version is refused.
  unfoldable pub open_sealed : Sealed → Option (Envelope Doc)
  open_sealed sealed = elim (decrypt sealed) [
    | none ↦ none
    | some env ↦ if env.version == protocol_version then some env else none
  ]

  unfoldable pub conflict_changes : Item → ItemPayload → List Bytes
  conflict_changes local remote =
      (if local.status == remote.status
        then []
        else (codes "status " ++ local.status ++ arrow ++ remote.status) ∷ [])
      ++ (if local.priority == remote.priority
          then []
          else (codes "priority " ++ local.priority ++ arrow ++ remote.priority) ∷ [])
      ++ (if local.title == remote.title
          then []
          else (codes "title " ++ quote local.title ++ arrow ++ quote remote.title) ∷ [])

  peer_of : Share → Bytes
  peer_of share = if share.peer_name == [] then codes "the other instance" else share.peer_name

  unfoldable pub conflict_note : Share → Item → List Bytes → ℕ → Activity
  unfolding join_changes peer_of
  conflict_note share local changes id = record {
    id = id;
    project_id = local.project_id;
    item_id = some local.id;
    kind = codes "comment";
    actor = codes "sync";
    body =
        codes "Sync conflict: this item was edited here and on "
        ++ peer_of share
        ++ codes " at the same time. Bodies were merged; "
        ++ join_changes changes
        ++ codes ". The previous local values are preserved in this note.";
    metadata = codes "{}";
    confidence = codes "unspecified";
    created_at = now;
  }

  unfoldable pub log_conflict : Share → Item → ItemPayload → Db Hash → Db Hash
  unfolding conflict_note
  log_conflict share local remote db = elim (conflict_changes local remote) [
    | [] ↦ db
    | c ∷ cs ↦ record db {
      activities = set (new_id db) (conflict_note share local (c ∷ cs) (new_id db)) db.activities;
    }
  ]

  unfoldable pub upsert_item : Item → Db Hash → Db Hash
  upsert_item it db = record db { items = set it.id it db.items }

  -- A straight apply: both sides hold exactly this.
  unfoldable pub apply_straight : Item → Db Hash → Db Hash
  unfolding upsert_item record_applied item_hash
  apply_straight saved db = record_applied item saved.id (item_hash saved) (upsert_item saved db)

  unfoldable pub apply_merged : Item → Db Hash → Db Hash
  unfolding upsert_item record_merged_base item_hash
  apply_merged saved db = record_merged_base item saved.id (item_hash saved) (upsert_item saved db)

  -- The row is as both sides last agreed.
  unfoldable pub is_unedited : Item → Db Hash → Bool
  unfolding item_hash
  is_unedited local db = elim (db.states item local.id).base [
    | none ↦ false
    | some h ↦ hash_eq.same (item_hash local) h
  ]

  unfoldable pub resolve : Bytes → Bytes → Share → ItemPayload → Item → Db Hash → Db Hash
  resolve instance_id origin share remote local db =
      if is_unedited local db
      then apply_straight (overwritten local remote) db
      else let merged = merge_conflict instance_id origin local remote in
        apply_merged (overwritten local merged) (log_conflict share local merged db)

  -- The payload with its id parsed.
  unfoldable pub settle_item : Bytes → Bytes → Share → ℕ → ItemPayload → Db Hash → Db Hash
  unfolding resolve
  settle_item instance_id origin share id remote db = elim (lookup id db.items) [
    | none ↦ apply_straight (inserted id share.project_id remote) db
    | some local ↦ resolve instance_id origin share remote local db
  ]

  -- `none` is an error: the message stays unacked.
  unfoldable pub apply_item : Bytes → Bytes → Share → Doc → Db Hash → Option (Db Hash)
  apply_item instance_id origin share doc db = elim (decode_item doc) [
    | none ↦ none
    | some remote ↦ elim (uuid_parse remote.id) [
      | none ↦ none
      | some id ↦ some (settle_item instance_id origin share id remote db)
    ]
  ]

  -- Only an item that is here is attached.
  attach : Option Bytes → Db Hash → Option ℕ
  attach none db = none
  attach (some text) db = elim (uuid_parse text) [
    | none ↦ none
    | some i ↦ elim (lookup i db.items) [ none ↦ none | some _ ↦ some i ]
  ]

  unfoldable pub received_activity : Share → ℕ → ActivityPayload → Db Hash → Activity
  unfolding attach or_empty_json
  received_activity share id remote db = record {
    id = id;
    project_id = share.project_id;
    item_id = attach remote.item_id db;
    kind = remote.kind;
    actor = remote.actor;
    body = remote.body;
    metadata = or_empty_json remote.metadata;
    confidence = elim remote.confidence [ none ↦ [] | some c ↦ c ];
    created_at = remote.created_at;
  }

  abbrev pub synced_kinds : List Bytes
  synced_kinds =
      codes "decision"
      ∷ codes "progress"
      ∷ codes "status_change"
      ∷ codes "comment"
      ∷ codes "created"
      ∷ codes "rejected"
      ∷ []

  abbrev pub synced_confidences : List Bytes
  synced_confidences = codes "unspecified" ∷ codes "inferred" ∷ codes "confirmed" ∷ []

  -- The CHECK constraints of the activity table.
  unfoldable pub is_valid_activity : Activity → Bool
  is_valid_activity a = contains synced_kinds a.kind && contains synced_confidences a.confidence

  -- The INSERT: a row that is there stays as it is.
  unfoldable pub add_activity : Activity → Db Hash → Db Hash
  add_activity a db = elim (lookup a.id db.activities) [
    | none ↦ record db { activities = set a.id a db.activities }
    | some _ ↦ db
  ]

  -- UpsertSyncedActivity. The constraints are checked before the conflict is looked for.
  unfoldable pub upsert_activity : Activity → Db Hash → Option (Db Hash)
  unfolding is_valid_activity add_activity
  upsert_activity a db = if is_valid_activity a then some (add_activity a db) else none

  unfoldable pub settle_activity : Share → ℕ → ActivityPayload → Db Hash → Option (Db Hash)
  unfolding upsert_activity received_activity record_applied
  settle_activity share id remote db =
      elim (upsert_activity (received_activity share id remote db) db) [
        | none ↦ none
        | some after ↦ some (record_applied activity id (hash (marshal_activity remote)) after)
      ]

  unfoldable pub apply_activity : Share → Doc → Db Hash → Option (Db Hash)
  apply_activity share doc db = elim (decode_activity doc) [
    | none ↦ none
    | some remote ↦ elim (uuid_parse remote.id) [
      | none ↦ none
      | some id ↦ settle_activity share id remote db
    ]
  ]

  unfoldable pub apply_project : Share → Doc → Db Hash → Option (Db Hash)
  unfolding record_applied
  apply_project share doc db = elim (decode_project doc) [
    | none ↦ none
    | some remote ↦
        let saved : Project = record db.the_project {
          name = remote.name;
          summary = remote.summary;
          instructions = remote.instructions;
        } in
        some (
          record_applied project share.project_id
            (hash (marshal_project (project_payload uuid_string saved)))
            (record db { the_project = saved }))
  ]

  unfoldable pub apply : Bytes → Share → Envelope Doc → Db Hash → Option (Db Hash)
  apply instance_id share env db =
      if env.kind == kind_text item
      then apply_item instance_id env.origin share env.payload db
      else if env.kind == kind_text activity
      then apply_activity share env.payload db
      else if env.kind == kind_text project
      then apply_project share env.payload db
      else some db
