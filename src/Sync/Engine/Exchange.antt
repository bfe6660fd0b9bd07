-- ===== src/Sync/Engine/Exchange.antt =====
-- internal/sync/engine.go: the two passes of SyncShare. The mailbox hands over numbered messages;
-- the outbound pass sends one row after another until a send fails.
use flightdeck.Base.Assoc.{Assoc}
use flightdeck.Base.{
  leb, ℕ, Bool, true, false, ◌||◌, Option, none, some, List, [], ◌∷◌, ◌++◌, map, if◌then◌else◌,
  ◌==◌, nat_eq, string_eq, length,
}
use flightdeck.Base.Bytes.{Bytes, bytes_eq}
use flightdeck.Sync.Payload.{
  Item, Activity, Project, item_payload, activity_payload, project_payload,
}
use flightdeck.Sync.Engine.{
  Wire, Db, Kind, Share, Envelope, item, activity, project, kind_text, protocol_version,
  open_sealed, apply, record_sent,
}

-- The local variables of pullInbound. `acked` is `none` where it returns before
-- the Ack: no mail, or a message that is not applied.
pub record Pulled (Hash : Type 0) : Type 0 where
  pub db : Db Hash
  pub acked : Option (List ℕ)
  pub changed : Bool

module _ (wire : Wire) where
  open wire use {
    Doc, Hash, Sealed, hash_eq, hash, marshal_item, marshal_activity, marshal_project, seal,
    uuid_string,
  }

  -- Discarded, or ours come back; failed; or applied.
  pub data Verdict : Type 0 where
    cleared : Verdict
    failed : Verdict
    applied : Db Hash → Verdict

  pub verdict : Bytes → Share → Option (Envelope Doc) → Db Hash → Verdict
  verdict instance_id share none db = cleared
  verdict instance_id share (some env) db =
      if env.origin == instance_id
      then cleared
      else elim (apply wire instance_id share env db) [ none ↦ failed | some db' ↦ applied db' ]

  unfoldable pub pull_loop :
      Bytes → Share → List (ℕ × Sealed) → List ℕ → Bool → Db Hash → Pulled Hash
  unfolding verdict
  pull_loop instance_id share [] done changed db = record {
    db = db;
    acked = some done;
    changed = changed;
  }
  pull_loop instance_id share ((seq, body) ∷ rest) done changed db =
      elim (verdict instance_id share (open_sealed wire body) db) [
        | cleared ↦ pull_loop instance_id share rest (done ++ seq ∷ []) changed db
        | failed ↦ record { db = db; acked = none; changed = changed }
        | applied db' ↦ pull_loop instance_id share rest (done ++ seq ∷ []) true db'
      ]

  unfoldable pub pull_inbound : Bytes → Share → List (ℕ × Sealed) → Db Hash → Pulled Hash
  unfolding pull_loop
  pull_inbound instance_id share [] db = record { db = db; acked = none; changed = false }
  pull_inbound instance_id share (msg ∷ msgs) db =
      pull_loop instance_id share (msg ∷ msgs) [] false db

  -- A row as `send` of pushOutbound takes it.
  pub record Row : Type 0 where
    pub kind : Kind
    pub id : ℕ
    pub doc : Doc

  pub record Push : Type 0 where
    pub db : Db Hash
    pub sent : List Sealed
    pub stopped : Bool

  -- `sentHashes`, the map that the pass reads before it sends anything.
  unfoldable pub sent_hashes : Db Hash → Kind → ℕ → Option Hash
  sent_hashes db kind id = (db.states kind id).sent

  unfoldable pub already_sent : (Kind → ℕ → Option Hash) → Row → Bool
  already_sent hashes row = elim (hashes row.kind row.id) [
    | none ↦ false
    | some h ↦ hash_eq.same h (hash row.doc)
  ]

  unfoldable pub envelope : Bytes → Row → Envelope Doc
  envelope instance_id row = record {
    version = protocol_version;
    kind = kind_text row.kind;
    origin = instance_id;
    payload = row.doc;
  }

  -- `accepts n` says whether the mailbox takes the message after the first n.
  unfoldable pub send_row : (ℕ → Bool) → (Kind → ℕ → Option Hash) → Bytes → Row → Push → Push
  unfolding already_sent envelope record_sent
  send_row accepts hashes instance_id row p =
      if p.stopped || already_sent hashes row
      then p
      else if accepts (length p.sent)
      then record p {
        db = record_sent row.kind row.id (hash row.doc) p.db;
        sent = p.sent ++ seal (envelope instance_id row) ∷ [];
      }
      else record p { stopped = true }

  unfoldable pub send_rows : (ℕ → Bool) → (Kind → ℕ → Option Hash) → Bytes → List Row → Push → Push
  unfolding send_row
  send_rows accepts hashes instance_id [] p = p
  send_rows accepts hashes instance_id (row ∷ rows) p =
      send_rows accepts hashes instance_id rows (send_row accepts hashes instance_id row p)

  unfoldable pub item_row : Item → Row
  item_row it = record { kind = item; id = it.id; doc = marshal_item (item_payload uuid_string it) }

  unfoldable pub activity_row : Activity → Row
  activity_row a = record {
    kind = activity;
    id = a.id;
    doc = marshal_activity (activity_payload uuid_string a);
  }

  unfoldable pub project_row : Project → Row
  project_row p = record {
    kind = project;
    id = p.id;
    doc = marshal_project (project_payload uuid_string p);
  }

  -- ListItemsForSync.
  unfoldable pub item_rows : ℕ → Assoc ℕ Item → List Row
  unfolding item_row
  item_rows owner [] = []
  item_rows owner ((id, it) ∷ items) =
      if it.project_id == owner then item_row it ∷ item_rows owner items else item_rows owner items

  -- ListActivityForSync, by created_at.
  unfoldable pub by_time : Activity → List Activity → List Activity
  by_time a [] = a ∷ []
  by_time a (b ∷ later) =
      if leb a.created_at b.created_at then a ∷ b ∷ later else b ∷ by_time a later

  unfoldable pub activities_of : ℕ → Assoc ℕ Activity → List Activity
  unfolding by_time
  activities_of owner [] = []
  activities_of owner ((id, a) ∷ activities) =
      if a.project_id == owner
      then by_time a (activities_of owner activities)
      else activities_of owner activities

  unfoldable pub rows : Db Hash → List Row
  unfolding item_rows activities_of activity_row project_row
  rows db =
      project_row db.the_project
      ∷ (item_rows db.the_project.id db.items
          ++ map activity_row (activities_of db.the_project.id db.activities))

  unfoldable pub push_outbound : (ℕ → Bool) → Bytes → Db Hash → Push
  unfolding rows send_rows sent_hashes
  push_outbound accepts instance_id db =
      send_rows accepts (sent_hashes db) instance_id (rows db)
        (record { db = db; sent = []; stopped = false })
