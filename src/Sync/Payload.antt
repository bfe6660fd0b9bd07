-- ===== src/Sync/Payload.antt =====
-- internal/sync/protocol.go and engine.go: the rows that are shared, the payloads that carry them,
-- and the conversions between the two. A time is a number, already in UTC. A JSON document is its
-- bytes. A nil slice and an empty one are one list, since `omitempty` drops both.
use flightdeck.Base.{ℕ, ◌+◌, ◌≡◌, refl, Option, none, some, List, [], ◌∷◌, nat_eq, string_eq}
use flightdeck.Base.Bytes.{Bytes, codes}

-- The columns of `items` that sharing reads or writes.
pub record Item : Type 0 where
  pub id : ℕ
  pub project_id : ℕ
  pub type : Bytes
  pub title : Bytes
  pub body : Bytes
  pub status : Bytes
  pub priority : Bytes
  pub assignee : Option Bytes
  pub source : Bytes
  pub external_ref : Option Bytes
  pub tags : List Bytes
  pub metadata : Bytes
  pub acceptance_criteria : Bytes
  pub created_at : ℕ
  pub closed_at : Option ℕ
  pub deleted_at : Option ℕ
  pub version : ℕ

pub record ItemPayload : Type 0 where
  pub id : Bytes
  pub type : Bytes
  pub title : Bytes
  pub body : Bytes
  pub status : Bytes
  pub priority : Bytes
  pub assignee : Option Bytes
  pub external_ref : Option Bytes
  pub tags : List Bytes
  pub metadata : Bytes
  pub acceptance_criteria : Bytes
  pub created_at : ℕ
  pub closed_at : Option ℕ
  pub deleted_at : Option ℕ

pub record Activity : Type 0 where
  pub id : ℕ
  pub project_id : ℕ
  pub item_id : Option ℕ
  pub kind : Bytes
  pub actor : Bytes
  pub body : Bytes
  pub metadata : Bytes
  pub confidence : Bytes
  pub created_at : ℕ

pub record ActivityPayload : Type 0 where
  pub id : Bytes
  pub item_id : Option Bytes
  pub kind : Bytes
  pub actor : Bytes
  pub body : Bytes
  pub confidence : Option Bytes
  pub metadata : Bytes
  pub created_at : ℕ

pub record Project : Type 0 where
  pub id : ℕ
  pub slug : Bytes
  pub name : Bytes
  pub summary : Bytes
  pub instructions : Bytes

pub record ProjectPayload : Type 0 where
  pub id : Bytes
  pub name : Bytes
  pub summary : Bytes
  pub instructions : Bytes

unfoldable pub or_empty_json : Bytes → Bytes
or_empty_json [] = codes "{}"
or_empty_json (c ∷ b) = c ∷ b

unfoldable pub or_empty_json_array : Bytes → Bytes
or_empty_json_array [] = codes "[]"
or_empty_json_array (c ∷ b) = c ∷ b

pub empty_json_stays :
    (s : Bytes) → or_empty_json (or_empty_json (or_empty_json s)) ≡ or_empty_json s
unfolding or_empty_json
empty_json_stays [] = refl
empty_json_stays (c ∷ s) = refl

-- `uuid_string` is the String method of google/uuid.
module _ (uuid_string : ℕ → Bytes) where
  unfoldable pub item_payload : Item → ItemPayload
  unfolding or_empty_json
  item_payload it = record {
    id = uuid_string it.id;
    type = it.type;
    title = it.title;
    body = it.body;
    status = it.status;
    priority = it.priority;
    assignee = it.assignee;
    external_ref = it.external_ref;
    tags = it.tags;
    metadata = or_empty_json it.metadata;
    acceptance_criteria = or_empty_json it.acceptance_criteria;
    created_at = it.created_at;
    closed_at = it.closed_at;
    deleted_at = it.deleted_at;
  }

  unfoldable pub activity_payload : Activity → ActivityPayload
  unfolding or_empty_json
  activity_payload a = record {
    id = uuid_string a.id;
    item_id = elim a.item_id [ none ↦ none | some i ↦ some (uuid_string i) ];
    kind = a.kind;
    actor = a.actor;
    body = a.body;
    confidence = elim a.confidence [ [] ↦ none | c ∷ cs ↦ some (c ∷ cs) ];
    metadata = or_empty_json a.metadata;
    created_at = a.created_at;
  }

  unfoldable pub project_payload : Project → ProjectPayload
  project_payload p = record {
    id = uuid_string p.id;
    name = p.name;
    summary = p.summary;
    instructions = p.instructions;
  }

-- `upsertParams` and UpsertSyncedItem (internal/store/sharing.sql.go): a row that is not there is
-- inserted, with the first version; on a row that is, the listed columns are overwritten, which
-- `created_at`, `project_id` and `source` are not among.
unfoldable pub inserted : ℕ → ℕ → ItemPayload → Item
unfolding or_empty_json or_empty_json_array
inserted id project_id p = record {
  id = id;
  project_id = project_id;
  type = p.type;
  title = p.title;
  body = p.body;
  status = p.status;
  priority = p.priority;
  assignee = p.assignee;
  source = codes "api";
  external_ref = p.external_ref;
  tags = p.tags;
  metadata = or_empty_json p.metadata;
  acceptance_criteria = or_empty_json_array p.acceptance_criteria;
  created_at = p.created_at;
  closed_at = p.closed_at;
  deleted_at = p.deleted_at;
  version = 1;
}

unfoldable pub overwritten : Item → ItemPayload → Item
unfolding or_empty_json or_empty_json_array
overwritten it p = record it {
  type = p.type;
  title = p.title;
  body = p.body;
  status = p.status;
  priority = p.priority;
  assignee = p.assignee;
  external_ref = p.external_ref;
  tags = p.tags;
  metadata = or_empty_json p.metadata;
  acceptance_criteria = or_empty_json_array p.acceptance_criteria;
  closed_at = p.closed_at;
  deleted_at = p.deleted_at;
  version = it.version + 1;
}
