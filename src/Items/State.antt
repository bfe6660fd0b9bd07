-- ===== src/Items/State.antt =====
-- The rows that internal/service/service.go and internal/service/features.go write: projects, items,
-- activities and queued events (internal/store/models.go), with the parameters of the queries. A
-- column that no code here inspects (a position, tags, JSON) is its text. An item's `ref` and `search`
-- are derived columns and left out.
use flightdeck.Base.Bytes.{Bytes}
use flightdeck.Base.{ℕ, String, Option, List, nat_eq, string_eq}
use flightdeck.Webhooks.{WebhookEvent}

pub record ItemRow : Type 0 where
  pub id : ℕ
  pub project_id : ℕ
  pub type_ : String
  pub title : Bytes
  pub body : Bytes
  pub status : String
  pub priority : String
  pub assignee : Option String
  pub position : Bytes
  pub source : String
  pub external_ref : Option Bytes
  pub tags : List Bytes
  pub metadata : Bytes
  pub created_at : ℕ
  pub updated_at : ℕ
  pub closed_at : Option ℕ
  pub deleted_at : Option ℕ
  pub idempotency_key : Option String
  pub acceptance_criteria : Bytes
  pub seq : ℕ
  pub version : ℕ
  pub embedding : Option Bytes
  pub embedding_model : Bytes

pub record ActivityRow : Type 0 where
  pub id : ℕ
  pub project_id : ℕ
  pub item_id : Option ℕ
  pub kind : String
  pub actor : Bytes
  pub body : Bytes
  pub metadata : Bytes
  pub created_at : ℕ
  pub confidence : String

-- The columns of a project that the code here reads or writes.
pub record ProjectRow : Type 0 where
  pub id : ℕ
  pub slug : String
  pub summary : Bytes
  pub item_seq : ℕ

-- A row of the outbox: its delivery state and what is sent.
pub record Queued : Type 0 where
  pub event : WebhookEvent
  pub payload : Bytes

-- `next` is the next unused id; ids are random in the program, and differ.
pub record Db : Type 0 where
  pub projects : List ProjectRow
  pub items : List ItemRow
  pub activities : List ActivityRow
  pub outbox : List Queued
  pub next : ℕ

pub record CreateItemParams : Type 0 where
  pub project_id : ℕ
  pub type_ : Option String
  pub title : Bytes
  pub body : Option Bytes
  pub status : Option String
  pub priority : Option String
  pub assignee : Option String
  pub position : Option Bytes
  pub source : Option String
  pub external_ref : Option Bytes
  pub tags : Option (List Bytes)
  pub metadata : Option Bytes
  pub idempotency_key : Option String
  pub acceptance_criteria : Option Bytes

pub record UpdateItemParams : Type 0 where
  pub title : Option Bytes
  pub body : Option Bytes
  pub type_ : Option String
  pub status : Option String
  pub priority : Option String
  pub assignee : Option String
  pub position : Option Bytes
  pub tags : Option (List Bytes)
  pub metadata : Option Bytes
  pub acceptance_criteria : Option Bytes
  pub id : ℕ
  pub expected_version : Option ℕ

pub record CreateActivityParams : Type 0 where
  pub project_id : ℕ
  pub item_id : Option ℕ
  pub kind : Option String
  pub actor : Option Bytes
  pub body : Option Bytes
  pub metadata : Option Bytes
  pub confidence : Option String
