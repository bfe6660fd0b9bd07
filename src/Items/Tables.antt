-- ===== src/Items/Tables.antt =====
-- The queries of internal/store/items.sql.go, refs.sql.go, activity.sql.go, projects.sql.go and
-- webhooks.sql.go that the service's writes use, as functions of the tables, with the constraints
-- and the trigger of the migrations.
use flightdeck.Base.Bytes.{codes, Bytes}
use flightdeck.Items.State.{
  ItemRow, ActivityRow, ProjectRow, Db, CreateItemParams, CreateActivityParams,
}
use flightdeck.Webhooks.{enqueued}
use flightdeck.Base.{
  ℕ, ◌+◌, String, Bool, true, false, not, ◌&&◌, ◌||◌, Option, none, some, List, [], ◌∷◌, ◌++◌,
  if◌then◌else◌, ◌==◌, nat_eq, string_eq, contains,
}

-- The errors the code tells apart: no row, a unique violation (23505), a failed guard, and the rest.
pub data Failure : Type 0 where
  no_rows unique_violation conflict : Failure
  broken : Bytes → Failure

pub data Reply (A : Type 0) : Type 0 where
  failed : Failure → Reply A
  ok : A → Reply A

abbrev pub coalesce : {A : Type 0} → Option A → A → A
coalesce none d = d
coalesce (some a) _ = a

-- The CHECK constraints of the items table.
abbrev pub item_types : List String
item_types = "task" ∷ "bug" ∷ "idea" ∷ "note" ∷ []

abbrev pub item_statuses : List String
item_statuses = "backlog" ∷ "todo" ∷ "in_progress" ∷ "blocked" ∷ "done" ∷ "wontfix" ∷ []

abbrev pub item_priorities : List String
item_priorities = "low" ∷ "med" ∷ "high" ∷ "urgent" ∷ []

abbrev pub item_sources : List String
item_sources = "manual" ∷ "agent" ∷ "bug_reporter" ∷ "api" ∷ "capture" ∷ []

unfoldable pub is_valid_row : ItemRow → Bool
is_valid_row row =
    contains item_types row.type_
    && contains item_statuses row.status
    && contains item_priorities row.priority
    && contains item_sources row.source

-- The unique index on (project_id, idempotency_key), deleted rows included; NULLs never clash.
unfoldable pub holds_key : ℕ → String → ItemRow → Bool
holds_key project key row =
    row.project_id == project && elim row.idempotency_key [ none ↦ false | some k ↦ k == key ]

unfoldable pub is_key_taken : ℕ → String → List ItemRow → Bool
unfolding holds_key
is_key_taken project key [] = false
is_key_taken project key (row ∷ rows) = holds_key project key row || is_key_taken project key rows

unfoldable pub would_clash : ItemRow → List ItemRow → Bool
would_clash row rows = elim row.idempotency_key [
  | none ↦ false
  | some k ↦ is_key_taken row.project_id k rows
]

abbrev pub is_live : ItemRow → Bool
is_live row = elim row.deleted_at [ none ↦ true | some _ ↦ false ]

-- GetItemByIdempotencyKey.
unfoldable pub find_by_key : ℕ → String → List ItemRow → Option ItemRow
unfolding holds_key
find_by_key project key [] = none
find_by_key project key (row ∷ rows) =
    if holds_key project key row && is_live row then some row else find_by_key project key rows

-- GetItem.
unfoldable pub find_item : ℕ → List ItemRow → Option ItemRow
find_item id [] = none
find_item id (row ∷ rows) = if row.id == id && is_live row then some row else find_item id rows

unfoldable pub find_project : ℕ → List ProjectRow → Option ProjectRow
find_project id [] = none
find_project id (p ∷ ps) = if p.id == id then some p else find_project id ps

abbrev pub or_no_rows : {A : Type 0} → Option A → Reply A
or_no_rows none = failed no_rows
or_no_rows (some a) = ok a

-- The row of an INSERT, with the defaults of the query and of the table.
unfoldable pub new_item : ℕ → ℕ → ℕ → CreateItemParams → ItemRow
new_item id seq now p = record {
  id = id;
  project_id = p.project_id;
  type_ = coalesce p.type_ "task";
  title = p.title;
  body = coalesce p.body [];
  status = coalesce p.status "backlog";
  priority = coalesce p.priority "med";
  assignee = p.assignee;
  position = coalesce p.position (codes "0");
  source = coalesce p.source "manual";
  external_ref = p.external_ref;
  tags = coalesce p.tags [];
  metadata = coalesce p.metadata (codes "{}");
  created_at = now;
  updated_at = now;
  closed_at = none;
  deleted_at = none;
  idempotency_key = p.idempotency_key;
  acceptance_criteria = coalesce p.acceptance_criteria (codes "[]");
  seq = seq;
  version = 1;
  embedding = none;
  embedding_model = [];
}

-- The trigger assign_item_ref: the project's counter goes up with each item.
unfoldable pub bump_seq : ℕ → List ProjectRow → List ProjectRow
bump_seq id [] = []
bump_seq id (p ∷ ps) =
    (if p.id == id then record p { item_seq = p.item_seq + 1 } else p) ∷ bump_seq id ps

-- The tables after an item has been added.
unfoldable pub with_item : ItemRow → Db → Db
unfolding bump_seq
with_item row db = record db {
  projects = bump_seq row.project_id db.projects;
  items = db.items ++ row ∷ [];
  next = db.next + 1;
}

-- CreateItem.
unfoldable pub insert_item : ℕ → CreateItemParams → Db → Reply ItemRow × Db
unfolding find_project new_item is_valid_row would_clash with_item
insert_item now p db = elim (find_project p.project_id db.projects) [
  | none ↦ (failed (broken (codes "23502")), db)
  | some owner ↦
      let row = new_item db.next (owner.item_seq + 1) now p in
      if not (is_valid_row row)
      then (failed (broken (codes "23514")), db)
      else if would_clash row db.items
      then (failed unique_violation, db)
      else (ok row, with_item row db)
]

abbrev pub activity_kinds : List String
activity_kinds = "decision" ∷ "progress" ∷ "status_change" ∷ "comment" ∷ "created" ∷ "rejected" ∷ []

abbrev pub confidences : List String
confidences = "unspecified" ∷ "inferred" ∷ "confirmed" ∷ []

-- CreateActivity. The project's and the item's foreign keys are not checked here.
unfoldable pub insert_activity : ℕ → CreateActivityParams → Db → Reply ActivityRow × Db
insert_activity now p db =
    let row : ActivityRow = record {
      id = db.next;
      project_id = p.project_id;
      item_id = p.item_id;
      kind = coalesce p.kind "comment";
      actor = coalesce p.actor [];
      body = coalesce p.body [];
      metadata = coalesce p.metadata (codes "{}");
      created_at = now;
      confidence = coalesce p.confidence "unspecified";
    } in
    if contains activity_kinds row.kind && contains confidences row.confidence
    then (ok row, record db { activities = db.activities ++ row ∷ []; next = db.next + 1 })
    else (failed (broken (codes "23514")), db)

-- EnqueueWebhookEvent.
unfoldable pub insert_event : ℕ → ℕ → String → Bytes → Db → Reply Unit × Db
insert_event now project event payload db = (
  ok tt,
  record db {
    outbox =
        db.outbox
        ++ (record { event = enqueued db.next project now event; payload = payload }) ∷ [];
    next = db.next + 1;
  },
)
