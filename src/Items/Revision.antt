-- ===== src/Items/Revision.antt =====
-- The UPDATE queries of internal/store/items.sql.go and projects.sql.go: UpdateItem with its version
-- guard, SoftDeleteItem, and UpdateProjectSummary.
use flightdeck.Base.Bytes.{codes, Bytes}
use flightdeck.Items.Tables.{
  no_rows, broken, Reply, failed, ok, coalesce, is_valid_row, find_item, is_live,
}
use flightdeck.Items.State.{ItemRow, ProjectRow, Db, UpdateItemParams}
use flightdeck.Base.{
  ℕ, ◌+◌, String, Bool, true, false, not, ◌&&◌, Option, none, some, List, [], ◌∷◌, leb,
  if◌then◌else◌, ◌==◌, nat_eq, string_eq, contains,
}

abbrev pub is_closed_status : String → Bool
is_closed_status status = contains ("done" ∷ "wontfix" ∷ []) status

-- A title or a body in the patch.
unfoldable pub changes_text : UpdateItemParams → Bool
changes_text p = elim p.title [
  | some _ ↦ true
  | none ↦ elim p.body [ none ↦ false | some _ ↦ true ]
]

-- The SET list of UpdateItem.
unfoldable pub revise : ℕ → UpdateItemParams → ItemRow → ItemRow
unfolding changes_text
revise now p row =
    let status : String = coalesce p.status row.status in
    record row {
      title = coalesce p.title row.title;
      body = coalesce p.body row.body;
      type_ = coalesce p.type_ row.type_;
      status = status;
      priority = coalesce p.priority row.priority;
      assignee = elim p.assignee [ none ↦ row.assignee | some a ↦ some a ];
      position = coalesce p.position row.position;
      tags = coalesce p.tags row.tags;
      metadata = coalesce p.metadata row.metadata;
      acceptance_criteria = coalesce p.acceptance_criteria row.acceptance_criteria;
      closed_at = if is_closed_status status then some (coalesce row.closed_at now) else none;
      embedding = if changes_text p then none else row.embedding;
      embedding_model = if changes_text p then [] else row.embedding_model;
      version = row.version + 1;
      updated_at = now;
    }

-- `expected_version IS NULL OR version = expected_version`.
unfoldable pub version_fits : UpdateItemParams → ItemRow → Bool
version_fits p row = elim p.expected_version [ none ↦ true | some v ↦ row.version == v ]

-- The live row of an id is replaced.
unfoldable pub put_item : ItemRow → List ItemRow → List ItemRow
put_item row [] = []
put_item row (r ∷ rows) = if r.id == row.id && is_live r then row ∷ rows else r ∷ put_item row rows

abbrev pub with_items : List ItemRow → Db → Db
with_items rows db = record db { items = rows }

-- UpdateItem. A version that would leave the 32-bit column is refused by the database.
unfoldable pub change_item : ℕ → UpdateItemParams → Db → Reply ItemRow × Db
unfolding find_item revise version_fits is_valid_row put_item
change_item now p db = elim (find_item p.id db.items) [
  | none ↦ (failed no_rows, db)
  | some row ↦
      let next = revise now p row in
      if not (version_fits p row)
      then (failed no_rows, db)
      else if not (is_valid_row next)
      then (failed (broken (codes "23514")), db)
      else if leb 2147483647 row.version
      then (failed (broken (codes "22003")), db)
      else (ok next, with_items (put_item next db.items) db)
]

-- SoftDeleteItem.
unfoldable pub soft_delete_item : ℕ → ℕ → Db → Reply ItemRow × Db
unfolding find_item put_item
soft_delete_item now id db = elim (find_item id db.items) [
  | none ↦ (failed no_rows, db)
  | some row ↦
      let gone : ItemRow = record row { deleted_at = some now; updated_at = now } in
      (ok gone, with_items (put_item gone db.items) db)
]

unfoldable pub set_summary : String → Bytes → List ProjectRow → List ProjectRow
set_summary slug text [] = []
set_summary slug text (p ∷ ps) =
    (if p.slug == slug then record p { summary = text } else p) ∷ set_summary slug text ps

unfoldable pub find_slug : String → List ProjectRow → Option ProjectRow
find_slug slug [] = none
find_slug slug (p ∷ ps) = if p.slug == slug then some p else find_slug slug ps

-- UpdateProjectSummary.
unfoldable pub change_summary : String → Bytes → Db → Reply Unit × Db
unfolding find_slug set_summary
change_summary slug text db = elim (find_slug slug db.projects) [
  | none ↦ (failed no_rows, db)
  | some _ ↦ (ok tt, record db { projects = set_summary slug text db.projects })
]
