-- ===== src/Items/Spec.antt =====
-- What each write of the service promises, as one atomic function of the tables: no connection, no
-- transaction, no error but the caller's.
use flightdeck.Webhooks.{enqueued}
use flightdeck.Items.Operations.{
  Content, of_item, of_change, of_activity, Marshal, remark, created_body, moved_body, given_key,
  asks_move, to_done,
}
use flightdeck.Items.Revision.{revise, version_fits, put_item, with_items, change_summary}
use flightdeck.Items.Tables.{
  no_rows, conflict, broken, Reply, failed, ok, coalesce, is_valid_row, find_item, find_project,
  insert_item, insert_activity, find_by_key,
}
use flightdeck.Items.State.{
  ItemRow, ActivityRow, Db, CreateItemParams, UpdateItemParams, CreateActivityParams,
}
use flightdeck.Base.Bytes.{Bytes, codes, bytes_eq}
use flightdeck.Base.{
  ℕ, ◌+◌, String, not, Option, none, some, List, [], ◌∷◌, ◌++◌, leb, if◌then◌else◌, ◌==◌, nat_eq,
  string_eq,
}

unfoldable pub add_activity : ℕ → CreateActivityParams → Db → ActivityRow × Db
add_activity now p db =
    let row : ActivityRow = record {
      id = db.next;
      project_id = p.project_id;
      item_id = p.item_id;
      kind = coalesce p.kind "comment";
      actor = coalesce p.actor [];
      body = coalesce p.body [];
      metadata = coalesce p.metadata (codes "{}");
      created_at = now;
      confidence = coalesce p.confidence "unspecified";
    } in
    (row, record db { activities = db.activities ++ row ∷ []; next = db.next + 1 })

-- An envelope that cannot be encoded is dropped.
unfoldable pub add_event : Marshal → ℕ → ℕ → String → Content → Db → Db
add_event marshal now project event content db =
    elim (marshal (record { event = event; project_id = project; at = now; data_ = content })) [
      | none ↦ db
      | some payload ↦ record db {
        outbox =
            db.outbox
            ++ (record { event = enqueued db.next project now event; payload = payload }) ∷ [];
        next = db.next + 1;
      }
    ]

unfoldable pub prior_item : CreateItemParams → Db → Option ItemRow
unfolding given_key find_by_key
prior_item p db = elim (given_key p) [ none ↦ none | some k ↦ find_by_key p.project_id k db.items ]

-- A new item has its row, its `created` activity and its event.
unfoldable pub announce_item : Marshal → ℕ → Bytes → ItemRow → Db → Db
unfolding add_activity add_event remark created_body
announce_item marshal now actor item db =
    add_event marshal now item.project_id "item.created" (of_item item)
      (add_activity now (remark item "created" actor (created_body item)) db).1

unfoldable pub spec_insert : Marshal → Bytes → CreateItemParams → ℕ → Db → Reply ItemRow × Db
unfolding insert_item announce_item
spec_insert marshal actor p now db =
    let (r, db1) = insert_item now p db in
    elim r [
      | failed e ↦ (failed e, db1)
      | ok item ↦ (ok item, announce_item marshal now actor item db1)
    ]

unfoldable pub spec_create : Marshal → Bytes → CreateItemParams → ℕ → Db → Reply ItemRow × Db
unfolding prior_item spec_insert
spec_create marshal actor p now db = elim (prior_item p db) [
  | some existing ↦ (ok existing, db)
  | none ↦ spec_insert marshal actor p now db
]

-- One create after the other, up to the first error.
unfoldable pub spec_each :
    Marshal → Bytes → List CreateItemParams → ℕ → Db → Reply (List ItemRow) × Db
unfolding spec_create
spec_each marshal actor [] now db = (ok [], db)
spec_each marshal actor (p ∷ ps) now db =
    let (r, db1) = spec_create marshal actor p now db in
    elim r [
      | failed e ↦ (failed e, db1)
      | ok item ↦
          let (rs, db2) = spec_each marshal actor ps now db1 in
          elim rs [ failed e ↦ (failed e, db2) | ok items ↦ (ok (item ∷ items), db2) ]
    ]

-- The record of a move: an activity and an event.
unfoldable pub record_move : Marshal → ℕ → Bytes → ItemRow → String → Db → Db
unfolding add_activity add_event remark moved_body
record_move marshal now actor item from db =
    add_event marshal now item.project_id "item.status_changed" (of_change item from item.status)
      (add_activity now (remark item "status_change" actor (moved_body from item.status)) db).1

-- A patch that fits: the row, and the record of its move when it asks for one.
unfoldable pub spec_update : Marshal → Bytes → UpdateItemParams → ℕ → Db → Reply ItemRow × Db
unfolding find_item version_fits revise is_valid_row put_item asks_move record_move
spec_update marshal actor p now db = elim (find_item p.id db.items) [
  | none ↦ (failed no_rows, db)
  | some prev ↦
      let item = revise now p prev in
      if not (version_fits p prev)
      then (failed conflict, db)
      else if not (is_valid_row item)
      then (failed (broken (codes "23514")), db)
      else if leb 2147483647 prev.version
      then (failed (broken (codes "22003")), db)
      else (let saved : Db = with_items (put_item item db.items) db in
          (
            ok item,
            if asks_move p prev
                then record_move marshal now actor item prev.status saved
                else saved,
          ))
]

-- A row of the log, with its event.
unfoldable pub spec_log : Marshal → CreateActivityParams → ℕ → Db → Reply ActivityRow × Db
unfolding insert_activity add_event
spec_log marshal p now db =
    let (r, db1) = insert_activity now p db in
    elim r [
      | failed e ↦ (failed e, db1)
      | ok row ↦
          (ok row, add_event marshal now row.project_id "activity.logged" (of_activity row) db1)
    ]

-- The recorded why: a decision and its event, unless it is empty.
unfoldable pub record_why : Marshal → ℕ → Bytes → ItemRow → Bytes → Db → Db
unfolding add_activity add_event remark
record_why marshal now actor item why db =
    if why == []
    then db
    else (let (row, db1) = add_activity now (remark item "decision" actor why) db in
        add_event marshal now item.project_id "activity.logged" (of_activity row) db1)

unfoldable pub spec_summary : ℕ → Bytes → Db → Reply Unit × Db
unfolding find_project change_summary
spec_summary project text db =
    if text == [] then (ok tt, db) else elim (find_project project db.projects) [
      | none ↦ (failed no_rows, db)
      | some p ↦ change_summary p.slug text db
    ]

-- The item is done, its move and the why are recorded, and the summary is new.
unfoldable pub spec_complete : Marshal → Bytes → ℕ → Bytes → Bytes → ℕ → Db → Reply ItemRow × Db
unfolding find_item revise is_valid_row put_item record_move record_why spec_summary
spec_complete marshal actor id why summary now db = elim (find_item id db.items) [
  | none ↦ (failed no_rows, db)
  | some prev ↦
      let item = revise now (to_done id) prev in
      if not (is_valid_row item)
      then (failed (broken (codes "23514")), db)
      else if leb 2147483647 prev.version
      then (failed (broken (codes "22003")), db)
      else (let saved : Db = with_items (put_item item db.items) db in
          let moved : Db =
            if prev.status == "done"
            then saved
            else record_move marshal now actor item prev.status saved in
          let (r, last) =
            spec_summary item.project_id summary (record_why marshal now actor item why moved) in
          elim r [ ok _ ↦ (ok item, last) | failed e ↦ (failed e, last) ])
]
