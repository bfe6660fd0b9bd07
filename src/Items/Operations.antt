-- ===== src/Items/Operations.antt =====
-- internal/service/service.go: createItemTx, CreateItem, BulkCreateItems, UpdateItem and LogActivity,
-- enqueue of webhooks.go, CompleteItem of features.go, and the deletion of api/items.go. The encoding
-- of an envelope as JSON is a parameter, `none` where it fails. A result that Go returns beside an
-- error is left out.
use flightdeck.Items.Revision.{change_item, change_summary}
use flightdeck.Items.Transaction.{
  Query, pure, ◌>>=◌, ◌>>◌, statement, reads, is_unique_violation, or_none, found_or_none,
  no_rows_is, replace_no_rows, with_tx, clear_cache, meanwhile,
}
use flightdeck.Items.Tables.{
  Failure, conflict, failed, ok, find_item, find_project, or_no_rows, insert_item, insert_activity,
  insert_event, find_by_key,
}
use flightdeck.Items.State.{
  ItemRow, ActivityRow, Db, CreateItemParams, UpdateItemParams, CreateActivityParams,
}
use flightdeck.Base.Bytes.{Bytes, codes, bytes_eq}
use flightdeck.Base.{
  ℕ, String, Bool, false, not, Option, none, some, List, [], ◌∷◌, ◌++◌, if◌then◌else◌, ◌==◌, nat_eq,
  string_eq,
}

-- What enqueue sends: `data` by the kind of event.
pub data Content : Type 0 where
  of_item : ItemRow → Content
  of_change : ItemRow → String → String → Content
  of_activity : ActivityRow → Content

pub record EventEnvelope : Type 0 where
  pub event : String
  pub project_id : ℕ
  pub at : ℕ
  pub data_ : Content

abbrev pub Marshal : Type 0
Marshal = EventEnvelope → Option Bytes

unfoldable pub broadcast_event : Bytes → Query Unit
broadcast_event payload c = (ok tt, record c { heard = c.heard ++ payload ∷ [] })

-- The second half of enqueue: to the hub and to the outbox, unless the encoding failed.
unfoldable pub send_event : ℕ → String → Option Bytes → Query Unit
unfolding ◌>>=◌ broadcast_event statement insert_event
send_event project event none = pure tt
send_event project event (some payload) =
    broadcast_event payload >> statement λ now. insert_event now project event payload

unfoldable pub enqueue : Marshal → ℕ → String → Content → Query Unit
unfolding send_event
enqueue marshal project event content c =
    send_event project event
      (marshal (record { event = event; project_id = project; at = c.now; data_ = content })) c

-- An activity row about an item.
unfoldable pub remark : ItemRow → String → Bytes → Bytes → CreateActivityParams
remark item kind actor body = record {
  project_id = item.project_id;
  item_id = some item.id;
  kind = some kind;
  actor = some actor;
  body = some body;
  metadata = none;
  confidence = none;
}

unfoldable pub created_body : ItemRow → Bytes
created_body item = codes "created " ++ (codes item.type_ ++ (codes ": " ++ item.title))

unfoldable pub moved_body : String → String → Bytes
moved_body from to = codes from ++ (codes " → " ++ codes to)

-- The key that was supplied: not nil and not "".
unfoldable pub given_key : CreateItemParams → Option String
given_key p = elim p.idempotency_key [ none ↦ none | some k ↦ if k == "" then none else some k ]

unfoldable pub get_by_key : ℕ → String → Query (Option ItemRow)
unfolding found_or_none statement find_by_key
get_by_key project key =
    or_none (statement (reads λ db. or_no_rows (find_by_key project key db.items)))

-- The item of the supplied key, if there is one.
unfoldable pub get_prior : CreateItemParams → Query (Option ItemRow)
unfolding given_key get_by_key
get_prior p = elim (given_key p) [ none ↦ pure none | some k ↦ get_by_key p.project_id k ]

-- The second half of createItemTx: the row, its activity, its event.
unfoldable pub create_new : Marshal → CreateItemParams → Bytes → Query ItemRow
unfolding ◌>>=◌ statement insert_item insert_activity remark created_body enqueue
create_new marshal p actor = do
  item ← statement λ now. insert_item now p
  _ ← statement λ now. insert_activity now (remark item "created" actor (created_body item))
  _ ← enqueue marshal item.project_id "item.created" (of_item item)
  pure item

unfoldable pub create_item_tx : Marshal → CreateItemParams → Bytes → Query ItemRow
unfolding ◌>>=◌ get_prior create_new
create_item_tx marshal p actor = do
  prior ← get_prior p
  elim prior [ some existing ↦ pure existing | none ↦ create_new marshal p actor ]

-- What other callers commit after the first look-up, and after a lost race.
pub record Rivals : Type 0 where
  pub between : Db → Db
  pub after_loss : Db → Db

-- The branch of CreateItem that follows an error of the transaction.
unfoldable pub recover : Rivals → CreateItemParams → Failure → Query ItemRow
unfolding ◌>>=◌ given_key get_by_key meanwhile
recover rivals p e c = elim (given_key p) [
  | none ↦ (failed e, c)
  | some k ↦
      if is_unique_violation e
      then (let (r, d) = (meanwhile rivals.after_loss >> get_by_key p.project_id k) c in
          elim r [
            | failed _ ↦ (failed e, d)
            | ok found ↦ elim found [ none ↦ (failed e, d) | some existing ↦ (ok existing, d) ]
          ])
      else (failed e, c)
]

unfoldable pub create_in_tx : Marshal → Rivals → CreateItemParams → Bytes → Query ItemRow
unfolding ◌>>=◌ with_tx create_item_tx recover clear_cache
create_in_tx marshal rivals p actor c =
    let (r, d) = with_tx (create_item_tx marshal p actor) c in
    elim r [ failed e ↦ recover rivals p e d | ok item ↦ (clear_cache >> pure item) d ]

-- CreateItem after its first look-up.
unfoldable pub or_create :
    Marshal → Rivals → CreateItemParams → Bytes → Option ItemRow → Query ItemRow
unfolding ◌>>=◌ meanwhile create_in_tx
or_create marshal rivals p actor (some existing) = pure existing
or_create marshal rivals p actor none =
    meanwhile rivals.between >> create_in_tx marshal rivals p actor

unfoldable pub create_item : Marshal → Rivals → CreateItemParams → Bytes → Query ItemRow
unfolding ◌>>=◌ get_prior or_create
create_item marshal rivals p actor = get_prior p >>= or_create marshal rivals p actor

-- The loop of BulkCreateItems.
unfoldable pub create_each : Marshal → List CreateItemParams → Bytes → Query (List ItemRow)
unfolding ◌>>=◌ create_item_tx
create_each marshal [] actor = pure []
create_each marshal (p ∷ ps) actor = do
  item ← create_item_tx marshal p actor
  rest ← create_each marshal ps actor
  pure (item ∷ rest)

unfoldable pub bulk_create_items : Marshal → List CreateItemParams → Bytes → Query (List ItemRow)
unfolding ◌>>=◌ with_tx create_each clear_cache
bulk_create_items marshal ps actor = do
  out ← with_tx (create_each marshal ps actor)
  _ ← clear_cache
  pure out

unfoldable pub get_item : ℕ → Query ItemRow
unfolding statement find_item
get_item id = statement (reads λ db. or_no_rows (find_item id db.items))

-- The activity and the event of a move.
unfoldable pub log_move : Marshal → ItemRow → String → Bytes → Query Unit
unfolding ◌>>=◌ statement insert_activity remark moved_body enqueue
log_move marshal item from actor = do
  _ ←
      statement
        λ now. insert_activity now (remark item "status_change" actor (moved_body from item.status))
  enqueue marshal item.project_id "item.status_changed" (of_change item from item.status)

unfoldable pub asks_move : UpdateItemParams → ItemRow → Bool
asks_move p prev = elim p.status [ none ↦ false | some s ↦ not (s == prev.status) ]

-- The transaction of UpdateItem; `rival` is what others commit between its two queries.
unfoldable pub update_item_tx : Marshal → (Db → Db) → UpdateItemParams → Bytes → Query ItemRow
unfolding ◌>>=◌ get_item meanwhile replace_no_rows statement change_item asks_move log_move
update_item_tx marshal rival p actor = do
  prev ← get_item p.id
  _ ← meanwhile rival
  item ← no_rows_is conflict (statement λ now. change_item now p)
  _ ← (if asks_move p prev then log_move marshal item prev.status actor else pure tt)
  pure item

unfoldable pub update_item : Marshal → (Db → Db) → UpdateItemParams → Bytes → Query ItemRow
unfolding ◌>>=◌ with_tx update_item_tx clear_cache
update_item marshal rival p actor = do
  item ← with_tx (update_item_tx marshal rival p actor)
  _ ← clear_cache
  pure item

-- A row of the log with its event.
unfoldable pub log_row : Marshal → CreateActivityParams → Query ActivityRow
unfolding ◌>>=◌ statement insert_activity enqueue
log_row marshal p = do
  row ← statement λ now. insert_activity now p
  _ ← enqueue marshal row.project_id "activity.logged" (of_activity row)
  pure row

unfoldable pub log_activity : Marshal → CreateActivityParams → Query ActivityRow
unfolding ◌>>=◌ with_tx log_row clear_cache
log_activity marshal p = do row ← with_tx (log_row marshal p); _ ← clear_cache; pure row

abbrev pub to_done : ℕ → UpdateItemParams
to_done id = record {
  title = none;
  body = none;
  type_ = none;
  status = some "done";
  priority = none;
  assignee = none;
  position = none;
  tags = none;
  metadata = none;
  acceptance_criteria = none;
  id = id;
  expected_version = none;
}

-- The last step of CompleteItem, with a summary.
unfoldable pub refresh_summary : ℕ → Bytes → Query Unit
unfolding ◌>>=◌ statement find_project change_summary
refresh_summary project text = do
  p ← statement (reads λ db. or_no_rows (find_project project db.projects))
  statement λ _. change_summary p.slug text

unfoldable pub complete_item_tx : Marshal → ℕ → Bytes → Bytes → Bytes → Query ItemRow
unfolding ◌>>=◌ get_item statement change_item log_move log_row remark refresh_summary
complete_item_tx marshal id why summary actor = do
  prev ← get_item id
  item ← statement λ now. change_item now (to_done id)
  _ ← (if prev.status == item.status then pure tt else log_move marshal item prev.status actor)
  _ ←
      (if why == []
        then pure tt
        else (log_row marshal (remark item "decision" actor why) >> pure tt))
  _ ← (if summary == [] then pure tt else refresh_summary item.project_id summary)
  pure item

unfoldable pub complete_item : Marshal → ℕ → Bytes → Bytes → Bytes → Query ItemRow
unfolding ◌>>=◌ with_tx complete_item_tx clear_cache
complete_item marshal id why summary actor = do
  item ← with_tx (complete_item_tx marshal id why summary actor)
  _ ← clear_cache
  pure item
