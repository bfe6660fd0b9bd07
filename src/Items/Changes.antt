-- ===== src/Items/Changes.antt =====
-- The bodies of UpdateItem and LogActivity, as functions of Items/Spec.antt.
use flightdeck.Base.Bytes.{bytes_eq, codes, Bytes}
use flightdeck.Items.Bodies.{
  IsFair, bind-IsFair, statement-IsFair, pure-IsFair, if-IsFair, enqueue-IsFair, enqueue-Acts,
}
use flightdeck.Items.Acts.{
  Acts, then_do, bind-Acts, statement-Acts, same-Acts, pure-Acts, replacing, no_rows_is-Acts,
  if-Acts,
}
use flightdeck.Items.Robust.{
  statement-IsRobust, statement-KeepsCommitted, no_rows_is-IsRobust, no_rows_is-KeepsCommitted,
}
use flightdeck.Items.Spec.{add_activity, record_move, spec_update, spec_log}
use flightdeck.Items.Operations.{
  of_change, of_activity, Marshal, remark, get_item, log_move, asks_move, update_item_tx, log_row,
}
use flightdeck.Items.Revision.{revise, version_fits, put_item, with_items, change_item}
use flightdeck.Items.Transaction.{pure, ◌>>=◌, statement, is_no_rows, no_rows_is, meanwhile}
use flightdeck.Items.Tables.{
  Failure, no_rows, conflict, broken, Reply, failed, ok, is_valid_row, find_item, or_no_rows,
  insert_activity,
}
use flightdeck.Items.State.{ItemRow, Db, UpdateItemParams, CreateActivityParams}
use flightdeck.Base.{
  ℕ, String, ◌≡◌, refl, ap, ◌∙◌, inl, inr, Bool, true, false, not, leb, if◌then◌else◌, nat_eq,
  string_eq, Option-cases,
}

pub get_item-IsFair : (id : ℕ) → IsFair (get_item id)
unfolding get_item
get_item-IsFair id = statement-IsFair _

pub get_item-Acts : (id : ℕ) → Acts (get_item id) λ _ db. (or_no_rows (find_item id db.items), db)
unfolding get_item
get_item-Acts id = statement-Acts _

pub no_rows_is-IsFair :
    {A : Type 0} (q : ℕ → Db → Reply A × Db) → IsFair (no_rows_is conflict (statement q))
no_rows_is-IsFair q = record {
  robust = no_rows_is-IsRobust (statement q) (statement-IsRobust q);
  keeps = no_rows_is-KeepsCommitted (statement q) (statement-KeepsCommitted q);
}

alone-IsFair : IsFair (meanwhile λ db. db)
unfolding meanwhile
alone-IsFair = record { robust = λ c. inr refl; keeps = λ c. refl }

alone-Acts : Acts (meanwhile λ db. db) λ _ db. (ok tt, db)
unfolding meanwhile Acts
alone-Acts c hf = (refl, hf, refl)

-- The guards of an update, one after the other.
abbrev pub guarded : Bool → Bool → Bool → Failure → ItemRow → Db → Db → Reply ItemRow × Db
guarded stale invalid full e item saved db =
    if stale
    then (failed e, db)
    else if invalid
    then (failed (broken (codes "23514")), db)
    else if full
    then (failed (broken (codes "22003")), db)
    else (ok item, saved)

-- ErrNoRows becomes ErrConflict, and a success goes on with `f`.
abbrev pub conflict_then : (ItemRow → Db → Db) → Reply ItemRow × Db → Reply ItemRow × Db
conflict_then f x =
    let y : Reply ItemRow × Db = elim x.0 [
      | ok a ↦ (ok a, x.1)
      | failed e ↦ (failed (if is_no_rows e then conflict else e), x.1)
    ] in
    elim y.0 [ ok a ↦ (ok a, f a y.1) | failed e ↦ (failed e, y.1) ]

pub guarded_conflict :
    (stale invalid full : Bool) (item : ItemRow) (saved db : Db) (f : ItemRow → Db → Db)
    → conflict_then f (guarded stale invalid full no_rows item saved db)
      ≡ guarded stale invalid full conflict item (f item saved) db
guarded_conflict true invalid full item saved db f = refl
guarded_conflict false true full item saved db f = refl
guarded_conflict false false true item saved db f = refl
guarded_conflict false false false item saved db f = refl

if_pair :
    (b : Bool) (item : ItemRow) (x y : Db)
    → (let z : Reply Unit × Db = if b then (ok tt, x) else (ok tt, y) in
        ◌≡◌ {A = Reply ItemRow × Db}
          (elim z.0 [ ok _ ↦ (ok item, z.1) | failed e ↦ (failed e, z.1) ])
          (ok item, if b then x else y))
if_pair true item x y = refl
if_pair false item x y = refl

pub if_ok :
    (b : Bool) (x y : Db)
    → ◌≡◌ {A = Reply Unit × Db} (if b then (ok tt, x) else (ok tt, y)) (ok tt, if b then x else y)
if_ok true x y = refl
if_ok false x y = refl

module _ (marshal : Marshal) (actor : Bytes) where
  pub log_move-IsFair : (item : ItemRow) (from : String) → IsFair (log_move marshal item from actor)
  unfolding log_move
  log_move-IsFair item from = bind-IsFair _ _ (statement-IsFair _) λ _.
      enqueue-IsFair marshal item.project_id "item.status_changed" (of_change item from item.status)

  pub log_move-Acts :
      (item : ItemRow) (from : String)
      → Acts
          (log_move marshal item from actor)
          λ now db. (ok tt, record_move marshal now actor item from db)
  unfolding log_move then_do insert_activity record_move add_activity remark
  log_move-Acts item from =
      same-Acts _ _ _ (λ now db. refl)
        (bind-Acts _ _ _ _ (statement-Acts _) λ _.
          enqueue-Acts marshal item.project_id "item.status_changed"
            (of_change item from item.status))

  pub update_item_tx-IsFair :
      (p : UpdateItemParams) → IsFair (update_item_tx marshal (λ db. db) p actor)
  unfolding update_item_tx
  update_item_tx-IsFair p = bind-IsFair _ _ (get_item-IsFair p.id) λ prev.
      bind-IsFair _ _ alone-IsFair λ _.
        bind-IsFair _ _ (no_rows_is-IsFair λ now. change_item now p) λ item.
          bind-IsFair _ _
            (if-IsFair (asks_move p prev) _ _ (log_move-IsFair item prev.status) (pure-IsFair tt))
            λ _. pure-IsFair item

  -- What follows the look-up, when it finds the row.
  changed_lem :
      (p : UpdateItemParams) (now : ℕ) (db : Db)
      → then_do
          (λ now db. (or_no_rows (find_item p.id db.items), db))
          (λ prev. then_do (replacing conflict λ now. change_item now p) λ item now db. (
            ok item,
            if asks_move p prev then record_move marshal now actor item prev.status db else db,
          ))
          now
          db
        ≡ spec_update marshal actor p now db
  unfolding then_do replacing change_item spec_update
  changed_lem p now db = elim (Option-cases (find_item p.id db.items)) [
    | inl h ↦ rw (h, then_do, spec_update)
    | inr (prev, h) ↦
        let item = revise now p prev in
        let saved = with_items (put_item item db.items) db in
        let f : ItemRow → Db → Db = λ item db.
          if asks_move p prev then record_move marshal now actor item prev.status db else db in
        let e : change_item now p db
            ≡ guarded (not (version_fits p prev)) (not (is_valid_row item))
                (leb 2147483647 prev.version) no_rows item saved db =
          rw (h, change_item) in
        rw (h, then_do, spec_update)
          (ap (conflict_then f) e
            ∙ guarded_conflict (not (version_fits p prev)) (not (is_valid_row item))
                (leb 2147483647 prev.version) item saved db f)
  ]

  -- The UPDATE and what follows it, for the row that was read before.
  pub written-Acts :
      (p : UpdateItemParams) (prev : ItemRow)
      → Acts
          (no_rows_is conflict (statement λ now. change_item now p) >>= λ item.
            (if asks_move p prev then log_move marshal item prev.status actor else pure tt) >>= λ _.
            pure item)
          (then_do (replacing conflict λ now. change_item now p) λ item now db. (
            ok item,
            if asks_move p prev then record_move marshal now actor item prev.status db else db,
          ))
  unfolding then_do
  written-Acts p prev =
      bind-Acts _ _ _ _ (no_rows_is-Acts conflict λ now. change_item now p) λ item.
        same-Acts _ _
          (λ now db. (
            ok item,
            if asks_move p prev then record_move marshal now actor item prev.status db else db,
          ))
          (λ now db.
            if_pair (asks_move p prev) item (record_move marshal now actor item prev.status db) db)
          (bind-Acts _ _ _ _
            (if-Acts (asks_move p prev) _ _ _ _ (log_move-Acts item prev.status) (pure-Acts tt))
            λ _. pure-Acts item)

  pub update_item_tx-Acts :
      (p : UpdateItemParams)
      → Acts (update_item_tx marshal (λ db. db) p actor) (spec_update marshal actor p)
  unfolding update_item_tx then_do
  update_item_tx-Acts p = same-Acts _ _ _ (changed_lem p) (
      bind-Acts _ _ _ _ (get_item-Acts p.id) λ prev.
        same-Acts _ _ _ (λ now db. refl) (bind-Acts _ _ _ _ alone-Acts λ _. written-Acts p prev))

  pub log_row-IsFair : (p : CreateActivityParams) → IsFair (log_row marshal p)
  unfolding log_row
  log_row-IsFair p = bind-IsFair _ _ (statement-IsFair _) λ row.
      bind-IsFair _ _ (enqueue-IsFair marshal row.project_id "activity.logged" (of_activity row))
        λ _. pure-IsFair row

  pub log_row-Acts : (p : CreateActivityParams) → Acts (log_row marshal p) (spec_log marshal p)
  unfolding log_row then_do spec_log
  log_row-Acts p =
      same-Acts _ _ _ (λ now db. refl)
        (bind-Acts _ _ _ _ (statement-Acts λ now. insert_activity now p) λ row.
          bind-Acts _ _ _ _
            (enqueue-Acts marshal row.project_id "activity.logged" (of_activity row))
            λ _. pure-Acts row)
