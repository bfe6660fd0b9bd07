-- ===== src/Items/Closing.antt =====
-- The body of CompleteItem, as a function of Items/Spec.antt.
use flightdeck.Items.Changes.{
  get_item-IsFair, get_item-Acts, log_move-IsFair, log_move-Acts, if_ok, guarded, log_row-IsFair,
  log_row-Acts,
}
use flightdeck.Base.Bytes.{bytes_eq, codes, Bytes}
use flightdeck.Items.Bodies.{IsFair, bind-IsFair, statement-IsFair, pure-IsFair, if-IsFair}
use flightdeck.Items.Acts.{Acts, then_do, bind-Acts, statement-Acts, same-Acts, pure-Acts, if-Acts}
use flightdeck.Items.Spec.{
  add_activity, record_move, spec_log, record_why, spec_summary, spec_complete,
}
use flightdeck.Items.Operations.{
  Marshal, remark, log_row, to_done, refresh_summary, complete_item_tx,
}
use flightdeck.Items.Revision.{
  revise, version_fits, put_item, with_items, change_item, change_summary,
}
use flightdeck.Items.Transaction.{pure, ◌>>◌}
use flightdeck.Items.Tables.{
  no_rows, broken, Reply, failed, ok, is_valid_row, find_item, find_project, or_no_rows,
  insert_activity,
}
use flightdeck.Items.State.{ItemRow, Db}
use flightdeck.Base.{
  ℕ, ◌≡◌, refl, ap, ◌∙◌, inl, inr, Bool, true, false, not, none, some, [], leb, if◌then◌else◌, ◌==◌,
  nat_eq, string_eq, Option-cases,
}

-- A success goes on with `f`.
abbrev ok_then : (ItemRow → Db → Reply ItemRow × Db) → Reply ItemRow × Db → Reply ItemRow × Db
ok_then f x = elim x.0 [ ok a ↦ f a x.1 | failed e ↦ (failed e, x.1) ]

guarded_then :
    (invalid full : Bool) (item : ItemRow) (saved db : Db) (f : ItemRow → Db → Reply ItemRow × Db)
    → ok_then f (guarded false invalid full no_rows item saved db) ≡ (
        if invalid
        then (failed (broken (codes "23514")), db)
        else if full
        then (failed (broken (codes "22003")), db)
        else f item saved)
guarded_then true full item saved db f = refl
guarded_then false true item saved db f = refl
guarded_then false false item saved db f = refl

module _ (marshal : Marshal) (actor : Bytes) where
  refresh_summary-IsFair : (project : ℕ) (text : Bytes) → IsFair (refresh_summary project text)
  unfolding refresh_summary
  refresh_summary-IsFair project text = bind-IsFair _ _ (statement-IsFair _) λ p. statement-IsFair _

  pub complete_item_tx-IsFair :
      (id : ℕ) (why summary : Bytes) → IsFair (complete_item_tx marshal id why summary actor)
  unfolding complete_item_tx
  complete_item_tx-IsFair id why summary = bind-IsFair _ _ (get_item-IsFair id) λ prev.
      bind-IsFair _ _ (statement-IsFair _) λ item.
        bind-IsFair _ _
          (if-IsFair (prev.status == item.status) _ _ (pure-IsFair tt)
            (log_move-IsFair marshal actor item prev.status))
          λ _.
            bind-IsFair _ _
              (if-IsFair (why == []) _ _ (pure-IsFair tt) (
                bind-IsFair _ _ (log_row-IsFair marshal actor (remark item "decision" actor why))
                  λ _. pure-IsFair tt))
              λ _.
                bind-IsFair _ _
                  (if-IsFair (summary == []) _ _ (pure-IsFair tt)
                    (refresh_summary-IsFair item.project_id summary))
                  λ _. pure-IsFair item

  refresh_summary-Acts :
      (project : ℕ) (text : Bytes)
      → Acts (refresh_summary project text) λ _ db. elim (find_project project db.projects) [
        | none ↦ (failed no_rows, db)
        | some p ↦ change_summary p.slug text db
      ]
  unfolding refresh_summary then_do
  refresh_summary-Acts project text =
      same-Acts _ _ _
        (λ now db. elim (Option-cases (find_project project db.projects)) [
          | inl h ↦ rw (h, then_do)
          | inr (p, h) ↦ rw (h, then_do)
        ])
        (bind-Acts _ _ _ _ (statement-Acts _) λ p. statement-Acts λ _. change_summary p.slug text)

  why-Acts :
      (item : ItemRow) (why : Bytes)
      → Acts
          (if why == []
            then pure tt
            else (log_row marshal (remark item "decision" actor why) >> pure tt))
          λ now db. (ok tt, record_why marshal now actor item why db)
  unfolding record_why spec_log insert_activity add_activity remark then_do
  why-Acts item why =
      same-Acts _ _ _ (λ now db. if_ok (why == []) _ _)
        (if-Acts (why == []) _ _ _ _ (pure-Acts tt) (
          bind-Acts _ _ _ _ (log_row-Acts marshal actor (remark item "decision" actor why))
            λ _. pure-Acts tt))

  -- What CompleteItem does after its UPDATE.
  finish_completion : Bytes → Bytes → ItemRow → ℕ → ItemRow → Db → Reply ItemRow × Db
  finish_completion why summary prev now item db =
      let moved : Db =
        if prev.status == item.status
        then db
        else record_move marshal now actor item prev.status db in
      let x = spec_summary item.project_id summary (record_why marshal now actor item why moved) in
      elim x.0 [ ok _ ↦ (ok item, x.1) | failed e ↦ (failed e, x.1) ]

  completed_lem :
      (id : ℕ) (why summary : Bytes) (now : ℕ) (db : Db)
      → then_do
          (λ now db. (or_no_rows (find_item id db.items), db))
          (λ prev.
            then_do
              (λ now. change_item now (to_done id))
              λ item now db. finish_completion why summary prev now item db)
          now
          db
        ≡ spec_complete marshal actor id why summary now db
  unfolding then_do change_item spec_complete finish_completion revise version_fits
  completed_lem id why summary now db = elim (Option-cases (find_item id db.items)) [
    | inl h ↦ rw (h, then_do, spec_complete)
    | inr (prev, h) ↦
        let item = revise now (to_done id) prev in
        let saved = with_items (put_item item db.items) db in
        let e : change_item now (to_done id) db
            ≡ guarded false (not (is_valid_row item)) (leb 2147483647 prev.version) no_rows item
                saved db =
          rw (h, change_item) in
        rw (h, then_do, spec_complete)
          (ap (ok_then (finish_completion why summary prev now)) e
            ∙ guarded_then (not (is_valid_row item)) (leb 2147483647 prev.version) item saved db
                (finish_completion why summary prev now))
  ]

  pub complete_item_tx-Acts :
      (id : ℕ) (why summary : Bytes)
      → Acts
          (complete_item_tx marshal id why summary actor)
          (spec_complete marshal actor id why summary)
  unfolding complete_item_tx then_do finish_completion spec_summary
  complete_item_tx-Acts id why summary = same-Acts _ _ _ (completed_lem id why summary) (
      bind-Acts _ _ _ _ (get_item-Acts id) λ prev.
        bind-Acts _ _ _ _ (statement-Acts λ now. change_item now (to_done id)) λ item.
          same-Acts _ _ (λ now db. finish_completion why summary prev now item db) (λ now db. refl)
            (bind-Acts _ _ _ _
              (same-Acts _ _
                (λ now db. (
                  ok tt,
                  if prev.status == item.status
                      then db
                      else record_move marshal now actor item prev.status db,
                ))
                (λ now db. if_ok (prev.status == item.status) _ _)
                (if-Acts (prev.status == item.status) _ _ _ _ (pure-Acts tt)
                  (log_move-Acts marshal actor item prev.status)))
              λ _. bind-Acts _ _ _ _ (why-Acts item why) λ _.
                bind-Acts _ _ _ _
                  (if-Acts (summary == []) _ _ _ _ (pure-Acts tt)
                    (refresh_summary-Acts item.project_id summary))
                  λ _. pure-Acts item))
