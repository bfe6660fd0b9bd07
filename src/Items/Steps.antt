-- ===== src/Items/Steps.antt =====
-- The laws of Items/Laws.antt, for each promised step of Items/Spec.antt.
use flightdeck.Base.Bytes.{codes, bytes_eq}
use flightdeck.Base.Bytes.{Bytes}
use flightdeck.Items.Creation.{some_inj}
use flightdeck.Items.Spec.{
  add_activity, add_event, prior_item, announce_item, spec_insert, spec_create, spec_each,
  record_move, spec_update, spec_log, record_why, spec_summary, spec_complete,
}
use flightdeck.Items.Operations.{
  of_item, of_change, of_activity, Marshal, remark, created_body, moved_body, asks_move, to_done,
}
use flightdeck.Items.Revision.{
  revise, version_fits, put_item, with_items, find_slug, change_summary,
}
use flightdeck.Items.Tables.{
  confidences, activity_kinds, broken, Reply, failed, ok, coalesce, is_valid_row, find_item,
  is_live, find_project, insert_item, insert_activity, holds_key,
}
use flightdeck.Items.State.{
  ItemRow, ActivityRow, Db, CreateItemParams, UpdateItemParams, CreateActivityParams,
}
use flightdeck.Items.Laws.{
  HasUniqueKeys, count_events, IsTotal, Lawful, Lawful-refl, Lawful-trans, keyed_new,
  holders-put_item, length-put_item, add_event-Lawful, created_event,
}
use flightdeck.Items.Idempotence.{Inserted, insert_item-Inserted, announce_item-items}
use flightdeck.Base.{
  ℕ, ◌+◌, String, ◌≡◌, refl, sym, ap, ◌∙◌, subst, ◌≢◌, inl, inr, Bool, true, false, not, ◌&&◌, some,
  List, [], ◌∷◌, arith, leb, if◌then◌else◌, ◌==◌, ==_iff, nat_eq, string_eq, if_elim, Bool-cases,
  Option-cases, length, length-append, contains,
}

moved_differs : ◌≢◌ {A = String} "item.status_changed" "item.created"
moved_differs h =
    let e : ◌==◌ {X = String} "item.status_changed" "item.created" ≡ true =
      (==_iff {A = String} "item.status_changed" "item.created").1 h in
    ground (arith, e)

logged_differs : ◌≢◌ {A = String} "activity.logged" "item.created"
logged_differs h =
    let e : ◌==◌ {X = String} "activity.logged" "item.created" ≡ true =
      (==_iff {A = String} "activity.logged" "item.created").1 h in
    ground (arith, e)

add_activity-Lawful :
    (now : ℕ) (p : CreateActivityParams) (db : Db) → Lawful db (add_activity now p db).1
unfolding add_activity
add_activity-Lawful now p db = record { keyed = λ h. h; balanced = refl }

find_item-id :
    (id : ℕ) (rows : List ItemRow) (prev : ItemRow) → find_item id rows ≡ some prev → prev.id ≡ id
unfolding find_item
find_item-id id [] prev h = absurd (ground (arith, h))
find_item-id id (r ∷ rows) prev h = elim (Bool-cases (r.id == id && is_live r)) [
  | inl b ↦
      let first : find_item id (r ∷ rows) ≡ some r = rw (b, find_item) in
      let same : r ≡ prev = some_inj (sym first ∙ h) in
      ap (λ it. it.id) (sym same) ∙ ground (arith, b, ==_iff r.id id)
  | inr b ↦
      let rest : find_item id (r ∷ rows) ≡ find_item id rows = rw (b, find_item) in
      find_item-id id rows prev (sym rest ∙ h)
]

saved-Lawful :
    (now : ℕ) (p : UpdateItemParams) (db : Db) (prev : ItemRow)
    → find_item p.id db.items ≡ some prev
    → Lawful db (with_items (put_item (revise now p prev) db.items) db)
unfolding HasUniqueKeys revise holds_key
saved-Lawful now p db prev h =
    let row = revise now p prev in
    let found : find_item row.id db.items ≡ some prev =
      ap (λ id. find_item id db.items) (find_item-id p.id db.items prev h) ∙ h in
    record {
      keyed = λ keyed project k.
          omega (arith, holders-put_item project k db.items row prev found refl, keyed project k);
      balanced = omega (arith, length-put_item row db.items);
    }

module _ (marshal : Marshal) (actor : Bytes) (now : ℕ) where
  record_move-Lawful :
      (item : ItemRow) (from : String) (db : Db)
      → Lawful db (record_move marshal now actor item from db)
  unfolding record_move
  record_move-Lawful item from db =
      Lawful-trans _ _ _
        (add_activity-Lawful now (remark item "status_change" actor (moved_body from item.status))
          db)
        (add_event-Lawful marshal now item.project_id "item.status_changed"
          (of_change item from item.status) _ moved_differs)

  record_why-Lawful :
      (item : ItemRow) (why : Bytes) (db : Db)
      → Lawful db (record_why marshal now actor item why db)
  unfolding record_why
  record_why-Lawful item why db =
      if_elim (Lawful db) (why == []) (λ _. Lawful-refl db)
        λ _.
          Lawful-trans _ _ _ (add_activity-Lawful now (remark item "decision" actor why) db)
            (add_event-Lawful marshal now item.project_id "activity.logged" _ _ logged_differs)

  created_count :
      (total : IsTotal marshal) (item : ItemRow) (db : Db)
      → count_events "item.created" (announce_item marshal now actor item db).outbox
        ≡ count_events "item.created" db.outbox + 1
  unfolding announce_item add_activity
  created_count total item db =
      created_event marshal now item.project_id (of_item item)
        (add_activity now (remark item "created" actor (created_body item)) db).1 total

  announced-Lawful :
      (total : IsTotal marshal) (p : CreateItemParams) (db : Db) (z : Reply ItemRow × Db)
      → Inserted p db z
      → let y : Reply ItemRow × Db = elim z.0 [
        | failed e ↦ (failed e, z.1)
        | ok item ↦ (ok item, announce_item marshal now actor item z.1)
      ] in
        Lawful db y.1
  announced-Lawful total p db (failed e, db1) h = subst (λ d. Lawful db d) (sym h) (Lawful-refl db)
  announced-Lawful total p db (ok row, db1) h =
      let items = announce_item-items marshal now actor row db1 ∙ h.0 in
      record {
        keyed = λ keyed. subst HasUniqueKeys (sym items) (keyed_new db.items row h.4 keyed);
        balanced = omega (
          arith,
          ap length items,
          length-append db.items (row ∷ []),
          created_count total row db1,
          ap (count_events "item.created") h.5,
        );
      }

  pub spec_create-Lawful :
      (total : IsTotal marshal) (p : CreateItemParams) (db : Db)
      → Lawful db (spec_create marshal actor p now db).1
  unfolding spec_create spec_insert
  spec_create-Lawful total p db = elim (Option-cases (prior_item p db)) [
    | inl h ↦
        rw (h, spec_create)
          (announced-Lawful total p db (insert_item now p db) (insert_item-Inserted now p db))
    | inr (it, h) ↦ rw (h, spec_create) (Lawful-refl db)
  ]

  -- A step that goes on after a success.
  went_on :
      {A B : Type 0} (db : Db) (z : Reply A × Db) (k : A → Reply B × Db)
      → Lawful db z.1
      → ((a : A) → Lawful z.1 (k a).1)
      → let y : Reply B × Db = elim z.0 [ failed e ↦ (failed e, z.1) | ok a ↦ k a ] in Lawful db y.1
  went_on db (failed e, db1) k h i = h
  went_on db (ok a, db1) k h i = Lawful-trans _ _ _ h (i a)

  same_tables :
      {A B : Type 0} (db : Db) (z : Reply A × Db) (f : A → B)
      → Lawful db z.1
      → let y : Reply B × Db = elim z.0 [ failed e ↦ (failed e, z.1) | ok a ↦ (ok (f a), z.1) ] in
        Lawful db y.1
  same_tables db (failed e, db1) f h = h
  same_tables db (ok a, db1) f h = h

  pub spec_each-Lawful :
      (total : IsTotal marshal) (ps : List CreateItemParams) (db : Db)
      → Lawful db (spec_each marshal actor ps now db).1
  unfolding spec_each
  spec_each-Lawful total [] db = Lawful-refl db
  spec_each-Lawful total (p ∷ ps) db =
      let z = spec_create marshal actor p now db in
      went_on db z
        (λ item.
          let x = spec_each marshal actor ps now z.1 in
          elim x.0 [ failed e ↦ (failed e, x.1) | ok items ↦ (ok (item ∷ items), x.1) ])
        (spec_create-Lawful total p db)
        λ item.
          same_tables z.1 (spec_each marshal actor ps now z.1) (λ items. item ∷ items)
            (spec_each-Lawful total ps z.1)

  guards_lem :
      (invalid full : Bool) (db : Db) (x : Reply ItemRow × Db)
      → Lawful db x.1
      → let y : Reply ItemRow × Db =
          if invalid
          then (failed (broken (codes "23514")), db)
          else if full
          then (failed (broken (codes "22003")), db)
          else x in
        Lawful db y.1
  guards_lem true full db x h = Lawful-refl db
  guards_lem false true db x h = Lawful-refl db
  guards_lem false false db x h = h

  pub spec_update-Lawful :
      (p : UpdateItemParams) (db : Db) → Lawful db (spec_update marshal actor p now db).1
  unfolding spec_update
  spec_update-Lawful p db = elim (Option-cases (find_item p.id db.items)) [
    | inl h ↦ rw (h, spec_update) (Lawful-refl db)
    | inr (prev, h) ↦
        let item = revise now p prev in
        let saved = with_items (put_item item db.items) db in
        let moved : Db =
          if asks_move p prev
          then record_move marshal now actor item prev.status saved
          else saved in
        let fine : Lawful db moved = Lawful-trans _ _ _ (saved-Lawful now p db prev h) (
          if_elim (Lawful saved) (asks_move p prev) (λ _. record_move-Lawful item prev.status saved)
            λ _. Lawful-refl saved) in
        rw (h, spec_update)
          (if_elim (λ (y : Reply ItemRow × Db). Lawful db y.1) (not (version_fits p prev))
            (λ _. Lawful-refl db)
            λ _.
              guards_lem (not (is_valid_row item)) (leb 2147483647 prev.version) db (ok item, moved)
                fine)
  ]

  insert_activity-Lawful :
      (p : CreateActivityParams) (db : Db) → Lawful db (insert_activity now p db).1
  unfolding insert_activity
  insert_activity-Lawful p db =
      if_elim (λ (y : Reply ActivityRow × Db). Lawful db y.1)
        (contains activity_kinds (coalesce p.kind "comment")
          && contains confidences (coalesce p.confidence "unspecified"))
        (λ _. record { keyed = λ h. h; balanced = refl }) λ _. Lawful-refl db

  pub spec_log-Lawful :
      (p : CreateActivityParams) (db : Db) → Lawful db (spec_log marshal p now db).1
  unfolding spec_log
  spec_log-Lawful p db =
      let z = insert_activity now p db in
      went_on db z
        (λ row.
          (ok row, add_event marshal now row.project_id "activity.logged" (of_activity row) z.1))
        (insert_activity-Lawful p db)
        λ row.
          add_event-Lawful marshal now row.project_id "activity.logged" (of_activity row) z.1
            logged_differs

  change_summary-Lawful :
      (slug : String) (text : Bytes) (db : Db) → Lawful db (change_summary slug text db).1
  unfolding change_summary
  change_summary-Lawful slug text db = elim (Option-cases (find_slug slug db.projects)) [
    | inl h ↦ rw (h, change_summary) (Lawful-refl db)
    | inr (p, h) ↦ rw (h, change_summary) (record { keyed = λ k. k; balanced = refl })
  ]

  spec_summary-Lawful :
      (project : ℕ) (text : Bytes) (db : Db) → Lawful db (spec_summary project text db).1
  unfolding spec_summary
  spec_summary-Lawful project text db =
      if_elim (λ (y : Reply Unit × Db). Lawful db y.1) (text == []) (λ _. Lawful-refl db)
        λ _. elim (Option-cases (find_project project db.projects)) [
          | inl h ↦ rw (h) (Lawful-refl db)
          | inr (p, h) ↦ rw (h) (change_summary-Lawful p.slug text db)
        ]

  pub spec_complete-Lawful :
      (id : ℕ) (why summary : Bytes) (db : Db)
      → Lawful db (spec_complete marshal actor id why summary now db).1
  unfolding spec_complete
  spec_complete-Lawful id why summary db = elim (Option-cases (find_item id db.items)) [
    | inl h ↦ rw (h, spec_complete) (Lawful-refl db)
    | inr (prev, h) ↦
        let item = revise now (to_done id) prev in
        let saved = with_items (put_item item db.items) db in
        let moved : Db =
          if prev.status == "done"
          then saved
          else record_move marshal now actor item prev.status saved in
        let kept_so_far : Lawful db moved =
          Lawful-trans _ _ _ (saved-Lawful now (to_done id) db prev h) (
            if_elim (Lawful saved) (prev.status == "done") (λ _. Lawful-refl saved)
              λ _. record_move-Lawful item prev.status saved) in
        let told = record_why marshal now actor item why moved in
        rw (h, spec_complete)
          (guards_lem (not (is_valid_row item)) (leb 2147483647 prev.version) db _ (
            same_tables db (spec_summary item.project_id summary told) (λ _. item)
              (Lawful-trans _ _ _ kept_so_far (
                Lawful-trans _ _ _ (record_why-Lawful item why moved)
                  (spec_summary-Lawful item.project_id summary told)))))
  ]
