-- ===== src/Items/Completion.antt =====
-- CompleteItem of internal/service/features.go: no item is done without its recorded why.
use flightdeck.Items.Atomic.{IsSettled, Refines}
use flightdeck.Items.Acts.{all_or_nothing}
use flightdeck.Items.Robust.{IsBroken}
use flightdeck.Items.Spec.{
  add_activity, add_event, record_move, record_why, spec_summary, spec_complete,
}
use flightdeck.Items.Operations.{Content, of_activity, Marshal, remark, to_done, complete_item}
use flightdeck.Items.Revision.{revise, put_item, with_items, find_slug, change_summary}
use flightdeck.Items.Transaction.{Conn}
use flightdeck.Items.Tables.{Failure, Reply, failed, ok, is_valid_row, find_item, find_project}
use flightdeck.Items.State.{ItemRow, ActivityRow, Db}
use flightdeck.Base.Bytes.{Bytes, bytes_eq}
use flightdeck.Items.Refinement.{complete_item-Refines}
use flightdeck.Base.{
  ℕ, String, ◌≡◌, refl, sym, ap, ◌∙◌, subst, ◌≢◌, ◌⊎◌, inl, inr, not, some, List, [], ◌∷◌, ◌++◌,
  arith, leb, if◌then◌else◌, ◌==◌, ==_iff, nat_eq, string_eq, if_elim, Option-cases, Among,
}

-- The log has a decision on the item with this body.
abbrev pub HasDecision : ℕ → Bytes → Db → Type 0
HasDecision id why db =
    (row : ActivityRow) × Among row db.activities
    × (row.kind ≡ "decision")
    × (row.body ≡ why)
    × (row.item_id ≡ some id)

Among-last : {A : Type 0} (xs : List A) (a : A) → Among a (xs ++ a ∷ [])
Among-last [] a = inl refl
Among-last (x ∷ xs) a = inr (Among-last xs a)

add_event-activities :
    (marshal : Marshal) (now project : ℕ) (event : String) (content : Content) (db : Db)
    → (add_event marshal now project event content db).activities ≡ db.activities
unfolding add_event
add_event-activities marshal now project event content db =
    elim (Option-cases
      (marshal (record { event = event; project_id = project; at = now; data_ = content }))) [
        | inl h ↦ rw (h, add_event)
        | inr (payload, h) ↦ rw (h, add_event)
      ]

why-HasDecision :
    (marshal : Marshal) (now : ℕ) (actor : Bytes) (item : ItemRow) (why : Bytes) (db : Db)
    → why ≢ []
    → HasDecision item.id why (record_why marshal now actor item why db)
unfolding record_why add_activity remark
why-HasDecision marshal now actor item why db given =
    if_elim (HasDecision item.id why) (why == []) (λ b. absurd (given ((==_iff why []).0 b)))
      λ _.
        let (row, db1) = add_activity now (remark item "decision" actor why) db in
        (
          row,
          subst (λ rows. Among row rows)
              (sym (
                add_event-activities marshal now item.project_id "activity.logged" (of_activity row)
                  db1))
              (Among-last db.activities row),
          refl,
          refl,
          refl,
        )

spec_summary-activities :
    (project : ℕ) (text : Bytes) (db : Db)
    → (spec_summary project text db).1.activities ≡ db.activities
unfolding spec_summary change_summary
spec_summary-activities project text db =
    if_elim (λ (y : Reply Unit × Db). y.1.activities ≡ db.activities) (text == []) (λ _. refl)
      λ _. elim (Option-cases (find_project project db.projects)) [
        | inl h ↦ rw (h)
        | inr (p, h) ↦ rw (h) (elim (Option-cases (find_slug p.slug db.projects)) [
          | inl g ↦ rw (g, change_summary)
          | inr (q, g) ↦ rw (g, change_summary)
        ])
      ]

-- What a success says of its item and its tables.
abbrev Explained : Bytes → Reply ItemRow × Db → Type 0
Explained why (failed _, db) = Unit
Explained why (ok it, db) = (it.status ≡ "done") × HasDecision it.id why db

summed :
    (why : Bytes) (item : ItemRow) (z : Reply Unit × Db)
    → item.status ≡ "done"
    → HasDecision item.id why z.1
    → let y : Reply ItemRow × Db = elim z.0 [
      | ok _ ↦ (ok item, z.1)
      | failed e ↦ (failed e, z.1)
    ] in
      Explained why y
summed why item (ok _, db) h i = (h, i)
summed why item (failed e, db) h i = tt

spec_complete-Explained :
    (marshal : Marshal) (actor : Bytes) (id : ℕ) (why summary : Bytes) (now : ℕ) (db : Db)
    → why ≢ []
    → Explained why (spec_complete marshal actor id why summary now db)
unfolding spec_complete revise
spec_complete-Explained marshal actor id why summary now db given =
    elim (Option-cases (find_item id db.items)) [
      | inl h ↦ rw (h, spec_complete) tt
      | inr (prev, h) ↦
          let item = revise now (to_done id) prev in
          let saved = with_items (put_item item db.items) db in
          let moved : Db =
            if prev.status == "done"
            then saved
            else record_move marshal now actor item prev.status saved in
          let told = record_why marshal now actor item why moved in
          let (row, here, kind, body, about) =
            why-HasDecision marshal now actor item why moved given in
          rw (h, spec_complete)
            (if_elim (Explained why) (not (is_valid_row item)) (λ _. tt)
              λ _.
                if_elim (Explained why) (leb 2147483647 prev.version) (λ _. tt)
                  λ _. summed why item (spec_summary item.project_id summary told) refl (
                    row,
                    subst (λ rows. Among row rows)
                        (sym (spec_summary-activities item.project_id summary told)) here,
                    kind,
                    body,
                    about,
                  ))
    ]

Explained-of :
    (why : Bytes) (it : ItemRow) (db db0 : Db) (z : Reply ItemRow × Db)
    → Explained why z
    → ◌≡◌ {A = Reply ItemRow × Db}
        (ok it, db)
        (elim z.0 [ ok a ↦ (ok a, z.1) | failed e ↦ (failed e, db0) ])
    → Explained why (ok it, db)
Explained-of why it db db0 (ok a, db1) h e = subst (Explained why) (sym e) h
Explained-of why it db db0 (failed f, db1) h e = absurd (ground (arith, e))

completed_how :
    (marshal : Marshal) (actor : Bytes) (id : ℕ) (why summary : Bytes) (c : Conn)
    (x : Reply ItemRow × Conn) (it : ItemRow)
    → Refines (spec_complete marshal actor id why summary) c x
    → why ≢ []
    → x.0 ≡ ok it
    → Explained why (ok it, x.1.db)
unfolding all_or_nothing
completed_how marshal actor id why summary c x it r given e = elim r.whole_or_none [
  | inl b ↦ elim (subst (λ y. IsBroken y) e b.0) [ ]
  | inr h ↦
      Explained-of why it x.1.db c.db (spec_complete marshal actor id why summary c.now c.db)
        (spec_complete-Explained marshal actor id why summary c.now c.db given)
        (ap (λ y. (y, x.1.db)) (sym e) ∙ h)
]

failed_kept :
    (e : Failure) (db db0 : Db) (z : Reply ItemRow × Db)
    → ◌≡◌ {A = Reply ItemRow × Db}
        (failed e, db)
        (elim z.0 [ ok a ↦ (ok a, z.1) | failed f ↦ (failed f, db0) ])
    → db ≡ db0
failed_kept e db db0 (ok a, db1) h = absurd (ground (arith, h))
failed_kept e db db0 (failed f, db1) h = ap (λ y. y.1) h

ended :
    (marshal : Marshal) (actor : Bytes) (id : ℕ) (why summary : Bytes) (c : Conn)
    (x : Reply ItemRow × Conn)
    → Refines (spec_complete marshal actor id why summary) c x
    → why ≢ []
    → ((it : ItemRow) × (x.0 ≡ ok it) × (it.status ≡ "done") × HasDecision it.id why x.1.db)
      ⊎ ((e : Failure) × (x.0 ≡ failed e) × (x.1.db ≡ c.db))
unfolding all_or_nothing
ended marshal actor id why summary c (ok it, d) r given =
    let (done, why_told) =
      completed_how marshal actor id why summary c (ok it, d) it r given refl in
    inl (it, refl, done, why_told)
ended marshal actor id why summary c (failed e, d) r given = inr (
  e,
  refl,
  elim r.whole_or_none [
    | inl b ↦ b.1
    | inr h ↦ failed_kept e d.db c.db (spec_complete marshal actor id why summary c.now c.db) h
  ],
)

-- From a connection without an open transaction, a call of CompleteItem with a why either returns the
-- item with status `done` and leaves a decision about that item whose body is the why, or returns an
-- error and leaves the tables as they were.
pub complete_item-explained :
    (marshal : Marshal) (actor : Bytes) (id : ℕ) (why summary : Bytes) (c : Conn)
    → IsSettled c
    → why ≢ []
    → let x = complete_item marshal id why summary actor c in
      ((it : ItemRow) × (x.0 ≡ ok it) × (it.status ≡ "done") × HasDecision it.id why x.1.db)
      ⊎ ((e : Failure) × (x.0 ≡ failed e) × (x.1.db ≡ c.db))
complete_item-explained marshal actor id why summary c s given =
    ended marshal actor id why summary c (complete_item marshal id why summary actor c)
      (complete_item-Refines marshal actor c s id why summary) given
