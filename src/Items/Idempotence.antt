-- ===== src/Items/Idempotence.antt =====
-- What CreateItem promises a caller who retries: the item of a supplied key is the item of that key.
use flightdeck.Base.Bytes.{Bytes}
use flightdeck.Items.Creation.{ok_inj}
use flightdeck.Items.Spec.{
  add_activity, add_event, prior_item, announce_item, spec_insert, spec_create,
}
use flightdeck.Items.Operations.{Content, of_item, Marshal, given_key}
use flightdeck.Items.Tables.{
  Reply, failed, ok, is_valid_row, is_live, find_project, new_item, with_item, insert_item,
  holds_key, would_clash, find_by_key,
}
use flightdeck.Items.State.{ItemRow, Db, CreateItemParams}
use flightdeck.Base.{
  ℕ, ◌+◌, String, ◌≡◌, refl, sym, ap, ◌∙◌, inl, inr, true, false, not, ◌&&◌, none, some, List, [],
  ◌∷◌, ◌++◌, arith, ◌==◌, ==_refl, nat_eq, string_eq, if_elim, Bool-cases, Option-cases,
}

given_key-some :
    (p : CreateItemParams) (k : String) → given_key p ≡ some k → p.idempotency_key ≡ some k
unfolding given_key
given_key-some p k h = elim (Option-cases p.idempotency_key) [
  | inl e ↦ absurd (ground (arith, h, e))
  | inr (j, e) ↦ elim (Bool-cases (j == "")) [
    | inl b ↦ absurd (ground (arith, h, e, b))
    | inr b ↦ ground (arith, h, e, b)
  ]
]

find_by_key-append :
    (project : ℕ) (k : String) (rows : List ItemRow) (row : ItemRow)
    → find_by_key project k rows ≡ none
    → holds_key project k row ≡ true
    → is_live row ≡ true
    → find_by_key project k (rows ++ row ∷ []) ≡ some row
unfolding find_by_key
find_by_key-append project k [] row none_there held live = rw (held) (rw (live))
find_by_key-append project k (r ∷ rows) row none_there held live =
    elim (Bool-cases (holds_key project k r && is_live r)) [
      | inl b ↦ absurd (ground (arith, none_there, b))
      | inr b ↦
          let rest : find_by_key project k rows ≡ none = ground (arith, none_there, b) in
          rw (b) (find_by_key-append project k rows row rest held live)
    ]

pub add_event-items :
    (marshal : Marshal) (now project : ℕ) (event : String) (content : Content) (db : Db)
    → (add_event marshal now project event content db).items ≡ db.items
unfolding add_event
add_event-items marshal now project event content db =
    elim (Option-cases
      (marshal (record { event = event; project_id = project; at = now; data_ = content }))) [
        | inl h ↦ rw (h, add_event)
        | inr (payload, h) ↦ rw (h, add_event)
      ]

pub announce_item-items :
    (marshal : Marshal) (now : ℕ) (actor : Bytes) (item : ItemRow) (db : Db)
    → (announce_item marshal now actor item db).items ≡ db.items
unfolding announce_item add_activity
announce_item-items marshal now actor item db =
    add_event-items marshal now item.project_id "item.created" (of_item item) _

-- An insert that succeeds appends the new row.
abbrev pub Inserted : CreateItemParams → Db → Reply ItemRow × Db → Type 0
Inserted p db (failed _, db1) = db1 ≡ db
Inserted p db (ok it, db1) =
    (db1.items ≡ db.items ++ it ∷ [])
    × (it.project_id ≡ p.project_id)
    × (it.idempotency_key ≡ p.idempotency_key)
    × (it.deleted_at ≡ none)
    × (would_clash it db.items ≡ false)
    × (db1.outbox ≡ db.outbox)

pub insert_item-Inserted :
    (now : ℕ) (p : CreateItemParams) (db : Db) → Inserted p db (insert_item now p db)
unfolding insert_item with_item new_item
insert_item-Inserted now p db = elim (Option-cases (find_project p.project_id db.projects)) [
  | inl e ↦ rw (e, insert_item) refl
  | inr (owner, e) ↦
      let row = new_item db.next (owner.item_seq + 1) now p in
      rw (e, insert_item)
        (if_elim (Inserted p db) (not (is_valid_row row)) (λ _. refl)
          λ _.
            if_elim (Inserted p db) (would_clash row db.items) (λ _. refl)
              λ free. (refl, refl, refl, refl, free, refl))
]

module _ (marshal : Marshal) (p : CreateItemParams) (k : String)
    (keyed : given_key p ≡ some k) where
  prior_lem : (db : Db) → prior_item p db ≡ find_by_key p.project_id k db.items
  unfolding prior_item
  prior_lem db = rw (keyed, prior_item)

  held_lem :
      (row : ItemRow)
      → row.project_id ≡ p.project_id
      → row.idempotency_key ≡ some k
      → holds_key p.project_id k row ≡ true
  unfolding holds_key
  held_lem row h i = rw (h, holds_key) (rw (i) (ground (arith, ==_refl p.project_id, ==_refl k)))

  Inserted-found :
      (now : ℕ) (actor : Bytes) (db : Db) (z : Reply ItemRow × Db)
      → Inserted p db z
      → prior_item p db ≡ none
      → let y : Reply ItemRow × Db = elim z.0 [
        | failed e ↦ (failed e, z.1)
        | ok item ↦ (ok item, announce_item marshal now actor item z.1)
      ] in
        (it : ItemRow) → y.0 ≡ ok it → prior_item p y.1 ≡ some it
  Inserted-found now actor db (failed e, db1) h free it q = absurd (ground (arith, q))
  Inserted-found now actor db (ok row, db1) h free it q =
      let held : holds_key p.project_id k row ≡ true =
        held_lem row h.1 (h.2 ∙ given_key-some p k keyed) in
      prior_lem (announce_item marshal now actor row db1)
      ∙ (rw (announce_item-items marshal now actor row db1) (
          rw (h.0) (
            find_by_key-append p.project_id k db.items row (sym (prior_lem db) ∙ free) held
              (rw (h.3))
            ∙ ap some (ok_inj q))))

  pub spec_create_found :
      (now : ℕ) (actor : Bytes) (db db1 : Db) (it : ItemRow)
      → ◌≡◌ {A = Reply ItemRow × Db} (ok it, db1) (spec_create marshal actor p now db)
      → prior_item p db1 ≡ some it
  unfolding spec_create spec_insert
  spec_create_found now actor db db1 it h = elim (Option-cases (prior_item p db)) [
    | inl free ↦
        let q : ◌≡◌ {A = Reply ItemRow × Db} (ok it, db1) (spec_insert marshal actor p now db) =
          h ∙ (rw (free, spec_create)) in
        ap (λ z. prior_item p z.1) q
        ∙ Inserted-found now actor db (insert_item now p db) (insert_item-Inserted now p db) free it
            (ap (λ z. z.0) (sym q))
    | inr (old, found) ↦
        let q : ◌≡◌ {A = Reply ItemRow × Db} (ok it, db1) (ok old, db) =
          h ∙ (rw (found, spec_create)) in
        ap (λ z. prior_item p z.1) q ∙ (found ∙ ap some (sym (ok_inj (ap (λ z. z.0) q))))
  ]
