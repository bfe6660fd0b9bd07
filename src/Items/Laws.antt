-- ===== src/Items/Laws.antt =====
-- What the promised steps of Items/Spec.antt keep: the unique keys of the items, and one
-- `item.created` event for each new item.
use flightdeck.Webhooks.{enqueued}
use flightdeck.Items.Creation.{some_inj}
use flightdeck.Items.Spec.{add_event}
use flightdeck.Items.Operations.{Content, EventEnvelope, Marshal}
use flightdeck.Items.Revision.{put_item}
use flightdeck.Items.Tables.{find_item, is_live, holds_key, is_key_taken, would_clash}
use flightdeck.Items.State.{ItemRow, Queued, Db}
use flightdeck.Base.{
  ℕ, ◌+◌, ◌≤◌, String, ◌≡◌, refl, sym, ap, ◌∙◌, subst, ◌≢◌, inl, inr, true, false, ◌&&◌, none, some,
  List, [], ◌∷◌, ◌++◌, arith, if◌then◌else◌, ◌==◌, ==_iff, nat_eq, string_eq, Bool-cases,
  Option-cases, length,
}

-- How many rows hold a key of a project.
unfoldable pub holders : ℕ → String → List ItemRow → ℕ
unfolding holds_key
holders project k [] = 0
holders project k (row ∷ rows) = (if holds_key project k row then 1 else 0) + holders project k rows

-- The unique index holds: no key of a project is held twice.
unfoldable pub HasUniqueKeys : List ItemRow → Type 0
HasUniqueKeys rows = (project : ℕ) (k : String) → holders project k rows ≤ 1

-- How many events of a name the outbox has.
unfoldable pub count_events : String → List Queued → ℕ
count_events name [] = 0
count_events name (q ∷ qs) = (if q.event.event == name then 1 else 0) + count_events name qs

-- Every envelope can be encoded.
abbrev pub IsTotal : Marshal → Type 0
IsTotal marshal = (e : EventEnvelope) → marshal e ≢ none

-- Keys stay unique, and as many items as `item.created` events are new.
pub record Lawful (db db1 : Db) : Type 0 where
  pub keyed : HasUniqueKeys db.items → HasUniqueKeys db1.items
  pub balanced :
      length db1.items + count_events "item.created" db.outbox
      ≡ length db.items + count_events "item.created" db1.outbox

pub Lawful-refl : (db : Db) → Lawful db db
Lawful-refl db = record { keyed = λ h. h; balanced = refl }

pub Lawful-trans : (a b c : Db) → Lawful a b → Lawful b c → Lawful a c
Lawful-trans a b c h i = record {
  keyed = λ k. i.keyed (h.keyed k);
  balanced = omega (arith, h.balanced, i.balanced);
}

holders-append :
    (project : ℕ) (k : String) (rows : List ItemRow) (row : ItemRow)
    → holders project k (rows ++ row ∷ [])
      ≡ holders project k rows + (if holds_key project k row then 1 else 0)
unfolding holders
holders-append project k [] row = omega arith
holders-append project k (r ∷ rows) row = omega (arith, holders-append project k rows row)

count_events-append :
    (name : String) (qs : List Queued) (q : Queued)
    → count_events name (qs ++ q ∷ [])
      ≡ count_events name qs + (if q.event.event == name then 1 else 0)
unfolding count_events
count_events-append name [] q = omega arith
count_events-append name (r ∷ qs) q = omega (arith, count_events-append name qs q)

holders_free :
    (project : ℕ) (k : String) (rows : List ItemRow)
    → is_key_taken project k rows ≡ false
    → holders project k rows ≡ 0
unfolding is_key_taken holders
holders_free project k [] h = refl
holders_free project k (row ∷ rows) h = ground (arith, h, holders_free project k rows)

holds_key-true :
    (project : ℕ) (k : String) (row : ItemRow)
    → holds_key project k row ≡ true
    → (row.project_id ≡ project) × (row.idempotency_key ≡ some k)
unfolding holds_key
holds_key-true project k row h = elim (Option-cases row.idempotency_key) [
  | inl e ↦ absurd (ground (arith, h, e))
  | inr (j, e) ↦ (ground (arith, h, e), e ∙ ap some (ground (arith, h, e, ==_iff j k)))
]

-- A new row whose key is free.
pub keyed_new :
    (rows : List ItemRow) (row : ItemRow)
    → would_clash row rows ≡ false
    → HasUniqueKeys rows
    → HasUniqueKeys (rows ++ row ∷ [])
unfolding HasUniqueKeys would_clash
keyed_new rows row free h project k = elim (Bool-cases (holds_key project k row)) [
  | inr b ↦ ground (arith, holders-append project k rows row, h project k, b)
  | inl b ↦
      let (i, j) = holds_key-true project k row b in
      let clear : is_key_taken project k rows ≡ false =
        subst (λ n. is_key_taken n k rows ≡ false) i
          (subst
            (λ o. elim o [ none ↦ false | some k ↦ is_key_taken row.project_id k rows ] ≡ false) j
            free) in
      ground (arith, holders-append project k rows row, b, holders_free project k rows clear)
]

-- A row put in the place of the live row of its id, with the same key.
pub holders-put_item :
    (project : ℕ) (k : String) (rows : List ItemRow) (row prev : ItemRow)
    → find_item row.id rows ≡ some prev
    → holds_key project k row ≡ holds_key project k prev
    → holders project k (put_item row rows) ≡ holders project k rows
unfolding holders put_item find_item
holders-put_item project k [] row prev h e = refl
holders-put_item project k (r ∷ rows) row prev h e =
    elim (Bool-cases (r.id == row.id && is_live r)) [
      | inl b ↦
          let first : find_item row.id (r ∷ rows) ≡ some r = rw (b, find_item) in
          let same : r ≡ prev = some_inj (sym first ∙ h) in
          ground (arith, b, e ∙ ap (holds_key project k) (sym same))
      | inr b ↦
          let rest : find_item row.id (r ∷ rows) ≡ find_item row.id rows = rw (b, find_item) in
          ground (arith, b, holders-put_item project k rows row prev (sym rest ∙ h) e)
    ]

pub length-put_item :
    (row : ItemRow) (rows : List ItemRow) → length (put_item row rows) ≡ length rows
unfolding put_item
length-put_item row [] = refl
length-put_item row (r ∷ rows) = ground (arith, length-put_item row rows)

pub add_event-Lawful :
    (marshal : Marshal) (now project : ℕ) (event : String) (content : Content) (db : Db)
    → event ≢ "item.created"
    → Lawful db (add_event marshal now project event content db)
unfolding add_event enqueued
add_event-Lawful marshal now project event content db ne =
    elim (Option-cases
      (marshal (record { event = event; project_id = project; at = now; data_ = content }))) [
        | inl h ↦ rw (h, add_event) (Lawful-refl db)
        | inr (payload, h) ↦
            rw (h, add_event)
              (record {
                keyed = λ k. k;
                balanced = ground (
                  arith,
                  count_events-append "item.created" db.outbox
                      (record { event = enqueued db.next project now event; payload = payload }),
                  ==_iff event "item.created",
                  ne,
                );
              })
      ]

-- The event of a new item.
pub created_event :
    (marshal : Marshal) (now project : ℕ) (content : Content) (db : Db)
    → IsTotal marshal
    → count_events "item.created" (add_event marshal now project "item.created" content db).outbox
      ≡ count_events "item.created" db.outbox + 1
unfolding add_event enqueued
created_event marshal now project content db total =
    elim (Option-cases (
      marshal
        (record { event = "item.created"; project_id = project; at = now; data_ = content }))) [
          | inl h ↦ absurd (total _ h)
          | inr (payload, h) ↦
              rw (h, add_event)
                (count_events-append "item.created" db.outbox (record {
                  event = enqueued db.next project now "item.created";
                  payload = payload;
                }))
        ]
