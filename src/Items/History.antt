-- ===== src/Items/History.antt =====
-- A history of writes of internal/service/service.go and features.go, each under its own faults, against
-- the atomic steps of Items/Spec.antt.
use flightdeck.Base.Bytes.{Bytes}
use flightdeck.Items.Creation.{creates, yields, fails}
use flightdeck.Items.Atomic.{IsSettled, Refines}
use flightdeck.Items.Acts.{all_or_nothing}
use flightdeck.Items.Robust.{calm}
use flightdeck.Items.Spec.{prior_item, spec_create, spec_each, spec_update, spec_log, spec_complete}
use flightdeck.Items.Operations.{
  Marshal, Rivals, create_item, bulk_create_items, update_item, log_activity, complete_item,
}
use flightdeck.Items.Transaction.{Fate, Conn}
use flightdeck.Items.Tables.{Reply, failed, ok}
use flightdeck.Items.State.{ItemRow, Db, CreateItemParams, UpdateItemParams, CreateActivityParams}
use flightdeck.Items.Told.{Told, breaks_first, finds, goes_on, create_item-Told}
use flightdeck.Items.Refinement.{
  bulk_create_items-Refines, update_item-Refines, log_activity-Refines, complete_item-Refines,
}
use flightdeck.Base.{
  ℕ, ◌≡◌, refl, sym, ap, ◌∙◌, subst, ◌≢◌, ◌⊎◌, inl, inr, some, List, [], ◌∷◌, arith, nat_eq,
  string_eq,
}

-- A write of the service.
pub data Write : Type 0 where
  creates_one : CreateItemParams → Bytes → Write
  creates_all : List CreateItemParams → Bytes → Write
  updates : UpdateItemParams → Bytes → Write
  logs : CreateActivityParams → Write
  completes : ℕ → Bytes → Bytes → Bytes → Write

-- A write, when it comes, and how its statements fare.
pub record Turn : Type 0 where
  pub write : Write
  pub now : ℕ
  pub fates : List Fate

-- No other caller commits in the middle of the call.
abbrev pub alone : Rivals
alone = record { between = λ db. db; after_loss = λ db. db }

-- The connection that a write leaves.
unfoldable pub perform : Marshal → Write → Conn → Conn
unfolding create_item bulk_create_items update_item log_activity complete_item
perform marshal (creates_one p actor) c = (create_item marshal alone p actor c).1
perform marshal (creates_all ps actor) c = (bulk_create_items marshal ps actor c).1
perform marshal (updates p actor) c = (update_item marshal (λ db. db) p actor c).1
perform marshal (logs p) c = (log_activity marshal p c).1
perform marshal (completes id why summary actor) c =
    (complete_item marshal id why summary actor c).1

unfoldable pub run_turns : Marshal → List Turn → Conn → Conn
unfolding perform
run_turns marshal [] c = c
run_turns marshal (t ∷ ts) c =
    run_turns marshal ts (perform marshal t.write (record c { now = t.now; fates = t.fates }))

-- The promised step of a write.
unfoldable pub promised : Marshal → Write → ℕ → Db → Db
unfolding all_or_nothing spec_create spec_each spec_update spec_log spec_complete
promised marshal (creates_one p actor) now db =
    (all_or_nothing (spec_create marshal actor p) now db).1
promised marshal (creates_all ps actor) now db =
    (all_or_nothing (spec_each marshal actor ps) now db).1
promised marshal (updates p actor) now db = (all_or_nothing (spec_update marshal actor p) now db).1
promised marshal (logs p) now db = (all_or_nothing (spec_log marshal p) now db).1
promised marshal (completes id why summary actor) now db =
    (all_or_nothing (spec_complete marshal actor id why summary) now db).1

-- From `db` to `last` by the promised steps, but for writes under faults, which may be left out whole.
unfoldable pub Reaches : Marshal → List Turn → Db → Db → Type 0
Reaches marshal [] db last = last ≡ db
Reaches marshal (t ∷ ts) db last =
    Reaches marshal ts (promised marshal t.write t.now db) last
    ⊎ ((t.fates ≢ []) × Reaches marshal ts db last)

-- One step: the promised tables, or the old ones under faults.
abbrev Stepped : Marshal → Write → Conn → Conn → Type 0
Stepped marshal w c d =
    IsSettled d × ((d.db ≡ promised marshal w c.now c.db) ⊎ ((c.fates ≢ []) × (d.db ≡ c.db)))

fates_none : (fs : List Fate) → (fs ≡ []) ⊎ (fs ≢ [])
fates_none [] = inl refl
fates_none (f ∷ fs) = inr λ h. ground (arith, h)

refined_step :
    {A : Type 0} (f : ℕ → Db → Reply A × Db) (c : Conn) (x : Reply A × Conn)
    → Refines f c x
    → IsSettled x.1
      × ((x.1.db ≡ (all_or_nothing f c.now c.db).1) ⊎ ((c.fates ≢ []) × (x.1.db ≡ c.db)))
refined_step f c x r = (
  r.settled,
  elim (fates_none c.fates) [
    | inl calm_fates ↦ inl (ap (λ y. y.1) (r.calm_whole calm_fates))
    | inr faulty ↦ elim r.whole_or_none [
      | inl h ↦ inr (faulty, h.1)
      | inr h ↦ inl (ap (λ y. y.1) h)
    ]
  ],
)

abbrev kept : Db → Reply ItemRow × Db → Reply ItemRow × Db
kept db z = elim z.0 [ ok a ↦ (ok a, z.1) | failed e ↦ (failed e, db) ]

module _ (marshal : Marshal) (p : CreateItemParams) (actor : Bytes) where
  found_step :
      (now : ℕ) (db : Db) (it : ItemRow)
      → prior_item p db ≡ some it
      → (all_or_nothing (spec_create marshal actor p) now db).1 ≡ db
  unfolding all_or_nothing spec_create
  found_step now db it h =
      let e : ◌≡◌ {A = Reply ItemRow × Db} (spec_create marshal actor p now db) (ok it, db) =
        rw (h, spec_create) in
      ap (λ z. (kept db z).1) e

  created_step :
      (now : ℕ) (db db1 : Db) (it : ItemRow)
      → ◌≡◌ {A = Reply ItemRow × Db} (ok it, db1) (spec_create marshal actor p now db)
      → db1 ≡ (all_or_nothing (spec_create marshal actor p) now db).1
  unfolding all_or_nothing
  created_step now db db1 it h = ap (λ z. (kept db z).1) h

  Told-step :
      (c : Conn) (x : Reply ItemRow × Conn)
      → Told marshal alone p actor c x
      → (x.1.db ≡ (all_or_nothing (spec_create marshal actor p) c.now c.db).1)
        ⊎ ((c.fates ≢ []) × (x.1.db ≡ c.db))
  Told-step c x (breaks_first b h f) = inr (f, h)
  Told-step c x (finds it found q h) = inl (h ∙ sym (found_step c.now c.db it found))
  Told-step c x (goes_on d free h n f ending) = elim ending [
    | creates it q e ↦ inl (
        created_step d.now d.db x.1.db it e
        ∙ (ap (λ m. (all_or_nothing (spec_create marshal actor p) m d.db).1) n
            ∙ ap (λ db. (all_or_nothing (spec_create marshal actor p) c.now db).1) h))
    | yields it q found g ↦
        inl (g ∙ (h ∙ sym (found_step c.now c.db it (ap (prior_item p) (sym h) ∙ found))))
    | fails e q g calm ↦
        let same : x.1.db ≡ c.db = elim g [ inl g ↦ g ∙ h | inr g ↦ g ∙ h ] in
        elim (fates_none c.fates) [
          | inr faulty ↦ inr (faulty, same)
          | inl none_left ↦ inl (
              same
              ∙ (sym h
                  ∙ (ap (λ y. y.1) (calm (f none_left))
                      ∙ (ap (λ m. (all_or_nothing (spec_create marshal actor p) m d.db).1) n
                          ∙ ap (λ db. (all_or_nothing (spec_create marshal actor p) c.now db).1)
                              h))))
        ]
  ]

perform-Stepped :
    (marshal : Marshal) (w : Write) (c : Conn)
    → IsSettled c
    → Stepped marshal w c (perform marshal w c)
unfolding perform promised
perform-Stepped marshal (creates_one p actor) c s =
    let (settled, told) = create_item-Told marshal alone p actor c s in
    (settled, Told-step marshal p actor c (create_item marshal alone p actor c) told)
perform-Stepped marshal (creates_all ps actor) c s =
    refined_step _ c _ (bulk_create_items-Refines marshal actor c s ps)
perform-Stepped marshal (updates p actor) c s =
    refined_step _ c _ (update_item-Refines marshal actor c s p)
perform-Stepped marshal (logs p) c s = refined_step _ c _ (log_activity-Refines marshal [] c s p)
perform-Stepped marshal (completes id why summary actor) c s =
    refined_step _ c _ (complete_item-Refines marshal actor c s id why summary)

-- From a connection without an open transaction, a history of the service's writes reaches its last
-- tables by the promised steps alone, in order, where only a write one of whose statements may break
-- can be left out, and then as a whole; no transaction is left open.
pub run_turns-Reaches :
    (marshal : Marshal) (ts : List Turn) (c : Conn)
    → IsSettled c
    → IsSettled (run_turns marshal ts c) × Reaches marshal ts c.db (run_turns marshal ts c).db
unfolding run_turns Reaches
run_turns-Reaches marshal [] c s = (s, refl)
run_turns-Reaches marshal (t ∷ ts) c s =
    let c1 : Conn = record c { now = t.now; fates = t.fates } in
    let d = perform marshal t.write c1 in
    let (s1, step) = perform-Stepped marshal t.write c1 s in
    let (last, reached) = run_turns-Reaches marshal ts d s1 in
    (
      last,
      elim step [
        | inl h ↦ inl (subst (λ db. Reaches marshal ts db (run_turns marshal ts d).db) h reached)
        | inr (faulty, h) ↦
            inr (faulty, subst (λ db. Reaches marshal ts db (run_turns marshal ts d).db) h reached)
      ],
    )
