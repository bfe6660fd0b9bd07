-- ===== src/Items/Creation.antt =====
-- CreateItem, with what other callers commit around its transaction: how each call ends.
use flightdeck.Base.Bytes.{Bytes}
use flightdeck.Items.Atomic.{IsSettled, Refines, with_tx-Refines}
use flightdeck.Items.Bodies.{create_item_tx-IsFair, create_item_tx-Acts}
use flightdeck.Items.Acts.{Acts, look-Acts, all_or_nothing}
use flightdeck.Items.Robust.{draw_lem, IsBroken}
use flightdeck.Items.Spec.{prior_item, spec_create}
use flightdeck.Items.Operations.{
  Marshal, given_key, get_by_key, get_prior, create_item_tx, Rivals, recover, create_in_tx,
}
use flightdeck.Items.Transaction.{
  Fate, runs, loses, breaks, Conn, pure, ◌>>=◌, ◌>>◌, draw, fare, statement, reads,
  is_unique_violation, or_none, found_or_none, with_tx, clear_cache, meanwhile,
}
use flightdeck.Items.Tables.{Failure, Reply, failed, ok, or_no_rows, find_by_key}
use flightdeck.Items.State.{ItemRow, Db, CreateItemParams}
use flightdeck.Base.{
  ◌≡◌, refl, sym, ap, ◌∙◌, subst, ◌⊎◌, inl, inr, true, Option, none, some, [], arith, nat_eq,
  string_eq, Bool-cases, Option-cases,
}

-- What a look-up of `o` leaves behind.
pub record Looks {A : Type 0} (o : Option A) (c : Conn) (x : Reply (Option A) × Conn) : Type 0 where
  pub answer : IsBroken x.0 ⊎ (x.0 ≡ ok o)
  pub same_db : x.1.db ≡ c.db
  pub same_committed : x.1.committed ≡ c.committed
  pub same_now : x.1.now ≡ c.now
  pub calm_answer : c.fates ≡ [] → (x.0 ≡ ok o) × (x.1.fates ≡ [])

module _ {A : Type 0} where
  looked :
      (f : Db → Option A) (t : Fate) (o : Option A) (c : Conn)
      → f c.db ≡ o
      → let x = found_or_none (fare (reads λ db. or_no_rows (f db)) t c) in
        (IsBroken x.0 ⊎ (x.0 ≡ ok o))
        × (x.1.db ≡ c.db)
        × (x.1.committed ≡ c.committed)
        × (x.1.now ≡ c.now)
  unfolding fare found_or_none
  looked f runs none c h = rw (h) (inr refl, refl, refl, refl)
  looked f runs (some a) c h = rw (h) (inr refl, refl, refl, refl)
  looked f loses o c h = (inl refl, refl, refl, refl)
  looked f (breaks e) o c h = (inl refl, refl, refl, refl)

  look-Looks :
      (f : Db → Option A) (c : Conn)
      → Looks (f c.db) c (or_none (statement (reads λ db. or_no_rows (f db))) c)
  unfolding statement Acts
  look-Looks f c =
      let (same, kept, db) = draw_lem c in
      let (h, i, j, k) = looked f (draw c).0 (f c.db) (draw c).1 (ap f db) in
      record {
        answer = h;
        same_db = i ∙ db;
        same_committed = j ∙ kept;
        same_now = k ∙ ap (λ d. d.now) same;
        calm_answer = λ hf. let (e, g, _) = look-Acts f c hf in (ap (λ y. y.0) e, g);
      }

pub get_prior-Looks :
    (p : CreateItemParams) (c : Conn) → Looks (prior_item p c.db) c (get_prior p c)
unfolding get_prior get_by_key prior_item
get_prior-Looks p c = elim (Option-cases (given_key p)) [
  | inl h ↦
      rw (h, get_prior, prior_item)
        (record {
          answer = inr refl;
          same_db = refl;
          same_committed = refl;
          same_now = refl;
          calm_answer = λ hf. (refl, hf);
        })
  | inr (k, h) ↦
      rw (h, get_prior, prior_item) (look-Looks (λ db. find_by_key p.project_id k db.items) c)
]

pub ok_inj : {A : Type 0} {a b : A} → ◌≡◌ {A = Reply A} (ok a) (ok b) → a ≡ b
ok_inj {A} {a} h = ap (λ r. elim r [ ok x ↦ x | failed _ ↦ a ]) h

pub some_inj : {A : Type 0} {a b : A} → some a ≡ some b → a ≡ b
some_inj {A} {a} h = ap (λ r. elim r [ some x ↦ x | none ↦ a ]) h

-- How a call of CreateItem ends after its first look-up: with a new item, with the item of a rival
-- that was first, or with an error.
module _ (marshal : Marshal) (rivals : Rivals) (p : CreateItemParams) (actor : Bytes) where
  -- On the tables `start`, which the rivals turn into `seen`, and later into `last`.
  pub data Ending (c : Conn) (seen last : Db) (x : Reply ItemRow × Conn) : Type 0 where
    creates :
        (it : ItemRow)
        → x.0 ≡ ok it
        → ◌≡◌ {A = Reply ItemRow × Db} (ok it, x.1.db) (spec_create marshal actor p c.now seen)
        → Ending c seen last x
    yields :
        (it : ItemRow)
        → x.0 ≡ ok it
        → prior_item p last ≡ some it
        → x.1.db ≡ last
        → Ending c seen last x
    fails :
        (e : Failure)
        → x.0 ≡ failed e
        → (x.1.db ≡ seen) ⊎ (x.1.db ≡ last)
        → (c.fates ≡ []
            → ◌≡◌ {A = Reply ItemRow × Db}
                (failed e, seen)
                (all_or_nothing (spec_create marshal actor p) c.now seen))
        → Ending c seen last x

  abbrev pub Ends : Conn → Reply ItemRow × Conn → Type 0
  Ends c x = IsSettled x.1 × Ending c c.db (rivals.after_loss c.db) x

  kept_lem :
      (a : ItemRow) (db db1 : Db) (z : Reply ItemRow × Db)
      → ◌≡◌ {A = Reply ItemRow × Db}
          (ok a, db1)
          (elim z.0 [ ok b ↦ (ok b, z.1) | failed e ↦ (failed e, db) ])
      → ◌≡◌ {A = Reply ItemRow × Db} (ok a, db1) z
  kept_lem a db db1 (ok b, w) h = h
  kept_lem a db db1 (failed e, w) h = absurd (ground (arith, h))

  dropped_lem :
      (e : Failure) (db db1 : Db) (z : Reply ItemRow × Db)
      → ◌≡◌ {A = Reply ItemRow × Db}
          (failed e, db1)
          (elim z.0 [ ok b ↦ (ok b, z.1) | failed e ↦ (failed e, db) ])
      → db1 ≡ db
  dropped_lem e db db1 (ok b, w) h = absurd (ground (arith, h))
  dropped_lem e db db1 (failed f, w) h = ap (λ y. y.1) h

  -- The answer of the second look-up.
  rescued : Failure → Reply (Option ItemRow) × Conn → Reply ItemRow × Conn
  rescued e (failed _, d) = (failed e, d)
  rescued e (ok none, d) = (failed e, d)
  rescued e (ok (some existing), d) = (ok existing, d)

  rescued_lem :
      (e : Failure) (z : Reply (Option ItemRow) × Conn)
      → ◌≡◌ {A = Reply ItemRow × Conn}
          (elim z.0 [
            | failed _ ↦ (failed e, z.1)
            | ok found ↦ elim found [ none ↦ (failed e, z.1) | some existing ↦ (ok existing, z.1) ]
          ])
          (rescued e z)
  unfolding rescued
  rescued_lem e (failed _, d) = refl
  rescued_lem e (ok none, d) = refl
  rescued_lem e (ok (some existing), d) = refl

  module _ (c : Conn) (e : Failure)
      (calm_end : c.fates ≡ []
        → ◌≡◌ {A = Reply ItemRow × Db}
            (failed e, c.db)
            (all_or_nothing (spec_create marshal actor p) c.now c.db)) where
    rescued-Ends :
        (d : Conn) (z : Reply (Option ItemRow) × Conn)
        → d.db ≡ rivals.after_loss c.db
        → IsSettled d
        → Looks (prior_item p d.db) d z
        → Ends c (rescued e z)
    unfolding rescued
    rescued-Ends d (failed _, dd) h s look = (
      look.same_db ∙ (s ∙ sym look.same_committed),
      fails e refl (inr (look.same_db ∙ h)) calm_end,
    )
    rescued-Ends d (ok none, dd) h s look = (
      look.same_db ∙ (s ∙ sym look.same_committed),
      fails e refl (inr (look.same_db ∙ h)) calm_end,
    )
    rescued-Ends d (ok (some it), dd) h s look = (
      look.same_db ∙ (s ∙ sym look.same_committed),
      yields it refl
          (elim look.answer [
            | inl b ↦ elim b [ ]
            | inr q ↦ ap (λ db. prior_item p db) (sym h) ∙ sym (ok_inj q)
          ])
          (look.same_db ∙ h),
    )

    recover-Ends : (d : Conn) → d.db ≡ c.db → IsSettled d → Ends c (recover rivals p e d)
    unfolding recover get_by_key ◌>>=◌ meanwhile prior_item
    recover-Ends d h s = elim (Option-cases (given_key p)) [
      | inl g ↦ rw (g, recover) (s, fails e refl (inl h) calm_end)
      | inr (k, g) ↦ elim (Bool-cases (is_unique_violation e)) [
        | inl u ↦
            let d2 : Conn = record d {
              committed = rivals.after_loss d.committed;
              db = rivals.after_loss d.db;
            } in
            let q : prior_item p d2.db ≡ find_by_key p.project_id k d2.db.items =
              rw (g, prior_item) in
            rw (g, recover)
              (rw (u) (
                rw (rescued_lem e (get_by_key p.project_id k d2)) (
                  rescued-Ends d2 (get_by_key p.project_id k d2) (ap rivals.after_loss h)
                    (ap rivals.after_loss s)
                    (subst (λ o. Looks o d2 (get_by_key p.project_id k d2)) (sym q)
                      (look-Looks (λ db. find_by_key p.project_id k db.items) d2)))))
        | inr u ↦ rw (g, recover) (rw (u) (s, fails e refl (inl h) calm_end))
      ]
    ]

  conclude_create : Reply ItemRow × Conn → Reply ItemRow × Conn
  conclude_create (failed e, d) = recover rivals p e d
  conclude_create (ok item, d) = (ok item, record d { cache_cleared = true })

  settle_form :
      (y : Reply ItemRow × Conn)
      → (elim y.0 [ failed e ↦ recover rivals p e y.1 | ok item ↦ (clear_cache >> pure item) y.1 ])
        ≡ conclude_create y
  unfolding conclude_create clear_cache ◌>>=◌
  settle_form (failed e, d) = refl
  settle_form (ok item, d) = refl

  settle_lem :
      (c : Conn)
      → create_in_tx marshal rivals p actor c
        ≡ conclude_create (with_tx (create_item_tx marshal p actor) c)
  unfolding create_in_tx conclude_create clear_cache ◌>>=◌
  settle_lem c = settle_form (with_tx (create_item_tx marshal p actor) c)

  conclude_create-Ends :
      (c : Conn) (y : Reply ItemRow × Conn)
      → Refines (spec_create marshal actor p) c y
      → Ends c (conclude_create y)
  unfolding conclude_create all_or_nothing
  conclude_create-Ends c (ok item, d) r = (
    r.settled,
    creates item refl (elim r.whole_or_none [
      | inl b ↦ elim b.0 [ ]
      | inr h ↦ kept_lem item c.db d.db (spec_create marshal actor p c.now c.db) h
    ]),
  )
  conclude_create-Ends c (failed e, d) r =
      let same : d.db ≡ c.db = elim r.whole_or_none [
        | inl b ↦ b.1
        | inr h ↦ dropped_lem e c.db d.db (spec_create marshal actor p c.now c.db) h
      ] in
      recover-Ends c e (λ hf. ap (λ db. (failed e, db)) (sym same) ∙ r.calm_whole hf) d same
        r.settled

  pub create_in_tx-Ends : (c : Conn) → IsSettled c → Ends c (create_in_tx marshal rivals p actor c)
  create_in_tx-Ends c s =
      subst (λ x. Ends c x) (sym (settle_lem c))
        (conclude_create-Ends c (with_tx (create_item_tx marshal p actor) c) (
          with_tx-Refines _ _ (create_item_tx-Acts marshal actor p)
            (create_item_tx-IsFair marshal actor p).robust
            (create_item_tx-IsFair marshal actor p).keeps c s))
