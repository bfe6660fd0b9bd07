-- ===== src/Sync/Engine/Settle.antt =====
-- internal/sync/engine.go, `applyItem`: what a received item leaves in the database.
use flightdeck.Base.{
  ℕ, ◌≡◌, refl, sym, ap, ◌∙◌, subst, inl, inr, true, false, none, some, List, [], ◌∷◌, arith,
  if◌then◌else◌, nat_beq_iff, ==_refl, nat_eq, string_eq, Bool-cases, Option-cases,
}
use flightdeck.Base.Assoc.{Assoc, lookup, set, lookup-set, lookup-set_self}
use flightdeck.Base.Bytes.{Bytes, bytes_eq}
use flightdeck.Sync.Payload.{Item, ItemPayload, item_payload, inserted, overwritten}
use flightdeck.Sync.Merge.{merge_conflict}
use flightdeck.Sync.Engine.{
  Wire, Db, Share, put_state, record_applied, record_merged_base, item_hash, log_conflict,
  conflict_changes, conflict_note, upsert_item, apply_straight, apply_merged, is_unedited, resolve,
  settle_item,
}

module _ (wire : Wire) where
  open wire use {Hash, hash_eq, hash, marshal_item, uuid_string, new_id}

  -- The rows stand under their own ids.
  unfoldable pub IsKeyed : Db Hash → Type 0
  IsKeyed db = (id : ℕ) (it : Item) → lookup id db.items ≡ some it → it.id ≡ id

  -- The row that the database has for an id, as both sides last agreed.
  unfoldable pub Agrees : Db Hash → ℕ → Item → Type 0
  Agrees db id it = (lookup id db.items ≡ some it) × (it.id ≡ id) × (is_unedited wire it db ≡ true)

  pub apply_straight-Agrees :
      (saved : Item) (db : Db Hash) → Agrees (apply_straight wire saved db) saved.id saved
  unfolding Agrees apply_straight is_unedited upsert_item record_applied put_state
  apply_straight-Agrees saved db = (
    lookup-set_self saved.id saved db.items,
    refl,
    ground (arith, nat_beq_iff saved.id saved.id, ==_refl ⦃e = hash_eq⦄ (item_hash wire saved)),
  )

  pub apply_merged-Agrees :
      (saved : Item) (db : Db Hash) → Agrees (apply_merged wire saved db) saved.id saved
  unfolding Agrees apply_merged is_unedited upsert_item record_merged_base put_state
  apply_merged-Agrees saved db = (
    lookup-set_self saved.id saved db.items,
    refl,
    ground (arith, nat_beq_iff saved.id saved.id, ==_refl ⦃e = hash_eq⦄ (item_hash wire saved)),
  )

  log_conflict-items :
      (share : Share) (local : Item) (p : ItemPayload) (db : Db Hash)
      → (log_conflict wire share local p db).items ≡ db.items
  unfolding log_conflict
  log_conflict-items share local p db = go (conflict_changes wire local p)
    where
      go :
          (cs : List Bytes)
          → ◌≡◌ {A = Assoc ℕ Item}
              (elim cs as (λ _. Db Hash) [
                | [] ↦ db
                | c ∷ cs ↦ record db {
                  activities =
                      set
                        (new_id db)
                        (conflict_note wire share local (c ∷ cs) (new_id db))
                        db.activities;
                }
              ]).items
              db.items
      go [] = refl
      go (c ∷ cs) = refl

  -- The row that a received item is to leave, by what was there before.
  unfoldable pub settled : Bytes → Bytes → Share → ℕ → ItemPayload → Db Hash → Item
  settled a b share id remote db = elim (lookup id db.items) [
    | none ↦ inserted id share.project_id remote
    | some local ↦
        if is_unedited wire local db
        then overwritten local remote
        else overwritten local (merge_conflict a b local remote)
  ]

  pub settled-new :
      (a b : Bytes) (share : Share) (id : ℕ) (remote : ItemPayload) (db : Db Hash)
      → lookup id db.items ≡ none
      → (settle_item wire a b share id remote db
          ≡ apply_straight wire (inserted id share.project_id remote) db)
        × (settled a b share id remote db ≡ inserted id share.project_id remote)
  unfolding settle_item apply_straight settled inserted
  settled-new a b share id remote db h = (rw (settle_item, h), rw (settled, h))

  pub settled-unedited :
      (a b : Bytes) (share : Share) (id : ℕ) (remote : ItemPayload) (db : Db Hash) (local : Item)
      → lookup id db.items ≡ some local
      → is_unedited wire local db ≡ true
      → (settle_item wire a b share id remote db
          ≡ apply_straight wire (overwritten local remote) db)
        × (settled a b share id remote db ≡ overwritten local remote)
  unfolding settle_item apply_straight settled overwritten
  settled-unedited a b share id remote db local h u =
      (rw (settle_item, h, resolve, u), rw (settled, h, u))

  pub settled-edited :
      (a b : Bytes) (share : Share) (id : ℕ) (remote : ItemPayload) (db : Db Hash) (local : Item)
      → lookup id db.items ≡ some local
      → is_unedited wire local db ≡ false
      → (settle_item wire a b share id remote db
          ≡ apply_merged wire
              (overwritten local (merge_conflict a b local remote))
              (log_conflict wire share local (merge_conflict a b local remote) db))
        × (settled a b share id remote db ≡ overwritten local (merge_conflict a b local remote))
  unfolding settle_item apply_merged settled overwritten
  settled-edited a b share id remote db local h u =
      (rw (settle_item, h, resolve, u), rw (settled, h, u))

  agreed_by :
      {db after : Db Hash} {it saved : Item} {id : ℕ}
      → after ≡ db
      → it ≡ saved
      → saved.id ≡ id
      → Agrees db saved.id saved
      → Agrees after id it
  agreed_by {db} {after} {it} {saved} {id} e f i g =
      subst (λ d. Agrees d id it) (sym e)
        (subst (λ t. Agrees db id t) (sym f) (subst (λ j. Agrees db j saved) i g))

  -- Whatever a received item finds in a database whose rows stand under their own ids, the
  -- database then has the row that `settled` describes, under the id, and is recorded to agree
  -- on just that row.
  pub settle_item-Agrees :
      (a b : Bytes) (share : Share) (id : ℕ) (remote : ItemPayload) (db : Db Hash)
      → IsKeyed db
      → Agrees (settle_item wire a b share id remote db) id (settled a b share id remote db)
  unfolding IsKeyed inserted overwritten
  settle_item-Agrees a b share id remote db k = elim (Option-cases (lookup id db.items)) [
    | inl h ↦
        let e = settled-new a b share id remote db h in
        agreed_by e.0 e.1 refl (apply_straight-Agrees (inserted id share.project_id remote) db)
    | inr (local, h) ↦ elim (Bool-cases (is_unedited wire local db)) [
      | inl u ↦
          let e = settled-unedited a b share id remote db local h u in
          agreed_by e.0 e.1 (k id local h) (apply_straight-Agrees (overwritten local remote) db)
      | inr u ↦
          let e = settled-edited a b share id remote db local h u in
          agreed_by e.0 e.1 (k id local h) (
            apply_merged-Agrees (overwritten local (merge_conflict a b local remote))
              (log_conflict wire share local (merge_conflict a b local remote) db))
    ]
  ]

  settled-again :
      (a b : Bytes) (share : Share) (id : ℕ) (first next : ItemPayload) (db : Db Hash)
      → IsKeyed db
      → Agrees
          (settle_item wire a b share id next (settle_item wire a b share id first db))
          id
          (overwritten (settled a b share id first db) next)
  unfolding overwritten Agrees
  settled-again a b share id first next db k =
      let g = settle_item-Agrees a b share id first db k in
      let e =
        settled-unedited a b share id next (settle_item wire a b share id first db)
          (settled a b share id first db) g.0 g.2 in
      agreed_by e.0 refl g.1 (
        apply_straight-Agrees (overwritten (settled a b share id first db) next)
          (settle_item wire a b share id first db))

  -- An item is received while the row has an edit, and is received once more before the row is
  -- edited again (the Ack is lost), in a database whose rows stand under their own ids. The
  -- first time the two are merged; the second time the merge is overwritten with the version
  -- received; after each the database is recorded to agree on the row it has.
  pub redelivery_overwrites :
      (a b : Bytes) (share : Share) (id : ℕ) (remote : ItemPayload) (db : Db Hash) (local : Item)
      → IsKeyed db
      → lookup id db.items ≡ some local
      → is_unedited wire local db ≡ false
      → (Agrees
          (settle_item wire a b share id remote db)
          id
          (overwritten local (merge_conflict a b local remote)))
        × (Agrees
            (settle_item wire a b share id remote (settle_item wire a b share id remote db))
            id
            (overwritten (overwritten local (merge_conflict a b local remote)) remote))
  redelivery_overwrites a b share id remote db local k h u =
      let e = (settled-edited a b share id remote db local h u).1 in
      (
        subst (Agrees _ id) e (settle_item-Agrees a b share id remote db k),
        subst
            (λ it.
              Agrees
                (settle_item wire a b share id remote (settle_item wire a b share id remote db)) id
                (overwritten it remote))
            e (settled-again a b share id remote remote db k),
      )

  -- Two instances, whose rows stand under their own ids, have each edited one row, and each
  -- receives the other's version, then the other's merge. Each ends with its own merge
  -- overwritten with the other's.
  pub conflict_exchange :
      (a b : Bytes) (here there : Share) (id : ℕ) (db_a db_b : Db Hash) (x y : Item)
      → IsKeyed db_a
      → IsKeyed db_b
      → lookup id db_a.items ≡ some x
      → lookup id db_b.items ≡ some y
      → is_unedited wire x db_a ≡ false
      → is_unedited wire y db_b ≡ false
      → let px = item_payload uuid_string x in
        let py = item_payload uuid_string y in
        let x' = overwritten x (merge_conflict a b x py) in
        let y' = overwritten y (merge_conflict b a y px) in
        let got_a =
          settle_item wire a b here id
            (item_payload uuid_string y')
            (settle_item wire a b here id py db_a) in
        let got_b =
          settle_item wire b a there id
            (item_payload uuid_string x')
            (settle_item wire b a there id px db_b) in
        (Agrees got_a id (overwritten x' (item_payload uuid_string y')))
        × (Agrees got_b id (overwritten y' (item_payload uuid_string x')))
  conflict_exchange a b here there id db_a db_b x y ka kb hx hy ux uy = (
    turn a b here db_a x y (merge_conflict b a y (item_payload uuid_string x)) ka hx ux,
    turn b a there db_b y x (merge_conflict a b x (item_payload uuid_string y)) kb hy uy,
  )
    where
      turn :
          (a b : Bytes) (share : Share) (db : Db Hash) (x y : Item) (m : ItemPayload)
          → IsKeyed db
          → lookup id db.items ≡ some x
          → is_unedited wire x db ≡ false
          → Agrees
              (settle_item wire a b share id
                (item_payload uuid_string (overwritten y m))
                (settle_item wire a b share id (item_payload uuid_string y) db))
              id
              (overwritten
                (overwritten x (merge_conflict a b x (item_payload uuid_string y)))
                (item_payload uuid_string (overwritten y m)))
      turn a b share db x y m k h u =
          subst
            (λ it.
              Agrees
                (settle_item wire a b share id (item_payload uuid_string (overwritten y m))
                  (settle_item wire a b share id (item_payload uuid_string y) db))
                id (overwritten it (item_payload uuid_string (overwritten y m))))
            (settled-edited a b share id (item_payload uuid_string y) db x h u).1
            (settled-again a b share id (item_payload uuid_string y)
              (item_payload uuid_string (overwritten y m)) db k)

  set-IsKeyed :
      (it : Item) (db : Db Hash) (items : Assoc ℕ Item)
      → IsKeyed db
      → items ≡ set it.id it db.items
      → (id : ℕ) (found : Item) → lookup id items ≡ some found
      → found.id ≡ id
  unfolding IsKeyed
  set-IsKeyed it db items k e id found h =
      ground (arith, lookup-set it.id id it db.items, k id found, nat_beq_iff it.id id)

  -- In a database whose rows stand under their own ids they still do after an item was received.
  settle_item-IsKeyed :
      (a b : Bytes) (share : Share) (id : ℕ) (remote : ItemPayload) (db : Db Hash)
      → IsKeyed db
      → IsKeyed (settle_item wire a b share id remote db)
  unfolding IsKeyed apply_straight apply_merged upsert_item record_applied record_merged_base
      put_state
  settle_item-IsKeyed a b share id remote db k = elim (Option-cases (lookup id db.items)) [
    | inl h ↦
        set-IsKeyed (inserted id share.project_id remote) db _ k
          (ap (λ d. d.items) (settled-new a b share id remote db h).0)
    | inr (local, h) ↦ elim (Bool-cases (is_unedited wire local db)) [
      | inl u ↦
          set-IsKeyed (overwritten local remote) db _ k
            (ap (λ d. d.items) (settled-unedited a b share id remote db local h u).0)
      | inr u ↦ set-IsKeyed (overwritten local (merge_conflict a b local remote)) db _ k (
          ap (λ d. d.items) (settled-edited a b share id remote db local h u).0
          ∙ ap (set _ _) (log_conflict-items share local (merge_conflict a b local remote) db))
    ]
  ]
