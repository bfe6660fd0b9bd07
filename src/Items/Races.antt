-- ===== src/Items/Races.antt =====
-- UpdateItem of internal/service/service.go, when another caller commits between its two queries.
use flightdeck.Base.Bytes.{Bytes}
use flightdeck.Items.Creation.{ok_inj}
use flightdeck.Items.Bodies.{IsFair, bind-IsFair, pure-IsFair, if-IsFair}
use flightdeck.Items.Acts.{Acts, then_do, bind-Acts, replacing}
use flightdeck.Items.Robust.{calm, IsBroken, IsRobust, bind-IsRobust, with_tx-IsRobust}
use flightdeck.Items.Spec.{record_move}
use flightdeck.Items.Operations.{Marshal, asks_move, update_item_tx, update_item}
use flightdeck.Items.Revision.{revise, version_fits, put_item, with_items, change_item}
use flightdeck.Items.Transaction.{Conn, Query, ◌>>=◌, draw, fare, statement, with_tx, meanwhile}
use flightdeck.Items.Tables.{
  no_rows, conflict, Reply, failed, ok, is_valid_row, find_item, or_no_rows,
}
use flightdeck.Items.State.{ItemRow, Db, UpdateItemParams}
use flightdeck.Items.Changes.{
  get_item-IsFair, get_item-Acts, log_move-IsFair, written-Acts, guarded, conflict_then,
  guarded_conflict, no_rows_is-IsFair,
}
use flightdeck.Items.Atomic.{after_body-Acts}
use flightdeck.Items.Refinement.{cleared, cleared_lem}
use flightdeck.Base.{
  ℕ, ◌≡◌, refl, sym, ap, ◌∙◌, subst, inl, inr, Bool, true, false, not, some, arith, leb,
  if◌then◌else◌, nat_eq, string_eq, Option-cases,
}

-- A query that a fault turns into an error only.
record IsSturdy {A : Type 0} (m : Query A) : Type 0 where
  robust : IsRobust m

bind-IsSturdy :
    {A B : Type 0} (m : Query A) (k : A → Query B)
    → IsSturdy m
    → ((a : A) → IsSturdy (k a))
    → IsSturdy (m >>= k)
bind-IsSturdy m k h i = record { robust = bind-IsRobust k m h.robust (λ a. (i a).robust) }

fair-IsSturdy : {A : Type 0} (m : Query A) → IsFair m → IsSturdy m
fair-IsSturdy m h = record { robust = h.robust }

meanwhile-IsSturdy : (rival : Db → Db) → IsSturdy (meanwhile rival)
unfolding meanwhile
meanwhile-IsSturdy rival = record { robust = λ c. inr refl }

meanwhile-Acts : (rival : Db → Db) → Acts (meanwhile rival) λ _ db. (ok tt, rival db)
unfolding meanwhile Acts
meanwhile-Acts rival c hf = (refl, hf, refl)

module _ (marshal : Marshal) (actor : Bytes) (rival : Db → Db) (p : UpdateItemParams) where
  raced-IsSturdy : IsSturdy (update_item_tx marshal rival p actor)
  unfolding update_item_tx
  raced-IsSturdy = bind-IsSturdy _ _ (fair-IsSturdy _ (get_item-IsFair p.id)) λ prev.
      bind-IsSturdy _ _ (meanwhile-IsSturdy rival) λ _. fair-IsSturdy _ (
        bind-IsFair _ _ (no_rows_is-IsFair λ now. change_item now p) λ item.
          bind-IsFair _ _
            (if-IsFair (asks_move p prev) _ _ (log_move-IsFair marshal actor item prev.status)
              (pure-IsFair tt))
            λ _. pure-IsFair item)

  -- The transaction as a function of the tables.
  unfoldable pub raced : ℕ → Db → Reply ItemRow × Db
  unfolding then_do replacing change_item
  raced =
      then_do (λ _ db. (or_no_rows (find_item p.id db.items), db))
        λ prev.
          then_do (λ _ db. (ok tt, rival db))
            λ _. then_do (replacing conflict λ now. change_item now p) λ item now db. (
              ok item,
              if asks_move p prev then record_move marshal now actor item prev.status db else db,
            )

  raced-Acts : Acts (update_item_tx marshal rival p actor) raced
  unfolding update_item_tx raced
  raced-Acts =
      bind-Acts _ _ _ _ (get_item-Acts p.id)
        λ prev. bind-Acts _ _ _ _ (meanwhile-Acts rival) λ _. written-Acts marshal actor p prev

  -- What a success has done: `prev` was read first, and `row` was there when the UPDATE ran.
  pub record Raced (now : ℕ) (db : Db) (it : ItemRow) (last : Db) : Type 0 where
    pub prev : ItemRow
    pub row : ItemRow
    pub read : find_item p.id db.items ≡ some prev
    pub found : find_item p.id (rival db).items ≡ some row
    pub fits : version_fits p row ≡ true
    pub revised : it ≡ revise now p row
    pub logged : last ≡ (
        let saved = with_items (put_item it (rival db).items) (rival db) in
        if asks_move p prev then record_move marshal now actor it prev.status saved else saved)

  guarded_ok :
      (stale invalid full : Bool) (item it : ItemRow) (saved db last : Db)
      → ◌≡◌ {A = Reply ItemRow × Db}
          (ok it, last)
          (guarded stale invalid full conflict item saved db)
      → (stale ≡ false) × (it ≡ item) × (last ≡ saved)
  guarded_ok true invalid full item it saved db last h = absurd (ground (arith, h))
  guarded_ok false true full item it saved db last h = absurd (ground (arith, h))
  guarded_ok false false true item it saved db last h = absurd (ground (arith, h))
  guarded_ok false false false item it saved db last h =
      (refl, ok_inj (ap (λ z. z.0) h), ap (λ z. z.1) h)

  raced_ok :
      (now : ℕ) (db : Db) (it : ItemRow) (last : Db)
      → ◌≡◌ {A = Reply ItemRow × Db} (ok it, last) (raced now db)
      → Raced now db it last
  unfolding raced then_do replacing change_item
  raced_ok now db it last h = elim (Option-cases (find_item p.id db.items)) [
    | inl e ↦
        let q : ◌≡◌ {A = Reply ItemRow × Db} (raced now db) (failed no_rows, db) =
          rw (e, raced, then_do) in
        absurd (ground (arith, ap (λ z. z.0) (h ∙ q)))
    | inr (prev, read) ↦ elim (Option-cases (find_item p.id (rival db).items)) [
      | inl e ↦
          let f : ItemRow → Db → Db = λ item db.
            if asks_move p prev then record_move marshal now actor item prev.status db else db in
          let c : ◌≡◌ {A = Reply ItemRow × Db} (change_item now p (rival db))
              (failed no_rows, rival db) =
            rw (e, change_item) in
          let q : ◌≡◌ {A = Reply ItemRow × Db} (raced now db) (failed conflict, rival db) =
            rw (read, raced, then_do) (ap (conflict_then f) c) in
          absurd (ground (arith, ap (λ z. z.0) (h ∙ q)))
      | inr (row, found) ↦
          let item = revise now p row in
          let saved = with_items (put_item item (rival db).items) (rival db) in
          let f : ItemRow → Db → Db = λ item db.
            if asks_move p prev then record_move marshal now actor item prev.status db else db in
          let e : change_item now p (rival db)
              ≡ guarded (not (version_fits p row)) (not (is_valid_row item))
                  (leb 2147483647 row.version) no_rows item saved (rival db) =
            rw (found, change_item) in
          let q : raced now db
              ≡ guarded (not (version_fits p row)) (not (is_valid_row item))
                  (leb 2147483647 row.version) conflict item (f item saved) (rival db) =
            rw (read, raced, then_do)
              (ap (conflict_then f) e
                ∙ guarded_conflict (not (version_fits p row)) (not (is_valid_row item))
                    (leb 2147483647 row.version) item saved (rival db) f) in
          let (fit, same, kept) =
            guarded_ok (not (version_fits p row)) (not (is_valid_row item))
              (leb 2147483647 row.version) item it (f item saved) (rival db) last (h ∙ q) in
          record {
            prev = prev;
            row = row;
            read = read;
            found = found;
            fits = ground (arith, fit);
            revised = same;
            logged =
                kept
                ∙ ap (λ i. f i (with_items (put_item i (rival db).items) (rival db))) (sym same);
          }
    ]
  ]

  committed_ok :
      (it : ItemRow) (last db0 : Db) (z : Reply ItemRow × Db)
      → ◌≡◌ {A = Reply ItemRow × Db}
          (ok it, last)
          (elim z.0 [ ok a ↦ (ok a, z.1) | failed e ↦ (failed e, db0) ])
      → ◌≡◌ {A = Reply ItemRow × Db} (ok it, last) z
  committed_ok it last db0 (ok a, db) h = h
  committed_ok it last db0 (failed e, db) h = absurd (ground (arith, h))

  tx_ok :
      (c : Conn) (it : ItemRow)
      → let y = with_tx (update_item_tx marshal rival p actor) c in
        y.0 ≡ ok it → Raced c.now c.db it y.1.db
  unfolding with_tx ◌>>=◌ statement fare draw Acts
  tx_ok c it e =
      let body = update_item_tx marshal rival p actor in
      let y = with_tx body c in
      elim (with_tx-IsRobust body raced-IsSturdy.robust c) [
        | inl b ↦ elim (subst (λ r. IsBroken r) e b) [ ]
        | inr q ↦
            let z = body (calm c) in
            let (h, i, _) = raced-Acts (calm c) refl in
            let whole : ◌≡◌ {A = Reply ItemRow × Db} (ok it, y.1.db)
                (elim z.0 [ ok a ↦ (ok a, z.1.db) | failed e ↦ (failed e, z.1.committed) ]) =
              ap (λ r. (r, y.1.db)) (sym e)
              ∙ (ap (λ w. (w.0, w.1.db)) q ∙ after_body-Acts z z.1.committed i refl) in
            raced_ok c.now c.db it y.1.db
              (committed_ok it y.1.db z.1.committed (z.0, z.1.db) whole ∙ h)
      ]

  cleared_same :
      (y : Reply ItemRow × Conn) (it : ItemRow)
      → (cleared y).0 ≡ ok it
      → (y.0 ≡ ok it) × ((cleared y).1.db ≡ y.1.db)
  unfolding cleared
  cleared_same (ok a, d) it e = (e, refl)
  cleared_same (failed f, d) it e = absurd (ground (arith, e))

  -- Where UpdateItem returns an item, whatever broke and whatever `rival` committed between its two
  -- queries: the patch was applied to the row as the rival left it, whose version fits the expected
  -- one, and the move that is recorded, if any, goes from the status that was read before the rival.
  pub update_item-Raced :
      (c : Conn) (it : ItemRow)
      → (update_item marshal rival p actor c).0 ≡ ok it
      → Raced c.now c.db it (update_item marshal rival p actor c).1.db
  unfolding update_item ◌>>=◌
  update_item-Raced c it e =
      let y = with_tx (update_item_tx marshal rival p actor) c in
      let form : update_item marshal rival p actor c ≡ cleared y = cleared_lem y in
      let (e', same) = cleared_same y it (ap (λ x. x.0) (sym form) ∙ e) in
      subst (λ db. Raced c.now c.db it db) (sym (ap (λ x. x.1.db) form ∙ same)) (tx_ok c it e')
