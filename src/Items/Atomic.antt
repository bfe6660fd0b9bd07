-- ===== src/Items/Atomic.antt =====
-- WithTx of internal/store/store.go: a transaction keeps all of its writes or none.
use flightdeck.Items.Acts.{Acts, draw_calm, all_or_nothing}
use flightdeck.Items.Robust.{
  draw_lem, calm, IsBroken, IsRobust, KeepsCommitted, statement-KeepsCommitted, with_tx-IsRobust,
}
use flightdeck.Items.Transaction.{
  Fate, runs, loses, breaks, Conn, Query, ◌>>=◌, draw, fare, statement, reads, rollback,
  after_commit, after_body, with_tx,
}
use flightdeck.Items.Tables.{Reply, failed, ok}
use flightdeck.Items.State.{Db}
use flightdeck.Base.{ℕ, ◌≡◌, refl, sym, ap, ◌∙◌, subst, ◌⊎◌, inl, inr, [], nat_eq, string_eq}

-- No transaction is open.
abbrev pub IsSettled : Conn → Type 0
IsSettled c = c.db ≡ c.committed

-- What a call leaves: no open transaction, and the old tables if it failed.
abbrev pub HasRolled : {A : Type 0} → Db → Reply A × Conn → Type 0
HasRolled db (ok _, d) = IsSettled d
HasRolled db (failed _, d) = IsSettled d × (d.db ≡ db)

reads-db : {B : Type 0} (f : Fate) (b : B) (c : Conn) → (fare (reads λ _. ok b) f c).1.db ≡ c.db
unfolding fare
reads-db runs b c = refl
reads-db loses b c = refl
reads-db (breaks e) b c = refl

module _ {A : Type 0} where
  after_commit-HasRolled :
      (a : A) (db : Db) (x : Reply Unit × Conn)
      → x.1.committed ≡ db
      → HasRolled db (after_commit a x)
  unfolding after_commit rollback
  after_commit-HasRolled a db (ok _, d) h = refl
  after_commit-HasRolled a db (failed e, d) h = (refl, h)

  after_body-HasRolled :
      (db : Db) (x : Reply A × Conn) → x.1.committed ≡ db → HasRolled db (after_body x)
  unfolding after_body rollback
  after_body-HasRolled db (failed e, d) h = (refl, h)
  after_body-HasRolled db (ok a, d) h =
      after_commit-HasRolled a db (statement (reads λ _. ok tt) d)
        (statement-KeepsCommitted (reads λ _. ok tt) d ∙ h)

  begun :
      (body : Query A)
      → KeepsCommitted body
      → (c : Conn) (x : Reply Unit × Conn) → (x.1.committed ≡ c.committed)
      → x.1.db ≡ c.db
      → IsSettled c
      → HasRolled {A = A} c.db
          (elim x.0 [ ok a ↦ after_body (body x.1) | failed e ↦ (failed e, x.1) ])
  begun body hk c (ok _, d) h i s = after_body-HasRolled c.db (body d) (hk d ∙ (h ∙ sym s))
  begun body hk c (failed e, d) h i s = (i ∙ (s ∙ sym h), i)

  pub with_tx-HasRolled :
      (body : Query A)
      → KeepsCommitted body
      → (c : Conn) → IsSettled c
      → HasRolled c.db (with_tx body c)
  unfolding with_tx statement ◌>>=◌
  with_tx-HasRolled body hk c s =
      begun body hk c (statement (reads λ _. ok tt) c)
        (statement-KeepsCommitted (reads λ _. ok tt) c)
        (reads-db (draw c).0 tt (draw c).1 ∙ (draw_lem c).2) s

  after_commit-Acts :
      (a : A) (d : Conn)
      → d.fates ≡ []
      → let y = after_commit a (statement (reads λ _. ok tt) d) in
        ◌≡◌ {A = Reply A × Db} (y.0, y.1.db) (ok a, d.db)
  unfolding after_commit statement fare
  after_commit-Acts a d hf =
      subst
        (λ x.
          let y = after_commit a (fare (reads λ _. ok tt) x.0 x.1) in
          ◌≡◌ {A = Reply A × Db} (y.0, y.1.db) (ok a, d.db))
        (sym (draw_calm d hf)) refl

  pub after_body-Acts :
      (x : Reply A × Conn) (db : Db)
      → x.1.fates ≡ []
      → x.1.committed ≡ db
      → ◌≡◌ {A = Reply A × Db}
          ((after_body x).0, (after_body x).1.db)
          (elim x.0 [ ok a ↦ (ok a, x.1.db) | failed e ↦ (failed e, db) ])
  unfolding after_body rollback
  after_body-Acts (ok a, d) db hf h = after_commit-Acts a d hf
  after_body-Acts (failed e, d) db hf h = ap (λ z. (failed e, z)) h

  kept_of : Db → Reply A × Db → Reply A × Db
  kept_of db y = elim y.0 [ ok a ↦ (ok a, y.1) | failed e ↦ (failed e, db) ]

  -- A transaction on a calm connection.
  with_tx-Acts :
      (body : Query A) (f : ℕ → Db → Reply A × Db)
      → Acts body f
      → KeepsCommitted body
      → (c : Conn) → c.fates ≡ []
      → IsSettled c
      → ((with_tx body c).0, (with_tx body c).1.db) ≡ all_or_nothing f c.now c.db
  unfolding with_tx statement fare all_or_nothing kept_of ◌>>=◌ Acts
  with_tx-Acts body f hb hk c hf s =
      let (h, i, j) = hb c hf in
      subst
        (λ x.
          let z : Reply Unit × Conn = fare (reads λ _. ok tt) x.0 x.1 in
          let y : Reply A × Conn = elim z.0 [
            | ok _ ↦ after_body (body z.1)
            | failed e ↦ (failed e, z.1)
          ] in
          ◌≡◌ {A = Reply A × Db} (y.0, y.1.db) (all_or_nothing f c.now c.db))
        (sym (draw_calm c hf))
        (after_body-Acts (body c) c.db i (hk c ∙ sym s) ∙ ap (kept_of c.db) h)

  -- A settled call: the whole of `f`, or an error and the old tables; without faults always `f`.
  pub record Refines (f : ℕ → Db → Reply A × Db) (c : Conn) (x : Reply A × Conn) : Type 0 where
    pub settled : IsSettled x.1
    pub whole_or_none :
        (IsBroken x.0 × (x.1.db ≡ c.db)) ⊎ ((x.0, x.1.db) ≡ all_or_nothing f c.now c.db)
    pub calm_whole : c.fates ≡ [] → (x.0, x.1.db) ≡ all_or_nothing f c.now c.db

  HasRolled-broken : (db : Db) (x : Reply A × Conn) → HasRolled db x → IsBroken x.0 → x.1.db ≡ db
  HasRolled-broken db (ok _, d) h b = elim b [ ]
  HasRolled-broken db (failed e, d) h b = h.1

  HasRolled-IsSettled : (db : Db) (x : Reply A × Conn) → HasRolled db x → IsSettled x.1
  HasRolled-IsSettled db (ok _, d) h = h
  HasRolled-IsSettled db (failed e, d) h = h.0

  pub with_tx-Refines :
      (body : Query A) (f : ℕ → Db → Reply A × Db)
      → Acts body f
      → IsRobust body
      → KeepsCommitted body
      → (c : Conn) → IsSettled c
      → Refines f c (with_tx body c)
  with_tx-Refines body f hb hr hk c s =
      let rolled = with_tx-HasRolled body hk c s in
      record {
        settled = HasRolled-IsSettled c.db (with_tx body c) rolled;
        whole_or_none = elim (with_tx-IsRobust body hr c) [
          | inl h ↦ inl (h, HasRolled-broken c.db (with_tx body c) rolled h)
          | inr e ↦ inr (ap (λ y. (y.0, y.1.db)) e ∙ with_tx-Acts body f hb hk (calm c) refl s)
        ];
        calm_whole = λ hf. with_tx-Acts body f hb hk c hf s;
      }
