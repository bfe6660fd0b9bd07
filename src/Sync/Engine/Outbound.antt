-- ===== src/Sync/Engine/Outbound.antt =====
-- internal/sync/engine.go, `pushOutbound`: what a pass leaves recorded, and what the next one sends.
use flightdeck.Base.{
  ℕ, ◌≡◌, refl, sym, ap, ◌∙◌, subst, ◌↔◌, Bool, true, false, ◌&&◌, ◌||◌, Option, none, some, List,
  [], ◌∷◌, arith, nat_beq, nat_beq_iff, nat_eq, string_eq, if_elim, length, All,
}
use flightdeck.Base.Bytes.{Bytes, bytes_eq}
use flightdeck.Sync.Engine.{
  Wire, Db, Kind, item, activity, project, kind_beq, put_state, record_sent,
}
use flightdeck.Sync.Engine.Exchange.{
  Row, Push, sent_hashes, already_sent, send_row, send_rows, rows, push_outbound,
}

module _ (wire : Wire) where
  open wire use {
    Doc, Hash, Sealed, hash_eq, hash, marshal_item, marshal_activity, uuid_string, uuid_parse,
  }

  unfoldable pub same_row : Row wire → Row wire → Bool
  same_row q r = kind_beq q.kind r.kind && nat_beq q.id r.id

  -- No two rows of a list have the same kind and id, which in the database are a primary key.
  unfoldable pub Separate : List (Row wire) → Type 0
  Separate [] = Unit
  Separate (r ∷ rs) =
      (All (λ q. same_row r q ≡ false) rs × All (λ q. same_row q r ≡ false) rs) × Separate rs

  kind_beq_refl : (k : Kind) → kind_beq k k ≡ true
  unfolding kind_beq
  kind_beq_refl item = refl
  kind_beq_refl activity = refl
  kind_beq_refl project = refl

  kind_beq→≡ : (j k : Kind) → kind_beq j k ≡ true → j ≡ k
  unfolding kind_beq
  kind_beq→≡ j k h = ground arith

  pub already_sent_iff :
      (hashes : Kind → ℕ → Option Hash) (row : Row wire)
      → (already_sent wire hashes row ≡ true) ↔ (hashes row.kind row.id ≡ some (hash row.doc))
  unfolding already_sent
  already_sent_iff hashes row = go (hashes row.kind row.id)
    where
      go :
          (o : Option Hash)
          → (elim o as (λ _. Bool) [ none ↦ false | some h ↦ hash_eq.same h (hash row.doc) ] ≡ true)
            ↔ (o ≡ some (hash row.doc))
      go none = ground arith
      go (some h) = ground (arith, hash_eq.same_iff h (hash row.doc))

  -- What a pass does not change.
  unfoldable pub Keeps : Db Hash → Db Hash → Type 0
  Keeps before after =
      (after.items ≡ before.items)
      × (after.activities ≡ before.activities)
      × (after.the_project ≡ before.the_project)
      × ((k : Kind) (i : ℕ) → (after.states k i).base ≡ (before.states k i).base)

  record_sent-Keeps : (k : Kind) (i : ℕ) (h : Hash) (db : Db Hash) → Keeps db (record_sent k i h db)
  unfolding Keeps record_sent put_state
  record_sent-Keeps k i h db =
      (refl, refl, refl, λ j m. ground (arith, kind_beq→≡ j k, nat_beq_iff m i))

  send_row-Keeps :
      (acc : ℕ → Bool) (hs : Kind → ℕ → Option Hash) (a : Bytes) (row : Row wire) (p : Push wire)
      → Keeps p.db (send_row wire acc hs a row p).db
  unfolding send_row Keeps
  send_row-Keeps acc hs a row p =
      if_elim {A = Push wire} (λ q. Keeps p.db q.db) (p.stopped || already_sent wire hs row)
        (λ _. (refl, refl, refl, λ j m. refl))
        λ _.
          if_elim {A = Push wire} (λ q. Keeps p.db q.db) (acc (length p.sent))
            (λ _. record_sent-Keeps row.kind row.id (hash row.doc) p.db)
            λ _. (refl, refl, refl, λ j m. refl)

  send_row-states_ne :
      (acc : ℕ → Bool) (hs : Kind → ℕ → Option Hash) (a : Bytes) (row r : Row wire) (p : Push wire)
      → same_row r row ≡ false
      → (send_row wire acc hs a row p).db.states r.kind r.id ≡ p.db.states r.kind r.id
  unfolding send_row record_sent put_state same_row
  send_row-states_ne acc hs a row r p h = ground arith

  send_row-states_eq :
      (acc : ℕ → Bool) (hs : Kind → ℕ → Option Hash) (a : Bytes) (row : Row wire) (p : Push wire)
      → (p.db.states row.kind row.id).sent ≡ hs row.kind row.id
      → (send_row wire acc hs a row p).stopped ≡ false
      → ((send_row wire acc hs a row p).db.states row.kind row.id).sent ≡ some (hash row.doc)
  unfolding send_row record_sent put_state
  send_row-states_eq acc hs a row p e h =
      ground (arith, kind_beq_refl row.kind, nat_beq_iff row.id row.id, already_sent_iff hs row)

  send_row-stopped :
      (acc : ℕ → Bool) (hs : Kind → ℕ → Option Hash) (a : Bytes) (row : Row wire) (p : Push wire)
      → (send_row wire acc hs a row p).stopped ≡ false
      → p.stopped ≡ false
  unfolding send_row
  send_row-stopped acc hs a row p h = ground arith

  send_rows-stopped :
      (acc : ℕ → Bool) (hs : Kind → ℕ → Option Hash) (a : Bytes) (rs : List (Row wire))
      (p : Push wire)
      → (send_rows wire acc hs a rs p).stopped ≡ false
      → p.stopped ≡ false
  unfolding send_rows
  send_rows-stopped acc hs a [] p h = h
  send_rows-stopped acc hs a (r ∷ rs) p h =
      send_row-stopped acc hs a r p (send_rows-stopped acc hs a rs _ h)

  send_rows-Keeps :
      (acc : ℕ → Bool) (hs : Kind → ℕ → Option Hash) (a : Bytes) (rs : List (Row wire))
      (p : Push wire)
      → Keeps p.db (send_rows wire acc hs a rs p).db
  unfolding send_rows Keeps
  send_rows-Keeps acc hs a [] p = (refl, refl, refl, λ j m. refl)
  send_rows-Keeps acc hs a (r ∷ rs) p =
      let f = send_row-Keeps acc hs a r p in
      let g = send_rows-Keeps acc hs a rs (send_row wire acc hs a r p) in
      (g.0 ∙ f.0, g.1 ∙ f.1, g.2 ∙ f.2, λ j m. g.3 j m ∙ f.3 j m)

  send_rows-states_ne :
      (acc : ℕ → Bool) (hs : Kind → ℕ → Option Hash) (a : Bytes) (r : Row wire)
      (rs : List (Row wire)) (p : Push wire)
      → All (λ q. same_row r q ≡ false) rs
      → (send_rows wire acc hs a rs p).db.states r.kind r.id ≡ p.db.states r.kind r.id
  unfolding send_rows
  send_rows-states_ne acc hs a r [] p h = refl
  send_rows-states_ne acc hs a r (q ∷ rs) p h =
      send_rows-states_ne acc hs a r rs _ h.1 ∙ send_row-states_ne acc hs a q r p h.0

  carry :
      (acc : ℕ → Bool) (hs : Kind → ℕ → Option Hash) (a : Bytes) (r : Row wire)
      (rs : List (Row wire)) (p : Push wire)
      → All (λ q. same_row q r ≡ false) rs
      → All (λ q. (p.db.states q.kind q.id).sent ≡ hs q.kind q.id) rs
      → All (λ q. ((send_row wire acc hs a r p).db.states q.kind q.id).sent ≡ hs q.kind q.id) rs
  carry acc hs a r [] p h k = tt
  carry acc hs a r (q ∷ rs) p h k = (
    ap (λ st. st.sent) (send_row-states_ne acc hs a r q p h.0) ∙ k.0,
    carry acc hs a r rs p h.1 k.1,
  )

  send_rows-records :
      (acc : ℕ → Bool) (hs : Kind → ℕ → Option Hash) (a : Bytes) (rs : List (Row wire))
      (p : Push wire)
      → Separate rs
      → All (λ q. (p.db.states q.kind q.id).sent ≡ hs q.kind q.id) rs
      → (send_rows wire acc hs a rs p).stopped ≡ false
      → All
          (λ q. ((send_rows wire acc hs a rs p).db.states q.kind q.id).sent ≡ some (hash q.doc))
          rs
  unfolding send_rows Separate
  send_rows-records acc hs a [] p s k h = tt
  send_rows-records acc hs a (r ∷ rs) p s k h =
      let q = send_row wire acc hs a r p in
      (
        ap (λ st. st.sent) (send_rows-states_ne acc hs a r rs q s.0.0)
            ∙ send_row-states_eq acc hs a r p k.0 (send_rows-stopped acc hs a rs q h),
        send_rows-records acc hs a rs q s.1 (carry acc hs a r rs p s.0.1 k.1) h,
      )

  skips :
      (acc : ℕ → Bool) (hs : Kind → ℕ → Option Hash) (a : Bytes) (r : Row wire) (p : Push wire)
      → hs r.kind r.id ≡ some (hash r.doc)
      → send_row wire acc hs a r p ≡ p
  unfolding send_row
  skips acc hs a r p e = ground (arith, already_sent_iff hs r)

  send_rows-quiet :
      (acc : ℕ → Bool) (hs : Kind → ℕ → Option Hash) (a : Bytes) (rs : List (Row wire))
      (p : Push wire)
      → All (λ q. hs q.kind q.id ≡ some (hash q.doc)) rs
      → send_rows wire acc hs a rs p ≡ p
  unfolding send_rows
  send_rows-quiet acc hs a [] p h = refl
  send_rows-quiet acc hs a (r ∷ rs) p h =
      ap (send_rows wire acc hs a rs) (skips acc hs a r p h.0) ∙ send_rows-quiet acc hs a rs p h.1

  pub push_outbound-Keeps :
      (acc : ℕ → Bool) (a : Bytes) (db : Db Hash) → Keeps db (push_outbound wire acc a db).db
  unfolding push_outbound
  push_outbound-Keeps acc a db =
      send_rows-Keeps acc (sent_hashes wire db) a (rows wire db)
        (record { db = db; sent = []; stopped = false })

  nothing_sent_yet :
      (db : Db Hash) (rs : List (Row wire))
      → All (λ q. (db.states q.kind q.id).sent ≡ sent_hashes wire db q.kind q.id) rs
  unfolding sent_hashes
  nothing_sent_yet db [] = tt
  nothing_sent_yet db (r ∷ rs) = (refl, nothing_sent_yet db rs)

  rows-Keeps : (before after : Db Hash) → Keeps before after → rows wire after ≡ rows wire before
  unfolding Keeps rows
  rows-Keeps before after k = rw (k.0, k.1, k.2)

  -- After a pass that no send failed in, every row counts as sent.
  pub push_outbound-sent :
      (acc : ℕ → Bool) (a : Bytes) (db : Db Hash)
      → Separate (rows wire db)
      → (push_outbound wire acc a db).stopped ≡ false
      → let after = (push_outbound wire acc a db).db in
        All (λ q. sent_hashes wire after q.kind q.id ≡ some (hash q.doc)) (rows wire after)
  unfolding push_outbound
  push_outbound-sent acc a db s h =
      let after = (push_outbound wire acc a db).db in
      let sent =
        send_rows-records acc (sent_hashes wire db) a (rows wire db)
          (record { db = db; sent = []; stopped = false }) s (nothing_sent_yet db (rows wire db))
          h in
      subst (All (λ q. sent_hashes wire after q.kind q.id ≡ some (hash q.doc)))
        (sym (rows-Keeps db after (push_outbound-Keeps acc a db))) sent

  -- A pass that no send failed in has sent all there was to send: the next one, with nothing
  -- edited or received in between, sends nothing. No two rows have the same kind and id.
  pub push_outbound-quiet :
      (acc again : ℕ → Bool) (a : Bytes) (db : Db Hash)
      → Separate (rows wire db)
      → (push_outbound wire acc a db).stopped ≡ false
      → (push_outbound wire again a (push_outbound wire acc a db).db).sent ≡ []
  unfolding push_outbound
  push_outbound-quiet acc again a db s h =
      let after = (push_outbound wire acc a db).db in
      ap (λ q. q.sent)
        (send_rows-quiet again (sent_hashes wire after) a (rows wire after)
          (record { db = after; sent = []; stopped = false }) (push_outbound-sent acc a db s h))
