-- ===== src/Items/Robust.antt =====
-- Of the transactions of Items/Operations.antt: a statement that breaks only turns a call into an
-- error, and nothing is committed before the commit.
use flightdeck.Items.Transaction.{
  Fate, runs, loses, breaks, Conn, Query, ◌>>=◌, draw, fare, statement, reads, is_no_rows, or_none,
  found_or_none, no_rows_is, replace_no_rows, rollback, after_commit, after_body, with_tx,
}
use flightdeck.Items.Tables.{no_rows, unique_violation, conflict, broken, Reply, failed, ok}
use flightdeck.Items.State.{Db}
use flightdeck.Base.Bytes.{bytes_eq}
use flightdeck.Base.{
  ℕ, ◌≡◌, refl, sym, ap, ◌∙◌, subst, ◌⊎◌, inl, inr, false, List, [], ◌∷◌, arith, nat_eq, string_eq,
}

-- The connection on which every coming statement runs.
abbrev pub calm : Conn → Conn
calm c = record c { fates = [] }

-- An error that is not ErrNoRows.
abbrev pub IsBroken : {A : Type 0} → Reply A → Type 0
IsBroken (ok _) = ⊥
IsBroken (failed e) = is_no_rows e ≡ false

-- As on a calm connection, or an error.
abbrev pub IsRobust : {A : Type 0} → Query A → Type 0
IsRobust m = (c : Conn) → IsBroken (m c).0 ⊎ (((m c).0, calm (m c).1) ≡ m (calm c))

abbrev pub KeepsCommitted : {A : Type 0} → Query A → Type 0
KeepsCommitted m = (c : Conn) → (m c).1.committed ≡ c.committed

module _ {A B : Type 0} (k : A → Query B) where
  next_of : Reply A × Conn → Reply B × Conn
  next_of (ok a, d) = k a d
  next_of (failed e, d) = (failed e, d)

  next_of-IsBroken : (x : Reply A × Conn) → IsBroken x.0 → IsBroken (next_of x).0
  unfolding next_of
  next_of-IsBroken (failed e, d) h = h
  next_of-IsBroken (ok _, d) h = elim h [ ]

  next_of-calm :
      (hk : (a : A) → IsRobust (k a)) (x : Reply A × Conn)
      → IsBroken (next_of x).0 ⊎ (((next_of x).0, calm (next_of x).1) ≡ next_of (x.0, calm x.1))
  unfolding next_of
  next_of-calm hk (ok a, d) = hk a d
  next_of-calm hk (failed e, d) = inr refl

  next_of-committed :
      (hk : (a : A) → KeepsCommitted (k a)) (x : Reply A × Conn)
      → (next_of x).1.committed ≡ x.1.committed
  unfolding next_of
  next_of-committed hk (ok a, d) = hk a d
  next_of-committed hk (failed e, d) = refl

  bind_form :
      (x : Reply A × Conn) → (elim x.0 [ ok a ↦ k a x.1 | failed e ↦ (failed e, x.1) ]) ≡ next_of x
  unfolding next_of
  bind_form (ok a, d) = refl
  bind_form (failed e, d) = refl

  pub bind-IsRobust : (m : Query A) → IsRobust m → ((a : A) → IsRobust (k a)) → IsRobust (m >>= k)
  unfolding ◌>>=◌
  bind-IsRobust m hm hk c = elim (hm c) [
    | inl h ↦ inl (subst (λ x. IsBroken x.0) (sym (bind_form (m c))) (next_of-IsBroken (m c) h))
    | inr e ↦
        subst (λ x. IsBroken x.0 ⊎ ((x.0, calm x.1) ≡ (m >>= k) (calm c))) (sym (bind_form (m c)))
          (subst
            (λ y. IsBroken (next_of (m c)).0 ⊎ (((next_of (m c)).0, calm (next_of (m c)).1) ≡ y))
            (ap next_of e ∙ sym (bind_form (m (calm c)))) (next_of-calm hk (m c)))
  ]

  pub bind-KeepsCommitted :
      (m : Query A) → KeepsCommitted m → ((a : A) → KeepsCommitted (k a)) → KeepsCommitted (m >>= k)
  unfolding ◌>>=◌
  bind-KeepsCommitted m hm hk c =
      ap (λ x. x.1.committed) (bind_form (m c)) ∙ (next_of-committed hk (m c) ∙ hm c)

fate_cases : (fs : List Fate) → (fs ≡ []) ⊎ ((f : Fate) × (rest : List Fate) × (fs ≡ f ∷ rest))
fate_cases [] = inl refl
fate_cases (f ∷ rest) = inr (f, rest, refl)

pub draw_lem :
    (c : Conn)
    → (calm (draw c).1 ≡ calm c) × ((draw c).1.committed ≡ c.committed) × ((draw c).1.db ≡ c.db)
unfolding draw
draw_lem c = elim (fate_cases c.fates) [
  | inl h ↦ (rw (h, draw), rw (h, draw), rw (h, draw))
  | inr (f, rest, h) ↦ (rw (h, draw), rw (h, draw), rw (h, draw))
]

module _ {A : Type 0} where
  fare-calm :
      (q : ℕ → Db → Reply A × Db) (f : Fate) (c : Conn)
      → IsBroken (fare q f c).0 ⊎ (((fare q f c).0, calm (fare q f c).1) ≡ statement q (calm c))
  unfolding fare statement draw
  fare-calm q runs c = inr refl
  fare-calm q loses c = inl refl
  fare-calm q (breaks e) c = inl refl

  fare-committed : (q : ℕ → Db → Reply A × Db) (f : Fate) → KeepsCommitted (fare q f)
  unfolding fare
  fare-committed q runs c = refl
  fare-committed q loses c = refl
  fare-committed q (breaks e) c = refl

  pub statement-IsRobust : (q : ℕ → Db → Reply A × Db) → IsRobust (statement q)
  unfolding statement
  statement-IsRobust q c =
      subst
        (λ x.
          IsBroken (statement q c).0
          ⊎ (((statement q c).0, calm (statement q c).1) ≡ statement q x))
        (draw_lem c).0 (fare-calm q (draw c).0 (draw c).1)

  pub statement-KeepsCommitted : (q : ℕ → Db → Reply A × Db) → KeepsCommitted (statement q)
  unfolding statement
  statement-KeepsCommitted q c = fare-committed q (draw c).0 (draw c).1 ∙ (draw_lem c).1

-- What follows a query may inspect its error, as long as it keeps a broken answer broken.
pub post-IsRobust :
    {A B : Type 0} (f : Reply A × Conn → Reply B × Conn) (m : Query A)
    → IsRobust m
    → ((x : Reply A × Conn) → IsBroken x.0 → IsBroken (f x).0)
    → ((x : Reply A × Conn) → IsBroken (f x).0 ⊎ (((f x).0, calm (f x).1) ≡ f (x.0, calm x.1)))
    → IsRobust λ c. f (m c)
post-IsRobust f m hm hb hc c = elim (hm c) [
  | inl h ↦ inl (hb (m c) h)
  | inr e ↦
      subst (λ y. IsBroken (f (m c)).0 ⊎ (((f (m c)).0, calm (f (m c)).1) ≡ y)) (ap f e) (hc (m c))
]

module _ {A : Type 0} where
  or_none-IsBroken : (x : Reply A × Conn) → IsBroken x.0 → IsBroken (found_or_none x).0
  unfolding found_or_none
  or_none-IsBroken (failed no_rows, d) h = absurd (ground arith)
  or_none-IsBroken (failed unique_violation, d) h = h
  or_none-IsBroken (failed conflict, d) h = h
  or_none-IsBroken (failed (broken _), d) h = h
  or_none-IsBroken (ok _, d) h = elim h [ ]

  or_none_calm :
      (x : Reply A × Conn)
      → IsBroken (found_or_none x).0
        ⊎ (((found_or_none x).0, calm (found_or_none x).1) ≡ found_or_none (x.0, calm x.1))
  unfolding found_or_none
  or_none_calm (ok a, d) = inr refl
  or_none_calm (failed no_rows, d) = inr refl
  or_none_calm (failed unique_violation, d) = inl refl
  or_none_calm (failed conflict, d) = inl refl
  or_none_calm (failed (broken _), d) = inl refl

  pub or_none-IsRobust : (m : Query A) → IsRobust m → IsRobust (or_none m)
  or_none-IsRobust m h = post-IsRobust found_or_none m h or_none-IsBroken or_none_calm

  or_none_committed : (x : Reply A × Conn) → (found_or_none x).1.committed ≡ x.1.committed
  unfolding found_or_none
  or_none_committed (ok a, d) = refl
  or_none_committed (failed no_rows, d) = refl
  or_none_committed (failed unique_violation, d) = refl
  or_none_committed (failed conflict, d) = refl
  or_none_committed (failed (broken _), d) = refl

  pub or_none-KeepsCommitted : (m : Query A) → KeepsCommitted m → KeepsCommitted (or_none m)
  or_none-KeepsCommitted m h c = or_none_committed (m c) ∙ h c

  replace-IsBroken : (x : Reply A × Conn) → IsBroken x.0 → IsBroken (replace_no_rows conflict x).0
  unfolding replace_no_rows
  replace-IsBroken (failed no_rows, d) h = refl
  replace-IsBroken (failed unique_violation, d) h = h
  replace-IsBroken (failed conflict, d) h = h
  replace-IsBroken (failed (broken _), d) h = h
  replace-IsBroken (ok _, d) h = elim h [ ]

  replace_calm :
      (x : Reply A × Conn)
      → IsBroken (replace_no_rows conflict x).0
        ⊎ (((replace_no_rows conflict x).0, calm (replace_no_rows conflict x).1)
            ≡ replace_no_rows conflict (x.0, calm x.1))
  unfolding replace_no_rows
  replace_calm (ok a, d) = inr refl
  replace_calm (failed e, d) = inr refl

  pub no_rows_is-IsRobust : (m : Query A) → IsRobust m → IsRobust (no_rows_is conflict m)
  no_rows_is-IsRobust m h =
      post-IsRobust (replace_no_rows conflict) m h replace-IsBroken replace_calm

  replace_committed :
      (x : Reply A × Conn) → (replace_no_rows conflict x).1.committed ≡ x.1.committed
  unfolding replace_no_rows
  replace_committed (ok a, d) = refl
  replace_committed (failed e, d) = refl

  pub no_rows_is-KeepsCommitted :
      (m : Query A) → KeepsCommitted m → KeepsCommitted (no_rows_is conflict m)
  no_rows_is-KeepsCommitted m h c = replace_committed (m c) ∙ h c

  after_commit-IsBroken :
      (a : A) (x : Reply Unit × Conn) → IsBroken x.0 → IsBroken (after_commit a x).0
  unfolding after_commit
  after_commit-IsBroken a (failed e, d) h = h
  after_commit-IsBroken a (ok _, d) h = elim h [ ]

  after_commit-calm :
      (a : A) (x : Reply Unit × Conn)
      → IsBroken (after_commit a x).0
        ⊎ (((after_commit a x).0, calm (after_commit a x).1) ≡ after_commit a (x.0, calm x.1))
  unfolding after_commit rollback
  after_commit-calm a (ok _, d) = inr refl
  after_commit-calm a (failed e, d) = inr refl

  after_body-IsBroken : (x : Reply A × Conn) → IsBroken x.0 → IsBroken (after_body x).0
  unfolding after_body
  after_body-IsBroken (failed e, d) h = h
  after_body-IsBroken (ok _, d) h = elim h [ ]

  after_body-calm :
      (x : Reply A × Conn)
      → IsBroken (after_body x).0
        ⊎ (((after_body x).0, calm (after_body x).1) ≡ after_body (x.0, calm x.1))
  unfolding after_body rollback
  after_body-calm (failed e, d) = inr refl
  after_body-calm (ok a, d) =
      post-IsRobust (after_commit a) (statement (reads λ _. ok tt))
        (statement-IsRobust (reads λ _. ok tt)) (after_commit-IsBroken a) (after_commit-calm a) d

  pub with_tx-IsRobust : (body : Query A) → IsRobust body → IsRobust (with_tx body)
  unfolding with_tx ◌>>=◌
  with_tx-IsRobust body h =
      bind-IsRobust (λ _ c. after_body (body c)) (statement (reads λ _. ok tt))
        (statement-IsRobust (reads λ _. ok tt))
        λ _. post-IsRobust after_body body h after_body-IsBroken after_body-calm
