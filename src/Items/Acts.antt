-- ===== src/Items/Acts.antt =====
-- On a calm connection, the transactions of Items/Operations.antt are the functions of Items/Spec.antt.
use flightdeck.Items.Transaction.{
  runs, Conn, Query, pure, ◌>>=◌, draw, fare, statement, reads, is_no_rows, or_none, found_or_none,
  no_rows_is, replace_no_rows,
}
use flightdeck.Items.Tables.{Failure, Reply, failed, ok, or_no_rows}
use flightdeck.Items.State.{Db}
use flightdeck.Items.Transaction.{Query}
use flightdeck.Base.{
  ℕ, ◌≡◌, refl, sym, ◌∙◌, subst, Bool, true, false, Option, none, some, [], if◌then◌else◌, nat_eq,
  string_eq,
}

-- With no fault to come, the query is a function of the time and the tables.
unfoldable pub Acts : {A : Type 0} → Query A → (ℕ → Db → Reply A × Db) → Type 0
Acts m f =
    (c : Conn)
    → c.fates ≡ []
    → (((m c).0, (m c).1.db) ≡ f c.now c.db) × ((m c).1.fates ≡ []) × ((m c).1.now ≡ c.now)

unfoldable pub then_do :
    {A B : Type 0} → (ℕ → Db → Reply A × Db) → (A → ℕ → Db → Reply B × Db) → ℕ → Db → Reply B × Db
then_do f g now db =
    let (r, db1) = f now db in elim r [ ok a ↦ g a now db1 | failed e ↦ (failed e, db1) ]

-- The second half of a chain, after an answer that is known.
chain_go :
    {A B : Type 0} (k : A → Query B) (g : A → ℕ → Db → Reply B × Db)
    → ((a : A) → Acts (k a) (g a))
    → (x : Reply A × Conn) (now : ℕ) → x.1.fates ≡ []
    → x.1.now ≡ now
    → let y : Reply B × Conn = elim x.0 [ ok a ↦ k a x.1 | failed e ↦ (failed e, x.1) ] in
      ◌≡◌ {A = Reply B × Db}
        (y.0, y.1.db)
        (elim x.0 [ ok a ↦ g a now x.1.db | failed e ↦ (failed e, x.1.db) ])
      × (y.1.fates ≡ [])
      × (y.1.now ≡ now)
unfolding Acts
chain_go k g hk (ok a, d) now hf hn =
    let (h, i, j) = hk a d hf in
    (subst (λ n. ((k a d).0, (k a d).1.db) ≡ g a n d.db) hn h, i, j ∙ hn)
chain_go k g hk (failed e, d) now hf hn = (refl, hf, hn)

pub bind-Acts :
    {A B : Type 0} (m : Query A) (f : ℕ → Db → Reply A × Db) (k : A → Query B)
    (g : A → ℕ → Db → Reply B × Db)
    → Acts m f
    → ((a : A) → Acts (k a) (g a))
    → Acts (m >>= k) (then_do f g)
unfolding then_do ◌>>=◌ Acts
bind-Acts {B = B} m f k g hm hk c hf =
    let (h, i, j) = hm c hf in
    let (h', i', j') = chain_go k g hk (m c) c.now i j in
    (
      subst
          (λ y.
            ◌≡◌ {A = Reply B × Db} (((m >>= k) c).0, ((m >>= k) c).1.db)
              (elim y.0 [ ok a ↦ g a c.now y.1 | failed e ↦ (failed e, y.1) ]))
          h h',
      i',
      j',
    )

pub draw_calm : (c : Conn) → c.fates ≡ [] → draw c ≡ (runs, c)
unfolding draw
draw_calm c hf = rw (hf)

pub statement-Acts : {A : Type 0} (q : ℕ → Db → Reply A × Db) → Acts (statement q) q
unfolding statement fare Acts
statement-Acts {A = A} q c hf =
    subst
      (λ x.
        ◌≡◌ {A = Reply A × Db} ((fare q x.0 x.1).0, (fare q x.0 x.1).1.db) (q c.now c.db)
        × ((fare q x.0 x.1).1.fates ≡ [])
        × ((fare q x.0 x.1).1.now ≡ c.now))
      (sym (draw_calm c hf)) (refl, hf, refl)

-- The same function, written in another way.
pub same-Acts :
    {A : Type 0} (m : Query A) (f g : ℕ → Db → Reply A × Db)
    → ((now : ℕ) (db : Db) → f now db ≡ g now db)
    → Acts m f
    → Acts m g
unfolding Acts
same-Acts m f g h hm c hf = let (a, i, j) = hm c hf in (a ∙ h c.now c.db, i, j)

pub pure-Acts : {A : Type 0} (a : A) → Acts (pure a) λ _ db. (ok a, db)
unfolding Acts
pure-Acts a c hf = (refl, hf, refl)

-- A look-up that answers with an option.
look_go :
    {A : Type 0} (f : Db → Option A) (o : Option A) (c : Conn)
    → c.fates ≡ []
    → let y = found_or_none (or_no_rows o, c) in
      ◌≡◌ {A = Reply (Option A) × Db} (y.0, y.1.db) (ok o, c.db)
      × (y.1.fates ≡ [])
      × (y.1.now ≡ c.now)
unfolding found_or_none
look_go f none c hf = (refl, hf, refl)
look_go f (some a) c hf = (refl, hf, refl)

pub look-Acts :
    {A : Type 0} (f : Db → Option A)
    → Acts (or_none (statement (reads λ db. or_no_rows (f db)))) λ _ db. (ok (f db), db)
unfolding statement fare Acts
look-Acts {A} f c hf =
    subst
      (λ x.
        let y = found_or_none (fare (reads λ db. or_no_rows (f db)) x.0 x.1) in
        ◌≡◌ {A = Reply (Option A) × Db} (y.0, y.1.db) (ok (f c.db), c.db)
        × (y.1.fates ≡ [])
        × (y.1.now ≡ c.now))
      (sym (draw_calm c hf)) (look_go f (f c.db) c hf)

-- A transaction keeps all of its writes, or none.
unfoldable pub all_or_nothing : {A : Type 0} → (ℕ → Db → Reply A × Db) → ℕ → Db → Reply A × Db
all_or_nothing f now db =
    let (r, db1) = f now db in elim r [ ok a ↦ (ok a, db1) | failed e ↦ (failed e, db) ]

unfoldable pub replacing : {A : Type 0} → Failure → (ℕ → Db → Reply A × Db) → ℕ → Db → Reply A × Db
replacing e q now db =
    let (r, db1) = q now db in
    elim r [ ok a ↦ (ok a, db1) | failed f ↦ (failed (if is_no_rows f then e else f), db1) ]

replace_go :
    {A : Type 0} (e : Failure) (x : Reply A × Db) (c : Conn)
    → c.fates ≡ []
    → let y = replace_no_rows e (x.0, record c { db = x.1 }) in
      ◌≡◌ {A = Reply A × Db}
        (y.0, y.1.db)
        (elim x.0 [ ok a ↦ (ok a, x.1) | failed f ↦ (failed (if is_no_rows f then e else f), x.1) ])
      × (y.1.fates ≡ [])
      × (y.1.now ≡ c.now)
unfolding replace_no_rows
replace_go e (ok a, db) c hf = (refl, hf, refl)
replace_go e (failed f, db) c hf = (refl, hf, refl)

pub no_rows_is-Acts :
    {A : Type 0} (e : Failure) (q : ℕ → Db → Reply A × Db)
    → Acts (no_rows_is e (statement q)) (replacing e q)
unfolding statement fare Acts replacing
no_rows_is-Acts {A} e q c hf =
    subst
      (λ x.
        let y = replace_no_rows e (fare q x.0 x.1) in
        ◌≡◌ {A = Reply A × Db} (y.0, y.1.db) (replacing e q c.now c.db)
        × (y.1.fates ≡ [])
        × (y.1.now ≡ c.now))
      (sym (draw_calm c hf)) (replace_go e (q c.now c.db) c hf)

pub if-Acts :
    {A : Type 0} (b : Bool) (m k : Query A) (f g : ℕ → Db → Reply A × Db)
    → Acts m f
    → Acts k g
    → Acts (if b then m else k) λ now db. if b then f now db else g now db
if-Acts true m k f g hm hk = hm
if-Acts false m k f g hm hk = hk
