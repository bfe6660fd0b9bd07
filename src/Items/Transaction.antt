-- ===== src/Items/Transaction.antt =====
-- internal/store/store.go, WithTx, and Go's error returns: a call runs on a connection that knows the
-- committed tables, the tables its transaction sees, and how the coming statements fare.
use flightdeck.Items.Tables.{Failure, no_rows, unique_violation, broken, Reply, failed, ok}
use flightdeck.Items.State.{Db}
use flightdeck.Base.Bytes.{Bytes}
use flightdeck.Base.{
  ℕ, Bool, true, false, Option, none, some, List, [], ◌∷◌, if◌then◌else◌, nat_eq, string_eq,
}

-- A statement runs, breaks (a lost connection, a timeout), or loses a race for a unique key to a
-- transaction that commits first.
pub data Fate : Type 0 where
  runs loses : Fate
  breaks : Bytes → Fate

-- After the last fate every statement runs. `heard` is what the hub has broadcast.
pub record Conn : Type 0 where
  pub committed : Db
  pub db : Db
  pub now : ℕ
  pub fates : List Fate
  pub heard : List Bytes
  pub cache_cleared : Bool

abbrev pub Query : Type 0 → Type 0
Query A = Conn → Reply A × Conn

module _ {A : Type 0} where
  abbrev pub pure : A → Query A
  pure a c = (ok a, c)

  abbrev pub fail : Failure → Query A
  fail e c = (failed e, c)

  abbrev pub lift : Reply A → Query A
  lift r c = (r, c)

infixl 5 ◌>>=◌ ◌>>◌
unfoldable pub ◌>>=◌ : {A B : Type 0} → Query A → (A → Query B) → Query B
◌>>=◌ m f c = let (r, d) = m c in elim r [ ok a ↦ f a d | failed e ↦ (failed e, d) ]

abbrev pub ◌>>◌ : {A B : Type 0} → Query A → Query B → Query B
m >> k = m >>= λ _. k

-- The next fate, and the connection after it.
unfoldable pub draw : Conn → Fate × Conn
draw c = elim c.fates [ [] ↦ (runs, c) | f ∷ rest ↦ (f, record c { fates = rest }) ]

-- What comes of a statement.
unfoldable pub fare : {A : Type 0} → (ℕ → Db → Reply A × Db) → Fate → Query A
fare q runs c = let (r, db) = q c.now c.db in (r, record c { db = db })
fare q loses c = (failed unique_violation, c)
fare q (breaks e) c = (failed (broken e), c)

-- One statement on the tables of the transaction.
unfoldable pub statement : {A : Type 0} → (ℕ → Db → Reply A × Db) → Query A
unfolding draw fare
statement q c = let (f, d) = draw c in fare q f d

abbrev pub reads : {A : Type 0} → (Db → Reply A) → ℕ → Db → Reply A × Db
reads f _ db = (f db, db)

-- errors.Is(err, pgx.ErrNoRows) told apart from the other errors.
abbrev pub is_no_rows : Failure → Bool
is_no_rows no_rows = true
is_no_rows _ = false

abbrev pub is_unique_violation : Failure → Bool
is_unique_violation unique_violation = true
is_unique_violation _ = false

-- A look-up whose missing row is an answer.
unfoldable pub found_or_none : {A : Type 0} → Reply A × Conn → Reply (Option A) × Conn
found_or_none (ok a, d) = (ok (some a), d)
found_or_none (failed e, d) = if is_no_rows e then (ok none, d) else (failed e, d)

abbrev pub or_none : {A : Type 0} → Query A → Query (Option A)
or_none m c = found_or_none (m c)

-- The error of a query, replaced by another when it is ErrNoRows.
unfoldable pub replace_no_rows : {A : Type 0} → Failure → Reply A × Conn → Reply A × Conn
replace_no_rows e (ok a, d) = (ok a, d)
replace_no_rows e (failed f, d) = (failed (if is_no_rows f then e else f), d)

abbrev pub no_rows_is : {A : Type 0} → Failure → Query A → Query A
no_rows_is e m c = replace_no_rows e (m c)

-- BEGIN and COMMIT are statements too; a failed body, or a failed commit, rolls back.
unfoldable pub rollback : Conn → Conn
rollback c = record c { db = c.committed }

unfoldable pub after_commit : {A : Type 0} → A → Reply Unit × Conn → Reply A × Conn
unfolding rollback
after_commit a (ok _, d) = (ok a, record d { committed = d.db })
after_commit a (failed e, d) = (failed e, rollback d)

unfoldable pub after_body : {A : Type 0} → Reply A × Conn → Reply A × Conn
unfolding statement rollback after_commit
after_body (ok a, d) = after_commit a (statement (reads λ _. ok tt) d)
after_body (failed e, d) = (failed e, rollback d)

unfoldable pub with_tx : {A : Type 0} → Query A → Query A
unfolding ◌>>=◌ statement after_body
with_tx body = statement (reads λ _. ok tt) >> λ c. after_body (body c)

unfoldable pub clear_cache : Query Unit
clear_cache c = (ok tt, record c { cache_cleared = true })

-- What other transactions commit at this point, seen by a transaction that has not written yet.
unfoldable pub meanwhile : (Db → Db) → Query Unit
meanwhile f c = (ok tt, record c { committed = f c.committed; db = f c.db })
