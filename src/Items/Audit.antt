-- ===== src/Items/Audit.antt =====
-- The laws of Items/Laws.antt, over a history of the service's writes.
use flightdeck.Items.Steps.{
  spec_create-Lawful, spec_each-Lawful, spec_update-Lawful, spec_log-Lawful, spec_complete-Lawful,
}
use flightdeck.Base.Bytes.{bytes_eq}
use flightdeck.Items.Atomic.{IsSettled}
use flightdeck.Items.Acts.{all_or_nothing}
use flightdeck.Items.Operations.{Marshal}
use flightdeck.Items.Transaction.{Conn}
use flightdeck.Items.Tables.{Reply, failed, ok}
use flightdeck.Items.State.{Db}
use flightdeck.Items.Laws.{count_events, HasUniqueKeys, IsTotal, Lawful, Lawful-refl, Lawful-trans}
use flightdeck.Items.History.{
  Write, Turn, creates_one, creates_all, updates, logs, completes, run_turns, promised, Reaches,
  run_turns-Reaches,
}
use flightdeck.Base.{◌+◌, ◌≡◌, length, ℕ, sym, subst, inl, inr, List, [], ◌∷◌, nat_eq, string_eq}

kept_tables :
    {A : Type 0} (db : Db) (z : Reply A × Db)
    → Lawful db z.1
    → let y : Reply A × Db = elim z.0 [ ok a ↦ (ok a, z.1) | failed e ↦ (failed e, db) ] in
      Lawful db y.1
kept_tables db (ok a, db1) h = h
kept_tables db (failed e, db1) h = Lawful-refl db

promised-Lawful :
    (marshal : Marshal)
    → IsTotal marshal
    → (w : Write) (now : ℕ) (db : Db) → Lawful db (promised marshal w now db)
unfolding promised all_or_nothing
promised-Lawful marshal total (creates_one p actor) now db =
    kept_tables db _ (spec_create-Lawful marshal actor now total p db)
promised-Lawful marshal total (creates_all ps actor) now db =
    kept_tables db _ (spec_each-Lawful marshal actor now total ps db)
promised-Lawful marshal total (updates p actor) now db =
    kept_tables db _ (spec_update-Lawful marshal actor now p db)
promised-Lawful marshal total (logs p) now db =
    kept_tables db _ (spec_log-Lawful marshal [] now p db)
promised-Lawful marshal total (completes id why summary actor) now db =
    kept_tables db _ (spec_complete-Lawful marshal actor now id why summary db)

reached-Lawful :
    (marshal : Marshal)
    → IsTotal marshal
    → (ts : List Turn) (db last : Db) → Reaches marshal ts db last
    → Lawful db last
unfolding Reaches
reached-Lawful marshal total [] db last h = subst (λ d. Lawful db d) (sym h) (Lawful-refl db)
reached-Lawful marshal total (t ∷ ts) db last (inl h) =
    Lawful-trans _ _ _ (promised-Lawful marshal total t.write t.now db)
      (reached-Lawful marshal total ts _ last h)
reached-Lawful marshal total (t ∷ ts) db last (inr (_, h)) =
    reached-Lawful marshal total ts db last h

-- From a connection without an open transaction, where no two items of a project, deleted or not,
-- hold one key and every envelope can be encoded: after any history of creates, batches, updates, logs
-- and completions, each under its own faults, still no two items of a project hold one key, and the
-- outbox has gained as many `item.created` events as the table has gained items.
pub run_turns-HasUniqueKeys :
    (marshal : Marshal) (ts : List Turn) (c : Conn)
    → IsTotal marshal
    → IsSettled c
    → HasUniqueKeys c.db.items
    → let last = (run_turns marshal ts c).db in
      HasUniqueKeys last.items
      × (length last.items + count_events "item.created" c.db.outbox
          ≡ length c.db.items + count_events "item.created" last.outbox)
run_turns-HasUniqueKeys marshal ts c total s keyed =
    let lawful = reached-Lawful marshal total ts c.db _ (run_turns-Reaches marshal ts c s).1 in
    (lawful.keyed keyed, lawful.balanced)
