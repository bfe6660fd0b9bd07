-- ===== src/Share/Outbox.antt =====
-- internal/sync/engine.go: pushOutbound over the mailbox client, by the outbound pass of
-- `Sync.Engine`, which asks an oracle whether the mailbox takes a message.
use flightdeck.Base.{
  ℕ, ◌≡◌, Bool, true, false, Option, none, some, List, ltb, nat_eq, string_eq, length,
}
use flightdeck.Sync.Engine.{Db, Kind}
use flightdeck.Sync.Engine.Exchange.{Row, Push, envelope, send_rows, push_outbound}
use flightdeck.Share.Client.{NetError, Client}
use flightdeck.Share.Rows.{ShareRow}
use flightdeck.Share.Passes.{Engine, Site, PushRun, db_of, send_each, push_over}

abbrev is_error : Option NetError → Bool
is_error none = false
is_error (some e) = true

module _ (engine : Engine) (c : Client) (share : ShareRow) where
  open engine use {wire, net, bytes_of, instance_id}
  open engine.wire use {Hash, Sealed, hash, seal}

  -- The pass over the network and the pass with an oracle leave the same.
  record Agree (o : Option NetError × PushRun engine) (p : Push wire) : Type 0 where
    pub same_db : p.db ≡ o.1.db
    pub same_count : length p.sent ≡ o.1.sent
    pub same_stop : p.stopped ≡ is_error o.0

  abbrev each :
      (Kind → ℕ → Option Hash) → List (Row wire) → PushRun engine → Option NetError × PushRun engine
  each = send_each engine c share

  abbrev fresh : Db Hash → List Sealed → Push wire
  fresh db out = record { db = db; sent = out; stopped = false }

  abbrev halted : Db Hash → List Sealed → Push wire
  halted db out = record { db = db; sent = out; stopped = true }

  abbrev oracle : ℕ → (Kind → ℕ → Option Hash) → List (Row wire) → Push wire → Push wire
  oracle n hashes rest p = send_rows wire (λ k. ltb k n) hashes instance_id rest p

  -- The row, sealed.
  abbrev sealed_row : Row wire → Sealed
  sealed_row row = seal (envelope wire instance_id row)

  -- The oracle that takes as many messages as the mailbox did.
  abbrev by_oracle : Site engine → Push wire
  by_oracle site =
      push_outbound wire (λ k. ltb k (push_over engine c share site).1.sent) instance_id
        (db_of engine share site)
