-- ===== src/Items/Refinement.antt =====
-- The service's writes against Items/Spec.antt: each is one atomic step, whatever the database does.
use flightdeck.Base.Bytes.{Bytes}
use flightdeck.Items.Atomic.{IsSettled, Refines, with_tx-Refines}
use flightdeck.Items.Changes.{
  update_item_tx-IsFair, update_item_tx-Acts, log_row-IsFair, log_row-Acts,
}
use flightdeck.Items.Closing.{complete_item_tx-IsFair, complete_item_tx-Acts}
use flightdeck.Items.Bodies.{IsFair, create_each-IsFair, create_each-Acts}
use flightdeck.Items.Acts.{Acts}
use flightdeck.Items.Spec.{spec_each, spec_update, spec_log, spec_complete}
use flightdeck.Items.Operations.{
  Marshal, bulk_create_items, update_item, log_activity, complete_item,
}
use flightdeck.Items.Transaction.{Conn, Query, pure, ◌>>=◌, ◌>>◌, with_tx, clear_cache}
use flightdeck.Items.Tables.{Reply, failed, ok}
use flightdeck.Items.State.{Db, CreateItemParams, UpdateItemParams, CreateActivityParams}
use flightdeck.Base.{ℕ, ◌≡◌, refl, sym, subst, true, List, nat_eq, string_eq}

module _ {A : Type 0} where
  -- Clearing the cache after a transaction changes neither the answer nor the tables.
  unfoldable pub cleared : Reply A × Conn → Reply A × Conn
  cleared (ok a, d) = (ok a, record d { cache_cleared = true })
  cleared (failed e, d) = (failed e, d)

  cleared-Refines :
      (f : ℕ → Db → Reply A × Db) (c : Conn) (x : Reply A × Conn)
      → Refines f c x
      → Refines f c (cleared x)
  unfolding cleared
  cleared-Refines f c (ok a, d) h = record {
    settled = h.settled;
    whole_or_none = h.whole_or_none;
    calm_whole = h.calm_whole;
  }
  cleared-Refines f c (failed e, d) h = h

  pub cleared_lem :
      (x : Reply A × Conn)
      → (elim x.0 [ ok a ↦ (clear_cache >> pure a) x.1 | failed e ↦ (failed e, x.1) ]) ≡ cleared x
  unfolding cleared ◌>>=◌ clear_cache
  cleared_lem (ok a, d) = refl
  cleared_lem (failed e, d) = refl

  tx-Refines :
      (body : Query A) (f : ℕ → Db → Reply A × Db)
      → Acts body f
      → IsFair body
      → (c : Conn) → IsSettled c
      → Refines f c ((with_tx body >>= λ a. clear_cache >> pure a) c)
  unfolding ◌>>=◌
  tx-Refines body f hb hf c s =
      subst (λ x. Refines f c x) (sym (cleared_lem (with_tx body c)))
        (cleared-Refines f c (with_tx body c) (with_tx-Refines body f hb hf.robust hf.keeps c s))

module _ (marshal : Marshal) (actor : Bytes) (c : Conn) (s : IsSettled c) where
  pub bulk_create_items-Refines :
      (ps : List CreateItemParams)
      → Refines (spec_each marshal actor ps) c (bulk_create_items marshal ps actor c)
  unfolding bulk_create_items
  bulk_create_items-Refines ps =
      tx-Refines _ _ (create_each-Acts marshal actor ps) (create_each-IsFair marshal actor ps) c s

  pub update_item-Refines :
      (p : UpdateItemParams)
      → Refines (spec_update marshal actor p) c (update_item marshal (λ db. db) p actor c)
  unfolding update_item
  update_item-Refines p =
      tx-Refines _ _ (update_item_tx-Acts marshal actor p) (update_item_tx-IsFair marshal actor p) c
        s

  pub log_activity-Refines :
      (p : CreateActivityParams) → Refines (spec_log marshal p) c (log_activity marshal p c)
  unfolding log_activity
  log_activity-Refines p =
      tx-Refines _ _ (log_row-Acts marshal actor p) (log_row-IsFair marshal actor p) c s

  pub complete_item-Refines :
      (id : ℕ) (why summary : Bytes)
      → Refines
          (spec_complete marshal actor id why summary)
          c
          (complete_item marshal id why summary actor c)
  unfolding complete_item
  complete_item-Refines id why summary =
      tx-Refines _ _ (complete_item_tx-Acts marshal actor id why summary)
        (complete_item_tx-IsFair marshal actor id why summary) c s
