-- ===== src/Items/Retry.antt =====
-- CreateItem of internal/service/service.go is safe to retry.
use flightdeck.Base.Bytes.{Bytes}
use flightdeck.Items.Creation.{Ending, creates, yields, fails, ok_inj, some_inj}
use flightdeck.Items.Atomic.{IsSettled}
use flightdeck.Items.Robust.{calm, IsBroken}
use flightdeck.Items.Spec.{prior_item}
use flightdeck.Items.Operations.{Marshal, given_key, Rivals, create_item}
use flightdeck.Items.Transaction.{Fate, Conn}
use flightdeck.Items.Tables.{Reply, ok}
use flightdeck.Items.State.{ItemRow, CreateItemParams}
use flightdeck.Items.Idempotence.{spec_create_found}
use flightdeck.Items.Told.{Told, breaks_first, finds, goes_on, create_item-Told}
use flightdeck.Base.{
  ℕ, String, ◌≡◌, sym, ap, ◌∙◌, subst, ◌≢◌, ◌⊎◌, inl, inr, some, List, [], arith, nat_eq, string_eq,
}

module _ (marshal : Marshal) (p : CreateItemParams) (k : String)
    (keyed : given_key p ≡ some k) where
  Ending-found :
      (rivals : Rivals) (actor : Bytes) (d : Conn) (x : Reply ItemRow × Conn) (it : ItemRow)
      → Ending marshal rivals p actor d d.db (rivals.after_loss d.db) x
      → x.0 ≡ ok it
      → prior_item p x.1.db ≡ some it
  Ending-found rivals actor d x it (creates row q h) e =
      spec_create_found marshal p k keyed d.now actor d.db x.1.db it
        (ap (λ r. (r, x.1.db)) (sym e ∙ q) ∙ h)
  Ending-found rivals actor d x it (yields row q found h) e =
      ap (prior_item p) h ∙ (found ∙ ap some (ok_inj (sym q ∙ e)))
  Ending-found rivals actor d x it (fails f q h calm) e = absurd (ground (arith, sym q ∙ e))

  Told-found :
      (rivals : Rivals) (actor : Bytes) (c : Conn) (x : Reply ItemRow × Conn) (it : ItemRow)
      → Told marshal rivals p actor c x
      → x.0 ≡ ok it
      → prior_item p x.1.db ≡ some it
  Told-found rivals actor c x it (breaks_first b h f) e = elim (subst (λ r. IsBroken r) e b) [ ]
  Told-found rivals actor c x it (finds row found q h) e =
      ap (prior_item p) h ∙ (found ∙ ap some (ok_inj (sym q ∙ e)))
  Told-found rivals actor c x it (goes_on d free h n f ending) e =
      Ending-found rivals actor d x it ending e

-- With a supplied key, an item that CreateItem returns is the live item of that key in the tables the
-- call leaves: whatever statements broke, and whatever others committed around the transaction.
pub create_item_found :
    (marshal : Marshal) (rivals : Rivals) (p : CreateItemParams) (actor : Bytes) (c : Conn)
    (k : String) (it : ItemRow)
    → given_key p ≡ some k
    → IsSettled c
    → (create_item marshal rivals p actor c).0 ≡ ok it
    → prior_item p (create_item marshal rivals p actor c).1.db ≡ some it
create_item_found marshal rivals p actor c k it keyed s e =
    Told-found marshal p k keyed rivals actor c (create_item marshal rivals p actor c) it
      (create_item-Told marshal rivals p actor c s).1 e

Told-again :
    (marshal : Marshal) (rivals : Rivals) (p : CreateItemParams) (actor : Bytes) (d : Conn)
    (x : Reply ItemRow × Conn) (it : ItemRow)
    → prior_item p d.db ≡ some it
    → Told marshal rivals p actor d x
    → (x.1.db ≡ d.db) × ((x.0 ≡ ok it) ⊎ (IsBroken x.0 × (d.fates ≢ [])))
Told-again marshal rivals p actor d x it found (breaks_first b h f) = (h, inr (b, f))
Told-again marshal rivals p actor d x it found (finds row g q h) =
    (h, inl (q ∙ ap ok (some_inj (sym g ∙ found))))
Told-again marshal rivals p actor d x it found (goes_on e free h n f ending) =
    absurd (ground (arith, sym free ∙ found))

-- After a call that returned an item for a supplied key, a second call with the same parameters, at
-- any time and under any faults, leaves the tables as they are: no second item, activity or event. It
-- returns the same item, or an error if a statement broke.
pub create_item_again :
    (marshal : Marshal) (rivals again : Rivals) (p : CreateItemParams) (actor : Bytes) (c : Conn)
    (k : String) (it : ItemRow) (now : ℕ) (fates : List Fate)
    → given_key p ≡ some k
    → IsSettled c
    → (create_item marshal rivals p actor c).0 ≡ ok it
    → let d : Conn = record (create_item marshal rivals p actor c).1 { now = now; fates = fates } in
      let x = create_item marshal again p actor d in
      (x.1.db ≡ d.db) × ((x.0 ≡ ok it) ⊎ (IsBroken x.0 × (fates ≢ [])))
create_item_again marshal rivals again p actor c k it now fates keyed s e =
    let c1 = (create_item marshal rivals p actor c).1 in
    let d : Conn = record c1 { now = now; fates = fates } in
    Told-again marshal again p actor d (create_item marshal again p actor d) it
      (create_item_found marshal rivals p actor c k it keyed s e)
      (create_item-Told marshal again p actor d (create_item-Told marshal rivals p actor c s).0).1
