-- ===== src/Items/Told.antt =====
-- How a whole call of CreateItem of internal/service/service.go ends, its first look-up included.
use flightdeck.Base.Bytes.{Bytes}
use flightdeck.Items.Creation.{Ending, Looks, get_prior-Looks, ok_inj, create_in_tx-Ends}
use flightdeck.Items.Atomic.{IsSettled}
use flightdeck.Items.Robust.{IsBroken}
use flightdeck.Items.Spec.{prior_item}
use flightdeck.Items.Operations.{Marshal, get_prior, Rivals, create_in_tx, or_create, create_item}
use flightdeck.Items.Transaction.{Conn, ◌>>=◌, meanwhile}
use flightdeck.Items.Tables.{Reply, failed, ok}
use flightdeck.Items.State.{ItemRow, CreateItemParams}
use flightdeck.Base.{
  ◌≡◌, refl, sym, ap, ◌∙◌, subst, inl, inr, Option, none, some, [], arith, nat_eq, string_eq,
}

module _ (marshal : Marshal) (rivals : Rivals) (p : CreateItemParams) (actor : Bytes) where
  pub data Told (c : Conn) (x : Reply ItemRow × Conn) : Type 0 where
    breaks_first : IsBroken x.0 → x.1.db ≡ c.db → (c.fates ≡ [] → ⊥) → Told c x
    finds : (it : ItemRow) → prior_item p c.db ≡ some it → x.0 ≡ ok it → x.1.db ≡ c.db → Told c x
    goes_on :
        (d : Conn)
        → prior_item p c.db ≡ none
        → d.db ≡ rivals.between c.db
        → d.now ≡ c.now
        → (c.fates ≡ [] → d.fates ≡ [])
        → Ending marshal rivals p actor d d.db (rivals.after_loss d.db) x
        → Told c x

  -- The connection after what the rivals commit first.
  abbrev gone_on : Conn → Conn
  gone_on d = record d { committed = rivals.between d.committed; db = rivals.between d.db }

  served : Reply (Option ItemRow) × Conn → Reply ItemRow × Conn
  served (failed e, d) = (failed e, d)
  served (ok (some it), d) = (ok it, d)
  served (ok none, d) = create_in_tx marshal rivals p actor (gone_on d)

  served_form :
      (y : Reply (Option ItemRow) × Conn)
      → (elim y.0 [
        | ok prior ↦ or_create marshal rivals p actor prior y.1
        | failed e ↦ (failed e, y.1)
      ])
        ≡ served y
  unfolding served meanwhile or_create ◌>>=◌
  served_form (failed e, d) = refl
  served_form (ok (some it), d) = refl
  served_form (ok none, d) = refl

  served-Told :
      (c : Conn) (y : Reply (Option ItemRow) × Conn)
      → IsSettled c
      → Looks (prior_item p c.db) c y
      → IsSettled (served y).1 × Told c (served y)
  unfolding served
  served-Told c (failed e, d) s look = (
    look.same_db ∙ (s ∙ sym look.same_committed),
    breaks_first (elim look.answer [ inl b ↦ b | inr q ↦ absurd (ground (arith, q)) ]) look.same_db
        (λ hf. absurd (ground (arith, (look.calm_answer hf).0))),
  )
  served-Told c (ok (some it), d) s look = (
    look.same_db ∙ (s ∙ sym look.same_committed),
    finds it (elim look.answer [ inl b ↦ elim b [ ] | inr q ↦ sym (ok_inj q) ]) refl look.same_db,
  )
  served-Told c (ok none, d) s look =
      let settled : d.db ≡ d.committed = look.same_db ∙ (s ∙ sym look.same_committed) in
      let (t, ending) =
        create_in_tx-Ends marshal rivals p actor (gone_on d) (ap rivals.between settled) in
      (
        t,
        goes_on (gone_on d) (elim look.answer [ inl b ↦ elim b [ ] | inr q ↦ sym (ok_inj q) ])
            (ap rivals.between look.same_db) look.same_now (λ hf. (look.calm_answer hf).1) ending,
      )

  pub create_item-Told :
      (c : Conn)
      → IsSettled c
      → IsSettled (create_item marshal rivals p actor c).1
        × Told c (create_item marshal rivals p actor c)
  unfolding create_item ◌>>=◌
  create_item-Told c s =
      subst (λ x. IsSettled x.1 × Told c x) (sym (served_form (get_prior p c)))
        (served-Told c (get_prior p c) s (get_prior-Looks p c))
