-- ===== src/Items/Bodies.antt =====
-- The bodies of the service's transactions: a fault makes each an error, none commits, and without
-- faults each is its function of Items/Spec.antt.
use flightdeck.Base.Bytes.{Bytes}
use flightdeck.Items.Acts.{
  Acts, then_do, bind-Acts, statement-Acts, same-Acts, pure-Acts, look-Acts,
}
use flightdeck.Items.Robust.{
  IsRobust, KeepsCommitted, bind-IsRobust, bind-KeepsCommitted, statement-IsRobust,
  statement-KeepsCommitted, or_none-IsRobust, or_none-KeepsCommitted,
}
use flightdeck.Items.Spec.{
  add_activity, add_event, prior_item, announce_item, spec_insert, spec_create, spec_each,
}
use flightdeck.Items.Operations.{
  Content, of_item, Marshal, broadcast_event, send_event, enqueue, remark, given_key, get_by_key,
  get_prior, create_new, create_item_tx, create_each,
}
use flightdeck.Items.Transaction.{Conn, Query, pure, ◌>>=◌, statement, reads}
use flightdeck.Items.Tables.{
  Reply, ok, or_no_rows, insert_item, insert_activity, insert_event, find_by_key,
}
use flightdeck.Items.State.{ItemRow, Db, CreateItemParams}
use flightdeck.Base.{
  ℕ, String, ◌≡◌, refl, sym, ap, subst, fun_ext, inl, inr, Bool, true, false, Option, none, some,
  List, [], ◌∷◌, ◌++◌, if◌then◌else◌, nat_eq, string_eq, Option-cases,
}

-- Robust, and without a commit of its own.
pub record IsFair {A : Type 0} (m : Query A) : Type 0 where
  pub robust : IsRobust m
  pub keeps : KeepsCommitted m

module _ {A : Type 0} where
  pub bind-IsFair :
      {B : Type 0} (m : Query A) (k : A → Query B)
      → IsFair m
      → ((a : A) → IsFair (k a))
      → IsFair (m >>= k)
  bind-IsFair m k hm hk = record {
    robust = bind-IsRobust k m hm.robust (λ a. (hk a).robust);
    keeps = bind-KeepsCommitted k m hm.keeps (λ a. (hk a).keeps);
  }

  pub statement-IsFair : (q : ℕ → Db → Reply A × Db) → IsFair (statement q)
  statement-IsFair q = record { robust = statement-IsRobust q; keeps = statement-KeepsCommitted q }

  pub pure-IsFair : (a : A) → IsFair (pure a)
  pure-IsFair a = record { robust = λ c. inr refl; keeps = λ c. refl }

  pub if-IsFair : (b : Bool) (m k : Query A) → IsFair m → IsFair k → IsFair (if b then m else k)
  if-IsFair true m k hm hk = hm
  if-IsFair false m k hm hk = hk

broadcast_event-IsFair : (payload : Bytes) → IsFair (broadcast_event payload)
unfolding broadcast_event
broadcast_event-IsFair payload = record { robust = λ c. inr refl; keeps = λ c. refl }

send_event-IsFair :
    (project : ℕ) (event : String) (o : Option Bytes) → IsFair (send_event project event o)
unfolding send_event
send_event-IsFair project event none = pure-IsFair tt
send_event-IsFair project event (some payload) =
    bind-IsFair (broadcast_event payload)
      (λ _. statement λ now. insert_event now project event payload)
      (broadcast_event-IsFair payload)
      λ _. statement-IsFair λ now. insert_event now project event payload

pub enqueue-IsFair :
    (marshal : Marshal) (project : ℕ) (event : String) (content : Content)
    → IsFair (enqueue marshal project event content)
unfolding enqueue
enqueue-IsFair marshal project event content =
    let o : Conn → Option Bytes =
      λ c. marshal (record { event = event; project_id = project; at = c.now; data_ = content }) in
    record {
      robust = λ c. (send_event-IsFair project event (o c)).robust c;
      keeps = λ c. (send_event-IsFair project event (o c)).keeps c;
    }

send_event-Acts :
    (marshal : Marshal) (project : ℕ) (event : String) (content : Content) (o : Option Bytes)
    (c : Conn)
    → marshal (record { event = event; project_id = project; at = c.now; data_ = content }) ≡ o
    → c.fates ≡ []
    → let x = send_event project event o c in
      ◌≡◌ {A = Reply Unit × Db}
        (x.0, x.1.db)
        (ok tt, add_event marshal c.now project event content c.db)
      × (x.1.fates ≡ [])
      × (x.1.now ≡ c.now)
unfolding send_event add_event broadcast_event insert_event ◌>>=◌ Acts
send_event-Acts marshal project event content none c h hf = (rw (h, add_event), hf, refl)
send_event-Acts marshal project event content (some payload) c h hf =
    let d : Conn = record c { heard = c.heard ++ payload ∷ [] } in
    let (e, i, j) = statement-Acts (λ now. insert_event now project event payload) d hf in
    (rw (h, add_event) e, i, j)

pub enqueue-Acts :
    (marshal : Marshal) (project : ℕ) (event : String) (content : Content)
    → Acts
        (enqueue marshal project event content)
        λ now db. (ok tt, add_event marshal now project event content db)
unfolding enqueue Acts
enqueue-Acts marshal project event content c hf =
    send_event-Acts marshal project event content _ c refl hf

-- The look-up of the supplied key.
get_prior_go : ℕ → Option String → Query (Option ItemRow)
get_prior_go project none = pure none
get_prior_go project (some k) = get_by_key project k

get_prior-go : (p : CreateItemParams) → get_prior p ≡ get_prior_go p.project_id (given_key p)
unfolding get_prior get_prior_go
get_prior-go p = elim (Option-cases (given_key p)) [
  | inl h ↦ rw (h, get_prior)
  | inr (k, h) ↦ rw (h, get_prior)
]

pub get_by_key-IsFair : (project : ℕ) (k : String) → IsFair (get_by_key project k)
unfolding get_by_key
get_by_key-IsFair project k =
    let q : ℕ → Db → Reply ItemRow × Db = reads λ db. or_no_rows (find_by_key project k db.items) in
    record {
      robust = or_none-IsRobust (statement q) (statement-IsRobust q);
      keeps = or_none-KeepsCommitted (statement q) (statement-KeepsCommitted q);
    }

get_prior_go-IsFair : (project : ℕ) (o : Option String) → IsFair (get_prior_go project o)
unfolding get_prior_go
get_prior_go-IsFair project none = pure-IsFair none
get_prior_go-IsFair project (some k) = get_by_key-IsFair project k

pub get_prior-IsFair : (p : CreateItemParams) → IsFair (get_prior p)
get_prior-IsFair p =
    subst (λ m. IsFair m) (sym (get_prior-go p)) (get_prior_go-IsFair p.project_id (given_key p))

get_prior_go-Acts :
    (project : ℕ) (o : Option String)
    → Acts
        (get_prior_go project o)
        λ _ db. (ok (elim o [ none ↦ none | some k ↦ find_by_key project k db.items ]), db)
unfolding get_prior_go get_by_key
get_prior_go-Acts project none = pure-Acts none
get_prior_go-Acts project (some k) = look-Acts λ db. find_by_key project k db.items

pub get_prior-Acts : (p : CreateItemParams) → Acts (get_prior p) λ _ db. (ok (prior_item p db), db)
unfolding prior_item
get_prior-Acts p =
    subst (λ m. Acts m λ _ db. (ok (prior_item p db), db)) (sym (get_prior-go p))
      (get_prior_go-Acts p.project_id (given_key p))

module _ (marshal : Marshal) (actor : Bytes) where
  create_new-IsFair : (p : CreateItemParams) → IsFair (create_new marshal p actor)
  unfolding create_new
  create_new-IsFair p = bind-IsFair _ _ (statement-IsFair _) λ item.
      bind-IsFair _ _ (statement-IsFair _) λ _.
        bind-IsFair _ _ (enqueue-IsFair marshal item.project_id "item.created" (of_item item))
          λ _. pure-IsFair item

  create_new-Acts :
      (p : CreateItemParams) → Acts (create_new marshal p actor) (spec_insert marshal actor p)
  unfolding create_new spec_insert then_do insert_activity announce_item add_activity remark
  create_new-Acts p = bind-Acts _ _ _ _ (statement-Acts λ now. insert_item now p) λ item.
      same-Acts _ _ (λ now db. (ok item, announce_item marshal now actor item db)) (λ now db. refl)
        (bind-Acts _ _ _ _ (statement-Acts _) λ _.
          bind-Acts _ _ _ _ (enqueue-Acts marshal item.project_id "item.created" (of_item item))
            λ _. pure-Acts item)

  or_new : Option ItemRow → CreateItemParams → Query ItemRow
  or_new (some existing) p = pure existing
  or_new none p = create_new marshal p actor

  or_new-IsFair : (o : Option ItemRow) (p : CreateItemParams) → IsFair (or_new o p)
  unfolding or_new
  or_new-IsFair (some existing) p = pure-IsFair existing
  or_new-IsFair none p = create_new-IsFair p

  or_new-Acts :
      (o : Option ItemRow) (p : CreateItemParams)
      → Acts
          (or_new o p)
          λ now db. elim o [ some it ↦ (ok it, db) | none ↦ spec_insert marshal actor p now db ]
  unfolding or_new
  or_new-Acts (some existing) p = pure-Acts existing
  or_new-Acts none p = create_new-Acts p

  create_item_tx-or_new :
      (p : CreateItemParams) → create_item_tx marshal p actor ≡ (get_prior p >>= λ o. or_new o p)
  unfolding create_item_tx or_new
  create_item_tx-or_new p = ap (◌>>=◌ (get_prior p)) (
      fun_ext λ o.
        elim o
          as (λ o.
            (elim o [ some existing ↦ pure existing | none ↦ create_new marshal p actor ])
            ≡ or_new o p) [ some _ ↦ refl | none ↦ refl ])

  pub create_item_tx-IsFair : (p : CreateItemParams) → IsFair (create_item_tx marshal p actor)
  create_item_tx-IsFair p =
      subst (λ m. IsFair m) (sym (create_item_tx-or_new p))
        (bind-IsFair _ _ (get_prior-IsFair p) λ o. or_new-IsFair o p)

  pub create_item_tx-Acts :
      (p : CreateItemParams) → Acts (create_item_tx marshal p actor) (spec_create marshal actor p)
  unfolding then_do spec_create
  create_item_tx-Acts p =
      subst (λ m. Acts m (spec_create marshal actor p)) (sym (create_item_tx-or_new p))
        (bind-Acts _ _ _ _ (get_prior-Acts p) λ o. or_new-Acts o p)

  pub create_each-IsFair : (ps : List CreateItemParams) → IsFair (create_each marshal ps actor)
  unfolding create_each
  create_each-IsFair [] = pure-IsFair []
  create_each-IsFair (p ∷ ps) =
      bind-IsFair _ _ (create_item_tx-IsFair p)
        λ item. bind-IsFair _ _ (create_each-IsFair ps) λ rest. pure-IsFair (item ∷ rest)

  pub create_each-Acts :
      (ps : List CreateItemParams)
      → Acts (create_each marshal ps actor) (spec_each marshal actor ps)
  unfolding create_each then_do spec_each
  create_each-Acts [] = pure-Acts []
  create_each-Acts (p ∷ ps) =
      bind-Acts _ _ _ _ (create_item_tx-Acts p)
        λ item. bind-Acts _ _ _ _ (create_each-Acts ps) λ rest. pure-Acts (item ∷ rest)
