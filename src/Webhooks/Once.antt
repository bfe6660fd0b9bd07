-- ===== src/Webhooks/Once.antt =====
-- internal/service/webhooks.go: a subscriber that has ACKed an event does not get it again.
use flightdeck.Base.{
  ap, ℕ, ◌+◌, ◌≡◌, refl, sym, ◌∙◌, subst, ◌⊎◌, inl, inr, Bool, true, false, ◌||◌, Option, none,
  some, List, [], ◌∷◌, ◌++◌, map, arith, if◌then◌else◌, nat_beq_iff, nat_eq, string_eq, if_elim,
  Bool-cases, All, All-append, All-map, contains,
}
use mathlib.Core.List.{append_assoc, append-nil}
use flightdeck.Base.Bytes.{Bytes, codes}
use flightdeck.Webhooks.{
  Attempt, Hook, WebhookEvent, Listing, unlisted, listed, Sweep, reschedule_event, mark_delivered,
  park, conclude, sweep, deliver_one, deliver_all, list_active, is_subscribed, deliver_event,
  is_settled, is_due, work, acked, all_acked,
}

-- No number stands twice in the list.
unfoldable pub NoneTwice : List ℕ → Type 0
NoneTwice [] = Unit
NoneTwice (x ∷ xs) = (contains xs x ≡ false) × NoneTwice xs

abbrev hook_ids : List Hook → List ℕ
hook_ids = map (λ h. h.id)

-- No member of the second list is in the first.
unfoldable pub Avoids : List ℕ → List ℕ → Type 0
Avoids xs ys = All (λ y. contains xs y ≡ false) ys

contains-append :
    (xs ys : List ℕ) (n : ℕ) → contains (xs ++ ys) n ≡ (contains xs n || contains ys n)
contains-append [] ys n = refl
contains-append (x ∷ xs) ys n = ground (arith, contains-append xs ys n)

NoneTwice-append :
    (xs ys : List ℕ) → NoneTwice xs → NoneTwice ys → Avoids xs ys → NoneTwice (xs ++ ys)
unfolding NoneTwice Avoids
NoneTwice-append [] ys hx hy a = hy
NoneTwice-append (x ∷ xs) ys hx hy a = (
  ground (arith, contains-append xs ys x, hx.0, missing ys a),
  NoneTwice-append xs ys hx.1 hy (tail ys a),
)
  where
    missing : (ys : List ℕ) → All (λ y. contains (x ∷ xs) y ≡ false) ys → contains ys x ≡ false
    missing [] a = refl
    missing (y ∷ ys) a = ground (arith, missing ys a.1, a.0, nat_beq_iff x y, nat_beq_iff y x)

    tail :
        (ys : List ℕ)
        → All (λ y. contains (x ∷ xs) y ≡ false) ys
        → All (λ y. contains xs y ≡ false) ys
    tail = All-map (λ y h. ground arith)

list_active-none :
    (ev : WebhookEvent) (hs : List Hook) (n : ℕ)
    → contains (hook_ids hs) n ≡ false
    → contains (hook_ids (list_active ev hs)) n ≡ false
unfolding list_active
list_active-none ev [] n h = refl
list_active-none ev (g ∷ hs) n h = ground (arith, list_active-none ev hs n)

list_active-NoneTwice :
    (ev : WebhookEvent) (hs : List Hook)
    → NoneTwice (hook_ids hs)
    → NoneTwice (hook_ids (list_active ev hs))
unfolding NoneTwice list_active
list_active-NoneTwice ev [] h = tt
list_active-NoneTwice ev (g ∷ hs) h =
    if_elim (λ hs'. NoneTwice (hook_ids hs')) (is_subscribed ev g) {x = g ∷ list_active ev hs}
      (λ _. (list_active-none ev hs g.id h.0, list_active-NoneTwice ev hs h.1))
      λ _. list_active-NoneTwice ev hs h.1

-- The hooks of a list that are POSTed to and ACK.
unfoldable acked_now : Attempt → List ℕ → List Hook → List ℕ
acked_now t already [] = []
acked_now t already (h ∷ hs) =
    let rest = acked_now t already hs in
    if contains already h.id then rest else elim (t.post h) [ some _ ↦ rest | none ↦ h.id ∷ rest ]

acked_now-none :
    (t : Attempt) (already : List ℕ) (hs : List Hook) (n : ℕ)
    → contains (hook_ids hs) n ≡ false
    → contains (acked_now t already hs) n ≡ false
unfolding acked_now
acked_now-none t already [] n h = refl
acked_now-none t already (g ∷ hs) n h = ground (arith, acked_now-none t already hs n)

acked_now-fresh :
    (t : Attempt) (already : List ℕ) (hs : List Hook)
    → NoneTwice (hook_ids hs)
    → NoneTwice (acked_now t already hs) × Avoids already (acked_now t already hs)
unfolding acked_now NoneTwice Avoids
acked_now-fresh t already [] h = (tt, tt)
acked_now-fresh t already (g ∷ hs) h =
    let r = acked_now-fresh t already hs h.1 in
    if_elim (λ xs. NoneTwice xs × Avoids already xs) (contains already g.id) (λ _. r)
      λ new. by_post new r (acked_now-none t already hs g.id h.0) (t.post g)
  where
    rest : List ℕ
    rest = acked_now t already hs

    by_post :
        contains already g.id ≡ false
        → NoneTwice rest × Avoids already rest
        → contains rest g.id ≡ false
        → (o : Option Bytes)
        → let xs = elim o as (λ _. List ℕ) [ some _ ↦ rest | none ↦ g.id ∷ rest ] in
          NoneTwice xs × Avoids already xs
    by_post new r n (some _) = r
    by_post new r n none = ((n, r.0), (new, r.1))

-- Of either list that the loop appends to.
added :
    (xs : List ℕ) (h : Hook) (b : Bool) (o : Option Bytes) (rest : List ℕ)
    → (if b then xs else elim o as (λ _. List ℕ) [ some _ ↦ xs | none ↦ xs ++ h.id ∷ [] ]) ++ rest
      ≡ xs ++ (if b then rest else elim o as (λ _. List ℕ) [ some _ ↦ rest | none ↦ h.id ∷ rest ])
added xs h true o rest = refl
added xs h false (some err) rest = refl
added xs h false none rest = append_assoc xs (h.id ∷ []) rest

deliver_one-appends :
    (t : Attempt) (already : List ℕ) (h : Hook) (s : Sweep)
    → ((deliver_one t already h s).delivered ≡ (
        if contains already h.id then s.delivered else elim (t.post h) as (λ _. List ℕ) [
          | some _ ↦ s.delivered
          | none ↦ s.delivered ++ h.id ∷ []
        ]))
      × ((deliver_one t already h s).log ≡ (
          if contains already h.id
          then s.log
          else elim (t.post h) as (λ _. List ℕ) [ some _ ↦ s.log | none ↦ s.log ++ h.id ∷ [] ]))
unfolding deliver_one
deliver_one-appends t already h s = go (contains already h.id) (t.post h)
  where
    go :
        (b : Bool) (o : Option Bytes)
        → let after = if b then s else elim o as (λ _. Sweep) [
          | some err ↦ record s { all_ok = false; last_err = err }
          | none ↦ record s { delivered = s.delivered ++ h.id ∷ []; log = s.log ++ h.id ∷ [] }
        ] in
          (after.delivered ≡ (
            if b then s.delivered else elim o as (λ _. List ℕ) [
              | some _ ↦ s.delivered
              | none ↦ s.delivered ++ h.id ∷ []
            ]))
          × (after.log ≡ (
              if b
              then s.log
              else elim o as (λ _. List ℕ) [ some _ ↦ s.log | none ↦ s.log ++ h.id ∷ [] ]))
    go true o = (refl, refl)
    go false (some err) = (refl, refl)
    go false none = (refl, refl)

deliver_all-appends :
    (t : Attempt) (already : List ℕ) (hs : List Hook) (s : Sweep)
    → ((deliver_all t already hs s).delivered ≡ s.delivered ++ acked_now t already hs)
      × ((deliver_all t already hs s).log ≡ s.log ++ acked_now t already hs)
unfolding deliver_all acked_now
deliver_all-appends t already [] s = (sym (append-nil s.delivered), sym (append-nil s.log))
deliver_all-appends t already (h ∷ hs) s =
    let r = deliver_all-appends t already hs (deliver_one t already h s) in
    let e = deliver_one-appends t already h s in
    (
      r.0
          ∙ ap (λ xs. xs ++ acked_now t already hs) e.0
          ∙ added s.delivered h (contains already h.id) (t.post h) (acked_now t already hs),
      r.1
          ∙ ap (λ xs. xs ++ acked_now t already hs) e.1
          ∙ added s.log h (contains already h.id) (t.post h) (acked_now t already hs),
    )

sweep-appends :
    (t : Attempt) (ev : WebhookEvent) (hooks : List Hook)
    → ((sweep t ev hooks).delivered ≡ ev.delivered_hook_ids ++ (sweep t ev hooks).log)
      × ((sweep t ev hooks).log ≡ acked_now t ev.delivered_hook_ids (list_active ev hooks))
unfolding sweep
sweep-appends t ev hooks =
    let r =
      deliver_all-appends t ev.delivered_hook_ids (list_active ev hooks)
        (record { delivered = ev.delivered_hook_ids; all_ok = true; last_err = []; log = [] }) in
    (r.0 ∙ ap (λ xs. ev.delivered_hook_ids ++ xs) (sym r.1), r.1)

conclude-delivered :
    (t : Attempt) (ev : WebhookEvent) (s : Sweep)
    → t.written ≡ true
    → (is_settled (conclude t ev s) ≡ true) ⊎ ((conclude t ev s).delivered_hook_ids ≡ s.delivered)
unfolding conclude mark_delivered park reschedule_event is_settled
conclude-delivered t ev s w = ground arith

deliver-acked :
    (t : Attempt) (ev : WebhookEvent)
    → t.written ≡ true
    → let got = elim t.hooks as (λ _. List ℕ) [
      | unlisted _ ↦ []
      | listed hooks ↦ (sweep t ev hooks).log
    ] in
      (is_settled (deliver_event t ev) ≡ true)
      ⊎ ((deliver_event t ev).delivered_hook_ids ≡ ev.delivered_hook_ids ++ got)
unfolding deliver_event reschedule_event
deliver-acked t ev w = go t.hooks
  where
    go :
        (l : Listing)
        → let after = elim l as (λ _. WebhookEvent) [
          | unlisted err ↦ reschedule_event t ev (codes "lookup: " ++ err) ev.delivered_hook_ids
          | listed hooks ↦ conclude t ev (sweep t ev hooks)
        ] in
          (is_settled after ≡ true)
          ⊎ (after.delivered_hook_ids
              ≡ ev.delivered_hook_ids ++ elim l as (λ _. List ℕ) [
                | unlisted _ ↦ []
                | listed hooks ↦ (sweep t ev hooks).log
              ])
    go (unlisted err) = inr (rw w (sym (append-nil ev.delivered_hook_ids)))
    go (listed hooks) = elim (conclude-delivered t ev (sweep t ev hooks) w) [
      | inl h ↦ inl h
      | inr e ↦ inr (e ∙ (sweep-appends t ev hooks).0)
    ]

work-acked :
    (t : Attempt) (ev : WebhookEvent)
    → t.written ≡ true
    → (is_settled (work t ev) ≡ true)
      ⊎ ((work t ev).delivered_hook_ids ≡ ev.delivered_hook_ids ++ acked t ev)
unfolding work acked
work-acked t ev w = elim (Bool-cases (is_due t.now ev)) [
  | inl d ↦ rw d (deliver-acked t (record ev { next_attempt_at = t.now + 60 }) w)
  | inr d ↦ inr (rw d (sym (append-nil ev.delivered_hook_ids)))
]

all_acked-settled :
    (ts : List Attempt) (ev : WebhookEvent) → is_settled ev ≡ true → all_acked ts ev ≡ []
unfolding all_acked acked work is_due
all_acked-settled [] ev h = refl
all_acked-settled (t ∷ ts) ev h = rw h (all_acked-settled ts ev h)

-- The hooks have different ids, and the outcome is written.
unfoldable pub IsOrderly : Attempt → Type 0
IsOrderly t =
    (t.written ≡ true) × ((hooks : List Hook) → t.hooks ≡ listed hooks → NoneTwice (hook_ids hooks))

acked-fresh :
    (t : Attempt) (ev : WebhookEvent)
    → IsOrderly t
    → NoneTwice (acked t ev) × Avoids ev.delivered_hook_ids (acked t ev)
unfolding acked IsOrderly Avoids NoneTwice
acked-fresh t ev o =
    if_elim (λ xs. NoneTwice xs × Avoids ev.delivered_hook_ids xs) (is_due t.now ev)
      (λ _. go t.hooks o.1) λ _. (tt, tt)
  where
    go :
        (l : Listing)
        → ((hooks : List Hook) → l ≡ listed hooks → NoneTwice (hook_ids hooks))
        → let xs = elim l as (λ _. List ℕ) [
          | unlisted _ ↦ []
          | listed hooks ↦ (sweep t ev hooks).log
        ] in
          NoneTwice xs × Avoids ev.delivered_hook_ids xs
    go (unlisted _) h = (tt, tt)
    go (listed hooks) h =
        subst (λ xs. NoneTwice xs × Avoids ev.delivered_hook_ids xs)
          (sym (sweep-appends t ev hooks).1)
          (acked_now-fresh t ev.delivered_hook_ids (list_active ev hooks)
            (list_active-NoneTwice ev hooks (h hooks refl)))

Avoids-append : (xs ys zs : List ℕ) → Avoids (xs ++ ys) zs → Avoids xs zs × Avoids ys zs
unfolding Avoids
Avoids-append xs ys zs h = (
  All-map (λ z e. ground (arith, contains-append xs ys z)) zs h,
  All-map (λ z e. ground (arith, contains-append xs ys z)) zs h,
)

-- Over all the attempts of an event, whatever the subscribers answer and the hooks become, no
-- subscriber ACKs it twice, nor does one that had ACKed it before, as long as each outcome is
-- written and the hooks of a lookup have different ids.
pub acked_once :
    (ts : List Attempt) (ev : WebhookEvent)
    → All IsOrderly ts
    → NoneTwice (all_acked ts ev) × Avoids ev.delivered_hook_ids (all_acked ts ev)
unfolding all_acked Avoids NoneTwice IsOrderly
acked_once [] ev o = (tt, tt)
acked_once (t ∷ ts) ev o =
    join (acked t ev) (all_acked ts (work t ev)) (acked-fresh t ev o.0)
      (acked_once ts (work t ev) o.1).0
      (elim (work-acked t ev o.0.0) [
        | inl h ↦
            subst (Avoids (ev.delivered_hook_ids ++ acked t ev))
              (sym (all_acked-settled ts (work t ev) h)) tt
        | inr e ↦
            subst (λ xs. Avoids xs (all_acked ts (work t ev))) e (acked_once ts (work t ev) o.1).1
      ])
  where
    join :
        (xs ys : List ℕ)
        → NoneTwice xs × Avoids ev.delivered_hook_ids xs
        → NoneTwice ys
        → Avoids (ev.delivered_hook_ids ++ xs) ys
        → NoneTwice (xs ++ ys) × Avoids ev.delivered_hook_ids (xs ++ ys)
    join xs ys hx hy a =
        let apart = Avoids-append ev.delivered_hook_ids xs ys a in
        (
          NoneTwice-append xs ys hx.0 hy apart.1,
          All-append (λ y. contains ev.delivered_hook_ids y ≡ false) xs ys hx.1 apart.0,
        )
