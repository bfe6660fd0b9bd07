-- ===== src/Hub/Delivery.antt =====
-- internal/service/hub.go: who gets a broadcast, and how much a slow client holds.
use flightdeck.Base.{
  ==_iff, ap, true, if◌then◌else◌, ◌++◌, ◌+◌, ◌∙◌, sym, false, All, false, ℕ, ◌≤◌, ◌≡◌, refl, inl,
  inr, Option, none, some, List, [], ◌∷◌, arith, ◌==◌, nat_eq, string_eq, Bool-cases, Option-cases,
  length, length-append,
}
use mathlib.Core.List.{append-nil, append_assoc}
use flightdeck.Base.Bytes.{Bytes}
use flightdeck.Base.Assoc.{Assoc, lookup, lookup-set, lookup-remove}
use flightdeck.Hub.{
  Hub, buffer_size, subscribe, unsubscribe, offer, offer_all, broadcast, take_event, rest_of,
  Action, joins, leaves, sends, takes, act, acts,
}

-- What a channel holds after a broadcast, by what it held before.
abbrev offered : Bytes → Option (List Bytes) → Option (List Bytes)
offered payload none = none
offered payload (some events) = some (offer payload events)

offer_all-lookup :
    (payload : Bytes) (subs : Assoc ℕ (List Bytes)) (ch : ℕ)
    → lookup ch (offer_all payload subs) ≡ offered payload (lookup ch subs)
unfolding offer_all lookup
offer_all-lookup payload [] ch = refl
offer_all-lookup payload ((c, events) ∷ subs) ch = elim (Bool-cases (c == ch)) [
  | inl e ↦ rw e refl
  | inr e ↦ rw e (offer_all-lookup payload subs ch)
]

broadcast-offered :
    (payload : Bytes) (h : Hub) (ch : ℕ)
    → lookup ch (broadcast payload h).subs ≡ offered payload (lookup ch h.subs)
unfolding broadcast
broadcast-offered payload h ch = offer_all-lookup payload h.subs ch

-- No channel holds more events than its buffer has room for.
unfoldable pub IsBounded : Hub → Type 0
IsBounded h =
    (ch : ℕ) (events : List Bytes) → lookup ch h.subs ≡ some events → length events ≤ buffer_size

length-offer-le :
    (p : Bytes) (events : List Bytes)
    → length events ≤ buffer_size
    → length (offer p events) ≤ buffer_size
unfolding offer
length-offer-le p events h = ground (arith, length-append events (p ∷ []))

length-rest_of-le : (events : List Bytes) → length (rest_of events) ≤ length events
length-rest_of-le [] = omega arith
length-rest_of-le (e ∷ events) = omega arith

broadcast-IsBounded : (p : Bytes) (h : Hub) → IsBounded h → IsBounded (broadcast p h)
unfolding IsBounded
broadcast-IsBounded p h v ch events e = elim (Option-cases (lookup ch h.subs)) [
  | inl none_there ↦ ground (arith, broadcast-offered p h ch, none_there, e)
  | inr (old, there) ↦
      ground (arith, broadcast-offered p h ch, there, e, length-offer-le p old (v ch old there))
]

take_event-IsBounded : (c : ℕ) (h : Hub) → IsBounded h → IsBounded (take_event c h)
unfolding IsBounded take_event
take_event-IsBounded c h v = elim (Option-cases (lookup c h.subs)) [
  | inl none_there ↦ rw (none_there, take_event) v
  | inr (old, there) ↦
      rw (there, take_event)
        λ ch events e. ground (
          arith,
          lookup-set c ch (rest_of old) h.subs,
          v ch events,
          e,
          length-rest_of-le old,
          v c old there,
        )
]

act-IsBounded : (a : Action) (h : Hub) → IsBounded h → IsBounded (act a h)
unfolding act IsBounded subscribe unsubscribe
act-IsBounded (joins c) h v =
    λ ch events e. ground (arith, lookup-set c ch [] h.subs, v ch events, e)
act-IsBounded (leaves c) h v =
    λ ch events e. ground (arith, lookup-remove c ch h.subs, v ch events, e)
act-IsBounded (sends p) h v = broadcast-IsBounded p h v
act-IsBounded (takes c) h v = take_event-IsBounded c h v

-- Over any sequence of calls, however slow the clients are, no channel holds more than 64 events.
acts-IsBounded : (actions : List Action) (h : Hub) → IsBounded h → IsBounded (acts actions h)
unfolding acts
acts-IsBounded [] h v = v
acts-IsBounded (a ∷ actions) h v = acts-IsBounded actions (act a h) (act-IsBounded a h v)

-- The events that are broadcast in a sequence of calls.
abbrev pub broadcasts : List Action → List Bytes
broadcasts [] = []
broadcasts (sends p ∷ actions) = p ∷ broadcasts actions
broadcasts (joins c ∷ actions) = broadcasts actions
broadcasts (leaves c ∷ actions) = broadcasts actions
broadcasts (takes c ∷ actions) = broadcasts actions

-- What the client of a channel gets from one call, and from a sequence.
abbrev pub first_of : Option (List Bytes) → List Bytes
first_of none = []
first_of (some []) = []
first_of (some (e ∷ events)) = e ∷ []

abbrev pub got_by : ℕ → Action → Hub → List Bytes
got_by ch (takes c) h = if c == ch then first_of (lookup ch h.subs) else []
got_by ch _ h = []

abbrev pub got_over : ℕ → List Action → Hub → List Bytes
got_over ch [] h = []
got_over ch (a ∷ actions) h = got_by ch a h ++ got_over ch actions (act a h)

-- The call neither subscribes the channel anew nor unsubscribes it.
abbrev pub Stays : ℕ → Action → Type 0
Stays ch (joins c) = (c == ch) ≡ false
Stays ch (leaves c) = (c == ch) ≡ false
Stays ch _ = Unit

-- One call: what the client gets and then has buffered is what it had, with what was broadcast.
act-in_order :
    (ch : ℕ) (a : Action) (h : Hub) (events : List Bytes)
    → lookup ch h.subs ≡ some events
    → Stays ch a
    → length events + length (broadcasts (a ∷ [])) ≤ 64
    → (left : List Bytes) × (lookup ch (act a h).subs ≡ some left)
      × (got_by ch a h ++ left ≡ events ++ broadcasts (a ∷ []))
unfolding act subscribe unsubscribe
act-in_order ch (joins c) h events e stays room =
    (events, ground (arith, lookup-set c ch [] h.subs), sym (append-nil events))
act-in_order ch (leaves c) h events e stays room =
    (events, ground (arith, lookup-remove c ch h.subs), sym (append-nil events))
act-in_order ch (sends p) h events e stays room =
    (events ++ p ∷ [], broadcast-offered p h ch ∙ rw e (unfold offer in ground arith), refl)
act-in_order ch (takes c) h events e stays room = elim (Bool-cases (c == ch)) [
  | inl same ↦ taken events e same
  | inr other ↦ (events, others_stay other, rw other (sym (append-nil events)))
]
  where
    others_stay : (c == ch) ≡ false → lookup ch (take_event c h).subs ≡ some events
    others_stay other = elim (Option-cases (lookup c h.subs)) [
      | inl none_there ↦ rw (none_there, take_event) e
      | inr (old, there) ↦
          rw (there, take_event) (lookup-set c ch (rest_of old) h.subs ∙ rw other e)
    ]

    at : (c == ch) ≡ true → lookup c h.subs ≡ lookup ch h.subs
    at same = ap (λ k. lookup k h.subs) ((==_iff c ch).0 same)

    taken :
        (old : List Bytes)
        → lookup ch h.subs ≡ some old
        → (c == ch) ≡ true
        → (left : List Bytes) × (lookup ch (take_event c h).subs ≡ some left)
          × (got_by ch (takes c) h ++ left ≡ old ++ [])
    taken [] here same = (
      [],
      rw (at same ∙ here, take_event) (lookup-set c ch [] h.subs ∙ rw same refl),
      rw (same, here) refl,
    )
    taken (x ∷ old) here same = (
      old,
      rw (at same ∙ here, take_event) (lookup-set c ch old h.subs ∙ rw same refl),
      rw (same, here) (ap (λ l. x ∷ l) (sym (append-nil old))),
    )

broadcasts-cons :
    (a : Action) (actions : List Action)
    → broadcasts (a ∷ actions) ≡ broadcasts (a ∷ []) ++ broadcasts actions
broadcasts-cons (sends p) actions = refl
broadcasts-cons (joins c) actions = refl
broadcasts-cons (leaves c) actions = refl
broadcasts-cons (takes c) actions = refl

-- Over a sequence of calls in which a subscribed channel is neither subscribed anew nor
-- unsubscribed, and in which no more events are broadcast than its buffer of 64 has room for at the
-- start, whatever the other clients do and however the calls interleave: the channel stays
-- subscribed, and what its client has received, followed by what is left in its buffer, is what the
-- buffer held at first and then each event that was broadcast, once and in order.
pub got_over-acts :
    (ch : ℕ) (actions : List Action) (h : Hub) (events : List Bytes)
    → lookup ch h.subs ≡ some events
    → All (Stays ch) actions
    → length events + length (broadcasts actions) ≤ 64
    → (left : List Bytes) × (lookup ch (acts actions h).subs ≡ some left)
      × (got_over ch actions h ++ left ≡ events ++ broadcasts actions)
unfolding acts
got_over-acts ch [] h events e stays room = (events, e, sym (append-nil events))
got_over-acts ch (a ∷ actions) h events e stays room =
    let (middle, here, one) = act-in_order ch a h events e stays.0 (omega (arith, counted)) in
    let (left, there, rest) = got_over-acts ch actions (act a h) middle here stays.1 (
      omega (
        arith,
        counted,
        ap length one,
        length-append (got_by ch a h) middle,
        length-append events (broadcasts (a ∷ [])),
      )) in
    (
      left,
      there,
      append_assoc (got_by ch a h) (got_over ch actions (act a h)) left
          ∙ ap (λ l. got_by ch a h ++ l) rest
          ∙ sym (append_assoc (got_by ch a h) middle (broadcasts actions))
          ∙ ap (λ l. l ++ broadcasts actions) one
          ∙ append_assoc events (broadcasts (a ∷ [])) (broadcasts actions)
          ∙ ap (λ l. events ++ l) (sym (broadcasts-cons a actions)),
    )
  where
    counted :
        length (broadcasts (a ∷ actions))
        ≡ length (broadcasts (a ∷ [])) + length (broadcasts actions)
    counted =
        ap length (broadcasts-cons a actions)
        ∙ length-append (broadcasts (a ∷ [])) (broadcasts actions)
