-- ===== src/Hub.antt =====
-- internal/service/hub.go: the live updates. A channel is the list of the events in its buffer; the
-- hub's mutex makes each call one step, and the clients' receiving is a step too. A channel that
-- is no longer subscribed is closed: nothing is sent on it.
pub mod Delivery
mod Tests
use flightdeck.Base.{
  ℕ, ◌+◌, none, some, List, [], ◌∷◌, ◌++◌, ltb, if◌then◌else◌, nat_eq, string_eq, length,
}
use flightdeck.Base.Bytes.{Bytes}
use flightdeck.Base.Assoc.{Assoc, lookup, set, remove}

abbrev pub buffer_size : ℕ
buffer_size = 64

-- Channels by the number that `make` gives them.
pub record Hub : Type 0 where
  pub subs : Assoc ℕ (List Bytes)

abbrev pub new_hub : Hub
new_hub = record { subs = [] }

unfoldable pub subscribe : ℕ → Hub → Hub
subscribe ch h = record { subs = set ch [] h.subs }

unfoldable pub unsubscribe : ℕ → Hub → Hub
unsubscribe ch h = record { subs = remove ch h.subs }

-- The non-blocking send.
unfoldable pub offer : Bytes → List Bytes → List Bytes
offer payload events = if ltb (length events) buffer_size then events ++ payload ∷ [] else events

unfoldable pub offer_all : Bytes → Assoc ℕ (List Bytes) → Assoc ℕ (List Bytes)
unfolding offer
offer_all payload [] = []
offer_all payload ((ch, events) ∷ subs) = (ch, offer payload events) ∷ offer_all payload subs

unfoldable pub broadcast : Bytes → Hub → Hub
unfolding offer_all
broadcast payload h = record { subs = offer_all payload h.subs }

unfoldable pub subscribers : Hub → ℕ
subscribers h = length h.subs

abbrev pub rest_of : List Bytes → List Bytes
rest_of [] = []
rest_of (e ∷ events) = events

-- A client takes the next event from its channel.
unfoldable pub take_event : ℕ → Hub → Hub
take_event ch h = elim (lookup ch h.subs) [
  | none ↦ h
  | some events ↦ record { subs = set ch (rest_of events) h.subs }
]

pub data Action : Type 0 where
  joins : ℕ → Action
  leaves : ℕ → Action
  sends : Bytes → Action
  takes : ℕ → Action

unfoldable pub act : Action → Hub → Hub
unfolding subscribe unsubscribe broadcast take_event
act (joins ch) h = subscribe ch h
act (leaves ch) h = unsubscribe ch h
act (sends payload) h = broadcast payload h
act (takes ch) h = take_event ch h

unfoldable pub acts : List Action → Hub → Hub
unfolding act
acts [] h = h
acts (a ∷ rest) h = acts rest (act a h)
