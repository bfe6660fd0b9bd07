-- ===== src/Hub/Tests.antt =====
-- internal/service/hub.go: a hub with two clients.
use flightdeck.Base.{◌++◌, refl, some, List, ◌≡◌, [], ◌∷◌, arith, nat_eq, string_eq}
use flightdeck.Base.Bytes.{Bytes, codes}
use flightdeck.Base.Assoc.{lookup, set}
use flightdeck.Hub.{
  take_event, subscribe, offer_all, broadcast, act, Hub, new_hub, Action, joins, sends, takes, acts,
}
use flightdeck.Hub.Delivery.{IsBounded, broadcasts, got_over, got_over-acts}

abbrev two_clients : Hub
two_clients = record { subs = (1, []) ∷ (2, codes "a" ∷ []) ∷ [] }

abbrev some_calls : List Action
some_calls = sends (codes "b") ∷ takes 2 ∷ joins 3 ∷ sends (codes "c") ∷ takes 2 ∷ []

got_over-acts_example :
    (left : List Bytes) × (lookup 2 (acts some_calls two_clients).subs ≡ some left)
    × (got_over 2 some_calls two_clients ++ left ≡ (codes "a" ∷ []) ++ broadcasts some_calls)
unfolding lookup
got_over-acts_example =
    got_over-acts 2 some_calls two_clients (codes "a" ∷ []) refl (tt, (tt, (refl, (tt, (tt, tt)))))
      (omega arith)

received : got_over 2 some_calls two_clients ≡ codes "a" ∷ codes "b" ∷ []
unfolding act acts broadcast offer_all lookup set subscribe take_event
received = refl

new_hub-IsBounded : IsBounded new_hub
unfolding IsBounded lookup
new_hub-IsBounded ch events e = ground arith
