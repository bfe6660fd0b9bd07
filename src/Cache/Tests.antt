-- ===== src/Cache/Tests.antt =====
-- internal/service/cache.go: a read after a write.
use flightdeck.Base.{ℕ, ◌≡◌, refl, some, List, [], ◌∷◌, nat_eq, string_eq}
use flightdeck.Cache.{get, Change, stores, clears, after}

abbrev some_changes : List (Change ℕ)
some_changes = stores 40 "a" 7 ∷ clears ∷ stores 10 "b" 5 ∷ []

read_back : get 45 "a" (after 15 some_changes) ≡ some 7
unfolding get after flightdeck.Base.Assoc.lookup flightdeck.Base.Assoc.set
read_back = refl
