-- ===== src/Cache/Reads.antt =====
-- internal/service/cache.go: what a read finds.
use flightdeck.Base.{
  ℕ, ◌+◌, String, ◌≡◌, refl, inl, inr, Option, none, some, List, [], ◌∷◌, ltb, if◌then◌else◌, ◌==◌,
  nat_eq, string_eq, Bool-cases,
}
use flightdeck.Base.Assoc.{lookup, lookup-set}
use flightdeck.Cache.{CacheEntry, get, Change, stores, clears, after}

-- The last value that was set for a key since the last clear, and when.
pub last_set : {A : Type 0} → String → List (Change A) → Option (A × ℕ)
last_set key [] = none
last_set key (stores now k val ∷ earlier) =
    if k == key then some (val, now) else last_set key earlier
last_set key (clears ∷ earlier) = none

-- A value that was set at a time is good for the cache's span of time.
pub fresh : {A : Type 0} → ℕ → ℕ → Option (A × ℕ) → Option A
fresh ttl now none = none
fresh ttl now (some (val, at)) = if ltb (at + ttl) now then none else some val

entry_of : {A : Type 0} → ℕ → Option (A × ℕ) → Option (CacheEntry A)
entry_of ttl none = none
entry_of ttl (some (val, at)) = some (record { val = val; exp = at + ttl })

after-ttl : {A : Type 0} (ttl : ℕ) (changes : List (Change A)) → (after ttl changes).ttl ≡ ttl
unfolding after
after-ttl ttl [] = refl
after-ttl ttl (stores now k val ∷ earlier) = after-ttl ttl earlier
after-ttl ttl (clears ∷ earlier) = after-ttl ttl earlier

after-lookup :
    {A : Type 0} (ttl : ℕ) (key : String) (changes : List (Change A))
    → lookup key (after ttl changes).entries ≡ entry_of ttl (last_set key changes)
unfolding after lookup last_set entry_of
after-lookup ttl key [] = refl
after-lookup ttl key (stores now k val ∷ earlier) = elim (Bool-cases (k == key)) [
  | inl e ↦ rw (
    lookup-set k key (record { val = val; exp = now + (after ttl earlier).ttl })
        (after ttl earlier).entries,
    e,
    after-ttl ttl earlier,
  )
  | inr e ↦
      rw
        (
          lookup-set k key (record { val = val; exp = now + (after ttl earlier).ttl })
              (after ttl earlier).entries,
          e,
        )
        (after-lookup ttl key earlier)
]
after-lookup ttl key (clears ∷ earlier) = refl

-- Whatever was done to the cache, a read finds the last value set for the key since the last clear, and
-- only until its time to live is over.
get-after :
    {A : Type 0} (ttl now : ℕ) (key : String) (changes : List (Change A))
    → get now key (after ttl changes) ≡ fresh ttl now (last_set key changes)
unfolding get fresh entry_of
get-after {A} ttl now key changes =
    rw (get, after-lookup ttl key changes) (go (last_set key changes))
  where
    go :
        (o : Option (A × ℕ))
        → elim (entry_of ttl o) as (λ _. Option A) [
          | none ↦ none
          | some e ↦ if ltb e.exp now then none else some e.val
        ]
          ≡ fresh ttl now o
    go none = refl
    go (some (val, at)) = refl
