-- ===== src/Cache.antt =====
-- internal/service/cache.go: the cache of the orient reads, and the limits of a verbosity. The clock is
-- an argument, and a mutex makes each call one step.
pub mod Reads
mod Tests
use flightdeck.Base.{
  ℕ, ◌+◌, String, Option, none, some, List, [], ◌∷◌, ltb, if◌then◌else◌, nat_eq, string_eq,
}
use flightdeck.Base.Assoc.{Assoc, lookup, set}

pub record CacheEntry (A : Type 0) : Type 0 where
  pub val : A
  pub exp : ℕ

pub record TtlCache (A : Type 0) : Type 0 where
  pub entries : Assoc String (CacheEntry A)
  pub ttl : ℕ

unfoldable pub new_ttl_cache : {A : Type 0} → ℕ → TtlCache A
new_ttl_cache ttl = record { entries = []; ttl = ttl }

unfoldable pub get : {A : Type 0} → ℕ → String → TtlCache A → Option A
get now key c = elim (lookup key c.entries) [
  | none ↦ none
  | some e ↦ if ltb e.exp now then none else some e.val
]

unfoldable pub store : {A : Type 0} → ℕ → String → A → TtlCache A → TtlCache A
store now key val c = record c {
  entries = set key (record { val = val; exp = now + c.ttl }) c.entries;
}

unfoldable pub clear : {A : Type 0} → TtlCache A → TtlCache A
clear c = record c { entries = [] }

-- What is done to a cache: a set, with its time, or a clear.
pub data Change (A : Type 0) : Type 0 where
  stores : ℕ → String → A → Change A
  clears : Change A

-- After the changes, the latest of which comes first.
unfoldable pub after : {A : Type 0} → ℕ → List (Change A) → TtlCache A
unfolding store clear new_ttl_cache
after ttl [] = new_ttl_cache ttl
after ttl (stores now key val ∷ earlier) = store now key val (after ttl earlier)
after ttl (clears ∷ earlier) = clear (after ttl earlier)

pub data Verbosity : Type 0 where
  compact full : Verbosity

unfoldable pub body_limits : Verbosity → ℕ × ℕ
body_limits full = (0, 0)
body_limits compact = (280, 600)
