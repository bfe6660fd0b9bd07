-- ===== src/Base/Assoc.antt =====
-- Maps as association lists: files of a directory, rows of a table, entries of a Go map.
use mathlib.Core.Option.{Option, none, some}
use flightdeck.Base.Tests.{Eq, ◌==◌, ==_iff, ==_refl, if◌then◌else◌}
use flightdeck.Base.Lists.{length}
use Prim.Native.Nat.{◌+◌, ◌≤◌}
use mathlib.Core.Path.{◌≡◌, refl}
use mathlib.Core.Logic.{◌≢◌}
use mathlib.Core.List.{List, [], ◌∷◌}
use native.Mathlib.Omega.{arith}

abbrev pub Assoc {ℓ κ} : Type ℓ → Type κ → Type (ℓ ⊔ κ)
Assoc K V = List (K × V)

module _ {ℓ κ} {K : Type ℓ} {V : Type κ} where
  abbrev pub keys : Assoc K V → List K
  keys [] = []
  keys ((j, v) ∷ m) = j ∷ keys m

module _ {ℓ κ} {K : Type ℓ} {V : Type κ} ⦃e : Eq K⦄ where
  unfoldable pub lookup : K → Assoc K V → Option V
  lookup key [] = none
  lookup key ((k, entry) ∷ rest) = if k == key then some entry else lookup key rest

  -- Replaces the value of a key, or adds the key at the end.
  unfoldable pub set : K → V → Assoc K V → Assoc K V
  set k v [] = (k, v) ∷ []
  set k v ((j, w) ∷ m) = if j == k then (k, v) ∷ m else (j, w) ∷ set k v m

  unfoldable pub remove : K → Assoc K V → Assoc K V
  remove k [] = []
  remove k ((j, v) ∷ m) = let rest = remove k m in if j == k then rest else (j, v) ∷ rest

  pub lookup-set :
      (k j : K) (v : V) (m : Assoc K V)
      → lookup j (set k v m) ≡ (if k == j then some v else lookup j m)
  unfolding lookup set
  lookup-set k j v [] = refl
  lookup-set k j v ((i, w) ∷ m) =
      ground (arith, ==_iff k j, ==_iff i k, ==_iff i j, lookup-set k j v m)

  pub lookup-remove :
      (k j : K) (m : Assoc K V) → lookup j (remove k m) ≡ (if k == j then none else lookup j m)
  unfolding lookup remove
  lookup-remove k j [] = ground arith
  lookup-remove k j ((i, w) ∷ m) =
      ground (arith, ==_iff k j, ==_iff i k, ==_iff i j, lookup-remove k j m)

  pub lookup-set_self : (k : K) (v : V) (m : Assoc K V) → lookup k (set k v m) ≡ some v
  lookup-set_self k v m = ground (arith, lookup-set k k v m, ==_refl k)

  pub lookup-set_ne : (k j : K) (v : V) (m : Assoc K V) → k ≢ j → lookup j (set k v m) ≡ lookup j m
  lookup-set_ne k j v m h = ground (arith, lookup-set k j v m, ==_iff k j)

  pub length-set-le : (k : K) (v : V) (m : Assoc K V) → length (set k v m) ≤ length m + 1
  unfolding set
  length-set-le k v [] = omega arith
  length-set-le k v ((j, w) ∷ m) = ground (arith, length-set-le k v m)

  pub length-remove-le : (k : K) (m : Assoc K V) → length (remove k m) ≤ length m
  unfolding remove
  length-remove-le k [] = omega arith
  length-remove-le k ((j, w) ∷ m) = ground (arith, length-remove-le k m)

  pub length-set_present :
      (k : K) (v w : V) (m : Assoc K V) → lookup k m ≡ some w → length (set k v m) ≡ length m
  unfolding lookup set
  length-set_present k v w [] h = cc
  length-set_present k v w ((j, u) ∷ m) h = ground (arith, length-set_present k v w m)

pub lookup-nil {ℓ κ} :
    {K : Type ℓ} {V : Type κ} ⦃e : Eq K⦄ (k : K) → ◌≡◌ {A = Option V} (lookup k []) none
unfolding lookup
lookup-nil k = refl
