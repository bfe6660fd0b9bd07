-- ===== src/Base/Bytes.antt =====
-- Texts whose bytes the program walks, joins or orders, as lists of numbers.
use Prim.Native.Char.{code}
use Prim.Native.String.{String}
use Prim.Native.Nat.{ℕ, ◌≤◌, ◌<◌}
use mathlib.Core.Path.{◌≡◌, refl}
use mathlib.Core.Logic.{◌↔◌, ◌⊎◌}
use mathlib.Core.Bool.{Bool, true, false, ◌&&◌, ◌||◌}
use mathlib.Core.List.{List, [], ◌∷◌}
use native.Mathlib.Omega.{arith}
use flightdeck.Base.Tests.{Eq, nat_beq, ltb}
use flightdeck.Base.Lists.{length}

abbrev pub Bytes : Type 0
Bytes = List ℕ

abbrev pub IsByte : ℕ → Type 0
IsByte c = c < 256

abbrev pub codes : String → Bytes
codes String.[] = []
codes (String.◌∷◌ c s) = code c ∷ codes s

abbrev pub bytes_beq : Bytes → Bytes → Bool
bytes_beq [] [] = true
bytes_beq (a ∷ s) (b ∷ t) = nat_beq a b && bytes_beq s t
bytes_beq _ _ = false

pub bytes_beq_iff : (s t : Bytes) → (bytes_beq s t ≡ true) ↔ (s ≡ t)
bytes_beq_iff [] [] = ground arith
bytes_beq_iff [] (b ∷ t) = ground arith
bytes_beq_iff (a ∷ s) [] = ground arith
bytes_beq_iff (a ∷ s) (b ∷ t) = ground (arith, bytes_beq_iff s t)

instance abbrev pub bytes_eq : Eq Bytes
bytes_eq = record { same = bytes_beq; same_iff = bytes_beq_iff }

-- Go's `<` on strings: the order of the bytes, a prefix first.
unfoldable pub bytes_ltb : Bytes → Bytes → Bool
bytes_ltb _ [] = false
bytes_ltb [] (b ∷ t) = true
bytes_ltb (a ∷ s) (b ∷ t) = ltb a b || (nat_beq a b && bytes_ltb s t)

-- strings.HasPrefix and strings.Contains.
unfoldable pub has_prefix : Bytes → Bytes → Bool
has_prefix s [] = true
has_prefix [] (b ∷ t) = false
has_prefix (a ∷ s) (b ∷ t) = nat_beq a b && has_prefix s t

unfoldable pub contains_text : Bytes → Bytes → Bool
unfolding has_prefix
contains_text [] t = has_prefix [] t
contains_text (a ∷ s) t = has_prefix (a ∷ s) t || contains_text s t

-- Exactly one of two different texts is the smaller.
pub bytes_ltb-total : (s t : Bytes) → (bytes_ltb s t ≡ true) ⊎ ((bytes_ltb t s ≡ true) ⊎ (s ≡ t))
unfolding bytes_ltb
bytes_ltb-total [] [] = ground arith
bytes_ltb-total [] (b ∷ t) = ground arith
bytes_ltb-total (a ∷ s) [] = ground arith
bytes_ltb-total (a ∷ s) (b ∷ t) = ground (arith, bytes_ltb-total s t)

pub bytes_ltb_asymm : (s t : Bytes) → bytes_ltb s t ≡ true → bytes_ltb t s ≡ false
unfolding bytes_ltb
bytes_ltb_asymm [] [] h = refl
bytes_ltb_asymm [] (b ∷ t) h = refl
bytes_ltb_asymm (a ∷ s) [] h = ground arith
bytes_ltb_asymm (a ∷ s) (b ∷ t) h = ground (arith, bytes_ltb_asymm s t)

pub has_prefix-length : (s t : Bytes) → has_prefix s t ≡ true → length t ≤ length s
unfolding has_prefix
has_prefix-length [] [] h = omega arith
has_prefix-length (a ∷ s) [] h = omega arith
has_prefix-length [] (b ∷ t) h = ground arith
has_prefix-length (a ∷ s) (b ∷ t) h = ground (arith, has_prefix-length s t)

has_prefix_full : (s t : Bytes) → has_prefix s t ≡ true → length s ≤ length t → s ≡ t
unfolding has_prefix
has_prefix_full [] [] h l = refl
has_prefix_full (a ∷ s) [] h l = absurd (omega arith)
has_prefix_full [] (b ∷ t) h l = ground arith
has_prefix_full (a ∷ s) (b ∷ t) h l = ground (arith, has_prefix_full s t)

pub contains_text-length : (s t : Bytes) → contains_text s t ≡ true → length t ≤ length s
unfolding contains_text
contains_text-length [] t h = has_prefix-length [] t h
contains_text-length (a ∷ s) t h =
    ground (arith, has_prefix-length (a ∷ s) t, contains_text-length s t)

contains_text_full : (s t : Bytes) → contains_text s t ≡ true → length s ≤ length t → s ≡ t
unfolding contains_text
contains_text_full [] t h l = has_prefix_full [] t h l
contains_text_full (a ∷ s) t h l =
    ground (arith, has_prefix_full (a ∷ s) t, contains_text-length s t)

-- Two texts that contain one another are the same.
pub contains_text_antisymm :
    (s t : Bytes) → contains_text s t ≡ true → contains_text t s ≡ true → s ≡ t
contains_text_antisymm s t h k = contains_text_full s t h (contains_text-length t s k)
