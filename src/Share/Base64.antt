-- ===== src/Share/Base64.antt =====
-- internal/sync/protocol.go: base64.RawURLEncoding, which an invite code is written in. A byte is a
-- number below 256, a digit of the code one below 64.
use flightdeck.Base.{
  ℕ, ◌+◌, ◌-◌, ◌*◌, ◌/◌, ◌%◌, ◌<◌, ◌≡◌, refl, ap, ◌||◌, ◌&&◌, Option, none, some, List, [], ◌∷◌,
  map, arith, ltb, leb, if◌then◌else◌, ◌==◌, nat_eq, All,
}
use flightdeck.Base.Bytes.{Bytes, IsByte}

-- The alphabet: A-Z, a-z, 0-9, '-' and '_'.
unfoldable pub digit64 : ℕ → ℕ
digit64 v =
    if ltb v 26
    then v + 65
    else if ltb v 52
    then v + 71
    else if ltb v 62
    then v - 4
    else if v == 62
    then 45
    else 95

unfoldable pub value64 : ℕ → Option ℕ
value64 c =
    if leb 65 c && leb c 90
    then some (c - 65)
    else if leb 97 c && leb c 122
    then some (c - 71)
    else if leb 48 c && leb c 57
    then some (c + 4)
    else if c == 45
    then some 62
    else if c == 95
    then some 63
    else none

-- Three bytes are four digits; a last group of one byte or two is not padded.
unfoldable pub sextets : Bytes → List ℕ
sextets [] = []
sextets (a ∷ []) = (a / 4) ∷ (a % 4 * 16) ∷ []
sextets (a ∷ b ∷ []) = (a / 4) ∷ (a % 4 * 16 + b / 16) ∷ (b % 16 * 4) ∷ []
sextets (a ∷ b ∷ c ∷ rest) =
    (a / 4) ∷ (a % 4 * 16 + b / 16) ∷ (b % 16 * 4 + c / 64) ∷ (c % 64) ∷ sextets rest

-- The bits that are left over in a short last group are dropped; one digit alone is an error.
unfoldable pub octets : List ℕ → Option Bytes
octets [] = some []
octets (p ∷ []) = none
octets (p ∷ q ∷ []) = some ((p * 4 + q / 16) ∷ [])
octets (p ∷ q ∷ r ∷ []) = some ((p * 4 + q / 16) ∷ (q % 16 * 16 + r / 4) ∷ [])
octets (p ∷ q ∷ r ∷ s ∷ rest) = elim (octets rest) [
  | none ↦ none
  | some out ↦ some ((p * 4 + q / 16) ∷ (q % 16 * 16 + r / 4) ∷ (r % 4 * 64 + s) ∷ out)
]

unfoldable pub encode64 : Bytes → Bytes
unfolding sextets digit64
encode64 b = map digit64 (sextets b)

-- The decoder skips line ends.
unfoldable pub skip_line_ends : Bytes → Bytes
skip_line_ends [] = []
skip_line_ends (c ∷ s) = if c == 10 || c == 13 then skip_line_ends s else c ∷ skip_line_ends s

unfoldable pub values64 : Bytes → Option (List ℕ)
values64 [] = some []
values64 (c ∷ s) = elim (value64 c) [
  | none ↦ none
  | some v ↦ elim (values64 s) [ none ↦ none | some vs ↦ some (v ∷ vs) ]
]

unfoldable pub decode64 : Bytes → Option Bytes
unfolding skip_line_ends values64 value64 octets
decode64 s = elim (values64 (skip_line_ends s)) [ none ↦ none | some vs ↦ octets vs ]

abbrev IsDigit : ℕ → Type 0
IsDigit v = v < 64

value64-digit64 : (v : ℕ) → v < 64 → value64 (digit64 v) ≡ some v
unfolding value64 digit64
value64-digit64 v h = ground arith

-- No digit is a space.
pub digit64-lt : (v : ℕ) → v < 64 → 32 < digit64 v
unfolding digit64
digit64-lt v h = ground arith

sextets-IsDigit : (b : Bytes) → All IsByte b → All IsDigit (sextets b)
unfolding sextets
sextets-IsDigit [] h = tt
sextets-IsDigit (a ∷ []) h = omega arith
sextets-IsDigit (a ∷ b ∷ []) h = omega arith
sextets-IsDigit (a ∷ b ∷ c ∷ rest) (p, (q, (r, h))) =
    (omega arith, (omega arith, (omega arith, (omega arith, sextets-IsDigit rest h))))

octets-sextets : (b : Bytes) → All IsByte b → octets (sextets b) ≡ some b
unfolding octets sextets
octets-sextets [] h = refl
octets-sextets (a ∷ []) h = ground arith
octets-sextets (a ∷ b ∷ []) h = ground arith
octets-sextets (a ∷ b ∷ c ∷ rest) (p, (q, (r, h))) =
    rw (octets-sextets rest h, octets) (ground arith)

values64-digits : (vs : List ℕ) → All IsDigit vs → values64 (map digit64 vs) ≡ some vs
unfolding values64
values64-digits [] h = refl
values64-digits (v ∷ vs) (p, h) = rw (value64-digit64 v p, values64-digits vs h, values64) refl

skip_line_ends-digits :
    (vs : List ℕ) → All IsDigit vs → skip_line_ends (map digit64 vs) ≡ map digit64 vs
unfolding skip_line_ends
skip_line_ends-digits [] h = refl
skip_line_ends-digits (v ∷ vs) (p, h) = ground (arith, digit64-lt v p, skip_line_ends-digits vs h)

pub encode64-All : (b : Bytes) → All IsByte b → All (λ c. 32 < c) (encode64 b)
unfolding encode64
encode64-All b h = digits (sextets b) (sextets-IsDigit b h)
  where
    digits : (vs : List ℕ) → All IsDigit vs → All (λ c. 32 < c) (map digit64 vs)
    digits [] h = tt
    digits (v ∷ vs) (p, h) = (digit64-lt v p, digits vs h)

pub decode64-encode64 : (b : Bytes) → All IsByte b → decode64 (encode64 b) ≡ some b
unfolding decode64 encode64
decode64-encode64 b h =
    let digits = sextets-IsDigit b h in
    ground (
      arith,
      ap values64 (skip_line_ends-digits (sextets b) digits),
      values64-digits (sextets b) digits,
      octets-sextets b h,
    )
