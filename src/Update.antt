-- ===== src/Update.antt =====
-- internal/update/checker.go: which release is newer. The tags are bytes; the request that fetches the
-- latest release is left out.
pub mod Order
pub mod Latest
mod Tests
use flightdeck.Base.{
  ℕ, ◌+◌, ◌-◌, ◌*◌, ◌^◌, Bool, false, not, ◌&&◌, Option, none, some, List, [], ◌∷◌, ◌++◌, ltb, leb,
  if◌then◌else◌, ◌==◌, nat_eq, string_eq,
}
use flightdeck.Base.Bytes.{Bytes, bytes_eq, codes}

pub record Semver : Type 0 where
  pub major : ℕ
  pub minor : ℕ
  pub patch : ℕ

unfoldable pub newer_than : Semver → Semver → Bool
newer_than a b =
    if not (a.major == b.major)
    then ltb b.major a.major
    else if not (a.minor == b.minor)
    then ltb b.minor a.minor
    else ltb b.patch a.patch

-- strings.TrimPrefix of "v".
unfoldable pub trim_v : Bytes → Bytes
trim_v [] = []
trim_v (c ∷ s) = if c == 118 then s else c ∷ s

-- The text before the first '-'.
unfoldable pub before_dash : Bytes → Bytes
before_dash [] = []
before_dash (c ∷ s) = let rest = before_dash s in if c == 45 then [] else c ∷ rest

-- strings.Split at '.'.
unfoldable pub split_go : Bytes → Bytes → List Bytes
split_go part [] = part ∷ []
split_go part (c ∷ s) = if c == 46 then part ∷ split_go [] s else split_go (part ++ c ∷ []) s

unfoldable pub is_digit : ℕ → Bool
is_digit c = leb 48 c && leb c 57

-- The value of a text of digits, none for other text.
unfoldable pub digits : ℕ → Bytes → Option ℕ
unfolding is_digit
digits n [] = some n
digits n (c ∷ s) = if is_digit c then digits (10 * n + (c - 48)) s else none

-- The digits that strconv.Atoi asks for: at least one.
unfoldable pub number : Bytes → Option ℕ
unfolding digits
number [] = none
number (c ∷ s) = digits 0 (c ∷ s)

-- strconv.Atoi, for an int of 64 bits, and the test `n < 0`: the value where it is not negative.
unfoldable pub at_most : ℕ → Option ℕ → Option ℕ
at_most bound none = none
at_most bound (some n) = if leb n bound then some n else none

unfoldable pub natural : Bytes → Option ℕ
unfolding number at_most
natural [] = none
natural (c ∷ s) =
    if c == 45
    then at_most 0 (number s)
    else if c == 43
    then at_most (2 ^ 63 - 1) (number s)
    else at_most (2 ^ 63 - 1) (number (c ∷ s))

unfoldable pub semver_of : List Bytes → Option Semver
unfolding natural
semver_of (a ∷ b ∷ c ∷ []) = elim (natural a) [
  | none ↦ none
  | some x ↦ elim (natural b) [
    | none ↦ none
    | some y ↦ elim (natural c) [
      | none ↦ none
      | some z ↦ some (record { major = x; minor = y; patch = z })
    ]
  ]
]
semver_of _ = none

unfoldable pub parse_semver : Bytes → Option Semver
unfolding trim_v before_dash split_go semver_of
parse_semver s = semver_of (split_go [] (before_dash (trim_v s)))

-- The local variables of LatestTag, once `found`.
unfoldable pub better : Option (Semver × Bytes) → Bytes → Semver → Option (Semver × Bytes)
unfolding newer_than
better none t v = some (v, t)
better (some (best, tag)) t v = if newer_than v best then some (v, t) else some (best, tag)

unfoldable pub latest_go : Option (Semver × Bytes) → List Bytes → Option (Semver × Bytes)
unfolding better parse_semver
latest_go best [] = best
latest_go best (t ∷ ts) = elim (parse_semver t) [
  | none ↦ latest_go best ts
  | some v ↦ latest_go (better best t v) ts
]

unfoldable pub latest_tag : List Bytes → Option Bytes
unfolding latest_go
latest_tag tags = elim (latest_go none tags) [ none ↦ none | some (v, t) ↦ some t ]

unfoldable pub same_version : Bytes → Bytes → Bool
unfolding parse_semver
same_version a b = elim (parse_semver a) [
  | none ↦ false
  | some v ↦ elim (parse_semver b) [
    | none ↦ false
    | some w ↦ v.major == w.major && v.minor == w.minor && v.patch == w.patch
  ]
]

pub record Release : Type 0 where
  pub tag : Bytes
  pub url : Bytes

pub record Checker : Type 0 where
  pub version : Bytes
  pub latest : Option Release

-- `none` is a nil Checker, or no update.
unfoldable pub available : Option Checker → Option Release
unfolding parse_semver newer_than
available none = none
available (some c) = elim c.latest [
  | none ↦ none
  | some rel ↦ elim (parse_semver c.version) [
    | none ↦ none
    | some cur ↦ elim (parse_semver rel.tag) [
      | none ↦ none
      | some lat ↦ if newer_than lat cur then some rel else none
    ]
  ]
]

unfoldable pub notice : Option Checker → Bytes
unfolding available
notice none = []
notice (some c) = elim (available (some c)) [
  | none ↦ []
  | some rel ↦
      (codes "flightdeck "
        ++ rel.tag
        ++ codes " is available (running "
        ++ c.version
        ++ codes
            "). To upgrade, run `flightdeck update` in the flightdeck repo checkout on the host machine.")
      ++ (if rel.url == [] then [] else codes " Release notes: " ++ rel.url)
]
