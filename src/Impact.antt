-- ===== src/Impact.antt =====
-- internal/service/validate.go: the checks of a context impact report and of the enumerations. A text
-- is the list of its characters. Of an error of oneOf the field is kept, of another one the sentence,
-- without the texts that the code quotes in it.
pub mod Accepted
pub mod Fields
mod Tests
use flightdeck.Base.{
  ℕ, zero, ◌+◌, ◌-◌, String, Bool, true, false, not, ◌&&◌, ◌||◌, Option, none, some, List, [], ◌∷◌,
  map, ltb, leb, if◌then◌else◌, ◌==◌, nat_eq, string_eq, length, contains,
}
use flightdeck.Base.Bytes.{Bytes, codes, bytes_eq}

abbrev pub valid_item_types : List Bytes
valid_item_types = map codes ("task" ∷ "bug" ∷ "idea" ∷ "note" ∷ [])

abbrev pub valid_item_statuses : List Bytes
valid_item_statuses =
    map codes ("backlog" ∷ "todo" ∷ "in_progress" ∷ "blocked" ∷ "done" ∷ "wontfix" ∷ [])

abbrev pub valid_item_priorities : List Bytes
valid_item_priorities = map codes ("low" ∷ "med" ∷ "high" ∷ "urgent" ∷ [])

abbrev pub valid_context_effects : List Bytes
valid_context_effects = map codes ("helpful" ∷ "neutral" ∷ "harmful" ∷ [])

abbrev pub valid_context_mechanisms : List Bytes
valid_context_mechanisms = map codes (
    "decision_changed" ∷ "prevented_error" ∷ "duplicate_work_avoided" ∷ "reconstruction_saved"
    ∷ "ignored" ∷ "stale_or_incorrect" ∷ [])

-- validContextImpactPairs: the mechanisms of an effect.
unfoldable pub mechanisms_of : Bytes → List Bytes
mechanisms_of effect =
    if effect == codes "helpful"
    then map codes (
        "decision_changed" ∷ "prevented_error" ∷ "duplicate_work_avoided" ∷ "reconstruction_saved"
        ∷ [])
    else if effect == codes "neutral"
    then codes "ignored" ∷ []
    else if effect == codes "harmful"
    then codes "stale_or_incorrect" ∷ []
    else []

-- `none` is no error.
unfoldable pub one_of : String → Bytes → List Bytes → Option String
one_of field val allowed = if contains allowed val then none else some field

-- An optional field: nil and "" are skipped.
unfoldable pub optional_of : String → Option Bytes → List Bytes → Option String
unfolding one_of
optional_of field none allowed = none
optional_of field (some val) allowed = if val == [] then none else one_of field val allowed

-- The first error.
abbrev pub or_else : Option String → Option String → Option String
or_else none next = next
or_else (some e) next = some e

unfoldable pub validate_item_fields : Option Bytes → Option Bytes → Option Bytes → Option String
unfolding optional_of
validate_item_fields type status priority = or_else (optional_of "type" type valid_item_types) (
    or_else (optional_of "status" status valid_item_statuses)
      (optional_of "priority" priority valid_item_priorities))

abbrev pub valid_activity_kinds : List Bytes
valid_activity_kinds =
    map codes ("decision" ∷ "progress" ∷ "status_change" ∷ "comment" ∷ "created" ∷ "rejected" ∷ [])

abbrev pub valid_link_kinds : List Bytes
valid_link_kinds = map codes ("blocks" ∷ "relates_to" ∷ "parent_of" ∷ [])

abbrev pub valid_confidences : List Bytes
valid_confidences = map codes ("unspecified" ∷ "inferred" ∷ "confirmed" ∷ [])

abbrev pub valid_ref_kinds : List Bytes
valid_ref_kinds = map codes ("commit" ∷ "file" ∷ "pr" ∷ "branch" ∷ "url" ∷ [])

abbrev pub valid_project_status : List Bytes
valid_project_status = map codes ("active" ∷ "paused" ∷ "done" ∷ "archived" ∷ [])

unfoldable pub validate_project_status : Option Bytes → Option String
unfolding optional_of
validate_project_status status = optional_of "status" status valid_project_status

unfoldable pub validate_activity_kind : Option Bytes → Option String
unfolding optional_of
validate_activity_kind kind = optional_of "kind" kind valid_activity_kinds

unfoldable pub validate_link_kind : Option Bytes → Option String
unfolding optional_of
validate_link_kind kind = optional_of "kind" kind valid_link_kinds

unfoldable pub validate_confidence : Option Bytes → Option String
unfolding optional_of
validate_confidence confidence = optional_of "confidence" confidence valid_confidences

unfoldable pub validate_ref_kind : Option Bytes → Option String
unfolding optional_of
validate_ref_kind kind = optional_of "kind" kind valid_ref_kinds

pub data ℤ : Type 0 where
  pos : ℕ → ℤ
  negsuc : ℕ → ℤ

pub record ContextImpactInput : Type 0 where
  pub session_id : Bytes
  pub project : Bytes
  pub item : Option Bytes
  pub effect : Bytes
  pub mechanism : Bytes
  pub evidence : Bytes
  pub context_refs : List Bytes
  pub idempotency_key : Option Bytes
  pub estimated_minutes_delta : Option ℤ

-- unicode.IsSpace
unfoldable pub is_space : ℕ → Bool
is_space c =
    (leb 9 c && leb c 13)
    || (leb 8192 c && leb c 8202)
    || contains (32 ∷ 133 ∷ 160 ∷ 5760 ∷ 8232 ∷ 8233 ∷ 8239 ∷ 8287 ∷ 12288 ∷ []) c

unfoldable pub trim_left : Bytes → Bytes
unfolding is_space
trim_left [] = []
trim_left (c ∷ s) = let rest = trim_left s in if is_space c then rest else c ∷ s

-- The text without the spaces at its end.
unfoldable pub trim_right : Bytes → Bytes
unfolding is_space
trim_right [] = []
trim_right (c ∷ s) = elim (trim_right s) [
  | [] ↦ if is_space c then [] else c ∷ []
  | d ∷ t ↦ c ∷ d ∷ t
]

unfoldable pub trim_space : Bytes → Bytes
unfolding trim_left trim_right
trim_space s = trim_right (trim_left s)

-- The number of characters, but for spaces around them, is between the two.
unfoldable pub fits : ℕ → ℕ → Bytes → Bool
unfolding trim_space
fits low high s = leb low (length (trim_space s)) && leb (length (trim_space s)) high

unfoldable pub refs_fit : List Bytes → Bool
unfolding fits
refs_fit [] = true
refs_fit (r ∷ rs) = fits 1 200 r && refs_fit rs

abbrev pub is_positive : ℤ → Bool
is_positive (pos n) = ltb 0 n
is_positive (negsuc n) = false

abbrev pub is_negative : ℤ → Bool
is_negative (pos n) = false
is_negative (negsuc n) = true

abbrev pub magnitude : ℤ → ℕ
magnitude (pos n) = n
magnitude (negsuc n) = n + 1

unfoldable pub check_delta : Bytes → Option ℤ → Option String
check_delta effect none = none
check_delta effect (some delta) =
    if ltb 1440 (magnitude delta)
    then some "estimated_minutes_delta must be between -1440 and 1440"
    else if effect == codes "helpful" && is_negative delta
    then some "helpful impact cannot report negative estimated_minutes_delta"
    else if effect == codes "harmful" && is_positive delta
    then some "harmful impact cannot report positive estimated_minutes_delta"
    else if effect == codes "neutral" && (is_positive delta || is_negative delta)
    then some "neutral impact must report zero estimated_minutes_delta"
    else none

unfoldable pub check_key : Option Bytes → Bool
unfolding trim_space
check_key none = true
check_key (some key) = leb (length (trim_space key)) 200

-- A test of ValidateContextImpact: its error where the condition does not hold.
abbrev pub need : Bool → String → Option String
need c message = if c then none else some message

unfoldable pub validate_context_impact : ContextImpactInput → Option String
unfolding fits trim_space one_of mechanisms_of refs_fit check_key check_delta
validate_context_impact in' =
    or_else (need (fits 1 200 in'.session_id) "session_id must be 1-200 characters") (
      or_else (need (not (trim_space in'.project == [])) "project is required") (
        or_else (one_of "effect" in'.effect valid_context_effects) (
          or_else (one_of "mechanism" in'.mechanism valid_context_mechanisms) (
            or_else
              (need (contains (mechanisms_of in'.effect) in'.mechanism)
                "mechanism is not valid for effect")
              (or_else (need (fits 1 2000 in'.evidence) "evidence must be 1-2000 characters") (
                or_else
                  (need (leb (length in'.context_refs) 20)
                    "context_refs may contain at most 20 entries")
                  (or_else
                    (need (refs_fit in'.context_refs)
                      "each context_refs entry must be 1-200 characters")
                    (or_else
                      (need (check_key in'.idempotency_key)
                        "idempotency_key must be at most 200 characters")
                      (check_delta in'.effect in'.estimated_minutes_delta)))))))))
