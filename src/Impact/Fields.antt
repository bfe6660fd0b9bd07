-- ===== src/Impact/Fields.antt =====
-- internal/service/validate.go: the enumerated fields of an item.
use flightdeck.Base.{
  String, ◌≡◌, refl, ◌↔◌, ◌⊎◌, inl, inr, true, Option, none, some, List, [], ◌∷◌, arith,
  if◌then◌else◌, ◌==◌, nat_eq, string_eq, Bool-cases, Among, contains,
}
use flightdeck.Base.Bytes.{Bytes, bytes_eq, bytes_beq_iff}
use flightdeck.Impact.{
  optional_of, one_of, or_else, validate_item_fields, valid_item_types, valid_item_statuses,
  valid_item_priorities,
}
use flightdeck.Impact.Accepted.{or_else-none, contains-Among}

-- The field is left out, or "", or one of the values.
pub IsAllowed : Option Bytes → List Bytes → Type 0
IsAllowed none allowed = Unit
IsAllowed (some v) allowed = (v ≡ []) ⊎ Among v allowed

Among-contains : (xs : List Bytes) (v : Bytes) → Among v xs → contains xs v ≡ true
Among-contains [] v nowhere = elim nowhere [ ]
Among-contains (x ∷ xs) v (inl e) = ground (arith, bytes_beq_iff x v)
Among-contains (x ∷ xs) v (inr m) = ground (arith, Among-contains xs v m)

optional_of-IsAllowed :
    (f : String) (o : Option Bytes) (xs : List Bytes) → (optional_of f o xs ≡ none) ↔ IsAllowed o xs
unfolding optional_of IsAllowed one_of
optional_of-IsAllowed f none xs = (λ _. tt, λ _. refl)
optional_of-IsAllowed f (some v) xs = (to, from)
  where
    to :
        (if v == [] then none else if contains xs v then none else some f) ≡ none
        → (v ≡ []) ⊎ Among v xs
    to h = elim (Bool-cases (v == [])) [
      | inl e ↦ inl ((bytes_beq_iff v []).0 e)
      | inr n ↦ inr (contains-Among xs v (ground arith))
    ]

    from :
        (v ≡ []) ⊎ Among v xs
        → (if v == [] then none else if contains xs v then none else some f) ≡ none
    from (inl e) = ground (arith, bytes_beq_iff v [])
    from (inr m) = ground (arith, Among-contains xs v m)

or_else_both : (a b : Option String) → a ≡ none → b ≡ none → or_else a b ≡ none
or_else_both a b h k = ground arith

-- The fields of an item are accepted just where each that is given and not "" is one of its values.
validate_item_fields_iff :
    (type status priority : Option Bytes)
    → (validate_item_fields type status priority ≡ none) ↔ (
        IsAllowed type valid_item_types
        × IsAllowed status valid_item_statuses
        × IsAllowed priority valid_item_priorities)
unfolding validate_item_fields
validate_item_fields_iff type status priority = (
  λ h.
      let a = or_else-none _ _ h in
      let b = or_else-none _ _ a.1 in
      (
        (optional_of-IsAllowed "type" type valid_item_types).0 a.0,
        (optional_of-IsAllowed "status" status valid_item_statuses).0 b.0,
        (optional_of-IsAllowed "priority" priority valid_item_priorities).0 b.1,
      ),
  λ (t, s, p). or_else_both _ _ ((optional_of-IsAllowed "type" type valid_item_types).1 t) (
      or_else_both _ _ ((optional_of-IsAllowed "status" status valid_item_statuses).1 s)
        ((optional_of-IsAllowed "priority" priority valid_item_priorities).1 p)),
)
