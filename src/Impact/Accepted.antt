-- ===== src/Impact/Accepted.antt =====
-- internal/service/validate.go: what a context impact report is that ValidateContextImpact accepts.
use flightdeck.Base.{
  ℕ, ◌≤◌, String, ◌≡◌, refl, subst, inl, inr, Bool, true, false, ◌||◌, Option, none, some, List, [],
  ◌∷◌, map, arith, leb, ◌==◌, nat_eq, string_eq, Bool-cases, length, Among, contains,
}
use flightdeck.Base.Bytes.{Bytes, codes, bytes_eq, bytes_beq_iff}
use flightdeck.Impact.{
  ℤ, pos, negsuc, ContextImpactInput, validate_context_impact, or_else, need, one_of, check_delta,
  mechanisms_of, valid_context_effects, is_positive, is_negative, magnitude, fits, refs_fit,
}

-- The minutes that are reported, if any, are within a day, and not of the given sign.
unfoldable pub IsWithin : (ℤ → Bool) → Option ℤ → Type 0
IsWithin wrong delta = (d : ℤ) → delta ≡ some d → (wrong d ≡ false) × (magnitude d ≤ 1440)

-- The outcomes that make sense: a benefit of one of four kinds, nothing, or a harm.
pub data Outcome : Bytes → Bytes → Option ℤ → Type 0 where
  benefit :
      {mechanism : Bytes} {delta : Option ℤ}
      → Among mechanism (
          map codes (
            "decision_changed" ∷ "prevented_error" ∷ "duplicate_work_avoided"
            ∷ "reconstruction_saved" ∷ []))
      → IsWithin is_negative delta
      → Outcome (codes "helpful") mechanism delta
  nothing :
      {delta : Option ℤ}
      → IsWithin (λ d. is_positive d || is_negative d) delta
      → Outcome (codes "neutral") (codes "ignored") delta
  harm :
      {delta : Option ℤ}
      → IsWithin is_positive delta
      → Outcome (codes "harmful") (codes "stale_or_incorrect") delta

pub or_else-none : (a b : Option String) → or_else a b ≡ none → (a ≡ none) × (b ≡ none)
or_else-none none b h = (refl, h)
or_else-none (some e) b h = ground arith

need-none : (c : Bool) (m : String) → need c m ≡ none → c ≡ true
need-none true m h = refl
need-none false m h = ground arith

one_of-none :
    (f : String) (v : Bytes) (xs : List Bytes) → one_of f v xs ≡ none → contains xs v ≡ true
unfolding one_of
one_of-none f v xs h = ground arith

pub contains-Among : (xs : List Bytes) (v : Bytes) → contains xs v ≡ true → Among v xs
contains-Among [] v h = ground arith
contains-Among (x ∷ xs) v h = elim (Bool-cases (x == v)) [
  | inl e ↦ inl ((bytes_beq_iff x v).0 e)
  | inr n ↦ inr (contains-Among xs v (ground arith))
]

helpful_bound :
    (d : ℤ)
    → check_delta (codes "helpful") (some d) ≡ none
    → (is_negative d ≡ false) × (magnitude d ≤ 1440)
unfolding check_delta
helpful_bound (pos n) h = ground arith
helpful_bound (negsuc n) h = ground arith

neutral_bound :
    (d : ℤ)
    → check_delta (codes "neutral") (some d) ≡ none
    → ((is_positive d || is_negative d) ≡ false) × (magnitude d ≤ 1440)
unfolding check_delta
neutral_bound (pos n) h = ground arith
neutral_bound (negsuc n) h = ground arith

harmful_bound :
    (d : ℤ)
    → check_delta (codes "harmful") (some d) ≡ none
    → (is_positive d ≡ false) × (magnitude d ≤ 1440)
unfolding check_delta
harmful_bound (pos n) h = ground arith
harmful_bound (negsuc n) h = ground arith

within :
    (effect : Bytes) (wrong : ℤ → Bool) (delta : Option ℤ)
    → ((d : ℤ) → check_delta effect (some d) ≡ none → (wrong d ≡ false) × (magnitude d ≤ 1440))
    → check_delta effect delta ≡ none
    → IsWithin wrong delta
unfolding IsWithin
within effect wrong delta bound h d e = bound d (subst (λ o. check_delta effect o ≡ none) e h)

Makes : Bytes → Bytes → Option ℤ → Type 0
Makes mechanism effect delta =
    Among mechanism (mechanisms_of effect)
    → check_delta effect delta ≡ none
    → Outcome effect mechanism delta

helpful_outcome : (mechanism : Bytes) (delta : Option ℤ) → Makes mechanism (codes "helpful") delta
unfolding Makes mechanisms_of
helpful_outcome mechanism delta m c =
    benefit m (within (codes "helpful") is_negative delta helpful_bound c)

neutral_outcome : (mechanism : Bytes) (delta : Option ℤ) → Makes mechanism (codes "neutral") delta
unfolding Makes mechanisms_of
neutral_outcome mechanism delta (inl p) c =
    subst (λ m. Outcome (codes "neutral") m delta) p
      (nothing
        (within (codes "neutral") (λ d. is_positive d || is_negative d) delta neutral_bound c))
neutral_outcome mechanism delta (inr none_left) c = elim none_left [ ]

harmful_outcome : (mechanism : Bytes) (delta : Option ℤ) → Makes mechanism (codes "harmful") delta
unfolding Makes mechanisms_of
harmful_outcome mechanism delta (inl p) c =
    subst (λ m. Outcome (codes "harmful") m delta) p
      (harm (within (codes "harmful") is_positive delta harmful_bound c))
harmful_outcome mechanism delta (inr none_left) c = elim none_left [ ]

outcome :
    (effect mechanism : Bytes) (delta : Option ℤ)
    → Among effect valid_context_effects
    → Among mechanism (mechanisms_of effect)
    → check_delta effect delta ≡ none
    → Outcome effect mechanism delta
unfolding Makes
outcome effect mechanism delta (inl p) m c =
    subst (λ f. Makes mechanism f delta) p (helpful_outcome mechanism delta) m c
outcome effect mechanism delta (inr (inl p)) m c =
    subst (λ f. Makes mechanism f delta) p (neutral_outcome mechanism delta) m c
outcome effect mechanism delta (inr (inr (inl p))) m c =
    subst (λ f. Makes mechanism f delta) p (harmful_outcome mechanism delta) m c
outcome effect mechanism delta (inr (inr (inr none_left))) m c = elim none_left [ ]

leb→≤ : (a b : ℕ) → leb a b ≡ true → a ≤ b
leb→≤ a b h = ground arith

-- A report that is accepted has one of the outcomes that make sense, a session name of 1 to 200
-- characters, evidence of 1 to 2000, and at most 20 references of 1 to 200 each.
pub validate_context_impact-Outcome :
    (i : ContextImpactInput)
    → validate_context_impact i ≡ none
    → Outcome i.effect i.mechanism i.estimated_minutes_delta
      × (fits 1 200 i.session_id ≡ true)
      × (fits 1 2000 i.evidence ≡ true)
      × (length i.context_refs ≤ 20)
      × (refs_fit i.context_refs ≡ true)
unfolding validate_context_impact
validate_context_impact-Outcome i h =
    let h1 = or_else-none _ _ h in
    let h2 = or_else-none _ _ h1.1 in
    let h3 = or_else-none _ _ h2.1 in
    let h4 = or_else-none _ _ h3.1 in
    let h5 = or_else-none _ _ h4.1 in
    let h6 = or_else-none _ _ h5.1 in
    let h7 = or_else-none _ _ h6.1 in
    let h8 = or_else-none _ _ h7.1 in
    let h9 = or_else-none _ _ h8.1 in
    let few = need-none (leb (length i.context_refs) 20) _ h7.0 in
    (
      outcome i.effect i.mechanism i.estimated_minutes_delta
          (contains-Among valid_context_effects i.effect
            (one_of-none "effect" i.effect valid_context_effects h3.0))
          (contains-Among (mechanisms_of i.effect) i.mechanism
            (need-none (contains (mechanisms_of i.effect) i.mechanism) _ h5.0))
          h9.1,
      need-none (fits 1 200 i.session_id) _ h1.0,
      need-none (fits 1 2000 i.evidence) _ h6.0,
      leb→≤ (length i.context_refs) 20 few,
      need-none (refs_fit i.context_refs) _ h8.0,
    )
