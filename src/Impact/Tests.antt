-- ===== src/Impact/Tests.antt =====
-- internal/service/validate.go: a report that is accepted, and two that are not.
use flightdeck.Base.{◌≤◌, ◌≡◌, refl, true, none, some, [], ◌∷◌, nat_eq, string_eq, length}
use flightdeck.Base.Bytes.{codes}
use flightdeck.Impact.{ContextImpactInput, pos, negsuc, validate_context_impact, fits, refs_fit}
use flightdeck.Impact.Accepted.{Outcome, validate_context_impact-Outcome}

abbrev a_report : ContextImpactInput
a_report = record {
  session_id = codes " s1 ";
  project = codes "flightdeck";
  item = none;
  effect = codes "helpful";
  mechanism = codes "prevented_error";
  evidence = codes "seen";
  context_refs = codes "FD-1" ∷ [];
  idempotency_key = none;
  estimated_minutes_delta = some (pos 30);
}

a_report_is_accepted : validate_context_impact a_report ≡ none
unfolding validate_context_impact
a_report_is_accepted = refl

negative_help :
    validate_context_impact (record a_report { estimated_minutes_delta = some (negsuc 4) })
    ≡ some "helpful impact cannot report negative estimated_minutes_delta"
unfolding validate_context_impact
negative_help = refl

validate_context_impact-Outcome_example :
    Outcome (codes "helpful") (codes "prevented_error") (some (pos 30))
    × (fits 1 200 (codes " s1 ") ≡ true)
    × (fits 1 2000 (codes "seen") ≡ true)
    × (length a_report.context_refs ≤ 20)
    × (refs_fit a_report.context_refs ≡ true)
validate_context_impact-Outcome_example =
    validate_context_impact-Outcome a_report a_report_is_accepted
