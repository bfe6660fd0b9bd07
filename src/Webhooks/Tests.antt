-- ===== src/Webhooks/Tests.antt =====
-- internal/service/webhooks.go: an event with two subscribers.
use flightdeck.Base.{
  ℕ, ◌≡◌, refl, subst, true, false, ◌&&◌, none, some, List, [], ◌∷◌, map, arith, ltb, if◌then◌else◌,
  ◌==◌, nat_eq, string_eq,
}
use flightdeck.Base.Bytes.{codes}
use flightdeck.Webhooks.{
  Attempt, Hook, WebhookEvent, listed, unlisted, enqueued, works, is_settled, all_acked,
}
use flightdeck.Webhooks.Once.{acked_once, NoneTwice, Avoids, IsOrderly}
use flightdeck.Webhooks.Deadline.{works-settle, unlisted_never_settles, IsSmooth, IsSpaced}

abbrev two_hooks : List Hook
two_hooks =
    (record { id = 1; project_id = none; events = []; active = true })
    ∷ (record { id = 2; project_id = some 7; events = []; active = true })
    ∷ []

abbrev an_event : WebhookEvent
an_event = enqueued 3 7 100 "item.created"

-- The second subscriber does not answer before noon.
abbrev attempt_at : ℕ → Attempt
attempt_at now = record {
  now = now;
  hooks = listed two_hooks;
  post = λ h. if h.id == 2 && ltb now 10000 then some (codes "status 500") else none;
  written = true;
}

abbrev failing_at : ℕ → Attempt
failing_at now = record (attempt_at now) { hooks = unlisted (codes "closed") }

abbrev some_attempts : List Attempt
some_attempts = attempt_at 100 ∷ attempt_at 4000 ∷ attempt_at 20000 ∷ []

delivered_at_last : all_acked some_attempts an_event ≡ 1 ∷ 2 ∷ []
unfolding all_acked enqueued
delivered_at_last = refl

orderly : (now : ℕ) → IsOrderly (attempt_at now)
unfolding IsOrderly NoneTwice
orderly now = (
  refl,
  λ hooks h.
      subst
        (λ l.
          NoneTwice
            (elim l as (λ _. List ℕ) [ listed hs ↦ map (λ (k : Hook). k.id) hs | unlisted _ ↦ [] ]))
        h (refl, (refl, tt)),
)

acked_once_example :
    NoneTwice (all_acked some_attempts an_event)
    × Avoids an_event.delivered_hook_ids (all_acked some_attempts an_event)
acked_once_example =
    acked_once some_attempts an_event (orderly 100, (orderly 4000, (orderly 20000, tt)))

abbrev eight_attempts : List Attempt
eight_attempts =
    attempt_at 100
    ∷ attempt_at 4000
    ∷ attempt_at 8000
    ∷ attempt_at 12000
    ∷ attempt_at 16000
    ∷ attempt_at 20000
    ∷ attempt_at 24000
    ∷ attempt_at 28000
    ∷ []

smooth : (now : ℕ) → IsSmooth (attempt_at now)
unfolding IsSmooth
smooth now = (refl, (two_hooks, refl))

works-settle_example : is_settled (works eight_attempts an_event) ≡ true
unfolding enqueued IsSpaced
works-settle_example =
    works-settle eight_attempts an_event
      (
        smooth 100,
        (
          smooth 4000,
          (
            smooth 8000,
            (smooth 12000, (smooth 16000, (smooth 20000, (smooth 24000, (smooth 28000, tt))))),
          ),
        ),
      )
      (
        omega arith,
        (
          omega arith,
          (
            omega arith,
            (omega arith, (omega arith, (omega arith, (omega arith, (omega arith, tt))))),
          ),
        ),
      )
      (omega arith) (omega arith)

unlisted_never_settles_example :
    is_settled (works (failing_at 100 ∷ failing_at 200 ∷ []) an_event) ≡ false
unfolding enqueued is_settled
unlisted_never_settles_example =
    unlisted_never_settles (failing_at 100 ∷ failing_at 200 ∷ []) an_event
      ((codes "closed", refl), ((codes "closed", refl), tt)) refl
