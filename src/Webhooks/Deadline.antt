-- ===== src/Webhooks/Deadline.antt =====
-- internal/service/webhooks.go: the attempts of an event come to an end.
use flightdeck.Base.{
  ℕ, ◌+◌, ◌≤◌, ◌≡◌, refl, sym, ap, ◌∙◌, subst, ◌⊎◌, inl, inr, true, false, List, [], ◌∷◌, ◌++◌,
  arith, nat_eq, string_eq, Bool-cases, length, All,
}
use flightdeck.Base.Bytes.{Bytes, codes}
use flightdeck.Webhooks.{
  Attempt, Hook, WebhookEvent, unlisted, listed, Sweep, backoff, reschedule_event, mark_delivered,
  park, conclude, sweep, deliver_event, is_settled, is_due, work, works,
}

backoff-le : (n : ℕ) → backoff n ≤ 3600
unfolding backoff
backoff-le n = ground arith

-- The lookup answers and the outcome is written.
unfoldable pub IsSmooth : Attempt → Type 0
IsSmooth t = (t.written ≡ true) × ((hooks : List Hook) × (t.hooks ≡ listed hooks))

-- The attempts are at least an hour apart, the first not before the given time.
unfoldable pub IsSpaced : ℕ → List Attempt → Type 0
IsSpaced from [] = Unit
IsSpaced from (t ∷ ts) = (from ≤ t.now) × IsSpaced (t.now + 3600) ts

IsSpaced-le :
    (from later : ℕ) (ts : List Attempt) → from ≤ later → IsSpaced later ts → IsSpaced from ts
unfolding IsSpaced
IsSpaced-le from later [] h s = s
IsSpaced-le from later (t ∷ ts) h s = (omega (arith, s.0), s.1)

-- What an attempt makes of an event that it does not settle.
Goes : Attempt → WebhookEvent → WebhookEvent → Type 0
Goes t ev after =
    (after.attempts ≡ ev.attempts + 1)
    × (after.attempts ≤ 7)
    × (after.next_attempt_at ≤ t.now + 3600)

conclude-Goes :
    (t : Attempt) (ev : WebhookEvent) (s : Sweep)
    → t.written ≡ true
    → (is_settled (conclude t ev s) ≡ true) ⊎ Goes t ev (conclude t ev s)
unfolding conclude mark_delivered park reschedule_event is_settled Goes
conclude-Goes t ev s w = ground (arith, backoff-le ev.attempts)

work-Goes :
    (t : Attempt) (ev : WebhookEvent)
    → IsSmooth t
    → is_settled ev ≡ false
    → ev.next_attempt_at ≤ t.now
    → (is_settled (work t ev) ≡ true) ⊎ Goes t ev (work t ev)
unfolding IsSmooth is_due Goes work
work-Goes t ev (w, (hooks, l)) u d =
    let due : is_due t.now ev ≡ true = ground arith in
    let leased : WebhookEvent = record ev { next_attempt_at = t.now + 60 } in
    rw (work, due, deliver_event, l) (conclude-Goes t leased (sweep t leased hooks) w)

settled-works : (ts : List Attempt) (ev : WebhookEvent) → is_settled ev ≡ true → works ts ev ≡ ev
unfolding works work is_due
settled-works [] ev h = refl
settled-works (t ∷ ts) ev h = rw h (settled-works ts ev h)

-- An event that has had fewer than eight attempts is settled, delivered or parked, by as many as
-- bring it to eight, if the first comes when the event is due, they are at least an hour apart, and
-- each time the hooks are found and the outcome is written.
pub works-settle :
    (ts : List Attempt) (ev : WebhookEvent)
    → All IsSmooth ts
    → IsSpaced ev.next_attempt_at ts
    → ev.attempts ≤ 7
    → 8 ≤ ev.attempts + length ts
    → is_settled (works ts ev) ≡ true
unfolding works IsSpaced Goes
works-settle [] ev sm sp a n = absurd (omega arith)
works-settle (t ∷ ts) ev sm sp a n = elim (Bool-cases (is_settled ev)) [
  | inl h ↦ ap is_settled (settled-works (t ∷ ts) ev h) ∙ h
  | inr u ↦ elim (work-Goes t ev sm.0 u sp.0) [
    | inl h ↦ rw (settled-works ts (work t ev) h) h
    | inr g ↦
        works-settle ts (work t ev) sm.1 (IsSpaced-le _ _ ts g.2 sp.1) g.1 (omega (arith, g.0))
  ]
]

reschedule-still :
    (t : Attempt) (ev : WebhookEvent) (err : Bytes) (ids : List ℕ)
    → is_settled (reschedule_event t ev err ids) ≡ is_settled ev
unfolding is_settled reschedule_event
reschedule-still t ev err ids = ground arith

deliver-still :
    (t : Attempt) (ev : WebhookEvent) (err : Bytes)
    → t.hooks ≡ unlisted err
    → is_settled (deliver_event t ev) ≡ is_settled ev
unfolding deliver_event
deliver-still t ev err l =
    subst
      (λ o.
        is_settled (elim o as (λ _. WebhookEvent) [
          | unlisted e ↦ reschedule_event t ev (codes "lookup: " ++ e) ev.delivered_hook_ids
          | listed hooks ↦ conclude t ev (sweep t ev hooks)
        ])
        ≡ is_settled ev)
      (sym l) (reschedule-still t ev (codes "lookup: " ++ err) ev.delivered_hook_ids)

open_still :
    (t : Attempt) (ev : WebhookEvent)
    → (err : Bytes) × (t.hooks ≡ unlisted err)
    → is_settled ev ≡ false
    → is_settled (work t ev) ≡ false
unfolding work is_settled
open_still t ev (err, l) u =
    ground (arith, deliver-still t (record ev { next_attempt_at = t.now + 60 }) err l)

-- Where the lookup of the hooks always fails, no number of attempts parks the event.
pub unlisted_never_settles :
    (ts : List Attempt) (ev : WebhookEvent)
    → All (λ t. (err : Bytes) × (t.hooks ≡ unlisted err)) ts
    → is_settled ev ≡ false
    → is_settled (works ts ev) ≡ false
unfolding works
unlisted_never_settles [] ev h u = u
unlisted_never_settles (t ∷ ts) ev h u =
    unlisted_never_settles ts (work t ev) h.1 (open_still t ev h.0 u)
