-- ===== src/Webhooks.antt =====
-- internal/service/webhooks.go and the outbox queries of internal/store/webhooks.sql.go: the life of
-- one event of the webhook outbox, from attempt to attempt. The subscribers' answers, the failures of
-- the database and the clock are given with each attempt. An error's text is its bytes; of the
-- payload, the request and the signature nothing is modelled.
pub mod Once
pub mod Deadline
mod Tests
use flightdeck.Base.Bytes.{Bytes, codes}
use flightdeck.Base.{
  ℕ, ◌+◌, ◌^◌, String, Bool, true, false, not, ◌&&◌, Option, none, some, List, [], ◌∷◌, ◌++◌, ltb,
  leb, if◌then◌else◌, ◌==◌, nat_eq, string_eq, contains,
}

abbrev pub webhook_max_attempts : ℕ
webhook_max_attempts = 8

abbrev pub webhook_lease_batch : ℕ
webhook_lease_batch = 50

pub record Hook : Type 0 where
  pub id : ℕ
  pub project_id : Option ℕ
  pub events : List String
  pub active : Bool

pub record WebhookEvent : Type 0 where
  pub id : ℕ
  pub project_id : Option ℕ
  pub event : String
  pub attempts : ℕ
  pub next_attempt_at : ℕ
  pub delivered_at : Option ℕ
  pub last_error : Bytes
  pub delivered_hook_ids : List ℕ
  pub parked_at : Option ℕ

-- EnqueueWebhookEvent, with the column defaults of the table.
unfoldable pub enqueued : ℕ → ℕ → ℕ → String → WebhookEvent
enqueued id project_id now event = record {
  id = id;
  project_id = some project_id;
  event = event;
  attempts = 0;
  next_attempt_at = now;
  delivered_at = none;
  last_error = [];
  delivered_hook_ids = [];
  parked_at = none;
}

-- ListActiveWebhooksForEvent. NULL equals nothing, so an event of no project has the hooks of no
-- project only.
unfoldable pub is_subscribed : WebhookEvent → Hook → Bool
is_subscribed ev h =
    h.active
    && elim h.project_id [
      | none ↦ true
      | some p ↦ elim ev.project_id [ none ↦ false | some q ↦ p == q ]
    ]
    && elim h.events [ [] ↦ true | _ ∷ _ ↦ contains h.events ev.event ]

unfoldable pub list_active : WebhookEvent → List Hook → List Hook
unfolding is_subscribed
list_active ev [] = []
list_active ev (h ∷ hs) =
    let rest = list_active ev hs in if is_subscribed ev h then h ∷ rest else rest

-- The answer of the lookup of the hooks.
pub data Listing : Type 0 where
  unlisted : Bytes → Listing
  listed : List Hook → Listing

-- What one attempt meets: the table of hooks, or the lookup's error; the outcome of each POST,
-- `none` for an ACK; whether the outcome is written.
pub record Attempt : Type 0 where
  pub now : ℕ
  pub hooks : Listing
  pub post : Hook → Option Bytes
  pub written : Bool

-- The local variables of deliverEvent, and a log of the hooks whose POST was ACKed.
pub record Sweep : Type 0 where
  pub delivered : List ℕ
  pub all_ok : Bool
  pub last_err : Bytes
  pub log : List ℕ

unfoldable pub deliver_one : Attempt → List ℕ → Hook → Sweep → Sweep
deliver_one t already h s = if contains already h.id then s else elim (t.post h) [
  | some err ↦ record s { all_ok = false; last_err = err }
  | none ↦ record s { delivered = s.delivered ++ h.id ∷ []; log = s.log ++ h.id ∷ [] }
]

unfoldable pub deliver_all : Attempt → List ℕ → List Hook → Sweep → Sweep
unfolding deliver_one
deliver_all t already [] s = s
deliver_all t already (h ∷ hs) s = deliver_all t already hs (deliver_one t already h s)

unfoldable pub backoff : ℕ → ℕ
backoff attempts = if ltb (2 ^ attempts) 3600 then 2 ^ attempts else 3600

unfoldable pub reschedule_event : Attempt → WebhookEvent → Bytes → List ℕ → WebhookEvent
unfolding backoff
reschedule_event t ev err delivered =
    if t.written
    then record ev {
      attempts = ev.attempts + 1;
      next_attempt_at = t.now + backoff ev.attempts;
      last_error = err;
      delivered_hook_ids = delivered;
    }
    else ev

unfoldable pub mark_delivered : Attempt → WebhookEvent → WebhookEvent
mark_delivered t ev =
    if t.written then record ev { delivered_at = some t.now; last_error = [] } else ev

unfoldable pub park : Attempt → WebhookEvent → Bytes → List ℕ → WebhookEvent
park t ev err delivered =
    if t.written
    then record ev { parked_at = some t.now; last_error = err; delivered_hook_ids = delivered }
    else ev

unfoldable pub conclude : Attempt → WebhookEvent → Sweep → WebhookEvent
unfolding mark_delivered park reschedule_event
conclude t ev s =
    if s.all_ok
    then mark_delivered t ev
    else if leb webhook_max_attempts (ev.attempts + 1)
    then park t ev s.last_err s.delivered
    else reschedule_event t ev s.last_err s.delivered

unfoldable pub sweep : Attempt → WebhookEvent → List Hook → Sweep
unfolding deliver_all list_active
sweep t ev hooks =
    deliver_all t ev.delivered_hook_ids (list_active ev hooks)
      (record { delivered = ev.delivered_hook_ids; all_ok = true; last_err = []; log = [] })

unfoldable pub deliver_event : Attempt → WebhookEvent → WebhookEvent
unfolding reschedule_event conclude sweep
deliver_event t ev = elim t.hooks [
  | unlisted err ↦ reschedule_event t ev (codes "lookup: " ++ err) ev.delivered_hook_ids
  | listed hooks ↦ conclude t ev (sweep t ev hooks)
]

-- Delivered or parked: LeaseWebhookEvents never returns it again.
unfoldable pub is_settled : WebhookEvent → Bool
is_settled ev = elim ev.delivered_at [
  | some _ ↦ true
  | none ↦ elim ev.parked_at [ some _ ↦ true | none ↦ false ]
]

unfoldable pub is_due : ℕ → WebhookEvent → Bool
unfolding is_settled
is_due now ev = not (is_settled ev) && leb ev.next_attempt_at now

-- A lease pushes the next attempt away by a minute; then the event is delivered. What is not due is
-- left alone.
unfoldable pub work : Attempt → WebhookEvent → WebhookEvent
unfolding is_due deliver_event
work t ev =
    if is_due t.now ev then deliver_event t (record ev { next_attempt_at = t.now + 60 }) else ev

unfoldable pub works : List Attempt → WebhookEvent → WebhookEvent
unfolding work
works [] ev = ev
works (t ∷ ts) ev = works ts (work t ev)

-- The hooks that ACK in an attempt, in the order of the POSTs.
unfoldable pub acked : Attempt → WebhookEvent → List ℕ
unfolding is_due sweep
acked t ev =
    if is_due t.now ev
    then elim t.hooks [ unlisted _ ↦ [] | listed hooks ↦ (sweep t ev hooks).log ]
    else []

unfoldable pub all_acked : List Attempt → WebhookEvent → List ℕ
unfolding acked work
all_acked [] ev = []
all_acked (t ∷ ts) ev = acked t ev ++ all_acked ts (work t ev)
