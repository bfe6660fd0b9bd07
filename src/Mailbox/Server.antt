-- ===== src/Mailbox/Server.antt =====
-- internal/mailbox/mailbox.go: the HTTP handlers of `Server`. A request is its path id, its
-- Authorization header and its decoded body; a handler returns the status and the answer, beside
-- the new store. The hash of package crypto is a parameter; its constant-time comparison is
-- equality. Logging is left out.
use flightdeck.Base.{
  ℕ, zero, suc, ◌+◌, String, Bool, true, false, not, ◌&&◌, Option, none, some, List, [], ◌∷◌, ltb,
  if◌then◌else◌, ◌==◌, nat_eq, string_eq, length, take,
}
use flightdeck.Base.Bytes.{Bytes, codes, bytes_eq, has_prefix}
use flightdeck.Mailbox.State.{
  Store, Meta, Message, Faults, Error, Result, ok, err, max_message_bytes,
}
use flightdeck.Mailbox.Store.{Created, load_meta, create, send, receive, ack, delete}
pub mod Access
mod Tests

pub record Request : Type 0 where
  pub id : Bytes
  pub authorization : Bytes
  -- `none` where reading fails, or decoding.
  pub body : Option Bytes
  pub seqs : Option (List ℕ)

pub data Answer : Type 0 where
  message : String → Answer
  failure : Error → Answer
  minted : Created → Answer
  queued : ℕ → Answer
  messages : List Message → Answer
  acked : ℕ → Answer
  nothing : Answer

pub record Response : Type 0 where
  pub status : ℕ
  pub answer : Answer

abbrev pub respond : ℕ → Answer → Response
respond status answer = record { status = status; answer = answer }

abbrev drop : ℕ → Bytes → Bytes
drop zero s = s
drop (suc n) [] = []
drop (suc n) (c ∷ s) = drop n s

abbrev pub bearer_prefix : Bytes
bearer_prefix = codes "Bearer "

unfoldable pub bearer : Request → Bytes
bearer r = if has_prefix r.authorization bearer_prefix then drop 7 r.authorization else []

-- What `auth` tells a caller without credentials, whether or not the mailbox exists.
abbrev pub no_mailbox : Response
no_mailbox = respond 404 (message "mailbox not found")

unfoldable pub wanted : Bool → Meta → Bytes
wanted write m = if write then m.write_token_sha else m.read_token_sha

-- `io.LimitReader(r.Body, MaxMessageBytes+1)`
abbrev read_body : Option Bytes → Option Bytes
read_body none = none
read_body (some b) = some (take (max_message_bytes + 1) b)

sent : Result ℕ × Store → Response × Store
sent (ok seq, s) = (respond 202 (queued seq), s)
sent (err e, s) = (respond 507 (failure e), s)

send_body : Faults → ℕ → Meta → Option Bytes → Store → Response × Store
unfolding sent
send_body f now m none s = (respond 400 (message "read body"), s)
send_body f now m (some body) s =
    if ltb max_message_bytes (length body)
    then (respond 413 (message "message exceeds 8388608 bytes"), s)
    else if length body == 0
    then (respond 400 (message "empty message"), s)
    else sent (send f now m.id body s)

received : Result (List Message) × Store → Response × Store
received (ok msgs, s) = (respond 200 (messages msgs), s)
received (err e, s) = (respond 500 (message "read messages"), s)

confirmed : Result ℕ × Store → Response × Store
confirmed (ok n, s) = (respond 200 (acked n), s)
confirmed (err e, s) = (respond 500 (message "ack"), s)

ack_seqs : Faults → Meta → Option (List ℕ) → Store → Response × Store
unfolding confirmed
ack_seqs f m none s = (respond 400 (message "decode ack"), s)
ack_seqs f m (some seqs) s = confirmed (ack f m.id seqs s)

deleted : Result (Unit {0}) × Store → Response × Store
deleted (ok _, s) = (respond 204 nothing, s)
deleted (err e, s) = (respond 500 (message "delete mailbox"), s)

made : Result Created × Store → Response × Store
made (ok c, s) = (respond 201 (minted c), s)
made (err e, s) = (respond 507 (failure e), s)

is_admin : Bytes → Request → Bool
is_admin admin_token r = not (admin_token == []) && (bearer r == admin_token)

-- The routes of `Handler` under /v1/mailboxes.
pub data Route : Type 0 where
  create_mailbox delete_mailbox send_message receive_messages ack_messages : Route

module _ (sha256_hex : Bytes → Bytes) where
  unfoldable pub token_matches : Bytes → Bytes → Bool
  token_matches presented want_sha = sha256_hex presented == want_sha

  unfoldable pub auth : Faults → Bool → Request → Store → Option Meta
  unfolding token_matches bearer wanted
  auth f write r s = elim (load_meta f s r.id) [
    | err e ↦ none
    | ok m ↦ if token_matches (bearer r) (wanted write m) then some m else none
  ]

  pub handle_send : Faults → ℕ → Request → Store → Response × Store
  unfolding send_body
  handle_send f now r s = elim (auth f true r s) [
    | none ↦ (no_mailbox, s)
    | some m ↦ send_body f now m (read_body r.body) s
  ]

  pub handle_receive : Faults → ℕ → Request → Store → Response × Store
  unfolding received
  handle_receive f now r s = elim (auth f false r s) [
    | none ↦ (no_mailbox, s)
    | some m ↦ received (receive f now m.id 100 s)
  ]

  pub handle_ack : Faults → Request → Store → Response × Store
  unfolding ack_seqs
  handle_ack f r s = elim (auth f false r s) [
    | none ↦ (no_mailbox, s)
    | some m ↦ ack_seqs f m r.seqs s
  ]

  pub handle_delete : Faults → Request → Store → Response × Store
  unfolding deleted
  handle_delete f r s = elim (auth f true r s) [
    | none ↦ (no_mailbox, s)
    | some m ↦ deleted (delete f m.id s)
  ]

  pub handle_create :
      Bytes
      → Faults
      → ℕ
      → Option Bytes
      → Option Bytes
      → Option Bytes
      → Request
      → Store
      → Response × Store
  unfolding made is_admin
  handle_create admin_token f now id write_token read_token r s =
      if is_admin admin_token r
      then made (create sha256_hex f now id write_token read_token s)
      else (respond 401 (message "admin token required"), s)

  pub serve :
      Bytes
      → Faults
      → ℕ
      → Option Bytes
      → Option Bytes
      → Option Bytes
      → Route
      → Request
      → Store
      → Response × Store
  unfolding handle_create handle_delete handle_send handle_receive handle_ack
  serve admin f now id w r create_mailbox q s = handle_create admin f now id w r q s
  serve admin f now id w r delete_mailbox q s = handle_delete f q s
  serve admin f now id w r send_message q s = handle_send f now q s
  serve admin f now id w r receive_messages q s = handle_receive f now q s
  serve admin f now id w r ack_messages q s = handle_ack f q s
