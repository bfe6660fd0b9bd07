-- ===== src/Mailbox/Server/Access.antt =====
-- internal/mailbox/mailbox.go: who gets through to the store.
use flightdeck.Base.{
  ℕ, ◌≡◌, ◌≢◌, inl, inr, Bool, true, false, Option, none, [], arith, ◌==◌, ==_iff, nat_eq,
  string_eq, Bool-cases,
}
use flightdeck.Base.Bytes.{Bytes, bytes_eq, bytes_beq_iff}
use flightdeck.Mailbox.State.{Store, Meta, MetaFile, Faults, box, Result-cases}
use flightdeck.Mailbox.Store.{load_meta}
use flightdeck.Mailbox.Store.Invariant.{load_meta-eq-ok}
use flightdeck.Mailbox.Server.{
  Request, Response, respond, message, bearer, token_matches, wanted, auth, serve, Route,
  create_mailbox, delete_mailbox, send_message, receive_messages, ack_messages, handle_create,
  handle_delete, handle_send, handle_receive, handle_ack, is_admin,
}

-- The answer that stands for every refusal of a route.
abbrev pub refusal : Route → Response
refusal create_mailbox = respond 401 (message "admin token required")
refusal _ = respond 404 (message "mailbox not found")

module _ (sha256_hex : Bytes → Bytes) where
  -- The caller knows the token that the route asks for: the administrator's to make a mailbox, else
  -- the write or the read token of a mailbox that is there.
  abbrev pub Knows : Bytes → Route → Request → Store → Type 0
  Knows admin create_mailbox q s = (admin ≢ []) × (bearer q ≡ admin)
  Knows admin delete_mailbox q s =
      (m : Meta) × ((box s q.id).meta ≡ MetaFile.parsed m)
      × (sha256_hex (bearer q) ≡ m.write_token_sha)
  Knows admin send_message q s =
      (m : Meta) × ((box s q.id).meta ≡ MetaFile.parsed m)
      × (sha256_hex (bearer q) ≡ m.write_token_sha)
  Knows admin receive_messages q s =
      (m : Meta) × ((box s q.id).meta ≡ MetaFile.parsed m)
      × (sha256_hex (bearer q) ≡ m.read_token_sha)
  Knows admin ack_messages q s =
      (m : Meta) × ((box s q.id).meta ≡ MetaFile.parsed m)
      × (sha256_hex (bearer q) ≡ m.read_token_sha)

  auth_needs :
      (f : Faults) (write : Bool) (q : Request) (s : Store)
      → ¬ (
          (m : Meta) × ((box s q.id).meta ≡ MetaFile.parsed m)
          × (sha256_hex (bearer q) ≡ wanted write m))
      → auth sha256_hex f write q s ≡ none
  unfolding auth token_matches
  auth_needs f write q s no_token = elim (Result-cases (load_meta f s q.id)) [
    | inl (e, bad) ↦ rw (bad, auth)
    | inr (m, good) ↦ elim (Bool-cases (sha256_hex (bearer q) == wanted write m)) [
      | inl same ↦ absurd (no_token (m, load_meta-eq-ok f s q.id m good, (==_iff _ _).0 same))
      | inr differ ↦ rw (good, differ, auth)
    ]
  ]

  -- Who does not know the route's token changes nothing and learns nothing: the answer is the one
  -- for a mailbox that does not exist, or the demand for the administrator's token, whatever the
  -- store holds.
  pub stranger_learns_nothing :
      (admin : Bytes) (f : Faults) (now : ℕ) (id w r : Option Bytes) (route : Route) (q : Request)
      (s : Store)
      → ¬ Knows admin route q s
      → serve sha256_hex admin f now id w r route q s ≡ (refusal route, s)
  unfolding serve handle_create handle_delete handle_send handle_receive handle_ack is_admin wanted
  stranger_learns_nothing admin f now id w r create_mailbox q s h = not_admin
    where
      not_admin : handle_create sha256_hex admin f now id w r q s ≡ (refusal create_mailbox, s)
      not_admin = ground (arith, bytes_beq_iff admin [], bytes_beq_iff (bearer q) admin)
  stranger_learns_nothing admin f now id w r delete_mailbox q s h =
      rw (auth_needs f true q s h, handle_delete)
  stranger_learns_nothing admin f now id w r send_message q s h =
      rw (auth_needs f true q s h, handle_send)
  stranger_learns_nothing admin f now id w r receive_messages q s h =
      rw (auth_needs f false q s h, handle_receive)
  stranger_learns_nothing admin f now id w r ack_messages q s h =
      rw (auth_needs f false q s h, handle_ack)
