-- ===== src/Mailbox/Store/Tests.antt =====
-- internal/mailbox/mailbox.go: a mailbox with one message, and the theorems on it.
use flightdeck.Mailbox.Boxes.{IsAscending}
use flightdeck.Base.{
  ◌↔◌, ℕ, ◌-◌, ◌≤◌, ◌≡◌, refl, ◌≢◌, false, none, some, List, [], ◌∷◌, arith, nat_eq, string_eq,
  length, take, All, Among,
}
use flightdeck.Base.Assoc.{keys, lookup, set}
use flightdeck.Base.Bytes.{Bytes, codes, bytes_eq}
use flightdeck.Mailbox.State.{
  Store, Meta, Message, Faults, ok, no_faults, box, pending_seqs, valid_id, all_hex,
}
use flightdeck.Mailbox.Store.{
  load_meta, create, send, receive, ack, scan, visit, is_leased, discard,
}
use flightdeck.Mailbox.Store.Invariant.{IsSound, empty_box-BoxIsSound}
use flightdeck.Mailbox.Store.Steps.{
  Call, creates, sends, receives, acks, deletes, step, run, DrawsFresh, run-IsSound,
}
use flightdeck.Mailbox.Store.Delivery.{deliverable, receive_exact}
use flightdeck.Mailbox.Store.Leases.{receive_exclusive}
use flightdeck.Mailbox.Store.Retention.{Spares}
use flightdeck.Mailbox.Store.Courier.{at_least_once}

abbrev tag_hash : Bytes → Bytes
tag_hash token = 35 ∷ token

abbrev an_id : Bytes
an_id = codes "00000000000000000000000000000000deadbeefdeadbeefdeadbeefdeadbeef"

abbrev empty_store : Store
empty_store = record { boxes = []; leases = λ _ _. none }

empty_store-IsSound : IsSound empty_store
unfolding box lookup
empty_store-IsSound = record { capped = omega arith; sound = λ id. empty_box-BoxIsSound id }

abbrev opening : Call
opening = creates 5 (some an_id) (some (codes "w")) (some (codes "r"))

abbrev a_history : List (Faults × Call)
a_history =
    (no_faults, opening)
    ∷ (no_faults, sends 6 an_id (codes "hello"))
    ∷ (no_faults, receives 7 an_id 10)
    ∷ (no_faults, acks an_id (1 ∷ []))
    ∷ (no_faults, sends 8 an_id (codes "again"))
    ∷ []

abbrev a_store : Store
a_store = run tag_hash a_history empty_store

a_history-DrawsFresh : DrawsFresh tag_hash a_history empty_store
unfolding lookup
a_history-DrawsFresh = (refl, (tt, (tt, (tt, (tt, tt)))))

a_store-IsSound : IsSound a_store
a_store-IsSound =
    run-IsSound tag_hash a_history empty_store a_history-DrawsFresh empty_store-IsSound

abbrev a_message : Message
a_message = record { seq = 2; sent_at = 8; body = codes "again" }

a_store-pending : pending_seqs (box a_store an_id) ≡ 2 ∷ []
unfolding load_meta valid_id all_hex lookup run step send ack receive create set pending_seqs
    discard scan visit flightdeck.Base.Assoc.remove
a_store-pending = refl

run-IsSound_example : IsSound (
    run tag_hash
      ((no_faults, sends 9 an_id (codes "more")) ∷ (no_faults, deletes an_id) ∷ [])
      a_store)
run-IsSound_example =
    run-IsSound tag_hash
      ((no_faults, sends 9 an_id (codes "more")) ∷ (no_faults, deletes an_id) ∷ []) a_store
      (tt, (tt, tt)) a_store-IsSound

abbrev a_meta : Meta
a_meta = record {
  id = an_id;
  write_token_sha = tag_hash (codes "w");
  read_token_sha = tag_hash (codes "r");
  created_at = 5;
  next_seq = 3;
}

a_store-meta : load_meta no_faults a_store an_id ≡ ok a_meta
unfolding load_meta valid_id all_hex lookup run step send ack receive create set pending_seqs
    discard scan visit flightdeck.Base.Assoc.remove
a_store-meta = refl

receive_exact_example :
    (seqs : List ℕ) × IsAscending seqs
    × ((q : ℕ) → Among q seqs ↔ Among q (keys (box a_store an_id).files))
    × ((receive no_faults 9 an_id 10 a_store).0
        ≡ ok (take 10 (deliverable 9 (a_store.leases an_id) (box a_store an_id).files seqs)))
receive_exact_example = receive_exact 9 10 an_id a_meta a_store a_store-IsSound a_store-meta

first_out : (receive no_faults 9 an_id 10 a_store).0 ≡ ok (a_message ∷ [])
unfolding load_meta valid_id all_hex lookup run step send ack receive create set pending_seqs
    discard scan visit flightdeck.Base.Assoc.remove
first_out = refl

second_out : (receive no_faults 20 an_id 10 (receive no_faults 9 an_id 10 a_store).1).0 ≡ ok []
unfolding load_meta valid_id all_hex lookup run step send ack receive create set pending_seqs
    discard scan visit flightdeck.Base.Assoc.remove
second_out = refl

receive_exclusive_example :
    All (λ (a : Message). All (λ (b : Message). a.seq ≢ b.seq) []) (a_message ∷ [])
receive_exclusive_example =
    receive_exclusive no_faults no_faults 9 20 10 10 an_id a_store (a_message ∷ []) []
      a_store-IsSound (omega arith) first_out second_out

abbrev between : List (Faults × Call)
between = (no_faults, receives 10 an_id 5) ∷ (no_faults, acks an_id (2 ∷ [])) ∷ []

abbrev last_store : Store
last_store = run tag_hash between (send no_faults 9 an_id (codes "news") a_store).1

sent_news : (send no_faults 9 an_id (codes "news") a_store).0 ≡ ok 3
unfolding load_meta valid_id all_hex lookup run step send ack receive create set pending_seqs
    discard scan visit flightdeck.Base.Assoc.remove
sent_news = refl

free_again : is_leased 90000000000 (last_store.leases an_id 3) ≡ false
unfolding load_meta valid_id all_hex lookup run step send ack receive create set pending_seqs
    discard scan visit flightdeck.Base.Assoc.remove
free_again = refl

few_files : length (box last_store an_id).files ≤ 50
unfolding load_meta valid_id all_hex lookup run step send ack receive create set pending_seqs
    discard scan visit flightdeck.Base.Assoc.remove
few_files = omega arith

spared : All (λ c. Spares an_id (record { seq = 3; sent_at = 9; body = codes "news" }) c.1) between
spared = (tt, ((λ _. (ground arith, tt)), tt))

at_least_once_example :
    (out : List Message) × ((receive no_faults 90000000000 an_id 50 last_store).0 ≡ ok out)
    × Among (record { seq = 3; sent_at = 9; body = codes "news" }) out
at_least_once_example =
    at_least_once tag_hash no_faults 9 90000000000 3 50 an_id (codes "news") between a_store
      a_store-IsSound sent_news (tt, (tt, tt)) spared last_store refl free_again few_files
