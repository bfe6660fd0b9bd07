-- ===== src/Mailbox/Store/Courier.antt =====
-- internal/mailbox/mailbox.go: the promise of the courier, over any history between Send and Receive.
use flightdeck.Base.{
  Among, take_all, ℕ, ◌+◌, ◌≤◌, ◌≡◌, refl, sym, ap, ◌∙◌, subst, ◌⊎◌, inl, inr, true, false, Option,
  none, some, List, [], ◌∷◌, arith, leb, nat_beq_iff, ◌==◌, ==_iff, nat_eq, string_eq, if_elim,
  Bool-cases, length, All,
}
use flightdeck.Base.Assoc.{Assoc, keys, lookup, set, lookup-set_self}
use flightdeck.Base.Bytes.{Bytes, bytes_eq}
use flightdeck.Mailbox.State.{
  Store, Box, Meta, MetaFile, Message, MessageFile, Faults, Result, ok, no_faults, box, put_box,
  pending_seqs, Result-cases, valid_id, sort_seqs, insert_seq, max_pending,
}
use flightdeck.Mailbox.Store.{load_meta, save_meta, saved, is_leased, receive, append, send}
use flightdeck.Mailbox.Boxes.{box-put_box, length-pending_seqs}
use flightdeck.Mailbox.Store.Invariant.{IsSound, load_meta-eq-ok}
use flightdeck.Mailbox.Store.Steps.{Call, run, DrawsFresh, run-IsSound, send-IsSound}
use flightdeck.Mailbox.Store.Durability.{Holds}
use flightdeck.Mailbox.Store.Retention.{Spares, run-Holds}
use flightdeck.Mailbox.Store.Delivery.{deliverable, prepend, receive_lem}

Among-keys :
    (q : ℕ) (file : MessageFile) (m : Assoc ℕ MessageFile)
    → lookup q m ≡ some file
    → Among q (keys m)
unfolding lookup
Among-keys q file [] h = cc
Among-keys q file ((j, v) ∷ m) h = elim (Bool-cases (j == q)) [
  | inl e ↦ inl ((nat_beq_iff j q).0 e)
  | inr e ↦ inr (Among-keys q file m (ground arith))
]

Among-insert_seq : (q n : ℕ) (ns : List ℕ) → (n ≡ q) ⊎ Among q ns → Among q (insert_seq n ns)
unfolding insert_seq
Among-insert_seq q n [] (inl e) = inl e
Among-insert_seq q n [] (inr a) = elim a [ ]
Among-insert_seq q n (m ∷ ns) (inl e) =
    if_elim (Among q) (leb n m) (λ _. inl e) λ _. inr (Among-insert_seq q n ns (inl e))
Among-insert_seq q n (m ∷ ns) (inr (inl e)) =
    if_elim (Among q) (leb n m) (λ _. inr (inl e)) λ _. inl e
Among-insert_seq q n (m ∷ ns) (inr (inr b)) =
    if_elim (Among q) (leb n m) (λ _. inr (inr b)) λ _. inr (Among-insert_seq q n ns (inr b))

Among-sort_seqs : (q : ℕ) (ns : List ℕ) → Among q ns → Among q (sort_seqs ns)
unfolding sort_seqs
Among-sort_seqs q [] a = a
Among-sort_seqs q (n ∷ ns) (inl e) = Among-insert_seq q n (sort_seqs ns) (inl e)
Among-sort_seqs q (n ∷ ns) (inr a) =
    Among-insert_seq q n (sort_seqs ns) (inr (Among-sort_seqs q ns a))

Among-prepend :
    (msg : Message) (o : Option MessageFile) (later : List Message)
    → Among msg later
    → Among msg (prepend o later)
Among-prepend msg none later a = a
Among-prepend msg (some MessageFile.garbled) later a = a
Among-prepend msg (some (MessageFile.parsed m)) later a = inr a

Among-deliverable :
    (now : ℕ) (held : ℕ → Option ℕ) (files : Assoc ℕ MessageFile) (msg : Message) (seqs : List ℕ)
    → lookup msg.seq files ≡ some (MessageFile.parsed msg)
    → is_leased now (held msg.seq) ≡ false
    → Among msg.seq seqs
    → Among msg (deliverable now held files seqs)
unfolding deliverable
Among-deliverable now held files msg [] l f a = a
Among-deliverable now held files msg (seq ∷ rest) l f (inl e) = rw (e, f, l, deliverable) (inl refl)
Among-deliverable now held files msg (seq ∷ rest) l f (inr a) =
    if_elim (Among msg) (is_leased now (held seq))
      (λ _. Among-deliverable now held files msg rest l f a)
      λ _. Among-prepend msg (lookup seq files) _ (Among-deliverable now held files msg rest l f a)

length-deliverable-le :
    (now : ℕ) (held : ℕ → Option ℕ) (files : Assoc ℕ MessageFile) (seqs : List ℕ)
    → length (deliverable now held files seqs) ≤ length seqs
unfolding deliverable
length-deliverable-le now held files [] = omega arith
length-deliverable-le now held files (seq ∷ rest) =
    ground (arith, length-deliverable-le now held files rest)

-- A message that is held, with no lease on it, is handed out where the limit is no obstacle.
held_handed_out :
    (later limit : ℕ) (id : Bytes) (msg : Message) (s : Store)
    → IsSound s
    → valid_id id ≡ true
    → Holds id msg s
    → is_leased later (s.leases id msg.seq) ≡ false
    → length (box s id).files ≤ limit
    → (out : List Message) × ((receive no_faults later id limit s).0 ≡ ok out) × Among msg out
held_handed_out later limit id msg s v valid h free room = (out, answered, there)
  where
    out : List Message
    out = deliverable later (s.leases id) (box s id).files (pending_seqs (box s id))

    loaded : load_meta no_faults s id ≡ ok h.meta
    loaded = unfold load_meta in ground (arith, h.parsed, valid)

    answered : (receive no_faults later id limit s).0 ≡ ok out
    answered =
        receive_lem later limit id h.meta s v loaded
        ∙ ap ok (
            take_all limit out (
              omega (
                arith,
                length-deliverable-le later (s.leases id) (box s id).files
                    (pending_seqs (box s id)),
                length-pending_seqs (box s id),
              )))

    there : Among msg out
    there =
        Among-deliverable later (s.leases id) (box s id).files msg (pending_seqs (box s id))
          h.stored free
          (unfold pending_seqs in
            Among-sort_seqs msg.seq (keys (box s id).files)
              (Among-keys msg.seq (MessageFile.parsed msg) (box s id).files h.stored))

append-announces :
    (f : Faults) (now n : ℕ) (id body : Bytes) (m : Meta) (s : Store)
    → m.id ≡ id
    → (append f now id body m s).0 ≡ ok n
    → Holds id (record { seq = n; sent_at = now; body = body }) (append f now id body m s).1
unfolding append save_meta
append-announces f now n id body m s own =
    if_elim P f.box_unreadable (λ _ h. cc h)
      λ _.
        if_elim P (leb max_pending (length (pending_seqs (box s id)))) (λ _ h. cc h)
          λ _.
            if_elim P f.message_unwritable (λ _ h. cc h)
              λ _.
                rw (there, save_meta)
                  (if_elim (λ r. P (saved m.next_seq s1 r)) f.meta_unwritable (λ _ h. cc h)
                    λ _ h. written (ground arith))
  where
    P : Result ℕ × Store → Type 0
    P r = r.0 ≡ ok n → Holds id (record { seq = n; sent_at = now; body = body }) r.1

    env : Message
    env = record { seq = m.next_seq; sent_at = now; body = body }

    b1 : Box
    b1 = record (box s id) { files = set m.next_seq (MessageFile.parsed env) (box s id).files }

    s1 : Store
    s1 = put_box id b1 s

    b2 : Box
    b2 = record b1 { meta = MetaFile.parsed (record m { next_seq = m.next_seq + 1 }) }

    there : lookup m.id s1.boxes ≡ some b1
    there = unfold put_box in rw own (lookup-set_self id b1 s.boxes)

    written :
        m.next_seq ≡ n
        → Holds id (record { seq = n; sent_at = now; body = body }) (put_box m.id b2 s1)
    written e =
        let same : (m.id == id) ≡ true = (==_iff m.id id).1 own in
        rw (box-put_box, same)
          (record {
            meta = record m { next_seq = m.next_seq + 1 };
            parsed = refl;
            given = omega arith;
            stored =
                rw (← e) (lookup-set_self m.next_seq (MessageFile.parsed env) (box s id).files);
          })

send-announces :
    (f : Faults) (now n : ℕ) (id body : Bytes) (s : Store)
    → IsSound s
    → (send f now id body s).0 ≡ ok n
    → (valid_id id ≡ true)
      × Holds id (record { seq = n; sent_at = now; body = body }) (send f now id body s).1
unfolding send
send-announces f now n id body s v = elim (Result-cases (load_meta f s id)) [
  | inl (e, bad) ↦ rw (bad, send) (λ h. cc h)
  | inr (m, good) ↦
      rw (good, send)
        λ h. (
          unfold load_meta in ground arith,
          append-announces f now n id body m s
              ((v.sound id).own_id m (load_meta-eq-ok f s id m good)) h,
        )
]

-- A message whose Send succeeded is delivered at least once. Take any sound store, any history
-- after that Send in which no Ack names the message's number in that mailbox and no Delete names
-- the mailbox, whatever fails in it, with the ids that it draws new. Then a Receive in which
-- nothing fails answers with the message, unless the message is leased at that time, or the limit
-- is below the number of stored messages.
pub at_least_once :
    (sha256_hex : Bytes → Bytes) (f : Faults) (now later n limit : ℕ) (id body : Bytes)
    (history : List (Faults × Call)) (s : Store)
    → IsSound s
    → (send f now id body s).0 ≡ ok n
    → DrawsFresh sha256_hex history (send f now id body s).1
    → All (λ c. Spares id (record { seq = n; sent_at = now; body = body }) c.1) history
    → (s' : Store) → s' ≡ run sha256_hex history (send f now id body s).1
    → is_leased later (s'.leases id n) ≡ false
    → length (box s' id).files ≤ limit
    → (out : List Message) × ((receive no_faults later id limit s').0 ≡ ok out)
      × Among (record { seq = n; sent_at = now; body = body }) out
at_least_once sha256_hex f now later n limit id body history s v sent d spared s' e free room =
    let (valid, held) = send-announces f now n id body s v sent in
    let v1 = send-IsSound f now id body s v in
    held_handed_out later limit id (record { seq = n; sent_at = now; body = body }) s'
      (subst IsSound (sym e) (run-IsSound sha256_hex history (send f now id body s).1 d v1)) valid
      (subst (Holds id (record { seq = n; sent_at = now; body = body })) (sym e) (
        run-Holds sha256_hex history id (record { seq = n; sent_at = now; body = body })
          (send f now id body s).1 d v1 spared held))
      free room
