-- ===== src/Mailbox/Store/Retention.antt =====
-- internal/mailbox/mailbox.go: no call but Ack and Delete loses a message that Send announced.
use flightdeck.Base.{
  ℕ, ◌+◌, ◌<◌, ◌≡◌, refl, sym, ap, ◌∙◌, subst, ◌≢◌, inl, inr, Option, none, some, List, [], ◌∷◌,
  arith, leb, nat_beq_iff, ◌==◌, ==_iff, nat_eq, string_eq, if_elim, Bool-cases, length, All,
}
use flightdeck.Base.Assoc.{lookup, set, remove, lookup-set, lookup-set_self}
use flightdeck.Base.Bytes.{Bytes, bytes_eq}
use flightdeck.Mailbox.State.{
  Store, Box, Meta, MetaFile, Message, MessageFile, Faults, Result, box, put_box, put_leases,
  pending_seqs, Result-cases, max_pending, max_mailboxes,
}
use flightdeck.Mailbox.Store.{
  left_over, remove_all, load_meta, save_meta, saved, Scan, scan, finish, drain, receive, append,
  send, Acked, discard, settle, ack, delete, create, mint, Created,
}
use flightdeck.Mailbox.Boxes.{box-put_leases, box-put_box, box-remove}
use flightdeck.Mailbox.Store.Invariant.{IsSound, load_meta-eq-ok}
use flightdeck.Mailbox.Store.Steps.{
  Call, creates, sends, receives, acks, deletes, step, run, TakesFresh, DrawsFresh, IsFresh,
  step-IsSound, fresh_box,
}
use flightdeck.Mailbox.Store.Durability.{BoxHolds, Holds, scan-Keeps, discard-Keeps, rewrite-Holds}

saved-Holds :
    {A : Type 0} (a : A) (f : Faults) (n : Meta) (b : Box) (id : Bytes) (msg : Message) (s : Store)
    → lookup n.id s.boxes ≡ some b
    → (n.id ≡ id → msg.seq < n.next_seq)
    → Holds id msg s
    → Holds id msg (saved a s (save_meta f n s)).1
unfolding save_meta
saved-Holds a f n b id msg s e g h =
    rw (e, save_meta)
      (if_elim (λ r. Holds id msg (saved a s r).1) f.meta_unwritable (λ _. h)
        λ _. elim (Bool-cases (n.id == id)) [
          | inl q ↦
              let p : n.id ≡ id = (==_iff n.id id).0 q in
              rw (box-put_box, q)
                (record {
                  meta = n;
                  parsed = refl;
                  given = g p;
                  stored = ground (arith, h.stored, stored_there p);
                })
          | inr q ↦ rw (box-put_box, q) h
        ])
  where
    stored_there : n.id ≡ id → box s id ≡ b
    stored_there p = unfold box in rw (← p, e)

append-Holds :
    (f : Faults) (now : ℕ) (i body id : Bytes) (m : Meta) (msg : Message) (s : Store)
    → (box s i).meta ≡ MetaFile.parsed m
    → m.id ≡ i
    → Holds id msg s
    → Holds id msg (append f now i body m s).1
unfolding append
append-Holds f now i body id m msg s e own h =
    if_elim P f.box_unreadable (λ _. h)
      λ _.
        if_elim P (leb max_pending (length (pending_seqs (box s i)))) (λ _. h)
          λ _. if_elim P f.message_unwritable (λ _. h) λ _. written
  where
    P : Result ℕ × Store → Type 0
    P r = Holds id msg r.1

    env : Message
    env = record { seq = m.next_seq; sent_at = now; body = body }

    b1 : Box
    b1 = record (box s i) { files = set m.next_seq (MessageFile.parsed env) (box s i).files }

    before : i ≡ id → msg.seq < m.next_seq
    before p = ground (arith, h.given, h.parsed, ap (λ j. (box s j).meta) p)

    with_file : Holds id msg (put_box i b1 s)
    with_file = elim (Bool-cases (i == id)) [
      | inl q ↦
          let p : i ≡ id = (==_iff i id).0 q in
          rw (box-put_box, q)
            (record {
              meta = h.meta;
              parsed = rw p h.parsed;
              given = h.given;
              stored = ground (
                arith,
                h.stored,
                before p,
                lookup-set m.next_seq msg.seq (MessageFile.parsed env) (box s i).files,
                nat_beq_iff m.next_seq msg.seq,
                ap (λ j. lookup msg.seq (box s j).files) p,
              );
            })
      | inr q ↦ rw (box-put_box, q) h
    ]

    written :
        Holds id msg
          (saved m.next_seq
            (put_box i b1 s)
            (save_meta f (record m { next_seq = m.next_seq + 1 }) (put_box i b1 s))).1
    written =
        saved-Holds m.next_seq f (record m { next_seq = m.next_seq + 1 }) b1 id msg (put_box i b1 s)
          (unfold put_box in
            subst (λ j. lookup j (set i b1 s.boxes) ≡ some b1) (sym own)
              (lookup-set_self i b1 s.boxes))
          (λ p. omega (arith, before (sym own ∙ p))) with_file

-- The call leaves this message of this mailbox alone: no Ack of its number, no Delete.
abbrev pub Spares : Bytes → Message → Call → Type 0
Spares id msg (acks i seqs) = i ≡ id → All (λ seq. seq ≢ msg.seq) seqs
Spares id msg (deletes i) = i ≢ id
Spares id msg _ = Unit

module _ (id : Bytes) (msg : Message) (s : Store) (v : IsSound s) (h : Holds id msg s) where
  send-Holds : (f : Faults) (now : ℕ) (i body : Bytes) → Holds id msg (send f now i body s).1
  unfolding send
  send-Holds f now i body = elim (Result-cases (load_meta f s i)) [
    | inl (e, bad) ↦ rw (bad, send) h
    | inr (m, good) ↦
        let p = load_meta-eq-ok f s i m good in
        rw (good, send) (append-Holds f now i body id m msg s p ((v.sound i).own_id m p) h)
  ]

  receive-Holds :
      (f : Faults) (now : ℕ) (i : Bytes) (limit : ℕ) → Holds id msg (receive f now i limit s).1
  unfolding receive drain finish
  receive-Holds f now i limit = elim (Result-cases (load_meta f s i)) [
    | inl (e, bad) ↦ rw (bad, receive) h
    | inr (m, good) ↦
        rw (good, receive)
          (if_elim (λ (r : Result (List Message) × Store). Holds id msg r.1) f.box_unreadable
            (λ _. h)
            λ _.
              rewrite-Holds id i scanned.held scanned.files msg s h
                (λ p k. scan-Keeps f now limit (pending_seqs (box s i)) msg start k))
  ]
    where
      start : Scan
      start = record { out = []; held = s.leases i; files = (box s i).files }

      scanned : Scan
      scanned = (scan f now limit (pending_seqs (box s i)) start).1

  ack-Holds :
      (f : Faults) (i : Bytes) (seqs : List ℕ)
      → (i ≡ id → All (λ seq. seq ≢ msg.seq) seqs)
      → Holds id msg (ack f i seqs s).1
  unfolding ack settle
  ack-Holds f i seqs spared = elim (Result-cases (load_meta f s i)) [
    | inl (e, bad) ↦ rw (bad, ack) h
    | inr (m, good) ↦
        rw (good, ack)
          (rewrite-Holds id i discarded.held discarded.files msg s h
            (λ p k. discard-Keeps f seqs msg start (spared p) k))
  ]
    where
      start : Acked
      start = record { n = 0; held = s.leases i; files = (box s i).files }

      discarded : Acked
      discarded = (discard f seqs start).1

  delete-Holds : (f : Faults) (i : Bytes) → i ≢ id → Holds id msg (delete f i s).1
  unfolding delete remove_all put_leases
  delete-Holds f i ne = elim (Result-cases (load_meta f s i)) [
    | inl (e, bad) ↦ rw (bad, delete) h
    | inr (m, good) ↦
        rw (good, delete)
          (if_elim (λ (r : Result (Unit {0}) × Store). Holds id msg r.1) f.box_unremovable
            (λ _. subst (BoxHolds msg) (sym left) h) λ _. subst (BoxHolds msg) (sym other) h)
  ]
    where
      left : box (put_box i (left_over f (box s i)) (put_leases i (λ _. none) s)) id ≡ box s id
      left =
          box-put_box i id (left_over f (box s i)) (put_leases i (λ _. none) s)
          ∙ ground (arith, ==_iff i id, box-put_leases i id (λ _. none) s)

      other : box (record s { boxes = remove i s.boxes }) id ≡ box s id
      other = box-remove i id s ∙ ground (arith, ==_iff i id)

  -- A mailbox that is made anew is another one.
  create-Holds :
      (sha256_hex : Bytes → Bytes) (f : Faults) (now : ℕ) (i w r : Option Bytes)
      → IsFresh i s
      → Holds id msg (create sha256_hex f now i w r s).1
  unfolding create
  create-Holds sha256_hex f now i w r fresh =
      if_elim P f.dir_unreadable (λ _. h)
        λ _. if_elim P (leb max_mailboxes (length s.boxes)) (λ _. h) λ _. minted i w r fresh
    where
      P : Result Created × Store → Type 0
      P q = Holds id msg q.1

      other : (i : Bytes) → lookup i s.boxes ≡ none → i ≢ id
      other i fresh p = ground (arith, h.parsed, fresh_box i s fresh, ap (λ j. (box s j).meta) p)

      with_box : (i : Bytes) → i ≢ id → Holds id msg (put_box i (box s i) s)
      with_box i ne =
          subst (BoxHolds msg) (sym (box-put_box i id (box s i) s ∙ ground (arith, ==_iff i id))) h

      minted : (i w r : Option Bytes) → IsFresh i s → Holds id msg (mint sha256_hex f now i w r s).1
      minted (some i) (some w) (some r) fresh =
          unfold mint in
          if_elim P f.box_unmakeable (λ _. h)
            λ _.
              saved-Holds _ f _ (box s i) id msg (put_box i (box s i) s)
                (unfold put_box in lookup-set_self i (box s i) s.boxes)
                (λ p. absurd (other i fresh p)) (with_box i (other i fresh))
      minted (some i) (some w) none fresh = unfold mint in h
      minted (some i) none r fresh = unfold mint in h
      minted none w r fresh = unfold mint in h

module _ (sha256_hex : Bytes → Bytes) where
  step-Holds :
      (f : Faults) (c : Call) (id : Bytes) (msg : Message) (s : Store)
      → TakesFresh c s
      → IsSound s
      → Spares id msg c
      → Holds id msg s
      → Holds id msg (step sha256_hex f c s)
  unfolding step
  step-Holds f (creates now i w r) id msg s d v spared h =
      create-Holds id msg s v h sha256_hex f now i w r d
  step-Holds f (sends now i body) id msg s d v spared h = send-Holds id msg s v h f now i body
  step-Holds f (receives now i limit) id msg s d v spared h =
      receive-Holds id msg s v h f now i limit
  step-Holds f (acks i seqs) id msg s d v spared h = ack-Holds id msg s v h f i seqs spared
  step-Holds f (deletes i) id msg s d v spared h = delete-Holds id msg s v h f i spared

  pub run-Holds :
      (t : List (Faults × Call)) (id : Bytes) (msg : Message) (s : Store)
      → DrawsFresh sha256_hex t s
      → IsSound s
      → All (λ c. Spares id msg c.1) t
      → Holds id msg s
      → Holds id msg (run sha256_hex t s)
  unfolding run
  run-Holds [] id msg s d v spared h = h
  run-Holds ((f, c) ∷ t) id msg s d v spared h =
      run-Holds t id msg (step sha256_hex f c s) d.1 (step-IsSound sha256_hex f c s d.0 v) spared.1
        (step-Holds f c id msg s d.0 v spared.0 h)
