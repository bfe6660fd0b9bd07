-- ===== src/Mailbox/Store/Leases.antt =====
-- internal/mailbox/mailbox.go: a message that Receive handed out is hidden until its lease ends.
use flightdeck.Mailbox.Store.Loops.{receive-IsSound}
use mathlib.Core.Option.{some-injective}
use flightdeck.Base.{
  All-map, ℕ, ◌+◌, ◌<◌, ◌≡◌, refl, subst, ◌≢◌, ◌⊎◌, inl, inr, Bool, true, false, Option, none, some,
  List, [], ◌∷◌, ◌++◌, arith, leb, nat_beq_iff, ==_refl, nat_eq, string_eq, if_elim, Bool-cases,
  Option-cases, length, All, All-append,
}
use flightdeck.Base.Assoc.{lookup, remove, lookup-remove}
use flightdeck.Base.Bytes.{Bytes, bytes_eq}
use flightdeck.Mailbox.State.{
  Store, Message, MessageFile, Faults, Result, ok, lease_ttl, box, put_leases, put_lease,
  Result-cases,
}
use flightdeck.Mailbox.Store.{
  load_meta, Scan, is_leased, take_file, visit, scan, finish, drain, receive,
}
use flightdeck.Mailbox.Boxes.{put_lease_lem}
use flightdeck.Mailbox.Store.Invariant.{IsSound}

-- What the loop of Receive keeps, from the leases `h0` on.
record Handed (now : ℕ) (h0 : ℕ → Option ℕ) (c : Scan) : Type 0 where
  leased : All (λ (m : Message). c.held m.seq ≡ some (now + lease_ttl)) c.out
  unleased : All (λ (m : Message). is_leased now (h0 m.seq) ≡ false) c.out
  moved : (q : ℕ) → (c.held q ≡ h0 q) ⊎ (c.held q ≡ some (now + lease_ttl))
  numbered :
      (seq : ℕ) (msg : Message) → lookup seq c.files ≡ some (MessageFile.parsed msg) → msg.seq ≡ seq

put_lease-some :
    (seq q now : ℕ) (held : ℕ → Option ℕ)
    → held q ≡ some (now + lease_ttl)
    → put_lease seq (some (now + lease_ttl)) held q ≡ some (now + lease_ttl)
unfolding put_lease
put_lease-some seq q now held h = ground arith

-- Where a lease has run out, it is one from before.
old_lease :
    (now seq : ℕ) (h0 : ℕ → Option ℕ) (c : Scan)
    → Handed now h0 c
    → is_leased now (c.held seq) ≡ false
    → is_leased now (h0 seq) ≡ false
unfolding is_leased
old_lease now seq h0 c v e = ground (arith, v.moved seq)

Handed-parsed :
    (now seq : ℕ) (h0 : ℕ → Option ℕ) (msg : Message) (c : Scan)
    → Handed now h0 c
    → is_leased now (c.held seq) ≡ false
    → lookup seq c.files ≡ some (MessageFile.parsed msg)
    → Handed now h0
        (record c { out = c.out ++ msg ∷ []; held = put_lease seq (some (now + lease_ttl)) c.held })
Handed-parsed now seq h0 msg c v e l = record {
  leased =
      All-append _ c.out (msg ∷ [])
        (All-map (λ m h. put_lease-some seq m.seq now c.held h) c.out v.leased)
        (
          ground (
            arith,
            v.numbered seq msg l,
            put_lease_lem seq msg.seq (some (now + lease_ttl)) c.held,
            nat_beq_iff msg.seq seq,
          ),
          tt,
        );
  unleased =
      All-append _ c.out (msg ∷ []) v.unleased
        (ground (arith, v.numbered seq msg l, old_lease now seq h0 c v e), tt);
  moved = λ q. ground (arith, v.moved q, put_lease_lem seq q (some (now + lease_ttl)) c.held);
  numbered = v.numbered;
}

Handed-remove :
    (now seq : ℕ) (h0 : ℕ → Option ℕ) (c : Scan)
    → Handed now h0 c
    → Handed now h0 (record c { files = remove seq c.files })
Handed-remove now seq h0 c v = record {
  leased = v.leased;
  unleased = v.unleased;
  moved = v.moved;
  numbered = λ q msg l. ground (arith, v.numbered q msg, lookup-remove seq q c.files);
}

Handed-take :
    (f : Faults) (now seq : ℕ) (h0 : ℕ → Option ℕ) (o : Option MessageFile) (c c' : Scan)
    → Handed now h0 c
    → is_leased now (c.held seq) ≡ false
    → lookup seq c.files ≡ o
    → take_file f now seq o c ≡ some c'
    → Handed now h0 c'
unfolding take_file
Handed-take f now seq h0 none c c' v e l t = subst (Handed now h0) (some-injective c c' t) v
Handed-take f now seq h0 (some MessageFile.garbled) c c' v e l t =
    subst (Handed now h0) (ground arith)
      (if_elim (Handed now h0) (f.unremovable seq) (λ _. v) λ _. Handed-remove now seq h0 c v)
Handed-take f now seq h0 (some (MessageFile.parsed msg)) c c' v e l t =
    subst (Handed now h0) (ground arith) (Handed-parsed now seq h0 msg c v e l)

Handed-visit :
    (f : Faults) (now seq : ℕ) (h0 : ℕ → Option ℕ) (c c' : Scan)
    → Handed now h0 c
    → visit f now seq c ≡ some c'
    → Handed now h0 c'
unfolding visit
Handed-visit f now seq h0 c c' v h = elim (Bool-cases (is_leased now (c.held seq))) [
  | inl e ↦ subst (Handed now h0) (ground arith) v
  | inr e ↦ Handed-take f now seq h0 (lookup seq c.files) c c' v e refl (ground arith)
]

Handed-scan :
    (f : Faults) (now limit : ℕ) (h0 : ℕ → Option ℕ) (seqs : List ℕ) (c : Scan)
    → Handed now h0 c
    → Handed now h0 (scan f now limit seqs c).1
unfolding scan
Handed-scan f now limit h0 [] c v = v
Handed-scan f now limit h0 (seq ∷ rest) c v = elim (Bool-cases (leb limit (length c.out))) [
  | inl full ↦ rw full v
  | inr room ↦ elim (Option-cases (visit f now seq c)) [
    | inl failed ↦ rw (room, failed, scan) v
    | inr (c', went) ↦
        rw (room, went, scan)
          (Handed-scan f now limit h0 rest c' (Handed-visit f now seq h0 c c' v went))
  ]
]

-- What a successful Receive answers with, and the leases that it leaves.
pub record HandedOut (now : ℕ) (id : Bytes) (s s' : Store) (out : List Message) : Type 0 where
  pub unleased : All (λ (m : Message). is_leased now (s.leases id m.seq) ≡ false) out
  pub leased : All (λ (m : Message). s'.leases id m.seq ≡ some (now + lease_ttl)) out

still_leased :
    (later exp : ℕ) (held : ℕ → Option ℕ) (p q : ℕ)
    → later < exp
    → held p ≡ some exp
    → is_leased later (held q) ≡ false
    → p ≡ q
    → ⊥
unfolding is_leased
still_leased later exp held p q soon h free same = ground arith

finish-HandedOut :
    (now : ℕ) (id : Bytes) (s : Store) (done : Bool) (c : Scan) (out : List Message)
    → Handed now (s.leases id) c
    → (finish id s (done, c)).0 ≡ ok out
    → HandedOut now id s (finish id s (done, c)).1 out
unfolding finish put_leases
finish-HandedOut now id s false c out v h = cc
finish-HandedOut now id s true c out v h =
    let e : c.out ≡ out = ground arith in
    record {
      unleased =
          subst (λ xs. All (λ (m : Message). is_leased now (s.leases id m.seq) ≡ false) xs) e
            v.unleased;
      leased = rw ==_refl (
          subst (λ xs. All (λ (m : Message). c.held m.seq ≡ some (now + lease_ttl)) xs) e v.leased);
    }

receive-HandedOut :
    (f : Faults) (now limit : ℕ) (id : Bytes) (s : Store) (out : List Message)
    → IsSound s
    → (receive f now id limit s).0 ≡ ok out
    → HandedOut now id s (receive f now id limit s).1 out
unfolding receive drain
receive-HandedOut f now limit id s out v = elim (Result-cases (load_meta f s id)) [
  | inl (e, bad) ↦ rw (bad, receive) (λ h. cc h)
  | inr (m, good) ↦
      rw (good, receive)
        (if_elim (λ (r : Result (List Message) × Store). r.0 ≡ ok out → HandedOut now id s r.1 out)
          f.box_unreadable (λ _ h. cc h)
          λ _. finish-HandedOut now id s _ _ out (Handed-scan f now limit (s.leases id) _ _ start))
]
  where
    start :
        Handed now (s.leases id) (record { out = []; held = s.leases id; files = (box s id).files })
    start = record {
      leased = tt;
      unleased = tt;
      moved = λ q. inl refl;
      numbered = (v.sound id).numbered;
    }

-- Two Receives of a mailbox, the second on the store that the first leaves and less than a
-- minute after it, have no message number in common in their answers, whatever fails in either,
-- if the store was sound.
pub receive_exclusive :
    (f f' : Faults) (now later limit limit' : ℕ) (id : Bytes) (s : Store) (out out' : List Message)
    → IsSound s
    → later < now + lease_ttl
    → (receive f now id limit s).0 ≡ ok out
    → (receive f' later id limit' (receive f now id limit s).1).0 ≡ ok out'
    → All (λ (a : Message). All (λ (b : Message). a.seq ≢ b.seq) out') out
receive_exclusive f f' now later limit limit' id s out out' v soon h h' =
    All-map (λ a held. All-map (λ b free same. clash a b held free same) out' second.unleased) out
      first.leased
  where
    s1 : Store
    s1 = (receive f now id limit s).1

    first : HandedOut now id s s1 out
    first = receive-HandedOut f now limit id s out v h

    second : HandedOut later id s1 (receive f' later id limit' s1).1 out'
    second = receive-HandedOut f' later limit' id s1 out' (receive-IsSound f now id limit s v) h'

    clash :
        (a b : Message)
        → s1.leases id a.seq ≡ some (now + lease_ttl)
        → is_leased later (s1.leases id b.seq) ≡ false
        → a.seq ≡ b.seq
        → ⊥
    clash a b held free same =
        still_leased later (now + lease_ttl) (s1.leases id) a.seq b.seq soon held free same
