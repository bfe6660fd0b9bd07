-- ===== src/Mailbox/Store/Durability.antt =====
-- internal/mailbox/mailbox.go: a message that Send announced stays stored until it is acked or its
-- mailbox is deleted.
use flightdeck.Base.{
  ℕ, ◌<◌, ◌≡◌, refl, ◌≢◌, inl, inr, Option, none, some, List, [], ◌∷◌, arith, leb, nat_beq_iff,
  ◌==◌, ==_iff, nat_eq, string_eq, Bool-cases, Option-cases, length, All,
}
use flightdeck.Base.Assoc.{Assoc, lookup, lookup-remove}
use flightdeck.Base.Bytes.{Bytes, bytes_eq}
use flightdeck.Mailbox.State.{
  Store, Box, Meta, MetaFile, Message, MessageFile, Faults, box, put_box, put_leases,
}
use flightdeck.Mailbox.Store.{
  Scan, is_leased, take_file, visit, scan, Acked, stuck_on, drop_file, discard,
}
use flightdeck.Mailbox.Boxes.{box-put_box, box-put_leases}

-- The mailbox holds the message, and its number is given.
pub record BoxHolds (msg : Message) (b : Box) : Type 0 where
  pub meta : Meta
  pub parsed : b.meta ≡ MetaFile.parsed meta
  pub given : msg.seq < meta.next_seq
  pub stored : lookup msg.seq b.files ≡ some (MessageFile.parsed msg)

abbrev pub Holds : Bytes → Message → Store → Type 0
Holds id msg s = BoxHolds msg (box s id)

-- The files keep the message.
abbrev pub Keeps : Message → Assoc ℕ MessageFile → Type 0
Keeps msg files = lookup msg.seq files ≡ some (MessageFile.parsed msg)

take_file-Keeps :
    (f : Faults) (now seq : ℕ) (o : Option MessageFile) (msg : Message) (c c' : Scan)
    → lookup seq c.files ≡ o
    → take_file f now seq o c ≡ some c'
    → Keeps msg c.files
    → Keeps msg c'.files
unfolding take_file
take_file-Keeps f now seq none msg c c' l t k = ground arith
take_file-Keeps f now seq (some MessageFile.garbled) msg c c' l t k =
    ground (arith, lookup-remove seq msg.seq c.files, nat_beq_iff seq msg.seq)
take_file-Keeps f now seq (some (MessageFile.parsed m)) msg c c' l t k = ground arith

visit-Keeps :
    (f : Faults) (now seq : ℕ) (msg : Message) (c c' : Scan)
    → visit f now seq c ≡ some c'
    → Keeps msg c.files
    → Keeps msg c'.files
unfolding visit
visit-Keeps f now seq msg c c' h k = elim (Bool-cases (is_leased now (c.held seq))) [
  | inl e ↦ ground arith
  | inr e ↦ take_file-Keeps f now seq (lookup seq c.files) msg c c' refl (ground arith) k
]

pub scan-Keeps :
    (f : Faults) (now limit : ℕ) (seqs : List ℕ) (msg : Message) (c : Scan)
    → Keeps msg c.files
    → Keeps msg (scan f now limit seqs c).1.files
unfolding scan
scan-Keeps f now limit [] msg c k = k
scan-Keeps f now limit (seq ∷ rest) msg c k = elim (Bool-cases (leb limit (length c.out))) [
  | inl full ↦ rw full k
  | inr room ↦ elim (Option-cases (visit f now seq c)) [
    | inl failed ↦ rw (room, failed, scan) k
    | inr (c', went) ↦
        rw (room, went, scan)
          (scan-Keeps f now limit rest msg c' (visit-Keeps f now seq msg c c' went k))
  ]
]

drop_file-Keeps :
    (seq : ℕ) (o : Option MessageFile) (msg : Message) (a : Acked)
    → seq ≢ msg.seq
    → Keeps msg a.files
    → Keeps msg (drop_file seq o a).files
unfolding drop_file
drop_file-Keeps seq none msg a ne k = k
drop_file-Keeps seq (some file) msg a ne k =
    ground (arith, lookup-remove seq msg.seq a.files, nat_beq_iff seq msg.seq)

pub discard-Keeps :
    (f : Faults) (seqs : List ℕ) (msg : Message) (a : Acked)
    → All (λ seq. seq ≢ msg.seq) seqs
    → Keeps msg a.files
    → Keeps msg (discard f seqs a).1.files
unfolding discard
discard-Keeps f [] msg a ne k = k
discard-Keeps f (seq ∷ rest) msg a ne k = elim (Bool-cases (stuck_on f seq (lookup seq a.files))) [
  | inl e ↦ rw (e, discard) k
  | inr e ↦
      rw (e, discard)
        (discard-Keeps f rest msg (drop_file seq (lookup seq a.files) a) ne.1
          (drop_file-Keeps seq (lookup seq a.files) msg a ne.0 k))
]

-- The writes that end Receive and Ack.
pub rewrite-Holds :
    (id i : Bytes) (held : ℕ → Option ℕ) (files : Assoc ℕ MessageFile) (msg : Message) (s : Store)
    → Holds id msg s
    → (i ≡ id → Keeps msg (box s i).files → Keeps msg files)
    → Holds id msg (put_leases i held (put_box i (record (box s i) { files = files }) s))
rewrite-Holds id i held files msg s h k = elim (Bool-cases (i == id)) [
  | inl e ↦
      let p : i ≡ id = (==_iff i id).0 e in
      rw (box-put_leases, box-put_box, e)
        (record {
          meta = h.meta;
          parsed = rw p h.parsed;
          given = h.given;
          stored = k p (rw p h.stored);
        })
  | inr e ↦ rw (box-put_leases, box-put_box, e) h
]
