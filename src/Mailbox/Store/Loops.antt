-- ===== src/Mailbox/Store/Loops.antt =====
-- internal/mailbox/mailbox.go: Receive, Ack and Delete only take files away, and keep the invariant.
use flightdeck.Base.{
  Bool, ℕ, ◌≤◌, ◌≡◌, sym, subst, inl, inr, Option, none, some, List, [], ◌∷◌, arith, leb,
  if◌then◌else◌, ◌==◌, nat_eq, string_eq, if_elim, Bool-cases, Option-cases, length,
}
use flightdeck.Base.Assoc.{Assoc, keys, lookup, remove, lookup-remove, length-remove-le}
use flightdeck.Base.Bytes.{Bytes, bytes_eq}
use flightdeck.Mailbox.State.{
  Result-cases, pending_seqs, put_leases, Store, Box, Meta, MetaFile, Message, MessageFile, Faults,
  Result, empty_box, box, put_box, put_leases, pending_seqs,
}
use flightdeck.Mailbox.Store.{
  remove_all, kept_files, left_over, take_file, drain, drop_file, stuck_on, load_meta, Scan,
  take_file, visit, scan, finish, drain, receive, Acked, drop_file, discard, settle, ack, delete,
  stuck_on,
}
use flightdeck.Mailbox.Boxes.{IsDistinct, box-remove, keys-remove-IsDistinct}
use flightdeck.Mailbox.Store.Invariant.{
  BoxIsSound, IsSound, load_meta-eq-ok, box_present, put_box-IsSound, put_leases-IsSound,
  empty_box-BoxIsSound,
}

-- What the loops of Receive and Ack do to the files: they only remove some.
pub record Shrinks (files files' : Assoc ℕ MessageFile) : Type 0 where
  pub shorter : length files' ≤ length files
  pub distinct : IsDistinct (keys files) → IsDistinct (keys files')
  pub kept :
      (seq : ℕ) (file : MessageFile) → lookup seq files' ≡ some file → lookup seq files ≡ some file

pub Shrinks-refl : (files : Assoc ℕ MessageFile) → Shrinks files files
Shrinks-refl files = record { shorter = omega arith; distinct = λ d. d; kept = λ seq file h. h }

pub Shrinks-trans : {a b c : Assoc ℕ MessageFile} → Shrinks a b → Shrinks b c → Shrinks a c
Shrinks-trans p q = record {
  shorter = omega (arith, p.shorter, q.shorter);
  distinct = λ d. q.distinct (p.distinct d);
  kept = λ seq file h. p.kept seq file (q.kept seq file h);
}

pub Shrinks-remove : (seq : ℕ) (files : Assoc ℕ MessageFile) → Shrinks files (remove seq files)
Shrinks-remove seq files = record {
  shorter = length-remove-le seq files;
  distinct = keys-remove-IsDistinct seq files;
  kept = λ q file h. ground (arith, lookup-remove seq q files);
}

pub Shrinks-BoxIsSound :
    {id : Bytes} {b : Box} (files : Assoc ℕ MessageFile)
    → BoxIsSound id b
    → Shrinks b.files files
    → BoxIsSound id (record b { files = files })
Shrinks-BoxIsSound files v p = record {
  bounded = omega (arith, v.bounded, p.shorter);
  distinct = p.distinct v.distinct;
  own_id = v.own_id;
  below = λ m seq file h k. v.below m seq file h (p.kept seq file k);
  numbered = λ seq msg k. v.numbered seq msg (p.kept seq (MessageFile.parsed msg) k);
}

take_file-Shrinks :
    (f : Faults) (now seq : ℕ) (o : Option MessageFile) (c c' : Scan)
    → take_file f now seq o c ≡ some c'
    → Shrinks c.files c'.files
unfolding take_file
take_file-Shrinks f now seq none c c' h = ground (arith, Shrinks-refl c.files)
take_file-Shrinks f now seq (some MessageFile.garbled) c c' h =
    ground (arith, Shrinks-refl c.files, Shrinks-remove seq c.files)
take_file-Shrinks f now seq (some (MessageFile.parsed msg)) c c' h =
    ground (arith, Shrinks-refl c.files)

visit-Shrinks :
    (f : Faults) (now seq : ℕ) (c c' : Scan)
    → visit f now seq c ≡ some c'
    → Shrinks c.files c'.files
unfolding visit
visit-Shrinks f now seq c c' h =
    ground (arith, Shrinks-refl c.files, take_file-Shrinks f now seq (lookup seq c.files) c c')

pub scan-Shrinks :
    (f : Faults) (now limit : ℕ) (seqs : List ℕ) (c : Scan)
    → Shrinks c.files (scan f now limit seqs c).1.files
unfolding scan
scan-Shrinks f now limit [] c = Shrinks-refl c.files
scan-Shrinks f now limit (seq ∷ rest) c = elim (Bool-cases (leb limit (length c.out))) [
  | inl full ↦ rw full (Shrinks-refl c.files)
  | inr room ↦ elim (Option-cases (visit f now seq c)) [
    | inl failed ↦ rw (room, failed, scan) (Shrinks-refl c.files)
    | inr (c', went) ↦
        rw (room, went, scan)
          (Shrinks-trans (visit-Shrinks f now seq c c' went) (scan-Shrinks f now limit rest c'))
  ]
]

drop_file-Shrinks :
    (seq : ℕ) (o : Option MessageFile) (a : Acked) → Shrinks a.files (drop_file seq o a).files
unfolding drop_file
drop_file-Shrinks seq none a = Shrinks-refl a.files
drop_file-Shrinks seq (some file) a = Shrinks-remove seq a.files

pub discard-Shrinks :
    (f : Faults) (seqs : List ℕ) (a : Acked) → Shrinks a.files (discard f seqs a).1.files
unfolding discard
discard-Shrinks f [] a = Shrinks-refl a.files
discard-Shrinks f (seq ∷ rest) a = elim (Bool-cases (stuck_on f seq (lookup seq a.files))) [
  | inl e ↦ rw (e, discard) (Shrinks-refl a.files)
  | inr e ↦
      rw (e, discard)
        (Shrinks-trans (drop_file-Shrinks seq (lookup seq a.files) a)
          (discard-Shrinks f rest (drop_file seq (lookup seq a.files) a)))
]

-- The writes that end Receive and Ack.
pub rewrite-IsSound :
    (id : Bytes) (m : Meta) (held : ℕ → Option ℕ) (files : Assoc ℕ MessageFile) (s : Store)
    → (box s id).meta ≡ MetaFile.parsed m
    → Shrinks (box s id).files files
    → IsSound s
    → IsSound (put_leases id held (put_box id (record (box s id) { files = files }) s))
rewrite-IsSound id m held files s e p v = put_leases-IsSound id held _ (
    put_box-IsSound id (record (box s id) { files = files }) (box s id) s (box_present s id m e)
      (Shrinks-BoxIsSound files (v.sound id) p) v)

drain-IsSound :
    (f : Faults) (now : ℕ) (id : Bytes) (limit : ℕ) (m : Meta) (s : Store)
    → (box s id).meta ≡ MetaFile.parsed m
    → IsSound s
    → IsSound (drain f now id limit s).1
unfolding drain finish
drain-IsSound f now id limit m s e v =
    if_elim (λ (r : Result (List Message) × Store). IsSound r.1) f.box_unreadable (λ _. v)
      λ _.
        rewrite-IsSound id m _ _ s e
          (scan-Shrinks f now limit (pending_seqs (box s id))
            (record { out = []; held = s.leases id; files = (box s id).files }))
          v

pub receive-IsSound :
    (f : Faults) (now : ℕ) (id : Bytes) (limit : ℕ) (s : Store)
    → IsSound s
    → IsSound (receive f now id limit s).1
unfolding receive
receive-IsSound f now id limit s v = elim (Result-cases (load_meta f s id)) [
  | inl (e, h) ↦ rw (h, receive) v
  | inr (m, h) ↦ rw (h, receive) (drain-IsSound f now id limit m s (load_meta-eq-ok f s id m h) v)
]

pub ack-IsSound :
    (f : Faults) (id : Bytes) (seqs : List ℕ) (s : Store) → IsSound s → IsSound (ack f id seqs s).1
unfolding ack settle
ack-IsSound f id seqs s v = elim (Result-cases (load_meta f s id)) [
  | inl (e, h) ↦ rw (h, ack) v
  | inr (m, h) ↦
      rw (h, ack)
        (rewrite-IsSound id m _ _ s (load_meta-eq-ok f s id m h)
          (discard-Shrinks f seqs (record { n = 0; held = s.leases id; files = (box s id).files }))
          v)
]

kept_files-Shrinks :
    (stays : ℕ → Bool) (seqs : List ℕ) (files : Assoc ℕ MessageFile)
    → Shrinks files (kept_files stays seqs files)
unfolding kept_files
kept_files-Shrinks stays [] files = Shrinks-refl files
kept_files-Shrinks stays (seq ∷ rest) files = elim (Bool-cases (stays seq)) [
  | inl e ↦ rw (e, kept_files) (kept_files-Shrinks stays rest files)
  | inr e ↦
      rw (e, kept_files)
        (Shrinks-trans (Shrinks-remove seq files)
          (kept_files-Shrinks stays rest (remove seq files)))
]

-- What is left of a mailbox is sound, with its meta.json or without.
left_over-BoxIsSound :
    (f : Faults) (id : Bytes) (b : Box) → BoxIsSound id b → BoxIsSound id (left_over f b)
unfolding left_over
left_over-BoxIsSound f id b v = elim (Bool-cases f.meta_unremovable) [
  | inl e ↦ rw (e, left_over) kept
  | inr e ↦
      rw (e, left_over)
        (record {
          bounded = kept.bounded;
          distinct = kept.distinct;
          own_id = λ m h. cc;
          below = λ m seq file h k. cc;
          numbered = kept.numbered;
        })
]
  where
    kept : BoxIsSound id (record b { files = kept_files f.unremovable (pending_seqs b) b.files })
    kept = Shrinks-BoxIsSound _ v (kept_files-Shrinks f.unremovable (pending_seqs b) b.files)

pub delete-IsSound : (f : Faults) (id : Bytes) (s : Store) → IsSound s → IsSound (delete f id s).1
unfolding delete remove_all put_leases
delete-IsSound f id s v = elim (Result-cases (load_meta f s id)) [
  | inl (e, h) ↦ rw (h, delete) v
  | inr (m, h) ↦
      rw (h, delete)
        (if_elim (λ (r : Result (Unit {0}) × Store). IsSound r.1) f.box_unremovable
          (λ _.
            put_box-IsSound id (left_over f (box s id)) (box s id) (freed id)
              (box_present s id m (load_meta-eq-ok f s id m h))
              (left_over-BoxIsSound f id (box s id) (v.sound id))
              (put_leases-IsSound id (λ _. none) s v))
          λ _. record {
            capped = omega (arith, length-remove-le id s.boxes, v.capped);
            sound = λ j. subst (BoxIsSound j) (sym (box-remove id j s)) (gone j);
          })
]
  where
    freed : Bytes → Store
    freed id = put_leases id (λ _. none) s

    gone : (j : Bytes) → BoxIsSound j (if id == j then empty_box else box s j)
    gone j = elim (Bool-cases (id == j)) [
      | inl e ↦ rw e (empty_box-BoxIsSound j)
      | inr e ↦ rw e (v.sound j)
    ]
