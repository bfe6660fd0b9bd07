-- ===== src/Mailbox/Store/Invariant.antt =====
-- internal/mailbox/mailbox.go: what every mailbox on disk satisfies, after any operations.
use flightdeck.Base.{
  ◌<◌, nat_beq_iff, if_elim, ℕ, ◌≤◌, ◌<◌, ◌≡◌, sym, subst, inl, inr, Option, some, arith,
  nat_beq_iff, ◌==◌, ==_iff, nat_eq, string_eq, Bool-cases, length,
}
use flightdeck.Base.Assoc.{keys, lookup, set, lookup-set, length-set-le, length-set_present}
use flightdeck.Base.Bytes.{Bytes, bytes_eq}
use flightdeck.Mailbox.State.{
  put_leases, Store, Box, Meta, MetaFile, Message, MessageFile, Faults, ok, max_pending,
  max_mailboxes, empty_box, box, put_box, put_leases,
}
use flightdeck.Mailbox.Store.{saved, load_meta, save_meta, saved}
use flightdeck.Mailbox.Boxes.{IsDistinct, box-put_box, keys-set-IsDistinct}

-- A mailbox directory: within its bound, one file to a number, numbers up to the next one, and
-- each message under its own number.
pub record BoxIsSound (id : Bytes) (b : Box) : Type 0 where
  pub bounded : length b.files ≤ max_pending
  pub distinct : IsDistinct (keys b.files)
  pub own_id : (m : Meta) → b.meta ≡ MetaFile.parsed m → m.id ≡ id
  pub below :
      (m : Meta) (seq : ℕ) (file : MessageFile)
      → b.meta ≡ MetaFile.parsed m
      → lookup seq b.files ≡ some file
      → seq ≤ m.next_seq
  pub numbered :
      (seq : ℕ) (msg : Message) → lookup seq b.files ≡ some (MessageFile.parsed msg) → msg.seq ≡ seq

pub record IsSound (s : Store) : Type 0 where
  pub capped : length s.boxes ≤ max_mailboxes
  pub sound : (id : Bytes) → BoxIsSound id (box s id)

pub load_meta-eq-ok :
    (f : Faults) (s : Store) (id : Bytes) (m : Meta)
    → load_meta f s id ≡ ok m
    → (box s id).meta ≡ MetaFile.parsed m
unfolding load_meta
load_meta-eq-ok f s id m h = ground arith

pub box_present :
    (s : Store) (id : Bytes) (m : Meta)
    → (box s id).meta ≡ MetaFile.parsed m
    → lookup id s.boxes ≡ some (box s id)
unfolding box
box_present s id m h = ground arith

pub empty_box-BoxIsSound : (id : Bytes) → BoxIsSound id empty_box
unfolding lookup
empty_box-BoxIsSound id = record {
  bounded = omega arith;
  distinct = tt;
  own_id = λ m h. cc;
  below = λ m seq file h k. cc;
  numbered = λ seq msg h. cc;
}

pub put_box_sound :
    (i : Bytes) (b : Box) (s : Store)
    → BoxIsSound i b
    → IsSound s
    → (j : Bytes) → BoxIsSound j (box (put_box i b s) j)
put_box_sound i b s h v j = elim (Bool-cases (i == j)) [
  | inl e ↦
      subst (BoxIsSound j) (sym (rw (box-put_box, e)))
        (subst (λ k. BoxIsSound k b) ((==_iff i j).0 e) h)
  | inr e ↦ subst (BoxIsSound j) (sym (rw (box-put_box, e))) (v.sound j)
]

-- To write a box that is there.
pub put_box-IsSound :
    (i : Bytes) (b w : Box) (s : Store)
    → lookup i s.boxes ≡ some w
    → BoxIsSound i b
    → IsSound s
    → IsSound (put_box i b s)
unfolding put_box
put_box-IsSound i b w s e h v = record {
  capped = omega (arith, length-set_present i b w s.boxes e, v.capped);
  sound = put_box_sound i b s h v;
}

pub put_leases-IsSound :
    (i : Bytes) (held : ℕ → Option ℕ) (s : Store) → IsSound s → IsSound (put_leases i held s)
unfolding put_leases box
put_leases-IsSound i held s v = record { capped = v.capped; sound = v.sound }

pub saved-IsSound :
    {A : Type 0} (a : A) (f : Faults) (m : Meta) (b : Box) (s : Store)
    → lookup m.id s.boxes ≡ some b
    → BoxIsSound m.id (record b { meta = MetaFile.parsed m })
    → IsSound s
    → IsSound (saved a s (save_meta f m s)).1
unfolding save_meta
saved-IsSound a f m b s e h v =
    rw (e, save_meta)
      (if_elim (λ r. IsSound (saved a s r).1) f.meta_unwritable (λ _. v)
        λ _. put_box-IsSound m.id (record b { meta = MetaFile.parsed m }) b s e h v)

-- A message file under the next number, and then the counter past it.
pub message-BoxIsSound :
    (id : Bytes) (b : Box) (m n : Meta) (msg : Message)
    → b.meta ≡ MetaFile.parsed m
    → msg.seq ≡ m.next_seq
    → length b.files < max_pending
    → n.id ≡ m.id
    → m.next_seq ≤ n.next_seq
    → BoxIsSound id b
    → BoxIsSound id (record {
      meta = MetaFile.parsed n;
      files = set m.next_seq (MessageFile.parsed msg) b.files;
    })
message-BoxIsSound id b m n msg e q room i g v = record {
  bounded = omega (arith, length-set-le m.next_seq (MessageFile.parsed msg) b.files);
  distinct = keys-set-IsDistinct m.next_seq (MessageFile.parsed msg) b.files v.distinct;
  own_id = λ k h. cc (v.own_id m e, i);
  below = λ k seq file h l. ground (
    arith,
    v.below m seq file e,
    lookup-set m.next_seq seq (MessageFile.parsed msg) b.files,
    nat_beq_iff m.next_seq seq,
  );
  numbered = λ seq got l. ground (
    arith,
    v.numbered seq got,
    lookup-set m.next_seq seq (MessageFile.parsed msg) b.files,
    nat_beq_iff m.next_seq seq,
  );
}
