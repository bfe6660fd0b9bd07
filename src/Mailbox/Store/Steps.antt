-- ===== src/Mailbox/Store/Steps.antt =====
-- internal/mailbox/mailbox.go: every operation of `Store` keeps the invariant, so any history does.
use flightdeck.Mailbox.Store.Loops.{delete-IsSound, ack-IsSound, receive-IsSound}
use flightdeck.Base.{
  [], ◌∷◌, List, Option, some, none, ℕ, ◌+◌, ◌≤◌, ◌<◌, ◌≡◌, refl, sym, subst, inl, inr, false, some,
  arith, leb, nat_eq, string_eq, if_elim, length,
}
use flightdeck.Base.Assoc.{lookup-nil, length-set-le, lookup, set, lookup-set_self}
use flightdeck.Base.Bytes.{Bytes, bytes_eq}
use flightdeck.Mailbox.State.{
  max_mailboxes, empty_box, Result-cases, pending_seqs, Store, Box, Meta, MetaFile, Message,
  MessageFile, Faults, Result, max_pending, box, put_box, pending_seqs,
}
use flightdeck.Mailbox.Store.{
  delete, ack, receive, mint, create, Created, append, saved, load_meta, save_meta, append, send,
  saved,
}
use flightdeck.Mailbox.Boxes.{length-pending_seqs}
use flightdeck.Mailbox.Store.Invariant.{
  put_box_sound, BoxIsSound, IsSound, load_meta-eq-ok, box_present, put_box-IsSound, saved-IsSound,
  message-BoxIsSound,
}

append-IsSound :
    (f : Faults) (now : ℕ) (id body : Bytes) (m : Meta) (s : Store)
    → (box s id).meta ≡ MetaFile.parsed m
    → IsSound s
    → IsSound (append f now id body m s).1
unfolding append
append-IsSound f now id body m s e v =
    if_elim P f.box_unreadable (λ _. v)
      λ _.
        if_elim P (leb max_pending (length (pending_seqs (box s id)))) (λ _. v)
          λ room. if_elim P f.message_unwritable (λ _. v) λ _. written (fits room)
  where
    P : Result ℕ × Store → Type 0
    P r = IsSound r.1

    own : m.id ≡ id
    own = (v.sound id).own_id m e

    env : Message
    env = record { seq = m.next_seq; sent_at = now; body = body }

    b1 : Box
    b1 = record (box s id) { files = set m.next_seq (MessageFile.parsed env) (box s id).files }

    fits :
        leb max_pending (length (pending_seqs (box s id))) ≡ false
        → length (box s id).files < max_pending
    fits room = ground (arith, length-pending_seqs (box s id))

    good :
        (n : Meta)
        → length (box s id).files < max_pending
        → n.id ≡ m.id
        → m.next_seq ≤ n.next_seq
        → BoxIsSound id (record b1 { meta = MetaFile.parsed n })
    good n room i g = message-BoxIsSound id (box s id) m n env e refl room i g (v.sound id)

    n : Meta
    n = record m { next_seq = m.next_seq + 1 }

    same : record b1 { meta = MetaFile.parsed m } ≡ b1
    same = ground (arith, e)

    written :
        length (box s id).files < max_pending
        → IsSound (saved m.next_seq (put_box id b1 s) (save_meta f n (put_box id b1 s))).1
    written room =
        saved-IsSound m.next_seq f n b1 (put_box id b1 s)
          (subst (λ i. lookup i (set id b1 s.boxes) ≡ some b1) (sym own)
            (lookup-set_self id b1 s.boxes))
          (subst (λ i. BoxIsSound i (record b1 { meta = MetaFile.parsed n })) (sym own)
            (good n room refl (omega arith)))
          (put_box-IsSound id b1 (box s id) s (box_present s id m e)
            (subst (BoxIsSound id) same (good m room refl (omega arith))) v)

pub send-IsSound :
    (f : Faults) (now : ℕ) (id body : Bytes) (s : Store)
    → IsSound s
    → IsSound (send f now id body s).1
unfolding send
send-IsSound f now id body s v = elim (Result-cases (load_meta f s id)) [
  | inl (e, h) ↦ rw (h, send) v
  | inr (m, h) ↦ rw (h, send) (append-IsSound f now id body m s (load_meta-eq-ok f s id m h) v)
]

pub fresh_box : (id : Bytes) (s : Store) → lookup id s.boxes ≡ none → box s id ≡ empty_box
unfolding box
fresh_box id s h = ground arith

-- One call on the store.
pub data Call : Type 0 where
  creates : ℕ → Option Bytes → Option Bytes → Option Bytes → Call
  sends : ℕ → Bytes → Bytes → Call
  receives : ℕ → Bytes → ℕ → Call
  acks : Bytes → List ℕ → Call
  deletes : Bytes → Call

-- Tokens from crypto/rand are not in use yet.
abbrev pub IsFresh : Option Bytes → Store → Type 0
IsFresh none s = Unit
IsFresh (some id) s = lookup id s.boxes ≡ none

abbrev pub TakesFresh : Call → Store → Type 0
TakesFresh (creates now id w r) s = IsFresh id s
TakesFresh _ s = Unit

module _ (sha256_hex : Bytes → Bytes) where
  mint-IsSound :
      (f : Faults) (now : ℕ) (id w r : Bytes) (s : Store)
      → lookup id s.boxes ≡ none
      → length s.boxes < max_mailboxes
      → IsSound s
      → IsSound (mint sha256_hex f now (some id) (some w) (some r) s).1
  unfolding mint
  mint-IsSound f now id w r s h room v =
      if_elim (λ (q : Result Created × Store). IsSound q.1) f.box_unmakeable (λ _. v)
        λ _.
          saved-IsSound _ f _ (box s id) (put_box id (box s id) s)
            (unfold put_box in lookup-set_self id (box s id) s.boxes)
            (record {
              bounded = (v.sound id).bounded;
              distinct = (v.sound id).distinct;
              own_id = λ m e. ground arith;
              below = λ m seq file e l. absurd (nothing seq file l);
              numbered = (v.sound id).numbered;
            })
            (record {
              capped = unfold put_box in omega (arith, length-set-le id (box s id) s.boxes);
              sound = put_box_sound id (box s id) s (v.sound id) v;
            })
    where
      nothing : (seq : ℕ) (file : MessageFile) → lookup seq (box s id).files ≡ some file → ⊥
      nothing seq file l = ground (arith, fresh_box id s h, lookup-nil {V = MessageFile} seq)

  pub create-IsSound :
      (f : Faults) (now : ℕ) (id w r : Option Bytes) (s : Store)
      → IsFresh id s
      → IsSound s
      → IsSound (create sha256_hex f now id w r s).1
  unfolding create
  create-IsSound f now id w r s h v =
      if_elim P f.dir_unreadable (λ _. v)
        λ _. if_elim P (leb max_mailboxes (length s.boxes)) (λ _. v) λ room. minted id w r h room
    where
      P : Result Created × Store → Type 0
      P q = IsSound q.1

      minted :
          (id w r : Option Bytes)
          → IsFresh id s
          → leb max_mailboxes (length s.boxes) ≡ false
          → IsSound (mint sha256_hex f now id w r s).1
      minted (some id) (some w) (some r) h room = mint-IsSound f now id w r s h (ground arith) v
      minted (some id) (some w) none h room = unfold mint in v
      minted (some id) none r h room = unfold mint in v
      minted none w r h room = unfold mint in v

  -- The call, with the faults that it meets.
  unfoldable pub step : Faults → Call → Store → Store
  step f (creates now id w r) s = (create sha256_hex f now id w r s).1
  step f (sends now id body) s = (send f now id body s).1
  step f (receives now id limit) s = (receive f now id limit s).1
  step f (acks id seqs) s = (ack f id seqs s).1
  step f (deletes id) s = (delete f id s).1

  unfoldable pub run : List (Faults × Call) → Store → Store
  run [] s = s
  run ((f, c) ∷ rest) s = run rest (step f c s)

  -- Every id that the history draws is not in use when it is drawn.
  abbrev pub DrawsFresh : List (Faults × Call) → Store → Type 0
  DrawsFresh [] s = Unit
  DrawsFresh ((f, c) ∷ rest) s = TakesFresh c s × DrawsFresh rest (step f c s)

  pub step-IsSound :
      (f : Faults) (c : Call) (s : Store) → TakesFresh c s → IsSound s → IsSound (step f c s)
  unfolding step
  step-IsSound f (creates now id w r) s h v = create-IsSound f now id w r s h v
  step-IsSound f (sends now id body) s h v = send-IsSound f now id body s v
  step-IsSound f (receives now id limit) s h v = receive-IsSound f now id limit s v
  step-IsSound f (acks id seqs) s h v = ack-IsSound f id seqs s v
  step-IsSound f (deletes id) s h v = delete-IsSound f id s v

  -- From a sound store, any history of calls, whatever fails in it, leaves a sound store: at most
  -- 256 mailboxes, at most 5000 messages in each, one file to a number, each message under its own
  -- number and no number past the next one to be given. The ids drawn are taken to be new.
  pub run-IsSound :
      (h : List (Faults × Call)) (s : Store) → DrawsFresh h s → IsSound s → IsSound (run h s)
  unfolding run
  run-IsSound [] s d v = v
  run-IsSound ((f, c) ∷ rest) s d v = run-IsSound rest (step f c s) d.1 (step-IsSound f c s d.0 v)
