-- ===== src/Mailbox/Store/Delivery.antt =====
-- internal/mailbox/mailbox.go: what Receive hands out, in which order, and under which leases.
use flightdeck.Base.{
  ◌↔◌, Among, All-map, take_nil_lem, take_pos, ℕ, ◌+◌, ◌-◌, ◌<◌, ◌≡◌, refl, sym, ◌∙◌, inl, inr,
  true, false, Option, none, some, List, [], ◌∷◌, ◌++◌, arith, leb, if◌then◌else◌, nat_beq_iff,
  nat_eq, string_eq, Bool-cases, Option-cases, length, length-append, take, All,
}
use mathlib.Core.List.{append-nil, append_assoc}
use flightdeck.Base.Assoc.{keys, Assoc, lookup, remove, lookup-remove}
use flightdeck.Base.Bytes.{Bytes, bytes_eq}
use flightdeck.Mailbox.State.{
  Store, Meta, Message, MessageFile, ok, no_faults, lease_ttl, box, put_lease, pending_seqs,
}
use flightdeck.Mailbox.Store.{
  load_meta, Scan, is_leased, take_file, visit, scan, finish, drain, receive,
}
use flightdeck.Mailbox.Boxes.{
  Among-pending_seqs, IsAscending, put_lease_lem, pending_seqs-IsAscending,
}
use flightdeck.Mailbox.Store.Invariant.{IsSound}

abbrev pub prepend : Option MessageFile → List Message → List Message
prepend (some (MessageFile.parsed msg)) later = msg ∷ later
prepend (some MessageFile.garbled) later = later
prepend none later = later

-- The messages that are not leased, in the order of the numbers given.
unfoldable pub deliverable : ℕ → (ℕ → Option ℕ) → Assoc ℕ MessageFile → List ℕ → List Message
deliverable now held files [] = []
deliverable now held files (seq ∷ rest) =
    let later = deliverable now held files rest in
    if is_leased now (held seq) then later else prepend (lookup seq files) later

deliverable-agree :
    (now : ℕ) (held held' : ℕ → Option ℕ) (files files' : Assoc ℕ MessageFile) (seqs : List ℕ)
    → All (λ q. (held q ≡ held' q) × (lookup q files ≡ lookup q files')) seqs
    → deliverable now held files seqs ≡ deliverable now held' files' seqs
unfolding deliverable
deliverable-agree now held held' files files' [] a = refl
deliverable-agree now held held' files files' (seq ∷ rest) a =
    cc (a.0.0, a.0.1, deliverable-agree now held held' files files' rest a.1)

of_file_out : ℕ → ℕ → MessageFile → Scan → Scan
unfolding put_lease
of_file_out now seq MessageFile.garbled c = record c { files = remove seq c.files }
of_file_out now seq (MessageFile.parsed msg) c = record c {
  out = c.out ++ msg ∷ [];
  held = put_lease seq (some (now + lease_ttl)) c.held;
}

-- What one round of the loop adds.
step_out : ℕ → ℕ → Scan → Scan
unfolding of_file_out
step_out now seq c = elim (is_leased now (c.held seq)) [
  | true ↦ c
  | false ↦ elim (lookup seq c.files) [ none ↦ c | some file ↦ of_file_out now seq file c ]
]

visit-step_out : (now seq : ℕ) (c : Scan) → visit no_faults now seq c ≡ some (step_out now seq c)
unfolding visit take_file step_out
visit-step_out now seq c = ground arith

-- The other numbers see nothing of it.
step_out-agree :
    (now seq q : ℕ) (c : Scan)
    → seq < q
    → (c.held q ≡ (step_out now seq c).held q)
      × (lookup q c.files ≡ lookup q (step_out now seq c).files)
unfolding step_out
step_out-agree now seq q c h = ground (
  arith,
  put_lease_lem seq q (some (now + lease_ttl)) c.held,
  lookup-remove seq q c.files,
  nat_beq_iff q seq,
  nat_beq_iff seq q,
)

deliverable-step_out :
    (now limit seq : ℕ) (c : Scan) (d : List Message)
    → length c.out < limit
    → (step_out now seq c).out ++ take (limit - length (step_out now seq c).out) d
      ≡ c.out
        ++ take
            (limit - length c.out)
            (if is_leased now (c.held seq) then d else prepend (lookup seq c.files) d)
unfolding step_out
deliverable-step_out now limit seq c d room = elim (Bool-cases (is_leased now (c.held seq))) [
  | inl e ↦ rw (e, step_out)
  | inr e ↦ elim (Option-cases (lookup seq c.files)) [
    | inl none_there ↦ rw (e, none_there, step_out)
    | inr (file, there) ↦ rw (e, there, step_out) (of_file file)
  ]
]
  where
    more : (msg : Message) → limit - length (c.out ++ msg ∷ []) ≡ limit - length c.out - 1
    more msg = omega (arith, length-append c.out (msg ∷ []))

    of_file :
        (file : MessageFile)
        → (of_file_out now seq file c).out
            ++ take (limit - length (of_file_out now seq file c).out) d
          ≡ c.out ++ take (limit - length c.out) (prepend (some file) d)
    of_file MessageFile.garbled = refl
    of_file (MessageFile.parsed msg) =
        rw (more msg, take_pos (limit - length c.out) msg d (omega arith))
          (append_assoc c.out (msg ∷ []) _)

-- With nothing failing, the loop hands out the deliverable messages in ascending order, up to the
-- limit.
pub scan_exact :
    (now limit : ℕ) (seqs : List ℕ) (c : Scan)
    → IsAscending seqs
    → ((scan no_faults now limit seqs c).0 ≡ true)
      × ((scan no_faults now limit seqs c).1.out
          ≡ c.out ++ take (limit - length c.out) (deliverable now c.held c.files seqs))
unfolding scan deliverable
scan_exact now limit [] c a = (refl, rw take_nil (sym (append-nil c.out)))
  where
    take_nil : take {A = Message} (limit - length c.out) [] ≡ []
    take_nil = take_nil_lem (limit - length c.out)
scan_exact now limit (seq ∷ rest) c a = elim (Bool-cases (leb limit (length c.out))) [
  | inl full ↦ rw full (refl, full_out full)
  | inr room ↦
      rw (room, visit-step_out now seq c, scan)
        (let ih = scan_exact now limit rest (step_out now seq c) a.1 in
          (ih.0, ih.1 ∙ next (ground arith)))
]
  where
    full_out :
        leb limit (length c.out) ≡ true
        → c.out ≡ c.out ++ take (limit - length c.out) (deliverable now c.held c.files (seq ∷ rest))
    full_out full = let e : limit - length c.out ≡ 0 = ground arith in rw e (sym (append-nil c.out))

    next :
        length c.out < limit
        → (step_out now seq c).out
            ++ take
                (limit - length (step_out now seq c).out)
                (deliverable now (step_out now seq c).held (step_out now seq c).files rest)
          ≡ c.out ++ take (limit - length c.out) (deliverable now c.held c.files (seq ∷ rest))
    next room =
        rw
          (← deliverable-agree now c.held (step_out now seq c).held c.files
            (step_out now seq c).files rest
            (All-map (λ q h. step_out-agree now seq q c h) rest a.0))
          (deliverable-step_out now limit seq c (deliverable now c.held c.files rest) room)

-- The answer by the list that the code makes of the directory.
pub receive_lem :
    (now limit : ℕ) (id : Bytes) (m : Meta) (s : Store)
    → IsSound s
    → load_meta no_faults s id ≡ ok m
    → (receive no_faults now id limit s).0
      ≡ ok (take limit (deliverable now (s.leases id) (box s id).files (pending_seqs (box s id))))
unfolding receive drain finish
receive_lem now limit id m s v h =
    rw (h, receive)
      (let c =
          scan_exact now limit (pending_seqs (box s id))
            (record { out = []; held = s.leases id; files = (box s id).files })
            (pending_seqs-IsAscending (box s id) (v.sound id).distinct) in
        let e : limit - 0 ≡ limit = omega arith in rw (c.0, c.1, e))

-- On a sound store, where the mailbox is there and nothing fails, Receive answers with the
-- messages that are not leased, in ascending order of their numbers, up to the limit: it goes over
-- an ascending list of numbers, which has those of the mailbox's files and no other.
pub receive_exact :
    (now limit : ℕ) (id : Bytes) (m : Meta) (s : Store)
    → IsSound s
    → load_meta no_faults s id ≡ ok m
    → (seqs : List ℕ) × IsAscending seqs
      × ((q : ℕ) → Among q seqs ↔ Among q (keys (box s id).files))
      × ((receive no_faults now id limit s).0
          ≡ ok (take limit (deliverable now (s.leases id) (box s id).files seqs)))
receive_exact now limit id m s v h = (
  pending_seqs (box s id),
  pending_seqs-IsAscending (box s id) (v.sound id).distinct,
  λ q. Among-pending_seqs q (box s id),
  receive_lem now limit id m s v h,
)
