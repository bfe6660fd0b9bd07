-- ===== src/Mailbox/Boxes.antt =====
-- internal/mailbox/mailbox.go: how the maps of the store behave under the writes of its operations,
-- and in which order `pendingSeqs` lists the messages.
use flightdeck.Base.{
  ◌⊎◌, ◌↔◌, Among, ℕ, suc, ◌+◌, ◌<◌, ◌≡◌, refl, ap, ◌∙◌, subst, ◌≢◌, inl, inr, Option, List, [],
  ◌∷◌, arith, leb, if◌then◌else◌, nat_beq_iff, ◌==◌, nat_eq, string_eq, Bool-cases, length, All,
}
use flightdeck.Base.Assoc.{Assoc, keys, set, remove, lookup-set, lookup-remove}
use flightdeck.Base.Bytes.{Bytes, bytes_eq}
use flightdeck.Mailbox.State.{
  Store, Box, MessageFile, empty_box, box, put_box, put_leases, put_lease, insert_seq, sort_seqs,
  pending_seqs,
}

pub box-put_box :
    (i j : Bytes) (b : Box) (s : Store) → box (put_box i b s) j ≡ (if i == j then b else box s j)
unfolding box put_box
box-put_box i j b s = ground (arith, lookup-set i j b s.boxes)

pub box-put_leases :
    (i j : Bytes) (held : ℕ → Option ℕ) (s : Store) → box (put_leases i held s) j ≡ box s j
unfolding box put_leases
box-put_leases i j held s = refl

pub box-remove :
    (i j : Bytes) (s : Store)
    → box (record s { boxes = remove i s.boxes }) j ≡ (if i == j then empty_box else box s j)
unfolding box
box-remove i j s = ground (arith, lookup-remove i j s.boxes)

pub put_lease_lem :
    (p q : ℕ) (e : Option ℕ) (held : ℕ → Option ℕ)
    → put_lease p e held q ≡ (if q == p then e else held q)
unfolding put_lease
put_lease_lem p q e held = refl

-- No two entries of the list are the same.
abbrev pub IsDistinct : List ℕ → Type 0
IsDistinct [] = Unit
IsDistinct (n ∷ ns) = All (λ m. m ≢ n) ns × IsDistinct ns

abbrev pub IsAscending : List ℕ → Type 0
IsAscending [] = Unit
IsAscending (n ∷ ns) = All (λ m. n < m) ns × IsAscending ns

pub length-insert_seq : (n : ℕ) (ns : List ℕ) → length (insert_seq n ns) ≡ length ns + 1
unfolding insert_seq
length-insert_seq n [] = omega arith
length-insert_seq n (m ∷ ns) = ground (arith, length-insert_seq n ns)

pub length-sort_seqs : (ns : List ℕ) → length (sort_seqs ns) ≡ length ns
unfolding sort_seqs
length-sort_seqs [] = refl
length-sort_seqs (n ∷ ns) = omega (arith, length-insert_seq n (sort_seqs ns), length-sort_seqs ns)

All-insert_seq : (P : ℕ → Type 0) (n : ℕ) (ns : List ℕ) → P n → All P ns → All P (insert_seq n ns)
unfolding insert_seq
All-insert_seq P n [] h a = (h, tt)
All-insert_seq P n (m ∷ ns) h a = elim (Bool-cases (leb n m)) [
  | inl e ↦ rw e (h, a)
  | inr e ↦ rw e (a.0, All-insert_seq P n ns h a.1)
]

pub All-sort_seqs : (P : ℕ → Type 0) (ns : List ℕ) → All P ns → All P (sort_seqs ns)
unfolding sort_seqs
All-sort_seqs P [] a = tt
All-sort_seqs P (n ∷ ns) a = All-insert_seq P n (sort_seqs ns) a.0 (All-sort_seqs P ns a.1)

All-lt_trans : (n m : ℕ) (ns : List ℕ) → n < m → All (λ k. m < k) ns → All (λ k. n < k) ns
All-lt_trans n m [] h a = tt
All-lt_trans n m (k ∷ ns) h a = (omega arith, All-lt_trans n m ns h a.1)

insert_seq-IsAscending :
    (n : ℕ) (ns : List ℕ) → All (λ m. m ≢ n) ns → IsAscending ns → IsAscending (insert_seq n ns)
unfolding insert_seq
insert_seq-IsAscending n [] d a = (tt, tt)
insert_seq-IsAscending n (m ∷ ns) d a = elim (Bool-cases (leb n m)) [
  | inl e ↦ rw e ((ground arith, All-lt_trans n m ns (ground arith) a.0), a)
  | inr e ↦
      rw e
        (All-insert_seq (λ k. m < k) n ns (ground arith) a.0, insert_seq-IsAscending n ns d.1 a.1)
]

-- Of distinct numbers, sort.Slice makes an ascending list.
pub sort_seqs-IsAscending : (ns : List ℕ) → IsDistinct ns → IsAscending (sort_seqs ns)
unfolding sort_seqs
sort_seqs-IsAscending [] d = tt
sort_seqs-IsAscending (n ∷ ns) d =
    insert_seq-IsAscending n (sort_seqs ns) (All-sort_seqs (λ m. m ≢ n) ns d.0)
      (sort_seqs-IsAscending ns d.1)

past :
    {A B C D : Type 0} → (D → A ⊎ C) × (A ⊎ C → D) → (B ⊎ D → A ⊎ (B ⊎ C)) × (A ⊎ (B ⊎ C) → B ⊎ D)
past {A} {B} {C} {D} (to, from) = (there, back)
  where
    out : A ⊎ C → A ⊎ (B ⊎ C)
    out (inl a) = inl a
    out (inr c) = inr (inr c)

    there : B ⊎ D → A ⊎ (B ⊎ C)
    there (inl b) = inr (inl b)
    there (inr d) = out (to d)

    back : A ⊎ (B ⊎ C) → B ⊎ D
    back (inl a) = inr (from (inl a))
    back (inr (inl b)) = inl b
    back (inr (inr c)) = inr (from (inr c))

under : {A B C : Type 0} → (B → C) → A ⊎ B → A ⊎ C
under f (inl a) = inl a
under f (inr b) = inr (f b)

Among-insert_seq : (q n : ℕ) (ns : List ℕ) → Among q (insert_seq n ns) ↔ ((n ≡ q) ⊎ Among q ns)
unfolding insert_seq
Among-insert_seq q n [] = (λ m. m, λ m. m)
Among-insert_seq q n (m ∷ ns) = elim (Bool-cases (leb n m)) [
  | inl e ↦ rw e (λ h. h, λ h. h)
  | inr e ↦ rw e (past (Among-insert_seq q n ns))
]

-- Sorting keeps the members.
Among-sort_seqs : (q : ℕ) (ns : List ℕ) → Among q (sort_seqs ns) ↔ Among q ns
unfolding sort_seqs
Among-sort_seqs q [] = (λ m. m, λ m. m)
Among-sort_seqs q (n ∷ ns) =
    let ih = Among-sort_seqs q ns in
    let step = Among-insert_seq q n (sort_seqs ns) in
    (λ h. under ih.0 (step.0 h), λ h. step.1 (under ih.1 h))

pub Among-pending_seqs : (q : ℕ) (b : Box) → Among q (pending_seqs b) ↔ Among q (keys b.files)
unfolding pending_seqs
Among-pending_seqs q b = Among-sort_seqs q (keys b.files)

module _ {V : Type 0} where
  All-keys-set :
      (P : ℕ → Type 0) (k : ℕ) (v : V) (m : Assoc ℕ V)
      → P k
      → All P (keys m)
      → All P (keys (set k v m))
  unfolding set
  All-keys-set P k v [] h a = (h, tt)
  All-keys-set P k v ((j, w) ∷ m) h a = elim (Bool-cases (j == k)) [
    | inl e ↦ rw e (h, a.1)
    | inr e ↦ rw e (a.0, All-keys-set P k v m h a.1)
  ]

  All-keys-remove :
      (P : ℕ → Type 0) (k : ℕ) (m : Assoc ℕ V) → All P (keys m) → All P (keys (remove k m))
  unfolding remove
  All-keys-remove P k [] a = tt
  All-keys-remove P k ((j, w) ∷ m) a = elim (Bool-cases (j == k)) [
    | inl e ↦ rw e (All-keys-remove P k m a.1)
    | inr e ↦ rw e (a.0, All-keys-remove P k m a.1)
  ]

  pub keys-set-IsDistinct :
      (k : ℕ) (v : V) (m : Assoc ℕ V) → IsDistinct (keys m) → IsDistinct (keys (set k v m))
  unfolding set
  keys-set-IsDistinct k v [] d = (tt, tt)
  keys-set-IsDistinct k v ((j, w) ∷ m) d = elim (Bool-cases (j == k)) [
    | inl e ↦ rw e (subst (λ n. All (λ i. i ≢ n) (keys m)) ((nat_beq_iff j k).0 e) d.0, d.1)
    | inr e ↦
        rw e (All-keys-set (λ i. i ≢ j) k v m (ground arith) d.0, keys-set-IsDistinct k v m d.1)
  ]

  pub keys-remove-IsDistinct :
      (k : ℕ) (m : Assoc ℕ V) → IsDistinct (keys m) → IsDistinct (keys (remove k m))
  unfolding remove
  keys-remove-IsDistinct k [] d = tt
  keys-remove-IsDistinct k ((j, w) ∷ m) d = elim (Bool-cases (j == k)) [
    | inl e ↦ rw e (keys-remove-IsDistinct k m d.1)
    | inr e ↦ rw e (All-keys-remove (λ i. i ≢ j) k m d.0, keys-remove-IsDistinct k m d.1)
  ]

pub pending_seqs-IsAscending : (b : Box) → IsDistinct (keys b.files) → IsAscending (pending_seqs b)
unfolding pending_seqs
pending_seqs-IsAscending b d = sort_seqs-IsAscending (keys b.files) d

pub length-pending_seqs : (b : Box) → length (pending_seqs b) ≡ length b.files
unfolding pending_seqs
length-pending_seqs b = length-sort_seqs (keys b.files) ∙ length-keys b.files
  where
    length-keys : (m : Assoc ℕ MessageFile) → length (keys m) ≡ length m
    length-keys [] = refl
    length-keys ((k, v) ∷ m) = ap suc (length-keys m)
