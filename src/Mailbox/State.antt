-- ===== src/Mailbox/State.antt =====
-- internal/mailbox/mailbox.go: the data of `Store`. The storage directory is a map from mailbox
-- ids to boxes, a box is its meta.json and its message files, and the leases are a partial map.
-- `Faults` says which of the calls of package os fail during one operation.
use flightdeck.Base.{
  ◌≡◌, ◌⊎◌, inl, inr, refl, ℕ, ◌*◌, ◌^◌, Bool, true, false, ◌&&◌, Option, none, some, List, [], ◌∷◌,
  length, contains, ◌==◌, nat_eq, if◌then◌else◌, leb,
}
use flightdeck.Base.Assoc.{Assoc, keys, lookup, set}
use flightdeck.Base.Bytes.{Bytes, codes, bytes_eq}

abbrev pub max_message_bytes : ℕ
max_message_bytes = 8 * 2 ^ 20

abbrev pub max_pending : ℕ
max_pending = 5000

abbrev pub max_mailboxes : ℕ
max_mailboxes = 256

-- Times are nanoseconds.
abbrev pub lease_ttl : ℕ
lease_ttl = 60 * 1000000000

abbrev pub token_bytes : ℕ
token_bytes = 32

pub record Meta : Type 0 where
  pub id : Bytes
  pub write_token_sha : Bytes
  pub read_token_sha : Bytes
  pub created_at : ℕ
  pub next_seq : ℕ

pub record Message : Type 0 where
  pub seq : ℕ
  pub sent_at : ℕ
  pub body : Bytes

-- What a read of meta.json, or of a message file, finds.
pub data MetaFile : Type 0 where
  absent : MetaFile
  garbled : MetaFile
  parsed : Meta → MetaFile

pub data MessageFile : Type 0 where
  garbled : MessageFile
  parsed : Message → MessageFile

pub record Box : Type 0 where
  pub meta : MetaFile
  pub files : Assoc ℕ MessageFile

pub record Store : Type 0 where
  pub boxes : Assoc Bytes Box
  pub leases : Bytes → ℕ → Option ℕ

pub data Error : Type 0 where
  not_found mailbox_full limit_reached random_failed io_failed bad_meta : Error

pub data Result {ℓ} (A : Type ℓ) : Type ℓ where
  ok : A → Result A
  err : Error → Result A

pub Result-cases {ℓ} :
    {A : Type ℓ} (r : Result A) → ((e : Error) × (r ≡ err e)) ⊎ ((a : A) × (r ≡ ok a))
Result-cases (ok a) = inr (a, refl)
Result-cases (err e) = inl (e, refl)

pub record Faults : Type 0 where
  pub dir_unreadable : Bool
  pub box_unmakeable : Bool
  pub box_unreadable : Bool
  pub meta_unreadable : Bool
  pub meta_unwritable : Bool
  pub message_unwritable : Bool
  pub unreadable : ℕ → Bool
  pub unremovable : ℕ → Bool
  pub box_unremovable : Bool
  pub meta_unremovable : Bool

-- Every call succeeds.
abbrev pub no_faults : Faults
no_faults = record {
  dir_unreadable = false;
  box_unmakeable = false;
  box_unreadable = false;
  meta_unreadable = false;
  meta_unwritable = false;
  message_unwritable = false;
  unreadable = λ _. false;
  unremovable = λ _. false;
  box_unremovable = false;
  meta_unremovable = false;
}

abbrev pub hex_digits : Bytes
hex_digits = codes "0123456789abcdef"

unfoldable pub all_hex : Bytes → Bool
all_hex [] = true
all_hex (c ∷ id) = contains hex_digits c && all_hex id

unfoldable pub valid_id : Bytes → Bool
valid_id id = length id == token_bytes * 2 && all_hex id

abbrev pub empty_box : Box
empty_box = record { meta = absent; files = [] }

abbrev pub or_empty : Option Box → Box
or_empty none = empty_box
or_empty (some b) = b

unfoldable pub box : Store → Bytes → Box
box s id = or_empty (lookup id s.boxes)

unfoldable pub put_box : Bytes → Box → Store → Store
put_box id b s = record s { boxes = set id b s.boxes }

-- One mailbox's leases, as `s.leases[id]`.
unfoldable pub put_leases : Bytes → (ℕ → Option ℕ) → Store → Store
put_leases id held s = record s { leases = λ i. if i == id then held else s.leases i }

-- One entry of a lease map: `held[seq] = e`, and `delete(held, seq)` with `none`.
unfoldable pub put_lease : ℕ → Option ℕ → (ℕ → Option ℕ) → ℕ → Option ℕ
put_lease seq e held q = if q == seq then e else held q

unfoldable pub insert_seq : ℕ → List ℕ → List ℕ
insert_seq n [] = n ∷ []
insert_seq n (m ∷ ms) = if leb n m then n ∷ m ∷ ms else m ∷ insert_seq n ms

-- sort.Slice
unfoldable pub sort_seqs : List ℕ → List ℕ
unfolding insert_seq
sort_seqs [] = []
sort_seqs (n ∷ ns) = insert_seq n (sort_seqs ns)

unfoldable pub pending_seqs : Box → List ℕ
unfolding sort_seqs
pending_seqs b = sort_seqs (keys b.files)
