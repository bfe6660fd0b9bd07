-- ===== src/Mailbox/Store.antt =====
-- internal/mailbox/mailbox.go: the operations of `Store`. Each returns the new store beside its
-- result; the clock, the random tokens and the faults of the file system are arguments. Each runs
-- under the store's mutex, so it is one step.
mod Tests
pub mod Invariant
pub mod Loops
pub mod Steps
pub mod Delivery
pub mod Leases
pub mod Durability
pub mod Retention
pub mod Courier
use flightdeck.Base.{
  ℕ, ◌+◌, Bool, true, false, Option, none, some, List, [], ◌∷◌, ◌++◌, length, nat_eq, if◌then◌else◌,
  leb, ltb,
}
use flightdeck.Base.Assoc
use flightdeck.Base.Assoc.{Assoc, lookup, set}
use flightdeck.Base.Bytes.{Bytes, bytes_eq}
use flightdeck.Mailbox.State.{
  Box, Store, Meta, MetaFile, Message, MessageFile, Faults, Result, ok, err, not_found,
  mailbox_full, limit_reached, random_failed, io_failed, bad_meta, max_pending, max_mailboxes,
  lease_ttl, valid_id, box, put_box, put_leases, put_lease, pending_seqs,
}

abbrev read_meta : Faults → MetaFile → Result Meta
read_meta f MetaFile.absent = err not_found
read_meta f MetaFile.garbled = if f.meta_unreadable then err io_failed else err bad_meta
read_meta f (MetaFile.parsed m) = if f.meta_unreadable then err io_failed else ok m

pub load_meta : Faults → Store → Bytes → Result Meta
unfolding box
load_meta f s id = if valid_id id then read_meta f (box s id).meta else err not_found

-- Written through a temporary file and a rename: on a fault the old file stays. The directory of
-- the mailbox has to be there.
pub save_meta : Faults → Meta → Store → Result Store
unfolding put_box
save_meta f m s = elim (lookup m.id s.boxes) [
  | none ↦ err io_failed
  | some b ↦
      if f.meta_unwritable
      then err io_failed
      else ok (put_box m.id (record b { meta = MetaFile.parsed m }) s)
]

pub record Created : Type 0 where
  pub id : Bytes
  pub write_token : Bytes
  pub read_token : Bytes

abbrev saved {ℓ} : {A : Type ℓ} → A → Store → Result Store → Result A × Store
saved a s (ok s') = (ok a, s')
saved a s (err e) = (err e, s)

module _ (sha256_hex : Bytes → Bytes) where
  -- The three arguments of type `Option Bytes` are what `newToken` returns.
  mint : Faults → ℕ → Option Bytes → Option Bytes → Option Bytes → Store → Result Created × Store
  unfolding put_box save_meta box
  mint f now (some id) (some write_token) (some read_token) s =
      if f.box_unmakeable
      then (err io_failed, s)
      else let s1 = put_box id (box s id) s in
        saved (record { id = id; write_token = write_token; read_token = read_token }) s1
          (save_meta f
            (record {
              id = id;
              write_token_sha = sha256_hex write_token;
              read_token_sha = sha256_hex read_token;
              created_at = now;
              next_seq = 1;
            })
            s1)
  mint f now _ _ _ s = (err random_failed, s)

  pub create :
      Faults → ℕ → Option Bytes → Option Bytes → Option Bytes → Store → Result Created × Store
  unfolding mint
  create f now id write_token read_token s =
      if f.dir_unreadable
      then (err io_failed, s)
      else if leb max_mailboxes (length s.boxes)
      then (err limit_reached, s)
      else mint f now id write_token read_token s

-- The message first, then the counter: a fault between them leaves the file and the old counter.
append : Faults → ℕ → Bytes → Bytes → Meta → Store → Result ℕ × Store
unfolding box put_box save_meta
append f now id body m s =
    let b = box s id in
    if f.box_unreadable
    then (err io_failed, s)
    else if leb max_pending (length (pending_seqs b))
    then (err mailbox_full, s)
    else if f.message_unwritable
    then (err io_failed, s)
    else let env : Message = record { seq = m.next_seq; sent_at = now; body = body } in
      let s1 =
        put_box id (record b { files = set m.next_seq (MessageFile.parsed env) b.files }) s in
      saved m.next_seq s1 (save_meta f (record m { next_seq = m.next_seq + 1 }) s1)

pub send : Faults → ℕ → Bytes → Bytes → Store → Result ℕ × Store
unfolding append
send f now id body s = elim (load_meta f s id) [
  | err e ↦ (err e, s)
  | ok m ↦ append f now id body m s
]

-- The variables of the loop of Receive.
pub record Scan : Type 0 where
  pub out : List Message
  pub held : ℕ → Option ℕ
  pub files : Assoc ℕ MessageFile

-- `now.Before(exp)`
pub is_leased : ℕ → Option ℕ → Bool
is_leased now none = false
is_leased now (some exp) = ltb now exp

-- A garbled file is removed, or left if that fails too; a vanished one is passed over. `none` is
-- a read that fails.
take_file : Faults → ℕ → ℕ → Option MessageFile → Scan → Option Scan
unfolding put_lease
take_file f now seq none c = some c
take_file f now seq (some MessageFile.garbled) c =
    if f.unreadable seq
    then none
    else some (if f.unremovable seq then c else record c { files = Assoc.remove seq c.files })
take_file f now seq (some (MessageFile.parsed msg)) c =
    if f.unreadable seq
    then none
    else some
        (record c { out = c.out ++ msg ∷ []; held = put_lease seq (some (now + lease_ttl)) c.held })

pub visit : Faults → ℕ → ℕ → Scan → Option Scan
unfolding take_file is_leased
visit f now seq c =
    if is_leased now (c.held seq) then some c else take_file f now seq (lookup seq c.files) c

-- The flag is false where the loop returned early on a read that failed.
pub scan : Faults → ℕ → ℕ → List ℕ → Scan → Bool × Scan
scan f now limit [] c = (true, c)
scan f now limit (seq ∷ rest) c =
    if leb limit (length c.out)
    then (true, c)
    else elim (visit f now seq c) [ none ↦ (false, c) | some c' ↦ scan f now limit rest c' ]

-- The leases taken before a failed read stay, and so do the removals.
pub finish : Bytes → Store → Bool × Scan → Result (List Message) × Store
unfolding box put_box put_leases
finish id s (done, c) = (
  if done then ok c.out else err io_failed,
  put_leases id c.held (put_box id (record (box s id) { files = c.files }) s),
)

drain : Faults → ℕ → Bytes → ℕ → Store → Result (List Message) × Store
unfolding box finish
drain f now id limit s =
    if f.box_unreadable
    then (err io_failed, s)
    else let b = box s id in
      finish id s (
        scan f now limit (pending_seqs b)
          (record { out = []; held = s.leases id; files = b.files }))

pub receive : Faults → ℕ → Bytes → ℕ → Store → Result (List Message) × Store
unfolding drain
receive f now id limit s = elim (load_meta f s id) [
  | err e ↦ (err e, s)
  | ok _ ↦ drain f now id limit s
]

-- The variables of the loop of Ack.
pub record Acked : Type 0 where
  pub n : ℕ
  pub held : ℕ → Option ℕ
  pub files : Assoc ℕ MessageFile

drop_file : ℕ → Option MessageFile → Acked → Acked
unfolding put_lease
drop_file seq none a = record a { held = put_lease seq none a.held }
drop_file seq (some _) a = record a {
  n = a.n + 1;
  held = put_lease seq none a.held;
  files = Assoc.remove seq a.files;
}

abbrev stuck_on : Faults → ℕ → Option MessageFile → Bool
stuck_on f seq none = false
stuck_on f seq (some _) = f.unremovable seq

pub discard : Faults → List ℕ → Acked → Bool × Acked
unfolding drop_file
discard f [] a = (true, a)
discard f (seq ∷ rest) a = elim (stuck_on f seq (lookup seq a.files)) [
  | true ↦ (false, a)
  | false ↦ discard f rest (drop_file seq (lookup seq a.files) a)
]

pub settle : Bytes → Store → Bool × Acked → Result ℕ × Store
unfolding box put_box put_leases
settle id s (done, a) = (
  if done then ok a.n else err io_failed,
  put_leases id a.held (put_box id (record (box s id) { files = a.files }) s),
)

pub ack : Faults → Bytes → List ℕ → Store → Result ℕ × Store
unfolding box settle
ack f id seqs s = elim (load_meta f s id) [
  | err e ↦ (err e, s)
  | ok _ ↦
      settle id s (discard f seqs (record { n = 0; held = s.leases id; files = (box s id).files }))
]

-- The files that os.RemoveAll cannot remove.
pub kept_files : (ℕ → Bool) → List ℕ → Assoc ℕ MessageFile → Assoc ℕ MessageFile
kept_files stays [] files = files
kept_files stays (seq ∷ rest) files =
    kept_files stays rest (if stays seq then files else Assoc.remove seq files)

pub left_over : Faults → Box → Box
unfolding kept_files pending_seqs
left_over f b = record {
  meta = if f.meta_unremovable then b.meta else MetaFile.absent;
  files = kept_files f.unremovable (pending_seqs b) b.files;
}

-- os.RemoveAll: where it fails, the directory stays, with the files that could not be removed.
pub remove_all : Faults → Bytes → Store → Result (Unit {0}) × Store
unfolding left_over put_box box
remove_all f id s =
    if f.box_unremovable
    then (err io_failed, put_box id (left_over f (box s id)) s)
    else (ok tt, record s { boxes = Assoc.remove id s.boxes })

pub delete : Faults → Bytes → Store → Result (Unit {0}) × Store
unfolding put_leases remove_all
delete f id s = elim (load_meta f s id) [
  | err e ↦ (err e, s)
  | ok _ ↦ remove_all f id (put_leases id (λ _. none) s)
]
