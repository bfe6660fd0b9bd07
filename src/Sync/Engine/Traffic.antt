-- ===== src/Sync/Engine/Traffic.antt =====
-- internal/sync/engine.go: what the inbound pass acks, what the outbound pass sends, and what a
-- database hands to the other one.
use flightdeck.Base.{
  ℕ, ◌≡◌, refl, ◌∙◌, Bool, true, false, none, some, List, [], ◌∷◌, ◌++◌, map, arith, nat_eq,
  string_eq,
}
use mathlib.Core.List.{append-nil, append_assoc}
use flightdeck.Base.Bytes.{Bytes, bytes_eq}
use flightdeck.Sync.Payload.{
  Item, item_payload, inserted, overwritten, or_empty_json, or_empty_json_array, empty_json_stays,
}
use flightdeck.Sync.Engine.{Wire, Db, Share, open_sealed}
use flightdeck.Sync.Engine.Exchange.{
  Pulled, Verdict, cleared, failed, applied, verdict, pull_loop, pull_inbound,
}

empty_array_stays :
    (s : Bytes) → or_empty_json (or_empty_json_array (or_empty_json s)) ≡ or_empty_json s
unfolding or_empty_json or_empty_json_array
empty_array_stays [] = refl
empty_array_stays (c ∷ s) = refl

-- An item that is received new is sent, and so hashed, on this side as on the sender's.
inserted-payload :
    (uuid_string : ℕ → Bytes) (project_id : ℕ) (it : Item)
    → item_payload uuid_string (inserted it.id project_id (item_payload uuid_string it))
      ≡ item_payload uuid_string it
unfolding item_payload inserted
inserted-payload uuid_string project_id it =
    rw (empty_json_stays it.metadata, empty_array_stays it.acceptance_criteria)

-- So is one that overwrites a row of the same id and creation time.
overwritten-payload :
    (uuid_string : ℕ → Bytes) (local it : Item)
    → local.id ≡ it.id
    → local.created_at ≡ it.created_at
    → item_payload uuid_string (overwritten local (item_payload uuid_string it))
      ≡ item_payload uuid_string it
unfolding item_payload overwritten
overwritten-payload uuid_string local it i t =
    rw (i, t, empty_json_stays it.metadata, empty_array_stays it.acceptance_criteria)

module _ (wire : Wire) where
  open wire use {
    Doc, Hash, Sealed, hash_eq, hash, marshal_item, marshal_activity, uuid_string, uuid_parse,
  }

  -- The messages of a batch, handled one by one: each is discarded, or applied without an error.
  pub data Handled (a : Bytes) (share : Share)
      : Db Hash → List (ℕ × Sealed) → Db Hash → Type 0 where
    settled_all : {db : Db Hash} → Handled a share db [] db
    clears :
        {db after : Db Hash} {seq : ℕ} {body : Sealed} {rest : List (ℕ × Sealed)}
        → verdict wire a share (open_sealed wire body) db ≡ cleared
        → Handled a share db rest after
        → Handled a share db ((seq, body) ∷ rest) after
    applies :
        {db next after : Db Hash} {seq : ℕ} {body : Sealed} {rest : List (ℕ × Sealed)}
        → verdict wire a share (open_sealed wire body) db ≡ applied next
        → Handled a share next rest after
        → Handled a share db ((seq, body) ∷ rest) after

  pull_loop-acked :
      (a : Bytes) (share : Share) (msgs : List (ℕ × Sealed)) (done : List ℕ) (c : Bool)
      (db : Db Hash) (acks : List ℕ)
      → (pull_loop wire a share msgs done c db).acked ≡ some acks
      → (acks ≡ done ++ map (λ m. m.0) msgs)
        × Handled a share db msgs (pull_loop wire a share msgs done c db).db
  unfolding pull_loop
  pull_loop-acked a share [] done c db acks h = (ground (arith, append-nil done), settled_all)
  pull_loop-acked a share ((seq, body) ∷ rest) done c db acks h =
      go (λ c db h. pull_loop-acked a share rest (done ++ seq ∷ []) c db acks h)
        (verdict wire a share (open_sealed wire body) db) refl h
    where
      on : Verdict wire → Pulled Hash
      on cleared = pull_loop wire a share rest (done ++ seq ∷ []) c db
      on failed = record { db = db; acked = none; changed = c }
      on (applied next) = pull_loop wire a share rest (done ++ seq ∷ []) true next

      Rest : Type 0
      Rest =
          (c : Bool) (db : Db Hash)
          → (pull_loop wire a share rest (done ++ seq ∷ []) c db).acked ≡ some acks
          → (acks ≡ (done ++ seq ∷ []) ++ map (λ m. m.0) rest)
            × Handled a share db rest (pull_loop wire a share rest (done ++ seq ∷ []) c db).db

      tail :
          Rest
          → (c : Bool) (db : Db Hash)
          → (pull_loop wire a share rest (done ++ seq ∷ []) c db).acked ≡ some acks
          → (acks ≡ done ++ seq ∷ map (λ m. m.0) rest)
            × Handled a share db rest (pull_loop wire a share rest (done ++ seq ∷ []) c db).db
      tail rec c db h =
          let r = rec c db h in (r.0 ∙ append_assoc done (seq ∷ []) (map (λ m. m.0) rest), r.1)

      go :
          Rest
          → (v : Verdict wire) → verdict wire a share (open_sealed wire body) db ≡ v
          → (on v).acked ≡ some acks
          → (acks ≡ done ++ seq ∷ map (λ m. m.0) rest)
            × Handled a share db ((seq, body) ∷ rest) (on v).db
      go rec cleared e h = let r = tail rec c db h in (r.0, clears e r.1)
      go rec failed e h = ground arith
      go rec (applied next) e h = let r = tail rec true next h in (r.0, applies e r.1)

  -- What the inbound pass acks is the whole batch, in its order, and it acks only after every message
  -- of the batch was discarded or applied without an error.
  pub pull_inbound-acked :
      (a : Bytes) (share : Share) (msgs : List (ℕ × Sealed)) (db : Db Hash) (acks : List ℕ)
      → (pull_inbound wire a share msgs db).acked ≡ some acks
      → (acks ≡ map (λ m. m.0) msgs)
        × Handled a share db msgs (pull_inbound wire a share msgs db).db
  unfolding pull_inbound
  pull_inbound-acked a share [] db acks h = ground arith
  pull_inbound-acked a share (msg ∷ msgs) db acks h =
      pull_loop-acked a share (msg ∷ msgs) [] false db acks h
