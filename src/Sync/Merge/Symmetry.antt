-- ===== src/Sync/Merge/Symmetry.antt =====
-- internal/sync/engine.go: when the two instances of a conflict reach the same merge.
use flightdeck.Base.{
  ℕ, ◌≡◌, refl, sym, ap, ◌≢◌, ◌↔◌, Option, none, some, [], arith, nat_eq, string_eq,
}
use flightdeck.Base.Bytes.{
  Bytes, bytes_eq, bytes_beq_iff, bytes_ltb_asymm, bytes_ltb-total, contains_text_antisymm,
}
use flightdeck.Sync.Payload.{Item, ItemPayload, item_payload}
use flightdeck.Sync.Merge.{merge_conflict, merge_body, merge_deleted}

-- Both instances join two bodies the same way.
merge_body_comm : (a b s t : Bytes) → a ≢ b → merge_body a b s t ≡ merge_body b a t s
unfolding merge_body
merge_body_comm a b s t ne = ground (
  arith,
  bytes_beq_iff s t,
  bytes_beq_iff t s,
  bytes_beq_iff s [],
  bytes_beq_iff t [],
  contains_text_antisymm s t,
  bytes_ltb_asymm a b,
  bytes_ltb_asymm b a,
  bytes_ltb-total a b,
)

-- The fields that the merge takes from the other side's payload, whoever merges.
pub record SameRest (x y : ItemPayload) : Type 0 where
  pub external_ref : x.external_ref ≡ y.external_ref
  pub metadata : x.metadata ≡ y.metadata
  pub acceptance_criteria : x.acceptance_criteria ≡ y.acceptance_criteria
  pub closed_at : x.closed_at ≡ y.closed_at
  pub deleted_at : (t u : ℕ) → x.deleted_at ≡ some t → y.deleted_at ≡ some u → t ≡ u

merge_deleted_comm :
    (d e : Option ℕ)
    → ((t u : ℕ) → d ≡ some t → e ≡ some u → t ≡ u)
    → merge_deleted d e ≡ merge_deleted e d
unfolding merge_deleted
merge_deleted_comm none none h = refl
merge_deleted_comm none (some u) h = refl
merge_deleted_comm (some t) none h = refl
merge_deleted_comm (some t) (some u) h = ap some (sym (h t u refl refl))

merge_deleted_clash :
    (d e : Option ℕ) (t u : ℕ)
    → merge_deleted d e ≡ merge_deleted e d
    → d ≡ some t
    → e ≡ some u
    → t ≡ u
unfolding merge_deleted
merge_deleted_clash d e t u h p q = ground arith

payload_path :
    (p q : ItemPayload)
    → p.id ≡ q.id
    → p.type ≡ q.type
    → p.title ≡ q.title
    → p.body ≡ q.body
    → p.status ≡ q.status
    → p.priority ≡ q.priority
    → p.assignee ≡ q.assignee
    → p.external_ref ≡ q.external_ref
    → p.tags ≡ q.tags
    → p.metadata ≡ q.metadata
    → p.acceptance_criteria ≡ q.acceptance_criteria
    → p.created_at ≡ q.created_at
    → p.closed_at ≡ q.closed_at
    → p.deleted_at ≡ q.deleted_at
    → p ≡ q
payload_path p q a b c d e f g h i j k l m n = λ t. record {
  id = a t;
  type = b t;
  title = c t;
  body = d t;
  status = e t;
  priority = f t;
  assignee = g t;
  external_ref = h t;
  tags = i t;
  metadata = j t;
  acceptance_criteria = k t;
  created_at = l t;
  closed_at = m t;
  deleted_at = n t;
}

module _ (uuid_string : ℕ → Bytes) (a b : Bytes) (ne : a ≢ b) (x y : Item)
    (same_id : x.id ≡ y.id) where
  abbrev mine : ItemPayload
  mine = merge_conflict a b x (item_payload uuid_string y)

  abbrev theirs : ItemPayload
  theirs = merge_conflict b a y (item_payload uuid_string x)

  agree : SameRest (item_payload uuid_string x) (item_payload uuid_string y) → mine ≡ theirs
  unfolding merge_conflict item_payload
  agree r =
      payload_path mine theirs (ground (arith, ap uuid_string same_id))
        (ground (arith, bytes_ltb_asymm a b, bytes_ltb-total a b))
        (ground (arith, bytes_ltb_asymm a b, bytes_ltb-total a b))
        (merge_body_comm a b x.body y.body ne)
        (ground (arith, bytes_ltb_asymm a b, bytes_ltb-total a b))
        (ground (arith, bytes_ltb_asymm a b, bytes_ltb-total a b))
        (ground (arith, bytes_ltb_asymm a b, bytes_ltb-total a b)) (ground (arith, r.external_ref))
        (ground (arith, bytes_ltb_asymm a b, bytes_ltb-total a b)) (ground (arith, r.metadata))
        (ground (arith, r.acceptance_criteria)) (ground arith) (ground (arith, r.closed_at))
        (merge_deleted_comm x.deleted_at y.deleted_at r.deleted_at)

  differ : mine ≡ theirs → SameRest (item_payload uuid_string x) (item_payload uuid_string y)
  unfolding merge_conflict item_payload
  differ h = record {
    external_ref = ground (arith, ap (λ (p : ItemPayload). p.external_ref) h);
    metadata = ground (arith, ap (λ (p : ItemPayload). p.metadata) h);
    acceptance_criteria = ground (arith, ap (λ (p : ItemPayload). p.acceptance_criteria) h);
    closed_at = ground (arith, ap (λ (p : ItemPayload). p.closed_at) h);
    deleted_at = λ t u.
        merge_deleted_clash x.deleted_at y.deleted_at t u
          (ground (arith, ap (λ (p : ItemPayload). p.deleted_at) h));
  }

  -- Two instances with different ids that merge each other's version of an item reach the same
  -- result exactly when the two versions agree in the external reference, the metadata, the
  -- acceptance criteria and the closing time, and, where both are deleted, in the deletion time.
  pub merge_agrees_iff :
      (merge_conflict a b x (item_payload uuid_string y)
        ≡ merge_conflict b a y (item_payload uuid_string x))
      ↔ SameRest (item_payload uuid_string x) (item_payload uuid_string y)
  merge_agrees_iff = (differ, agree)
