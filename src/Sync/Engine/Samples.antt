-- ===== src/Sync/Engine/Samples.antt =====
-- Two databases that share an item, for the tests. A document is its payload, and is its own hash; a
-- message is not enciphered; a UUID's text is its number.
use flightdeck.Base.{
  ℕ, ◌+◌, ◌≡◌, refl, ◌↔◌, Bool, true, false, ◌&&◌, Option, none, some, List, [], ◌∷◌, arith, Eq,
  ◌==◌, ==_iff, nat_eq, string_eq, length,
}
use flightdeck.Base.Bytes.{Bytes, codes, bytes_eq}
use flightdeck.Sync.Payload.{Item, ItemPayload, ActivityPayload, Project, ProjectPayload}
use flightdeck.Sync.Engine.{Wire, Db, Share, Envelope, no_state}

unfoldable pub list_beq : {A : Type 0} ⦃e : Eq A⦄ → List A → List A → Bool
list_beq [] [] = true
list_beq (a ∷ s) (b ∷ t) = a == b && list_beq s t
list_beq _ _ = false

pub list_beq_iff : {A : Type 0} ⦃e : Eq A⦄ (s t : List A) → (list_beq s t ≡ true) ↔ (s ≡ t)
unfolding list_beq
list_beq_iff [] [] = ground arith
list_beq_iff [] (b ∷ t) = ground arith
list_beq_iff (a ∷ s) [] = ground arith
list_beq_iff (a ∷ s) (b ∷ t) = ground (arith, ==_iff a b, list_beq_iff s t)

pub data Doc : Type 0 where
  item_doc : ItemPayload → Doc
  activity_doc : ActivityPayload → Doc
  project_doc : ProjectPayload → Doc

abbrev pub texts_eq : Eq (List Bytes)
texts_eq = record { same = list_beq ⦃e = bytes_eq⦄; same_iff = list_beq_iff ⦃e = bytes_eq⦄ }

abbrev optional : Option Bytes → Bytes
optional none = []
optional (some s) = 1 ∷ s

optional_injective : (o p : Option Bytes) → optional o ≡ optional p → o ≡ p
optional_injective none none h = refl
optional_injective none (some t) h = ground arith
optional_injective (some s) none h = ground arith
optional_injective (some s) (some t) h = ground arith

abbrev moment : Option ℕ → Bytes
moment none = []
moment (some t) = t ∷ []

-- The hash of a document: its fields.
unfoldable pub fields : Doc → List Bytes
fields (item_doc p) =
    p.id
    ∷ p.type
    ∷ p.title
    ∷ p.body
    ∷ p.status
    ∷ p.priority
    ∷ optional p.assignee
    ∷ optional p.external_ref
    ∷ p.metadata
    ∷ p.acceptance_criteria
    ∷ (p.created_at ∷ [])
    ∷ moment p.closed_at
    ∷ moment p.deleted_at
    ∷ p.tags
fields (activity_doc p) =
    p.id
    ∷ optional p.item_id
    ∷ p.kind
    ∷ p.actor
    ∷ p.body
    ∷ optional p.confidence
    ∷ p.metadata
    ∷ (p.created_at ∷ [])
    ∷ []
fields (project_doc p) = p.id ∷ p.name ∷ p.summary ∷ p.instructions ∷ []

pub fields_faithful :
    (p q : ActivityPayload) → fields (activity_doc p) ≡ fields (activity_doc q) → p ≡ q
unfolding fields
fields_faithful p q h =
    ground (
      arith,
      h,
      optional_injective p.item_id q.item_id,
      optional_injective p.confidence q.confidence,
    )

abbrev pub digits : ℕ → Bytes
digits i = i ∷ []

abbrev pub read_digits : Bytes → Option ℕ
read_digits (i ∷ []) = some i
read_digits _ = none

pub digits_read : (i : ℕ) → read_digits (digits i) ≡ some i
digits_read i = refl

abbrev pub a_wire : Wire
a_wire = record {
  Doc = Doc;
  Hash = List Bytes;
  Sealed = Envelope Doc;
  hash_eq = texts_eq;
  hash = fields;
  marshal_item = item_doc;
  marshal_activity = activity_doc;
  marshal_project = project_doc;
  decode_item = λ d. elim d [ item_doc p ↦ some p | activity_doc _ ↦ none | project_doc _ ↦ none ];
  decode_activity =
      λ d. elim d [ item_doc _ ↦ none | activity_doc p ↦ some p | project_doc _ ↦ none ];
  decode_project =
      λ d. elim d [ item_doc _ ↦ none | activity_doc _ ↦ none | project_doc p ↦ some p ];
  seal = λ env. env;
  decrypt = λ env. some env;
  uuid_string = digits;
  uuid_parse = read_digits;
  quote = λ s. s;
  new_id = λ db. length db.activities + 1000;
  now = 50;
}

abbrev pub an_item : Bytes → Item
an_item body = record {
  id = 4;
  project_id = 1;
  type = codes "task";
  title = codes "Paint";
  body = body;
  status = codes "todo";
  priority = codes "low";
  assignee = none;
  source = codes "api";
  external_ref = none;
  tags = [];
  metadata = codes "{}";
  acceptance_criteria = codes "[]";
  created_at = 10;
  closed_at = none;
  deleted_at = none;
  version = 3;
}

abbrev pub a_project : Project
a_project = record { id = 1; slug = codes "p"; name = codes "P"; summary = []; instructions = [] }

-- The rows of a project that was just shared.
abbrev pub shared : List (ℕ × Item) → Db (List Bytes)
shared items = record {
  items = items;
  activities = [];
  the_project = a_project;
  states = λ _ _. no_state;
}

abbrev pub with_item : Bytes → Db (List Bytes)
with_item body = shared ((4, an_item body) ∷ [])

abbrev pub a_share : Share
a_share = record { project_id = 1; peer_name = codes "peer" }
