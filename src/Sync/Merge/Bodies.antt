-- ===== src/Sync/Merge/Bodies.antt =====
-- internal/sync/engine.go: a merge keeps both bodies.
use flightdeck.Base.{
  ◌≡◌, refl, subst, true, ◌||◌, [], ◌∷◌, ◌++◌, arith, ◌==◌, nat_eq, string_eq, if_elim,
}
use mathlib.Core.List.{append-nil, append_assoc}
use flightdeck.Base.Bytes.{Bytes, bytes_eq, bytes_beq_iff, bytes_ltb, contains_text, has_prefix}
use flightdeck.Sync.Payload.{Item, ItemPayload}
use flightdeck.Sync.Merge.{merge_conflict, merge_body, conflict_separator}

has_prefix-append : (s q : Bytes) → has_prefix (s ++ q) s ≡ true
unfolding has_prefix
has_prefix-append [] [] = refl
has_prefix-append [] (c ∷ q) = refl
has_prefix-append (c ∷ s) q = ground (arith, has_prefix-append s q)

contains_text-nil : (s : Bytes) → contains_text s [] ≡ true
unfolding contains_text has_prefix
contains_text-nil [] = refl
contains_text-nil (c ∷ s) = refl

contains_text-append_left : (s q : Bytes) → contains_text (s ++ q) s ≡ true
unfolding contains_text
contains_text-append_left [] q = contains_text-nil q
contains_text-append_left (c ∷ s) q = ground (arith, has_prefix-append (c ∷ s) q)

contains_text-append_right : (p s : Bytes) → contains_text (p ++ s) s ≡ true
unfolding contains_text
contains_text-append_right [] [] = contains_text-nil []
contains_text-append_right [] (c ∷ s) =
    subst (λ t. contains_text t (c ∷ s) ≡ true) (append-nil (c ∷ s))
      (contains_text-append_left (c ∷ s) [])
contains_text-append_right (c ∷ p) s = ground (arith, contains_text-append_right p s)

contains_text_refl : (s : Bytes) → contains_text s s ≡ true
contains_text_refl s = contains_text-append_right [] s

merge_body-keeps :
    (a b s t : Bytes)
    → (contains_text (merge_body a b s t) s ≡ true) × (contains_text (merge_body a b s t) t ≡ true)
unfolding merge_body
merge_body-keeps a b s t =
    if_elim P (s == t || s == []) (λ e. (same e, contains_text_refl t))
      λ _.
        if_elim P (t == [])
          (λ e. (contains_text_refl s, ground (arith, bytes_beq_iff t [], contains_text-nil s)))
          λ _.
            if_elim P (contains_text t s) (λ e. (e, contains_text_refl t))
              λ _.
                if_elim P (contains_text s t) (λ e. (contains_text_refl s, e))
                  λ _.
                    if_elim P (bytes_ltb a b)
                      (λ _. (contains_text-append_left s (conflict_separator ++ t), joined s t))
                      λ _. (joined t s, contains_text-append_left t (conflict_separator ++ s))
  where
    P : Bytes → Type 0
    P u = (contains_text u s ≡ true) × (contains_text u t ≡ true)

    same : (s == t || s == []) ≡ true → contains_text t s ≡ true
    same e =
        ground
          (arith, bytes_beq_iff s t, bytes_beq_iff s [], contains_text_refl t, contains_text-nil t)

    joined : (s t : Bytes) → contains_text (s ++ (conflict_separator ++ t)) t ≡ true
    joined s t =
        subst (λ u. contains_text u t ≡ true) (append_assoc s conflict_separator t)
          (contains_text-append_right (s ++ conflict_separator) t)

-- A merge loses no text: whatever the two instance ids, the merged body contains the body of either
-- side.
pub merge_conflict-keeps_bodies :
    (a b : Bytes) (local : Item) (remote : ItemPayload)
    → (contains_text (merge_conflict a b local remote).body local.body ≡ true)
      × (contains_text (merge_conflict a b local remote).body remote.body ≡ true)
unfolding merge_conflict
merge_conflict-keeps_bodies a b local remote = merge_body-keeps a b local.body remote.body
