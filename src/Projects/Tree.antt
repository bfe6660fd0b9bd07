-- ===== src/Projects/Tree.antt =====
-- internal/service/hierarchy.go: the projects stay a tree.
use flightdeck.Base.{
  Bool, ◌≡◌, refl, sym, ap, ◌∙◌, subst, ◌⊎◌, inl, inr, Option, none, some, [], ◌∷◌, arith, ◌==◌,
  nat_eq, string_eq, Bool-cases, Option-cases,
}
use flightdeck.Base.Assoc.{lookup, set, lookup-set_self, lookup-set_ne}
use flightdeck.Base.Bytes.{Bytes, bytes_eq, bytes_beq_iff}
use flightdeck.Impact.{trim_space}
use flightdeck.Projects.Walk.{ChildOf, Under, here, below, project_descendants_complete}
use flightdeck.Projects.{
  nullable, Parents, set_parent, validate_project_parent, patch_parent, check_parent, check_walk,
}

-- No project lies under one of its children.
pub record IsForest (t : Parents) : Type 0 where
  pub no_cycle : (slug parent : Bytes) → ChildOf t parent slug → ¬ Under t slug parent

Under-trans : {t : Parents} {a b c : Bytes} → Under t a b → Under t b c → Under t a c
Under-trans h here = h
Under-trans h (below k e) = below (Under-trans h k) e

module _ (t : Parents) (moved : Bytes) where
  -- A project that is made a root has no parent; the other edges are the old ones.
  old_edge : (p c : Bytes) → ChildOf (set moved none t) p c → ChildOf t p c
  old_edge p c edge = elim (Bool-cases (moved == c)) [
    | inl at ↦ cc (lookup-set_self moved none t, edge, (bytes_beq_iff moved c).0 at)
    | inr off ↦
        sym (lookup-set_ne moved c none t (λ e. cc ((bytes_beq_iff moved c).1 e, off))) ∙ edge
  ]

  -- A path in the changed tree is one in the old tree, or runs over the new edge.
  split_path :
      (parent : Bytes) {root slug : Bytes}
      → Under (set moved (some parent) t) root slug
      → Under t root slug ⊎ (Under t root parent × Under t moved slug)
  split_path parent here = inl here
  split_path parent {root} (below {parent = p} {slug = c} path edge) =
      elim (Bool-cases (moved == c)) [
        | inl at ↦
            let same = (bytes_beq_iff moved c).0 at in
            let parent_is : parent ≡ p = cc (lookup-set_self moved (some parent) t, edge, same) in
            elim (split_path parent path) [
              | inl old ↦
                  inr (subst (Under t root) (sym parent_is) old, subst (Under t moved) same here)
              | inr (up, down) ↦ inr (up, subst (Under t moved) same here)
            ]
        | inr off ↦
            let kept : ChildOf t p c =
              sym
                (lookup-set_ne moved c (some parent) t (λ e. cc ((bytes_beq_iff moved c).1 e, off)))
              ∙ edge in
            elim (split_path parent path) [
              | inl old ↦ inl (below old kept)
              | inr (up, down) ↦ inr (up, below down kept)
            ]
      ]

  move-IsForest :
      (parent : Bytes) → ¬ Under t moved parent → IsForest t → IsForest (set moved (some parent) t)
  move-IsForest parent apart forest = record { no_cycle = none_closes }
    where
      none_closes :
          (c p : Bytes)
          → ChildOf (set moved (some parent) t) p c
          → ¬ Under (set moved (some parent) t) c p
      none_closes c p edge path = elim (Bool-cases (moved == c)) [
        | inl at ↦
            let same = (bytes_beq_iff moved c).0 at in
            let parent_is : p ≡ parent = cc (lookup-set_self moved (some parent) t, edge, same) in
            elim (split_path parent path) [
              | inl old ↦
                  apart (subst (Under t moved) parent_is (subst (λ r. Under t r p) (sym same) old))
              | inr (up, down) ↦ apart (subst (λ r. Under t r parent) (sym same) up)
            ]
        | inr off ↦
            let kept : ChildOf t p c =
              sym
                (lookup-set_ne moved c (some parent) t (λ e. cc ((bytes_beq_iff moved c).1 e, off)))
              ∙ edge in
            elim (split_path parent path) [
              | inl old ↦ forest.no_cycle c p kept old
              | inr (up, down) ↦ apart (Under-trans (below down kept) up)
            ]
      ]

  old_path : {root slug : Bytes} → Under (set moved none t) root slug → Under t root slug
  old_path here = here
  old_path (below {parent = p} {slug = c} path edge) = below (old_path path) (old_edge p c edge)

  root-IsForest : IsForest t → IsForest (set moved none t)
  root-IsForest forest = record {
    no_cycle = λ c p edge path. forest.no_cycle c p (old_edge p c edge) (old_path path);
  }

nullable_given : (s p : Bytes) → nullable s ≡ some p → s ≡ p
nullable_given [] p h = cc
nullable_given (c ∷ s) p h = ground arith

module _ (query_fails : Bool) (t : Parents) where
  checked_apart :
      (slug parent : Bytes) (row : Option Bytes)
      → lookup slug t ≡ some row
      → check_parent query_fails slug parent t ≡ none
      → ¬ Under t slug parent
  unfolding check_parent check_walk
  checked_apart slug parent row there ok under =
      ground (arith, ok, project_descendants_complete t slug parent row there under)

  set_parent-IsForest :
      (slug : Bytes) (parent : Option Bytes)
      → ((p : Bytes) (row : Option Bytes)
          → parent ≡ some p
          → lookup slug t ≡ some row
          → ¬ Under t slug p)
      → IsForest t
      → IsForest (set_parent slug parent t)
  unfolding set_parent
  set_parent-IsForest slug none apart forest = elim (Option-cases (lookup slug t)) [
    | inl absent ↦ rw (absent, set_parent) forest
    | inr (row, there) ↦ rw (there, set_parent) (root-IsForest t slug forest)
  ]
  set_parent-IsForest slug (some p) apart forest = elim (Option-cases (lookup slug t)) [
    | inl absent ↦ rw (absent, set_parent) forest
    | inr (row, there) ↦
        rw (there, set_parent) (move-IsForest t slug p (apart p row refl there) forest)
  ]

  validated_apart :
      (slug parent p : Bytes) (row : Option Bytes)
      → validate_project_parent query_fails slug parent t ≡ none
      → nullable (trim_space parent) ≡ some p
      → lookup slug t ≡ some row
      → ¬ Under t slug p
  unfolding validate_project_parent
  validated_apart slug parent p row ok named there = elim (Bool-cases (trim_space parent == [])) [
    | inl empty ↦ cc (named, ap nullable ((bytes_beq_iff (trim_space parent) []).0 empty))
    | inr given ↦
        subst (λ q. ¬ Under t slug q) (nullable_given (trim_space parent) p named)
          (checked_apart slug (trim_space parent) row there (rw given at ok))
  ]

  -- However the parent of a project is asked to change, whether the change is accepted or not, and
  -- whether the query for the subtree works or fails, the projects stay a forest, where no other
  -- change of a parent comes between the check and the update.
  pub patch_parent-IsForest :
      (slug : Bytes) (asked : Option Bytes)
      → IsForest t
      → IsForest (patch_parent query_fails slug asked t).1
  unfolding patch_parent
  patch_parent-IsForest slug none forest = forest
  patch_parent-IsForest slug (some parent) forest =
      elim (Option-cases (validate_project_parent query_fails slug parent t)) [
        | inl ok ↦
            rw (ok, patch_parent)
              (set_parent-IsForest slug (nullable (trim_space parent))
                (λ p row named there. validated_apart slug parent p row ok named there) forest)
        | inr (e, refused) ↦ rw (refused, patch_parent) forest
      ]
