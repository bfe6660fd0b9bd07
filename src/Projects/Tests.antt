-- ===== src/Projects/Tests.antt =====
-- internal/service/hierarchy.go: one of two root projects is put under the other.
use flightdeck.Base.{false, ◌≡◌, refl, none, some, [], ◌∷◌, arith, nat_eq, string_eq}
use flightdeck.Base.Assoc.{lookup}
use flightdeck.Base.Bytes.{Bytes, codes, bytes_eq}
use flightdeck.Projects.{Parents, patch_parent}
use flightdeck.Projects.Walk.{ChildOf}
use flightdeck.Projects.Tree.{IsForest, patch_parent-IsForest}

abbrev two_roots : Parents
two_roots = (codes "a", none) ∷ (codes "b", none) ∷ []

no_edges : (parent slug : Bytes) → ¬ ChildOf two_roots parent slug
unfolding lookup
no_edges parent slug edge = ground (arith, edge)

two_roots-IsForest : IsForest two_roots
two_roots-IsForest = record { no_cycle = λ slug parent edge path. no_edges parent slug edge }

patch_parent-IsForest_example :
    IsForest (patch_parent false (codes "b") (some (codes "a")) two_roots).1
patch_parent-IsForest_example =
    patch_parent-IsForest false two_roots (codes "b") (some (codes "a")) two_roots-IsForest

moved_under :
    (patch_parent false (codes "b") (some (codes " a ")) two_roots).1
    ≡ (codes "a", none) ∷ (codes "b", some (codes "a")) ∷ []
unfolding patch_parent
moved_under = refl
