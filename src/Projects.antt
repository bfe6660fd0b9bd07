-- ===== src/Projects.antt =====
-- internal/service/hierarchy.go and internal/api/projects.go: the tree of projects, and the change of
-- a project's parent, with the recursive query of internal/store/projects.sql.go. The table maps a
-- slug to its parent. The check of a new parent and the update are two statements; they are one step
-- here, so that another change of a parent that comes between them is left out.
pub mod Walk
pub mod Tree
mod Tests
use flightdeck.Base.{
  ◌++◌, zero, suc, ℕ, ◌&&◌, not, Bool, length, Option, none, some, List, [], ◌∷◌, if◌then◌else◌,
  ◌==◌, nat_eq, string_eq, contains,
}
use flightdeck.Base.Assoc.{Assoc, lookup, set}
use flightdeck.Base.Bytes.{Bytes, bytes_eq}
use flightdeck.Impact.{trim_space}

-- parent_slug, by slug.
abbrev pub Parents : Type 0
Parents = Assoc Bytes (Option Bytes)

pub data ParentError : Type 0 where
  no_parent own_parent would_cycle walk_failed : ParentError

-- UpdateProject, as far as the parent goes; a slug that is not there is no row.
unfoldable pub set_parent : Bytes → Option Bytes → Parents → Parents
unfolding lookup set
set_parent slug parent t = elim (lookup slug t) [ none ↦ t | some _ ↦ set slug parent t ]

abbrev pub nullable : Bytes → Option Bytes
nullable [] = none
nullable (c ∷ s) = some (c ∷ s)

-- One round of the query: the rows with a parent in the working table that have not been found.
unfoldable pub new_children : List Bytes → List Bytes → Parents → List Bytes
new_children work seen [] = []
new_children work seen ((slug, none) ∷ rows) = new_children work seen rows
new_children work seen ((slug, some p) ∷ rows) =
    let rest = new_children work seen rows in
    if contains work p && not (contains seen slug) then slug ∷ rest else rest

-- The rounds, until one finds nothing; each but the last finds a row, so the number of rows is enough.
unfoldable pub subtree_of : ℕ → Parents → List Bytes → List Bytes → List Bytes
unfolding new_children
subtree_of zero t work seen = seen
subtree_of (suc n) t work seen = elim (new_children work seen t) [
  | [] ↦ seen
  | c ∷ cs ↦ subtree_of n t (c ∷ cs) (seen ++ c ∷ cs)
]

-- ProjectDescendants, of a project that is there.
unfoldable pub project_descendants : Parents → Bytes → List Bytes
unfolding subtree_of lookup
project_descendants t root = elim (lookup root t) [
  | none ↦ []
  | some _ ↦ subtree_of (length t) t (root ∷ []) (root ∷ [])
]

module _ (query_fails : Bool) where
  unfoldable pub check_walk : Bytes → Option (List Bytes) → Option ParentError
  check_walk parent none = some walk_failed
  check_walk parent (some slugs) = if contains slugs parent then some would_cycle else none

  unfoldable pub check_parent : Bytes → Bytes → Parents → Option ParentError
  unfolding check_walk lookup project_descendants
  check_parent slug parent t = elim (lookup parent t) [
    | none ↦ some no_parent
    | some _ ↦
        if parent == slug
        then some own_parent
        else check_walk parent (if query_fails then none else some (project_descendants t slug))
  ]

  -- `none` is no error.
  unfoldable pub validate_project_parent : Bytes → Bytes → Parents → Option ParentError
  unfolding check_parent trim_space
  validate_project_parent slug parent t =
      if trim_space parent == [] then none else check_parent slug (trim_space parent) t

  -- The parent of a PATCH request: `none` leaves it as it is, "" makes the project a root.
  unfoldable pub patch_parent : Bytes → Option Bytes → Parents → Option ParentError × Parents
  unfolding validate_project_parent set_parent trim_space
  patch_parent slug none t = (none, t)
  patch_parent slug (some parent) t = elim (validate_project_parent slug parent t) [
    | some e ↦ (some e, t)
    | none ↦ (none, set_parent slug (nullable (trim_space parent)) t)
  ]
