-- ===== src/Projects/Walk.antt =====
-- internal/store/projects.sql.go, `ProjectDescendants`: the recursive query finds the whole subtree.
use flightdeck.Base.{
  subst, Option, zero, suc, [], ◌∷◌, none, some, inl, inr, true, false, refl, inr, inl, Bool-cases,
  ◌⊎◌, ap, false, true, ◌∷◌, contains, length, arith, some, List, ◌++◌, zero, suc, ◌+◌, ◌<◌, ◌≤◌,
  ◌||◌, if◌then◌else◌, ◌==◌, ℕ, ◌≡◌,
}
use flightdeck.Base.Assoc.{lookup}
use flightdeck.Base.Bytes.{Bytes, bytes_eq, bytes_beq_iff}
use flightdeck.Projects.{Parents, new_children, subtree_of, project_descendants}

abbrev pub ChildOf : Parents → Bytes → Bytes → Type 0
ChildOf t parent slug = lookup slug t ≡ some (some parent)

-- The project `slug` is `root` or lies under it.
pub data Under (t : Parents) (root : Bytes) : Bytes → Type 0 where
  here : Under t root root
  below : {parent slug : Bytes} → Under t root parent → ChildOf t parent slug → Under t root slug

contains-append :
    (xs ys : List Bytes) (x : Bytes) → contains (xs ++ ys) x ≡ contains xs x || contains ys x
contains-append [] ys x = refl
contains-append (z ∷ xs) ys x = elim (Bool-cases (z == x)) [
  | inl e ↦ rw e refl
  | inr e ↦ rw e (contains-append xs ys x)
]

-- How many rows of the table have not been found.
abbrev unseen : List Bytes → Parents → ℕ
unseen seen [] = 0
unseen seen ((slug, parent) ∷ rows) = (if contains seen slug then 0 else 1) + unseen seen rows

unseen-append-le :
    (seen new : List Bytes) (rows : Parents) → unseen (seen ++ new) rows ≤ unseen seen rows
unseen-append-le seen new [] = omega arith
unseen-append-le seen new ((slug, parent) ∷ rows) =
    ground (arith, unseen-append-le seen new rows, contains-append seen new slug)

unseen-length-le : (seen : List Bytes) (rows : Parents) → unseen seen rows ≤ length rows
unseen-length-le seen [] = omega arith
unseen-length-le seen ((slug, parent) ∷ rows) = ground (arith, unseen-length-le seen rows)

all_seen :
    (seen : List Bytes) (c : Bytes) (row : Option Bytes) (rows : Parents)
    → unseen seen rows ≤ 0
    → lookup c rows ≡ some row
    → contains seen c ≡ true
unfolding lookup
all_seen seen c row [] few e = ground arith
all_seen seen c row ((slug, parent) ∷ rows) few e =
    ground (arith, all_seen seen c row rows, bytes_beq_iff slug c)

-- A round that finds a row leaves fewer.
unseen-new_children :
    (work seen new : List Bytes) (c : Bytes) (cs : List Bytes) (rows : Parents)
    → new_children work seen rows ≡ c ∷ cs
    → contains new c ≡ true
    → unseen (seen ++ new) rows < unseen seen rows
unfolding new_children
unseen-new_children work seen new c cs [] e h = ground arith
unseen-new_children work seen new c cs ((slug, none) ∷ rows) e h =
    ground (arith, unseen-new_children work seen new c cs rows e h, contains-append seen new slug)
unseen-new_children work seen new c cs ((slug, some p) ∷ rows) e h = ground (
  arith,
  unseen-new_children work seen new c cs rows,
  unseen-append-le seen new rows,
  contains-append seen new slug,
  ap (contains new),
)

new_children_complete :
    (work seen : List Bytes) (p c : Bytes) (rows : Parents)
    → lookup c rows ≡ some (some p)
    → contains work p ≡ true
    → contains seen c ≡ false
    → contains (new_children work seen rows) c ≡ true
unfolding new_children lookup
new_children_complete work seen p c [] e h k = ground arith
new_children_complete work seen p c ((slug, none) ∷ rows) e h k =
    ground (arith, new_children_complete work seen p c rows)
new_children_complete work seen p c ((slug, some q) ∷ rows) e h k =
    ground (arith, new_children_complete work seen p c rows, bytes_beq_iff slug c)

module _ (t : Parents) where
  -- The children of what has been found have been found, but for those of the last round.
  Closed : List Bytes → List Bytes → Type 0
  Closed work seen =
      (p c : Bytes)
      → contains seen p ≡ true
      → ChildOf t p c
      → (contains seen c ≡ true) ⊎ (contains work p ≡ true)

  -- A round more.
  next-Closed :
      (work seen : List Bytes)
      → Closed work seen
      → Closed (new_children work seen t) (seen ++ new_children work seen t)
  unfolding Closed
  next-Closed work seen closed p c found edge =
      let new = new_children work seen t in
      ground (
        arith,
        contains-append seen new p,
        contains-append seen new c,
        closed p c,
        edge,
        new_children_complete work seen p c t edge,
      )

  -- What the query returns.
  record IsWhole (seen found : List Bytes) : Type 0 where
    pub kept : (c : Bytes) → contains seen c ≡ true → contains found c ≡ true
    pub whole : (p c : Bytes) → contains found p ≡ true → ChildOf t p c → contains found c ≡ true

  subtree_of-IsWhole :
      (n : ℕ) (work seen : List Bytes)
      → unseen seen t ≤ n
      → Closed work seen
      → IsWhole seen (subtree_of n t work seen)
  unfolding subtree_of Closed
  subtree_of-IsWhole zero work seen few closed = record {
    kept = λ c h. h;
    whole = λ p c h edge. all_seen seen c (some p) t few edge;
  }
  subtree_of-IsWhole (suc n) work seen few closed =
      round (subtree_of-IsWhole n) (new_children work seen t) refl
    where
      round :
          ((after found : List Bytes)
            → unseen found t ≤ n
            → Closed after found
            → IsWhole found (subtree_of n t after found))
          → (new : List Bytes) → new_children work seen t ≡ new
          → IsWhole seen
              (elim new [ [] ↦ seen | c ∷ cs ↦ subtree_of n t (c ∷ cs) (seen ++ c ∷ cs) ])
      round ih [] e = record {
        kept = λ c h. h;
        whole = λ p c h edge. ground (
          arith,
          closed p c h edge,
          new_children_complete work seen p c t edge,
          ap (λ l. contains l c) e,
        );
      }
      round ih (c ∷ cs) e =
          let rest =
            ih (c ∷ cs) (seen ++ c ∷ cs)
              (omega (
                arith,
                few,
                unseen-new_children work seen (c ∷ cs) c cs t e
                    (let same = (bytes_beq_iff c c).1 refl in rw same refl),
              ))
              (subst (λ l. Closed l (seen ++ l)) e (next-Closed work seen closed)) in
          record {
            kept = λ d h. rest.kept d (ground (arith, contains-append seen (c ∷ cs) d));
            whole = rest.whole;
          }

  -- Of a project that is there, the query returns every project at or under it.
  pub project_descendants_complete :
      (root slug : Bytes) (row : Option Bytes)
      → lookup root t ≡ some row
      → Under t root slug
      → contains (project_descendants t root) slug ≡ true
  unfolding project_descendants Closed
  project_descendants_complete root slug row there under =
      rw (there, project_descendants) (found under)
    where
      walked : IsWhole (root ∷ []) (subtree_of (length t) t (root ∷ []) (root ∷ []))
      walked =
          subtree_of-IsWhole (length t) (root ∷ []) (root ∷ []) (unseen-length-le (root ∷ []) t)
            (λ p c h edge. inr h)

      found :
          {slug : Bytes}
          → Under t root slug
          → contains (subtree_of (length t) t (root ∷ []) (root ∷ [])) slug ≡ true
      found here = walked.kept root (let same = (bytes_beq_iff root root).1 refl in rw same refl)
      found (below {parent = p} {slug = c} path edge) = walked.whole p c (found path) edge
