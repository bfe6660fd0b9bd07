-- ===== src/Search/Fusion.antt =====
-- What rrfMerge and capLen of internal/service/service.go return: each found row once.
use flightdeck.Search.{
  Arithmetic, Scored, add_hit, add_list, add_lists, place, sort_scored, vals, rrf_merge,
}
use flightdeck.Base.{
  ℕ, ◌+◌, ◌-◌, ◌≤◌, String, ◌≡◌, refl, ap, ◌∙◌, inl, inr, List, [], ◌∷◌, arith, ltb, if◌then◌else◌,
  ◌==◌, ==_iff, ==_refl, nat_eq, string_eq, Bool-cases,
}

module _ {T : Type 0} (key : T → String) where
  -- How many rows of a list have a key.
  unfoldable pub times : String → List T → ℕ
  times k [] = 0
  times k (v ∷ list) = (if key v == k then 1 else 0) + times k list

  -- How many rows of several lists have a key.
  unfoldable pub total : String → List (List T) → ℕ
  unfolding times
  total k [] = 0
  total k (list ∷ lists) = times k list + total k lists

  -- One where there is any.
  unfoldable pub once : ℕ → ℕ
  once n = if ltb 0 n then 1 else 0

  module _ {S : Type 0} (a : Arithmetic S) where
    times-add_hit :
        (k : String) (rank : ℕ) (v : T) (order : List (Scored T S))
        → times k (vals key a (add_hit key a rank v order)) ≡ (
            if key v == k
            then times k (vals key a order) + (1 - once (times (key v) (vals key a order)))
            else times k (vals key a order))
    unfolding add_hit times vals once
    times-add_hit k rank v [] = ground (arith, ==_refl (key v))
    times-add_hit k rank v (s ∷ order) = ground (
      arith,
      times-add_hit k rank v order,
      ==_iff (key v) k,
      ==_iff (key s.val) k,
      ==_iff (key s.val) (key v),
    )

    -- Every key is there once at most.
    abbrev IsUnique : List (Scored T S) → Type 0
    IsUnique order = (k : String) → times k (vals key a order) ≤ 1

    add_hit-once :
        (k : String) (rank : ℕ) (v : T) (order : List (Scored T S))
        → IsUnique order
        → times k (vals key a (add_hit key a rank v order))
          ≡ once (times k (vals key a order) + times k (v ∷ []))
    unfolding once times
    add_hit-once k rank v order h = elim (Bool-cases (key v == k)) [
      | inl b ↦
          let same : key v ≡ k = (==_iff (key v) k).0 b in
          let e : times (key v) (vals key a order) ≡ times k (vals key a order) =
            ap (λ x. times x (vals key a order)) same in
          ground (arith, times-add_hit k rank v order, h k, b, e)
      | inr b ↦ ground (arith, times-add_hit k rank v order, h k, b)
    ]

    once_le : (n : ℕ) → once n ≤ 1
    unfolding once
    once_le n = ground arith

    add_hit-IsUnique :
        (rank : ℕ) (v : T) (order : List (Scored T S))
        → IsUnique order
        → IsUnique (add_hit key a rank v order)
    add_hit-IsUnique rank v order h k = omega (
      arith,
      add_hit-once k rank v order h,
      once_le (times k (vals key a order) + times k (v ∷ [])),
    )

    add_list-once :
        (k : String) (rank : ℕ) (list : List T) (order : List (Scored T S))
        → IsUnique order
        → times k (vals key a (add_list key a rank list order))
          ≡ once (times k (vals key a order) + times k list)
    unfolding add_list times once
    add_list-once k rank [] order h = ground (arith, h k)
    add_list-once k rank (v ∷ list) order h = ground (
      arith,
      add_list-once k (rank + 1) list (add_hit key a rank v order)
          (add_hit-IsUnique rank v order h),
      add_hit-once k rank v order h,
    )

    add_list-IsUnique :
        (rank : ℕ) (list : List T) (order : List (Scored T S))
        → IsUnique order
        → IsUnique (add_list key a rank list order)
    add_list-IsUnique rank list order h k = omega (
      arith,
      add_list-once k rank list order h,
      once_le (times k (vals key a order) + times k list),
    )

    add_lists-once :
        (k : String) (lists : List (List T)) (order : List (Scored T S))
        → IsUnique order
        → times k (vals key a (add_lists key a lists order))
          ≡ once (times k (vals key a order) + total k lists)
    unfolding add_lists total once
    add_lists-once k [] order h = ground (arith, h k)
    add_lists-once k (list ∷ lists) order h = ground (
      arith,
      add_lists-once k lists (add_list key a 0 list order) (add_list-IsUnique 0 list order h),
      add_list-once k 0 list order h,
    )

    times-place :
        (k : String) (s : Scored T S) (order : List (Scored T S))
        → times k (vals key a (place key a s order)) ≡ times k (vals key a (s ∷ order))
    unfolding place times vals
    times-place k s [] = refl
    times-place k s (t ∷ order) = ground (arith, times-place k s order)

    times-sort_scored :
        (k : String) (order : List (Scored T S))
        → times k (vals key a (sort_scored key a order)) ≡ times k (vals key a order)
    unfolding sort_scored times vals
    times-sort_scored k [] = refl
    times-sort_scored k (s ∷ order) =
        omega (arith, times-place k s (sort_scored key a order), times-sort_scored k order)

    -- Whatever the scores are: rrfMerge returns one row for each key that occurs in its lists, however
    -- often it occurs, and no row for any other key.
    pub rrf_merge-once :
        (k : String) (lists : List (List T))
        → times k (rrf_merge key a lists) ≡ once (total k lists)
    unfolding rrf_merge times vals
    rrf_merge-once k lists =
        let start : 0 + total k lists ≡ total k lists = omega arith in
        times-sort_scored k (add_lists key a lists [])
        ∙ (add_lists-once k lists [] (λ k. omega arith) ∙ ap once start)
