-- ===== src/Search.antt =====
-- internal/service/service.go, rrfMerge and capLen: the ranked lists of a search become one. The
-- arithmetic of the scores, which are floats, is a parameter: 1/(60+rank), the sum and the comparison.
pub mod Fusion
pub mod Ranking
mod Tests
use flightdeck.Base.{
  ℕ, ◌+◌, String, Bool, Option, none, some, List, [], ◌∷◌, ltb, if◌then◌else◌, ◌==◌, nat_eq,
  string_eq, length, take,
}

-- The arithmetic of scores.
pub record Arithmetic (S : Type 0) : Type 0 where
  pub nothing : S
  pub plus : S → S → S
  pub reciprocal : ℕ → S
  pub exceeds : S → S → Bool

-- An entry of the map, which is also the entry of the order.
pub record Scored (T S : Type 0) : Type 0 where
  pub val : T
  pub score : S

module _ {T S : Type 0} (key : T → String) (a : Arithmetic S) where
  -- One row of a list: its entry's score goes up, or a new entry comes last.
  unfoldable pub add_hit : ℕ → T → List (Scored T S) → List (Scored T S)
  add_hit rank v [] = (record { val = v; score = a.plus a.nothing (a.reciprocal (60 + rank)) }) ∷ []
  add_hit rank v (s ∷ order) =
      if key s.val == key v
      then record s { score = a.plus s.score (a.reciprocal (60 + rank)) } ∷ order
      else s ∷ add_hit rank v order

  unfoldable pub add_list : ℕ → List T → List (Scored T S) → List (Scored T S)
  unfolding add_hit
  add_list rank [] order = order
  add_list rank (v ∷ list) order = add_list (rank + 1) list (add_hit rank v order)

  unfoldable pub add_lists : List (List T) → List (Scored T S) → List (Scored T S)
  unfolding add_list
  add_lists [] order = order
  add_lists (list ∷ lists) order = add_lists lists (add_list 0 list order)

  -- sort.SliceStable by descending score.
  unfoldable pub place : Scored T S → List (Scored T S) → List (Scored T S)
  place s [] = s ∷ []
  place s (t ∷ order) = if a.exceeds t.score s.score then t ∷ place s order else s ∷ (t ∷ order)

  unfoldable pub sort_scored : List (Scored T S) → List (Scored T S)
  unfolding place
  sort_scored [] = []
  sort_scored (s ∷ order) = place s (sort_scored order)

  unfoldable pub vals : List (Scored T S) → List T
  vals [] = []
  vals (s ∷ order) = s.val ∷ vals order

  unfoldable pub rrf_merge : List (List T) → List T
  unfolding add_lists sort_scored vals
  rrf_merge lists = vals (sort_scored (add_lists lists []))

-- The limit in force: the caller's, or 25 where there is none or it is not positive (0 here).
unfoldable pub capacity : Option ℕ → ℕ
capacity lim = elim lim [ none ↦ 25 | some n ↦ if ltb 0 n then n else 25 ]

unfoldable pub cap_len : {T : Type 0} → List T → Option ℕ → List T
unfolding capacity
cap_len list lim = if ltb (capacity lim) (length list) then take (capacity lim) list else list
