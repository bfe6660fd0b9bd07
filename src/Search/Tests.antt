-- ===== src/Search/Tests.antt =====
-- Search: a lexical and a semantic list, with scores in millionths.
use flightdeck.Search.{Arithmetic, Scored, vals, rrf_merge}
use flightdeck.Search.Fusion.{times, total, once, rrf_merge-once}
use flightdeck.Search.Ranking.{fused, IsRanked, rrf_merge-IsRanked}
use flightdeck.Base.{
  ℕ, ◌+◌, ◌/◌, String, ◌≡◌, refl, true, false, List, [], ◌∷◌, arith, ltb, nat_eq, string_eq, All,
}

abbrev millionths : Arithmetic ℕ
millionths = record {
  nothing = 0;
  plus = λ x y. x + y;
  reciprocal = λ n. 1000000 / n;
  exceeds = λ x y. ltb y x;
}

abbrev own_key : String → String
own_key s = s

abbrev two_lists : List (List String)
two_lists = ("a" ∷ "b" ∷ "c" ∷ []) ∷ ("c" ∷ "d" ∷ []) ∷ []

both_win : rrf_merge own_key millionths two_lists ≡ "c" ∷ "a" ∷ "b" ∷ "d" ∷ []
unfolding rrf_merge
both_win = refl

rrf_merge-once_example :
    times own_key "c" (rrf_merge own_key millionths two_lists)
    ≡ once own_key (total own_key "c" two_lists)
rrf_merge-once_example = rrf_merge-once own_key millionths "c" two_lists

asymmetric : (x y : ℕ) → ltb y x ≡ true → ltb x y ≡ false
asymmetric x y h = ground (arith, h)

rrf_merge-IsRanked_example :
    (order : List (Scored String ℕ)) × (rrf_merge own_key millionths two_lists
      ≡ vals own_key millionths order)
    × All (λ s. s.score ≡ fused own_key millionths (own_key s.val) two_lists 0) order
    × IsRanked own_key millionths order
rrf_merge-IsRanked_example = rrf_merge-IsRanked own_key millionths asymmetric two_lists
