-- ===== src/Search/Ranking.antt =====
-- In which order rrfMerge of internal/service/service.go returns its rows.
use flightdeck.Search.{
  Arithmetic, Scored, add_hit, add_list, add_lists, place, sort_scored, vals, rrf_merge,
}
use flightdeck.Base.{
  ℕ, ◌+◌, String, ◌≡◌, refl, sym, ap, ◌∙◌, subst, ◌≢◌, inl, inr, true, false, List, [], ◌∷◌, arith,
  if◌then◌else◌, ◌==◌, ==_iff, ==_refl, nat_eq, string_eq, if_elim, Bool-cases, All,
}

module _ {T S : Type 0} (key : T → String) (a : Arithmetic S) where
  -- The score of a key after a list, from the one before it: a reciprocal for each row of the key.
  unfoldable pub gain : String → ℕ → List T → S → S
  gain k rank [] score = score
  gain k rank (v ∷ list) score =
      gain k (rank + 1) list (if key v == k then a.plus score (a.reciprocal (60 + rank)) else score)

  unfoldable pub fused : String → List (List T) → S → S
  unfolding gain
  fused k [] score = score
  fused k (list ∷ lists) score = fused k lists (gain k 0 list score)

  -- The score of each key after a row of the list.
  abbrev bumped : ℕ → T → (String → S) → String → S
  bumped rank v score k =
      if key v == k then a.plus (score k) (a.reciprocal (60 + rank)) else score k

  abbrev Lacks : String → List (Scored T S) → Type 0
  Lacks k order = All (λ s. key s.val ≢ k) order

  abbrev IsDistinct : List (Scored T S) → Type 0
  IsDistinct [] = Unit
  IsDistinct (s ∷ order) = Lacks (key s.val) order × IsDistinct order

  abbrev IsRight : (String → S) → List (Scored T S) → Type 0
  IsRight score order = All (λ s. s.score ≡ score (key s.val)) order

  -- Each key has one entry, with its score; a key without an entry has the score of nothing.
  record HasScores (score : String → S) (order : List (Scored T S)) : Type 0 where
    distinct : IsDistinct order
    right : IsRight score order
    fresh : (k : String) → Lacks k order → score k ≡ a.nothing

  untouched :
      (score : String → S) (rank : ℕ) (v : T) (order : List (Scored T S))
      → IsRight score order
      → Lacks (key v) order
      → IsRight (bumped rank v score) order
  untouched score rank v [] h f = tt
  untouched score rank v (s ∷ order) h f =
      let ne : (key v == key s.val) ≡ false = ground (arith, ==_iff (key v) (key s.val), f.0) in
      (rw (ne) h.0, untouched score rank v order h.1 f.1)

  hit-Lacks :
      (k : String) (rank : ℕ) (v : T) (order : List (Scored T S))
      → Lacks k order
      → key v ≢ k
      → Lacks k (add_hit key a rank v order)
  unfolding add_hit
  hit-Lacks k rank v [] h f = (f, tt)
  hit-Lacks k rank v (s ∷ order) h f =
      if_elim (Lacks k) (key s.val == key v) (λ _. h) λ _. (h.0, hit-Lacks k rank v order h.1 f)

  hit-IsDistinct :
      (rank : ℕ) (v : T) (order : List (Scored T S))
      → IsDistinct order
      → IsDistinct (add_hit key a rank v order)
  unfolding add_hit
  hit-IsDistinct rank v [] h = (tt, tt)
  hit-IsDistinct rank v (s ∷ order) h =
      if_elim IsDistinct (key s.val == key v) (λ _. h)
        λ b. (
          hit-Lacks (key s.val) rank v order h.0
              (λ e. ground (arith, ==_iff (key s.val) (key v), e, b)),
          hit-IsDistinct rank v order h.1,
        )

  hit-IsRight :
      (score : String → S) (rank : ℕ) (v : T) (order : List (Scored T S))
      → IsDistinct order
      → IsRight score order
      → (Lacks (key v) order → score (key v) ≡ a.nothing)
      → IsRight (bumped rank v score) (add_hit key a rank v order)
  unfolding add_hit
  hit-IsRight score rank v [] d h f =
      (rw (==_refl (key v)) (ap (λ x. a.plus x (a.reciprocal (60 + rank))) (sym (f tt))), tt)
  hit-IsRight score rank v (s ∷ order) d h f =
      if_elim (IsRight (bumped rank v score)) (key s.val == key v)
        (λ b.
          let e : key s.val ≡ key v = (==_iff (key s.val) (key v)).0 b in
          let e' : (key v == key s.val) ≡ true = (==_iff (key v) (key s.val)).1 (sym e) in
          (
            rw (e') (ap (λ x. a.plus x (a.reciprocal (60 + rank))) h.0),
            untouched score rank v order h.1 (subst (λ k. Lacks k order) e d.0),
          ))
        λ b.
          let ne : (key v == key s.val) ≡ false =
            ground (arith, ==_iff (key v) (key s.val), ==_iff (key s.val) (key v), b) in
          let ne' : key s.val ≢ key v = λ e. ground (arith, ==_iff (key s.val) (key v), e, b) in
          (rw (ne) h.0, hit-IsRight score rank v order d.1 h.1 (λ g. f (ne', g)))

  -- A key that is missing after a row was missing before, and is not the row's.
  hit_lacked :
      (k : String) (rank : ℕ) (v : T) (order : List (Scored T S))
      → Lacks k (add_hit key a rank v order)
      → Lacks k order × (key v ≢ k)
  unfolding add_hit
  hit_lacked k rank v [] h = (tt, h.0)
  hit_lacked k rank v (s ∷ order) h = elim (Bool-cases (key s.val == key v)) [
    | inl b ↦
        let e : key s.val ≡ key v = (==_iff (key s.val) (key v)).0 b in
        let g : Lacks k (s ∷ order) = rw (b, add_hit) at h in (g, λ q. g.0 (e ∙ q))
    | inr b ↦
        let g : Lacks k (s ∷ add_hit key a rank v order) = rw (b, add_hit) at h in
        let rest = hit_lacked k rank v order g.1 in ((g.0, rest.0), rest.1)
  ]

  hit-HasScores :
      (score : String → S) (rank : ℕ) (v : T) (order : List (Scored T S))
      → HasScores score order
      → HasScores (bumped rank v score) (add_hit key a rank v order)
  hit-HasScores score rank v order h = record {
    distinct = hit-IsDistinct rank v order h.distinct;
    right = hit-IsRight score rank v order h.distinct h.right (h.fresh (key v));
    fresh = λ k lacks.
        let (before, other) = hit_lacked k rank v order lacks in
        let ne : (key v == k) ≡ false = ground (arith, ==_iff (key v) k, other) in
        rw (ne) (h.fresh k before);
  }

  list-HasScores :
      (score : String → S) (rank : ℕ) (list : List T) (order : List (Scored T S))
      → HasScores score order
      → HasScores (λ k. gain k rank list (score k)) (add_list key a rank list order)
  unfolding add_list gain
  list-HasScores score rank [] order h = h
  list-HasScores score rank (v ∷ list) order h =
      list-HasScores (bumped rank v score) (rank + 1) list (add_hit key a rank v order)
        (hit-HasScores score rank v order h)

  lists-HasScores :
      (score : String → S) (lists : List (List T)) (order : List (Scored T S))
      → HasScores score order
      → HasScores (λ k. fused k lists (score k)) (add_lists key a lists order)
  unfolding add_lists fused
  lists-HasScores score [] order h = h
  lists-HasScores score (list ∷ lists) order h =
      lists-HasScores (λ k. gain k 0 list (score k)) lists (add_list key a 0 list order)
        (list-HasScores score 0 list order h)

  place-All :
      (P : Scored T S → Type 0) (s : Scored T S) (order : List (Scored T S))
      → P s
      → All P order
      → All P (place key a s order)
  unfolding place
  place-All P s [] p h = (p, tt)
  place-All P s (t ∷ order) p h =
      if_elim (All P) (a.exceeds t.score s.score) (λ _. (h.0, place-All P s order p h.1))
        λ _. (p, h)

  sort_scored-All :
      (P : Scored T S → Type 0) (order : List (Scored T S))
      → All P order
      → All P (sort_scored key a order)
  unfolding sort_scored
  sort_scored-All P [] h = tt
  sort_scored-All P (s ∷ order) h =
      place-All P s (sort_scored key a order) h.0 (sort_scored-All P order h.1)

  -- No entry's score exceeds that of the entry before it.
  abbrev pub IsRanked : List (Scored T S) → Type 0
  IsRanked [] = Unit
  IsRanked (s ∷ []) = Unit
  IsRanked (s ∷ (t ∷ order)) = (a.exceeds t.score s.score ≡ false) × IsRanked (t ∷ order)

  module _ (asymmetric : (x y : S) → a.exceeds x y ≡ true → a.exceeds y x ≡ false) where
    place-IsRanked :
        (s : Scored T S) (order : List (Scored T S))
        → IsRanked order
        → IsRanked (place key a s order)
    unfolding place
    place-IsRanked s [] h = tt
    place-IsRanked s (t ∷ []) h =
        if_elim IsRanked (a.exceeds t.score s.score) (λ b. (asymmetric t.score s.score b, tt))
          λ b. (b, tt)
    place-IsRanked s (t ∷ (u ∷ order)) h =
        if_elim IsRanked (a.exceeds t.score s.score)
          (λ b.
            let rest : IsRanked (place key a s (u ∷ order)) = place-IsRanked s (u ∷ order) h.1 in
            if_elim (λ o. IsRanked (t ∷ o)) (a.exceeds u.score s.score)
              (λ c.
                let after : IsRanked (u ∷ place key a s order) = rw (c, place) at rest in
                (h.0, after))
              λ c.
                let after : IsRanked (s ∷ (u ∷ order)) = rw (c, place) at rest in
                (asymmetric t.score s.score b, after))
          λ b. (b, h)

    sort_scored-IsRanked : (order : List (Scored T S)) → IsRanked (sort_scored key a order)
    unfolding sort_scored
    sort_scored-IsRanked [] = tt
    sort_scored-IsRanked (s ∷ order) =
        place-IsRanked s (sort_scored key a order) (sort_scored-IsRanked order)

    -- Where `exceeds` is asymmetric: the rows that rrfMerge returns are those of entries of which each
    -- has the score of its key, the sum of 1/(60+rank) over the key's rows in the lists' order, and
    -- none exceeds the score of the entry before it.
    pub rrf_merge-IsRanked :
        (lists : List (List T))
        → (order : List (Scored T S)) × (rrf_merge key a lists ≡ vals key a order)
          × All (λ s. s.score ≡ fused (key s.val) lists a.nothing) order
          × IsRanked order
    unfolding rrf_merge
    rrf_merge-IsRanked lists =
        let order = add_lists key a lists [] in
        let scores =
          lists-HasScores (λ _. a.nothing) lists []
            (record { distinct = tt; right = tt; fresh = λ _ _. refl }) in
        (
          sort_scored key a order,
          refl,
          sort_scored-All (λ s. s.score ≡ fused (key s.val) lists a.nothing) order scores.right,
          sort_scored-IsRanked order,
        )
