-- ===== src/Update/Latest.antt =====
-- internal/update/checker.go: the release that LatestTag picks, and the one that Available reports.
use flightdeck.Base.{
  ◌≡◌, refl, sym, ap, ◌∙◌, subst, ◌⊎◌, inl, inr, Bool, true, false, ◌&&◌, Option, none, some, List,
  [], ◌∷◌, arith, if◌then◌else◌, ◌==◌, nat_eq, string_eq, Bool-cases, Option-cases, All, Among,
}
use flightdeck.Base.Bytes.{Bytes, bytes_eq}
use flightdeck.Update.{
  Semver, newer_than, parse_semver, better, latest_go, latest_tag, Release, Checker, available,
  same_version,
}
use flightdeck.Update.Order.{newer_than_asymm, newer_than_irreflexive, older_trans}

-- Where the tag parses, the version is not newer than the given one.
pub IsNotNewer : Semver → Bytes → Type 0
IsNotNewer v tag = (w : Semver) → parse_semver tag ≡ some w → newer_than w v ≡ false

Best : Semver → Bytes → List Bytes → Option (Semver × Bytes) → Type 0
Best v0 t0 tags o =
    (v : Semver) × (t : Bytes) × (o ≡ some (v, t))
    × (newer_than v0 v ≡ false)
    × All (IsNotNewer v) tags
    × (((v ≡ v0) × (t ≡ t0)) ⊎ ((parse_semver t ≡ some v) × Among t tags))

none_newer :
    (v w : Semver) (tag : Bytes)
    → parse_semver tag ≡ some w
    → newer_than w v ≡ false
    → IsNotNewer v tag
unfolding IsNotNewer
none_newer v w tag h n u k = ground (arith, h, k)

latest_go-end : (best : Option (Semver × Bytes)) → latest_go best [] ≡ best
unfolding latest_go
latest_go-end best = refl

better-keep :
    (v0 v1 : Semver) (t0 t1 : Bytes)
    → newer_than v1 v0 ≡ false
    → better (some (v0, t0)) t1 v1 ≡ some (v0, t0)
unfolding better
better-keep v0 v1 t0 t1 h = rw (better, h)

better-take :
    (v0 v1 : Semver) (t0 t1 : Bytes)
    → newer_than v1 v0 ≡ true
    → better (some (v0, t0)) t1 v1 ≡ some (v1, t1)
unfolding better
better-take v0 v1 t0 t1 h = rw (better, h)

latest_go-skip :
    (best : Option (Semver × Bytes)) (tag : Bytes) (tags : List Bytes)
    → parse_semver tag ≡ none
    → latest_go best (tag ∷ tags) ≡ latest_go best tags
unfolding latest_go
latest_go-skip best tag tags h = rw (latest_go, h)

latest_go-weigh :
    (best : Option (Semver × Bytes)) (tag : Bytes) (tags : List Bytes) (v : Semver)
    → parse_semver tag ≡ some v
    → latest_go best (tag ∷ tags) ≡ latest_go (better best tag v) tags
unfolding latest_go
latest_go-weigh best tag tags v h = rw (latest_go, h)

skipped : (v : Semver) (tag : Bytes) → parse_semver tag ≡ none → IsNotNewer v tag
unfolding IsNotNewer
skipped v tag h w k = ground (arith, h, k)

latest_go-Best :
    (v0 : Semver) (t0 : Bytes) (tags : List Bytes)
    → Best v0 t0 tags (latest_go (some (v0, t0)) tags)
unfolding Best
latest_go-Best v0 t0 [] = (v0, t0, end, newer_than_irreflexive v0, tt, inl (refl, refl))
  where
    end : latest_go (some (v0, t0)) [] ≡ some (v0, t0)
    end = latest_go-end (some (v0, t0))
latest_go-Best v0 t0 (tag ∷ tags) = elim (Option-cases (parse_semver tag)) [
  | inl h ↦ pass h (latest_go-Best v0 t0 tags)
  | inr (v1, h) ↦ elim (Bool-cases (newer_than v1 v0)) [
    | inl n ↦ replace v1 h n (latest_go-Best v1 tag tags)
    | inr n ↦ keep v1 h n (latest_go-Best v0 t0 tags)
  ]
]
  where
    Goal : Type 0
    Goal = Best v0 t0 (tag ∷ tags) (latest_go (some (v0, t0)) (tag ∷ tags))

    later :
        {t : Bytes} {v : Semver}
        → ((v ≡ v0) × (t ≡ t0)) ⊎ ((parse_semver t ≡ some v) × Among t tags)
        → ((v ≡ v0) × (t ≡ t0)) ⊎ ((parse_semver t ≡ some v) × Among t (tag ∷ tags))
    later (inl e) = inl e
    later (inr (p, m)) = inr (p, inr m)

    pass : parse_semver tag ≡ none → Best v0 t0 tags (latest_go (some (v0, t0)) tags) → Goal
    pass h (v, t, e, n, a, w) =
        (v, t, latest_go-skip (some (v0, t0)) tag tags h ∙ e, n, (skipped v tag h, a), later w)

    keep :
        (v1 : Semver)
        → parse_semver tag ≡ some v1
        → newer_than v1 v0 ≡ false
        → Best v0 t0 tags (latest_go (some (v0, t0)) tags)
        → Goal
    keep v1 h k (v, t, e, n, a, w) = (
      v,
      t,
      latest_go-weigh (some (v0, t0)) tag tags v1 h
          ∙ ap (λ b. latest_go b tags) (better-keep v0 v1 t0 tag k)
          ∙ e,
      n,
      (none_newer v v1 tag h (older_trans v1 v0 v k n), a),
      later w,
    )

    replace :
        (v1 : Semver)
        → parse_semver tag ≡ some v1
        → newer_than v1 v0 ≡ true
        → Best v1 tag tags (latest_go (some (v1, tag)) tags)
        → Goal
    replace v1 h k (v, t, e, n, a, w) = (
      v,
      t,
      latest_go-weigh (some (v0, t0)) tag tags v1 h
          ∙ ap (λ b. latest_go b tags) (better-take v0 v1 t0 tag k)
          ∙ e,
      older_trans v0 v1 v (newer_than_asymm v1 v0 k) n,
      (none_newer v v1 tag h n, a),
      elim w [
        | inl (p, q) ↦ inr (ap parse_semver q ∙ h ∙ ap some (sym p), inl (sym q))
        | inr (p, m) ↦ inr (p, inr m)
      ],
    )

-- What LatestTag picks.
pub Picks : List Bytes → Option Bytes → Type 0
Picks tags none = All (λ tag. parse_semver tag ≡ none) tags
Picks tags (some t) =
    Among t tags × ((v : Semver) × (parse_semver t ≡ some v) × All (IsNotNewer v) tags)

latest_tag-skip :
    (tag : Bytes) (tags : List Bytes)
    → parse_semver tag ≡ none
    → latest_tag (tag ∷ tags) ≡ latest_tag tags
unfolding latest_tag
latest_tag-skip tag tags h =
    ap (λ o. elim o as (λ _. Option Bytes) [ none ↦ none | some (v, t) ↦ some t ])
      (latest_go-skip none tag tags h)

latest_tag-found :
    (tags : List Bytes) (v : Semver) (t : Bytes)
    → latest_go none tags ≡ some (v, t)
    → latest_tag tags ≡ some t
unfolding latest_tag
latest_tag-found tags v t h =
    ap (λ o. elim o as (λ _. Option Bytes) [ none ↦ none | some (v, t) ↦ some t ]) h

Picks-skip :
    (tag : Bytes) (tags : List Bytes) (o : Option Bytes)
    → parse_semver tag ≡ none
    → Picks tags o
    → Picks (tag ∷ tags) o
unfolding Picks
Picks-skip tag tags none h p = (h, p)
Picks-skip tag tags (some t) h (m, (v, e, a)) = (inr m, (v, e, (skipped v tag h, a)))

Picks-first :
    (tag : Bytes) (tags : List Bytes) (v0 : Semver)
    → parse_semver tag ≡ some v0
    → Best v0 tag tags (latest_go (some (v0, tag)) tags)
    → Picks (tag ∷ tags) (latest_tag (tag ∷ tags))
unfolding Best better Picks
Picks-first tag tags v0 h (v, t, e, n, a, w) =
    subst (Picks (tag ∷ tags))
      (sym (latest_tag-found (tag ∷ tags) v t (latest_go-weigh none tag tags v0 h ∙ e)))
      (elim w [
        | inl (p, q) ↦ (
          inl (sym q),
          (v, ap parse_semver q ∙ h ∙ ap some (sym p), (none_newer v v0 tag h n, a)),
        )
        | inr (p, m) ↦ (inr m, (v, p, (none_newer v v0 tag h n, a)))
      ])

-- LatestTag returns one of the tags, which parses as a version, and no tag that parses is newer; it
-- returns none only where no tag parses.
pub latest_tag-Picks : (tags : List Bytes) → Picks tags (latest_tag tags)
unfolding latest_tag Picks
latest_tag-Picks [] = tt
latest_tag-Picks (tag ∷ tags) = elim (Option-cases (parse_semver tag)) [
  | inl h ↦
      subst (Picks (tag ∷ tags)) (sym (latest_tag-skip tag tags h))
        (Picks-skip tag tags (latest_tag tags) h (latest_tag-Picks tags))
  | inr (v, h) ↦ Picks-first tag tags v h (latest_go-Best v tag tags)
]

-- A release of the running version, up to what follows a '-', is not reported as an update.
same_version_is_no_update :
    (c : Checker) (rel : Release)
    → c.latest ≡ some rel
    → same_version rel.tag c.version ≡ true
    → available (some c) ≡ none
unfolding available same_version newer_than
same_version_is_no_update c rel l h =
    rw (l, available) (go (parse_semver rel.tag) (parse_semver c.version) h)
  where
    go :
        (p q : Option Semver)
        → elim p as (λ _. Bool) [
          | none ↦ false
          | some v ↦ elim q as (λ _. Bool) [
            | none ↦ false
            | some w ↦ v.major == w.major && v.minor == w.minor && v.patch == w.patch
          ]
        ]
          ≡ true
        → elim q as (λ _. Option Release) [
          | none ↦ none
          | some cur ↦ elim p as (λ _. Option Release) [
            | none ↦ none
            | some lat ↦ if newer_than lat cur then some rel else none
          ]
        ]
          ≡ none
    go none none h = refl
    go none (some w) h = refl
    go (some v) none h = refl
    go (some v) (some w) h = ground arith
