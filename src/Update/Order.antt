-- ===== src/Update/Order.antt =====
-- internal/update/checker.go: the order of versions, and what a version's text stands for.
use flightdeck.Base.{
  ◌≡◌, refl, ap, ◌≢◌, ◌⊎◌, inl, inr, true, false, [], ◌∷◌, ◌++◌, arith, ◌==◌, nat_eq, string_eq,
  Bool-cases,
}
use flightdeck.Base.Bytes.{Bytes, bytes_eq}
use flightdeck.Update.{Semver, newer_than, trim_v, before_dash, split_go, semver_of, parse_semver}

pub newer_than_irreflexive : (a : Semver) → newer_than a a ≡ false
unfolding newer_than
newer_than_irreflexive a = ground arith

pub newer_than_trans :
    (a b c : Semver) → newer_than a b ≡ true → newer_than b c ≡ true → newer_than a c ≡ true
unfolding newer_than
newer_than_trans a b c h k = ground arith

pub older_trans :
    (a b c : Semver) → newer_than a b ≡ false → newer_than b c ≡ false → newer_than a c ≡ false
unfolding newer_than
older_trans a b c h k = ground arith

pub newer_than_asymm : (a b : Semver) → newer_than a b ≡ true → newer_than b a ≡ false
unfolding newer_than
newer_than_asymm a b h = ground arith

-- Of two versions, the one is newer, or the other is, or they are the same: just one of the three.
newer_than_trichotomy :
    (a b : Semver)
    → ((newer_than a b ≡ true) × (newer_than b a ≡ false) × (a ≢ b))
      ⊎ ((newer_than b a ≡ true) × (newer_than a b ≡ false) × (a ≢ b))
      ⊎ ((newer_than a b ≡ false) × (newer_than b a ≡ false) × (a ≡ b))
unfolding newer_than
newer_than_trichotomy a b = ground arith

before_dash_suffix : (s t : Bytes) → before_dash (s ++ 45 ∷ t) ≡ before_dash s
unfolding before_dash
before_dash_suffix [] t = refl
before_dash_suffix (c ∷ s) t = rw (before_dash_suffix s t)

-- What follows a '-', as git describe appends it, does not count.
parse_semver_suffix : (s t : Bytes) → parse_semver (s ++ 45 ∷ t) ≡ parse_semver s
unfolding parse_semver trim_v
parse_semver_suffix [] t = refl
parse_semver_suffix (c ∷ s) t = elim (Bool-cases (c == 118)) [
  | inl e ↦
      rw (parse_semver, trim_v, e) (ap (λ u. semver_of (split_go [] u)) (before_dash_suffix s t))
  | inr e ↦
      rw (parse_semver, trim_v, e)
        (ap (λ u. semver_of (split_go [] u)) (before_dash_suffix (c ∷ s) t))
]
