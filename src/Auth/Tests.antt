-- ===== src/Auth/Tests.antt =====
-- internal/auth/auth.go: a key that opens, a request with none, and a key that was revoked.
use flightdeck.Base.{ℕ, ◌+◌, ◌≡◌, refl, true, false, none, List, [], ◌∷◌, arith, nat_eq, string_eq}
use flightdeck.Base.Bytes.{Bytes, codes, bytes_eq}
use flightdeck.Auth.{
  Identity, ApiKey, AuthRequest, Refusal, refused, middleware, get_by_hash, revoke_key, touch_key,
  create_key, identity_of, is_taken,
}
use flightdeck.Auth.Keys.{KeySteps, rest, followed, creates, touches, revoked_stays_out}
use flightdeck.Auth.Gate.{Unlocks, nothing_opens}

abbrev sha : Bytes → Bytes
sha raw = 35 ∷ raw

abbrev a_key : ApiKey
a_key = record {
  id = 1;
  name = codes "ada";
  key_hash = sha (codes "fd_1");
  scopes = codes "read" ∷ codes "write" ∷ [];
  last_used_at = none;
  revoked = false;
  expires_at = none;
}

abbrev another : ApiKey
another = record a_key { id = 2; name = codes "bo"; key_hash = sha (codes "fd_2") }

abbrev a_request : AuthRequest
a_request = record { header_key = []; query_key = codes "fd_1" }

abbrev count_calls : Identity → ℕ → Bytes × ℕ
count_calls id n = (id.name, n + 1)

a_key-Unlocks : Unlocks sha (codes "write") 50 a_request (a_key ∷ []) (identity_of a_key)
unfolding get_by_hash
a_key-Unlocks = record {
  presented = λ e. ground arith;
  key = a_key;
  found = refl;
  scoped = refl;
  named = refl;
}

unscoped : (id : Identity) → ¬ Unlocks sha (codes "admin") 50 a_request (a_key ∷ []) id
unfolding get_by_hash
unscoped id o = ground (arith, o.found, o.scoped)

nothing_opens_example :
    (e : Refusal) × ((middleware sha
        (codes "admin")
        count_calls
        50
        false
        false
        a_request
        (a_key ∷ [])
        7).0
      ≡ refused e)
    × ((middleware sha (codes "admin") count_calls 50 false false a_request (a_key ∷ []) 7).2 ≡ 7)
nothing_opens_example =
    nothing_opens sha (codes "admin") count_calls 50 false false a_request (a_key ∷ []) 7 unscoped

abbrev later : List ApiKey
later = touch_key 60 2 (create_key another (revoke_key 1 (a_key ∷ [])))

later_comes : KeySteps 1 (revoke_key 1 (a_key ∷ [])) later
later_comes = followed (followed rest (creates another)) (touches 60 2)

one_taken : is_taken (sha (codes "fd_1")) (a_key ∷ []) ≡ true
unfolding is_taken
one_taken = refl

revoked_stays_out_example :
    (e : Refusal) × (middleware sha (codes "write") count_calls 70 false false a_request later 7
      ≡ (refused e, later, 7))
revoked_stays_out_example =
    revoked_stays_out sha 1 (a_key ∷ []) later (codes "write") count_calls 70 false false a_request
      7 ((λ e. refl), tt) one_taken later_comes
