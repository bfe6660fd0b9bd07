-- ===== src/Auth/Gate.antt =====
-- internal/auth/auth.go: whom the middleware lets through.
use flightdeck.Base.{
  ℕ, ◌≡◌, refl, ◌≢◌, inl, inr, Bool, true, false, some, List, [], ◌==◌, nat_eq, string_eq,
  Bool-cases, Option-cases, contains,
}
use flightdeck.Base.Bytes.{Bytes, bytes_eq, bytes_beq_iff}
use flightdeck.Auth.{
  Identity, ApiKey, AuthRequest, Refusal, missing_key, invalid_key, lookup_failed, lacks_scope,
  refused, get_by_hash, first_key, authenticate, middleware, recognize, identity_of,
}

module _ (hash_key : Bytes → Bytes) where
  -- The request presents a key that is there, neither revoked nor expired, with the scope.
  pub record Unlocks (scope : Bytes) (now : ℕ) (r : AuthRequest) (keys : List ApiKey)
      (id : Identity) : Type 0 where
    pub presented : first_key r ≢ []
    pub key : ApiKey
    pub found : get_by_hash now (hash_key (first_key r)) keys ≡ some key
    pub scoped : contains key.scopes scope ≡ true
    pub named : id ≡ identity_of key

  refuses_unscoped :
      {R S : Type 0} (scope : Bytes) (next : Identity → S → R × S) (now : ℕ) (touch_fails : Bool)
      (r : AuthRequest) (keys : List ApiKey) (s : S)
      → ((id : Identity) → ¬ Unlocks scope now r keys id)
      → (first_key r == []) ≡ false
      → (e : Refusal) × ((middleware hash_key scope next now false touch_fails r keys s).0
          ≡ refused e)
        × ((middleware hash_key scope next now false touch_fails r keys s).2 ≡ s)
  unfolding middleware authenticate recognize identity_of
  refuses_unscoped scope next now touch_fails r keys s no_key given =
      elim (Option-cases (get_by_hash now (hash_key (first_key r)) keys)) [
        | inl unknown ↦ (invalid_key, rw (given, unknown) refl, rw (given, unknown) refl)
        | inr (k, found) ↦ elim (Bool-cases (contains k.scopes scope)) [
          | inl scoped ↦ absurd (
              no_key (identity_of k) (record {
                presented = λ e. cc (given, (bytes_beq_iff (first_key r) []).1 e);
                key = k;
                found = found;
                scoped = scoped;
                named = refl;
              }))
          | inr unscoped ↦
              (lacks_scope, rw (given, found, unscoped) refl, rw (given, found, unscoped) refl)
        ]
      ]

  -- A request without a key that is there, neither revoked nor expired, and that has the scope is
  -- refused, also where the look-up of the key breaks: the handler does not run, and what it keeps
  -- is as it was.
  pub nothing_opens :
      {R S : Type 0} (scope : Bytes) (next : Identity → S → R × S) (now : ℕ)
      (lookup_fails touch_fails : Bool) (r : AuthRequest) (keys : List ApiKey) (s : S)
      → ((id : Identity) → ¬ Unlocks scope now r keys id)
      → (e : Refusal) × ((middleware hash_key scope next now lookup_fails touch_fails r keys s).0
          ≡ refused e)
        × ((middleware hash_key scope next now lookup_fails touch_fails r keys s).2 ≡ s)
  unfolding middleware authenticate
  nothing_opens scope next now lookup_fails touch_fails r keys s no_key =
      elim (Bool-cases (first_key r == [])) [
        | inl empty ↦ (missing_key, rw empty refl, rw empty refl)
        | inr given ↦ elim (Bool-cases lookup_fails) [
          | inl broken ↦ (lookup_failed, rw (given, broken) refl, rw (given, broken) refl)
          | inr works ↦ rw works (refuses_unscoped scope next now touch_fails r keys s no_key given)
        ]
      ]
