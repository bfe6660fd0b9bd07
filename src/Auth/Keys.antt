-- ===== src/Auth/Keys.antt =====
-- internal/store/api_keys.sql.go: what becomes of a key that was revoked.
use flightdeck.Base.{
  ℕ, ◌≡◌, refl, sym, ap, ◌∙◌, ◌≢◌, inl, inr, Bool, true, none, List, [], ◌∷◌, ◌++◌, arith,
  nat_beq_iff, ◌==◌, nat_eq, string_eq, Bool-cases, All, All-append,
}
use flightdeck.Base.Bytes.{Bytes, bytes_eq, bytes_beq_iff}
use flightdeck.Auth.{
  invalid_key, missing_key, lookup_failed, refused, Refusal, first_key, AuthRequest, Identity,
  authenticate, middleware, is_taken_elsewhere, ApiKey, is_active, get_by_hash, change_key,
  touch_key, revoke_key, is_taken, create_key, rotate_key,
}

-- The statements on api_keys, but for a rotation of the key with the id `spared`.
pub data KeyStep (spared : ℕ) (from : List ApiKey) : List ApiKey → Type 0 where
  creates : (k : ApiKey) → KeyStep spared from (create_key k from)
  revokes : (id : ℕ) → KeyStep spared from (revoke_key id from)
  touches : (now id : ℕ) → KeyStep spared from (touch_key now id from)
  rotates : (id : ℕ) (hash : Bytes) → id ≢ spared → KeyStep spared from (rotate_key id hash from)

pub data KeySteps (spared : ℕ) (from : List ApiKey) : List ApiKey → Type 0 where
  rest : KeySteps spared from from
  followed :
      {keys after : List ApiKey}
      → KeySteps spared from keys
      → KeyStep spared keys after
      → KeySteps spared from after

-- A row with this hash is the one with this id, and is revoked.
abbrev BarredRow : ℕ → Bytes → ApiKey → Type 0
BarredRow id hash k = (k.key_hash ≡ hash) → (k.id ≡ id) × (k.revoked ≡ true)

record IsBarred (id : ℕ) (hash : Bytes) (keys : List ApiKey) : Type 0 where
  pub all_barred : All (BarredRow id hash) keys
  pub still_taken : is_taken hash keys ≡ true

change_key-All :
    (P Q : ApiKey → Type 0) (id : ℕ) (f : ApiKey → ApiKey) (keys : List ApiKey)
    → ((k : ApiKey) → P k → k.id ≡ id → Q (f k))
    → ((k : ApiKey) → P k → k.id ≢ id → Q k)
    → All P keys
    → All Q (change_key id f keys)
unfolding change_key
change_key-All P Q id f [] changed kept h = tt
change_key-All P Q id f (k ∷ ks) changed kept (p, h) = elim (Bool-cases (k.id == id)) [
  | inl at ↦
      rw at (changed k p ((nat_beq_iff k.id id).0 at), change_key-All P Q id f ks changed kept h)
  | inr off ↦ rw off (
    kept k p (λ e. cc ((nat_beq_iff k.id id).1 e, off)),
    change_key-All P Q id f ks changed kept h,
  )
]

change_key-taken :
    (P : ApiKey → Type 0) (id : ℕ) (hash : Bytes) (f : ApiKey → ApiKey) (keys : List ApiKey)
    → ((k : ApiKey) → P k → k.id ≡ id → k.key_hash ≡ hash → (f k).key_hash ≡ hash)
    → All P keys
    → is_taken hash keys ≡ true
    → is_taken hash (change_key id f keys) ≡ true
unfolding is_taken change_key
change_key-taken P id hash f [] keeps p h = h
change_key-taken P id hash f (k ∷ ks) keeps (p, ps) h = ground (
  arith,
  nat_beq_iff k.id id,
  bytes_beq_iff k.key_hash hash,
  bytes_beq_iff (f k).key_hash hash,
  keeps k p,
  change_key-taken P id hash f ks keeps ps,
)

barred_elsewhere :
    (id j : ℕ) (hash : Bytes) (keys : List ApiKey)
    → j ≢ id
    → All (BarredRow id hash) keys
    → is_taken hash keys ≡ true
    → is_taken_elsewhere j hash keys ≡ true
unfolding is_taken is_taken_elsewhere
barred_elsewhere id j hash [] ne h t = t
barred_elsewhere id j hash (k ∷ ks) ne (p, h) t = ground (
  arith,
  nat_beq_iff k.id j,
  bytes_beq_iff k.key_hash hash,
  p,
  barred_elsewhere id j hash ks ne h,
)

is_taken-append :
    (hash : Bytes) (keys more : List ApiKey)
    → is_taken hash keys ≡ true
    → is_taken hash (keys ++ more) ≡ true
unfolding is_taken
is_taken-append hash [] more h = cc
is_taken-append hash (k ∷ ks) more h = ground (arith, is_taken-append hash ks more)

module _ (id : ℕ) (hash : Bytes) where
  -- An update that leaves the hash and the id of a row alone, and revokes it or leaves that alone.
  update-IsBarred :
      (j : ℕ) (f : ApiKey → ApiKey) (keys : List ApiKey)
      → ((k : ApiKey) → (f k).key_hash ≡ k.key_hash)
      → ((k : ApiKey) → BarredRow id hash k → BarredRow id hash (f k))
      → IsBarred id hash keys
      → IsBarred id hash (change_key j f keys)
  update-IsBarred j f keys same bars b = record {
    all_barred =
        change_key-All (BarredRow id hash) (BarredRow id hash) j f keys (λ k p _. bars k p)
          (λ k p _. p) b.all_barred;
    still_taken =
        change_key-taken (BarredRow id hash) j hash f keys (λ k p _ e. same k ∙ e) b.all_barred
          b.still_taken;
  }

  create_key-IsBarred :
      (k : ApiKey) (keys : List ApiKey)
      → IsBarred id hash keys
      → IsBarred id hash (create_key k keys)
  unfolding create_key
  create_key-IsBarred k keys b = elim (Bool-cases (is_taken k.key_hash keys)) [
    | inl taken ↦ rw taken b
    | inr free ↦ rw free (record {
      all_barred =
          All-append (BarredRow id hash) keys _ b.all_barred
            (λ e. cc (b.still_taken, free, ap (λ h. is_taken h keys) e), tt);
      still_taken = is_taken-append hash keys _ b.still_taken;
    })
  ]

  rotate_key-IsBarred :
      (j : ℕ) (new : Bytes) (keys : List ApiKey)
      → j ≢ id
      → IsBarred id hash keys
      → IsBarred id hash (rotate_key j new keys)
  unfolding rotate_key
  rotate_key-IsBarred j new keys ne b = elim (Bool-cases (is_taken_elsewhere j new keys)) [
    | inl taken ↦ rw taken b
    | inr free ↦ rw free (record {
      all_barred =
          change_key-All (BarredRow id hash) (BarredRow id hash) j _ keys
            (λ k p _ e. cc (
              barred_elsewhere id j hash keys ne b.all_barred b.still_taken,
              free,
              ap (λ h. is_taken_elsewhere j h keys) e,
            ))
            (λ k p _. p) b.all_barred;
      still_taken =
          change_key-taken (BarredRow id hash) j hash _ keys
            (λ k p at e. absurd (ne (sym at ∙ (p e).0))) b.all_barred b.still_taken;
    })
  ]

  KeyStep-IsBarred :
      {keys after : List ApiKey}
      → KeyStep id keys after
      → IsBarred id hash keys
      → IsBarred id hash after
  unfolding revoke_key touch_key
  KeyStep-IsBarred {keys} (creates k) b = create_key-IsBarred k keys b
  KeyStep-IsBarred {keys} (revokes j) b =
      update-IsBarred j _ keys (λ k. refl) (λ k p e. ((p e).0, refl)) b
  KeyStep-IsBarred {keys} (touches now j) b = update-IsBarred j _ keys (λ k. refl) (λ k p e. p e) b
  KeyStep-IsBarred {keys} (rotates j new ne) b = rotate_key-IsBarred j new keys ne b

  KeySteps-IsBarred :
      {keys after : List ApiKey}
      → KeySteps id keys after
      → IsBarred id hash keys
      → IsBarred id hash after
  KeySteps-IsBarred rest b = b
  KeySteps-IsBarred (followed steps st) b = KeyStep-IsBarred st (KeySteps-IsBarred steps b)

  revoke_key-IsBarred :
      (keys : List ApiKey)
      → All (λ k. k.key_hash ≡ hash → k.id ≡ id) keys
      → is_taken hash keys ≡ true
      → IsBarred id hash (revoke_key id keys)
  unfolding revoke_key
  revoke_key-IsBarred keys own taken = record {
    all_barred =
        change_key-All (λ k. k.key_hash ≡ hash → k.id ≡ id) (BarredRow id hash) id _ keys
          (λ k p at e. (p e, refl)) (λ k p off e. absurd (off (p e))) own;
    still_taken =
        change_key-taken (λ k. k.key_hash ≡ hash → k.id ≡ id) id hash _ keys (λ k p at e. e) own
          taken;
  }

  barred_is_not_found :
      (now : ℕ) (keys : List ApiKey)
      → All (BarredRow id hash) keys
      → get_by_hash now hash keys ≡ none
  unfolding get_by_hash is_active
  barred_is_not_found now [] h = refl
  barred_is_not_found now (k ∷ ks) (p, h) =
      ground (arith, bytes_beq_iff k.key_hash hash, p, barred_is_not_found now ks h)

-- A key that is revoked stays out: where no other row has its hash, whatever keys are then made,
-- revoked, used or rotated, but for this one, a request that presents it is refused and changes
-- nothing.
pub revoked_stays_out :
    {R S : Type 0} (hash_key : Bytes → Bytes) (id : ℕ) (keys after : List ApiKey) (scope : Bytes)
    (next : Identity → S → R × S) (now : ℕ) (lookup_fails touch_fails : Bool) (r : AuthRequest)
    (s : S)
    → All (λ k. k.key_hash ≡ hash_key (first_key r) → k.id ≡ id) keys
    → is_taken (hash_key (first_key r)) keys ≡ true
    → KeySteps id (revoke_key id keys) after
    → (e : Refusal) × (middleware hash_key scope next now lookup_fails touch_fails r after s
        ≡ (refused e, after, s))
unfolding middleware authenticate
revoked_stays_out hash_key id keys after scope next now lookup_fails touch_fails r s own taken
      steps =
    let hash = hash_key (first_key r) in
    let barred = KeySteps-IsBarred id hash steps (revoke_key-IsBarred id hash keys own taken) in
    let unknown = barred_is_not_found id hash now after barred.all_barred in
    elim (Bool-cases (first_key r == [])) [
      | inl empty ↦ (missing_key, rw empty refl)
      | inr given ↦ elim (Bool-cases lookup_fails) [
        | inl broken ↦ (lookup_failed, rw (given, broken) refl)
        | inr works ↦ (invalid_key, rw (given, works, unknown) refl)
      ]
    ]
