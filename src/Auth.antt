-- ===== src/Auth.antt =====
-- internal/auth/auth.go and internal/store/api_keys.sql.go: API keys and the middleware that asks for
-- one. A key's hash is SHA-256, a parameter; the handler behind the middleware is a parameter too.
-- Times are nanoseconds.
pub mod Keys
pub mod Gate
mod Tests
use flightdeck.Base.{
  ℕ, ◌+◌, ◌-◌, ◌*◌, Bool, true, false, not, ◌&&◌, ◌||◌, Option, none, some, List, [], ◌∷◌, ◌++◌,
  ltb, leb, if◌then◌else◌, ◌==◌, nat_eq, string_eq, contains,
}
use flightdeck.Base.Bytes.{Bytes, bytes_eq}

pub record Identity : Type 0 where
  pub name : Bytes
  pub scopes : List Bytes

pub record ApiKey : Type 0 where
  pub id : ℕ
  pub name : Bytes
  pub key_hash : Bytes
  pub scopes : List Bytes
  pub last_used_at : Option ℕ
  pub revoked : Bool
  pub expires_at : Option ℕ

unfoldable pub has_scope : Identity → Bytes → Bool
has_scope id scope = contains id.scopes scope

abbrev is_expired : Option ℕ → ℕ → Bool
is_expired none now = false
is_expired (some e) now = leb e now

-- The condition of GetAPIKeyByHash.
unfoldable pub is_active : ℕ → Bytes → ApiKey → Bool
is_active now hash k = (k.key_hash == hash) && (not k.revoked && not (is_expired k.expires_at now))

unfoldable pub get_by_hash : ℕ → Bytes → List ApiKey → Option ApiKey
unfolding is_active
get_by_hash now hash [] = none
get_by_hash now hash (k ∷ ks) = if is_active now hash k then some k else get_by_hash now hash ks

-- UPDATE api_keys SET … WHERE id = $1
unfoldable pub change_key : ℕ → (ApiKey → ApiKey) → List ApiKey → List ApiKey
change_key id f [] = []
change_key id f (k ∷ ks) = (if k.id == id then f k else k) ∷ change_key id f ks

unfoldable pub touch_key : ℕ → ℕ → List ApiKey → List ApiKey
unfolding change_key
touch_key now id keys = change_key id (λ k. record k { last_used_at = some now }) keys

unfoldable pub revoke_key : ℕ → List ApiKey → List ApiKey
unfolding change_key
revoke_key id keys = change_key id (λ k. record k { revoked = true }) keys

-- The unique index on key_hash.
unfoldable pub is_taken : Bytes → List ApiKey → Bool
is_taken hash [] = false
is_taken hash (k ∷ ks) = k.key_hash == hash || is_taken hash ks

unfoldable pub create_key : ApiKey → List ApiKey → List ApiKey
unfolding is_taken
create_key k keys =
    if is_taken k.key_hash keys
    then keys
    else keys ++ record k { last_used_at = none; revoked = false } ∷ []

-- Another row has the hash.
unfoldable pub is_taken_elsewhere : ℕ → Bytes → List ApiKey → Bool
is_taken_elsewhere id hash [] = false
is_taken_elsewhere id hash (k ∷ ks) =
    (k.key_hash == hash && not (k.id == id)) || is_taken_elsewhere id hash ks

-- A statement that violates the index changes nothing.
unfoldable pub rotate_key : ℕ → Bytes → List ApiKey → List ApiKey
unfolding is_taken_elsewhere change_key
rotate_key id hash keys =
    if is_taken_elsewhere id hash keys
    then keys
    else change_key id
        (λ k. record k { key_hash = hash; revoked = false; expires_at = none; last_used_at = none })
        keys

pub record AuthRequest : Type 0 where
  -- The header X-API-Key and the parameter api_key, "" where they are missing.
  pub header_key : Bytes
  pub query_key : Bytes

pub data Refusal : Type 0 where
  missing_key invalid_key lookup_failed lacks_scope : Refusal

abbrev pub status_of : Refusal → ℕ
status_of missing_key = 401
status_of invalid_key = 401
status_of lookup_failed = 500
status_of lacks_scope = 403

pub data Access : Type 0 where
  granted : Identity → Access
  denied : Refusal → Access

abbrev pub minute : ℕ
minute = 60 * 1000000000

abbrev pub first_key : AuthRequest → Bytes
first_key r = elim r.header_key [ [] ↦ r.query_key | c ∷ s ↦ c ∷ s ]

-- At most one write per key and minute.
unfoldable pub is_stale : ℕ → Option ℕ → Bool
is_stale now none = true
is_stale now (some t) = ltb minute (now - t)

unfoldable pub identity_of : ApiKey → Identity
identity_of k = record { name = k.name; scopes = k.scopes }

unfoldable pub recognize : ℕ → Bool → Option ApiKey → List ApiKey → Access × List ApiKey
unfolding is_stale touch_key identity_of
recognize now touch_fails none keys = (denied invalid_key, keys)
recognize now touch_fails (some k) keys = (
  granted (identity_of k),
  if is_stale now k.last_used_at && not touch_fails then touch_key now k.id keys else keys,
)

module _ (hash_key : Bytes → Bytes) where
  -- `lookup_fails` and `touch_fails` say which statements break.
  unfoldable pub authenticate : ℕ → Bool → Bool → AuthRequest → List ApiKey → Access × List ApiKey
  unfolding recognize get_by_hash
  authenticate now lookup_fails touch_fails r keys =
      if first_key r == []
      then (denied missing_key, keys)
      else if lookup_fails
      then (denied lookup_failed, keys)
      else recognize now touch_fails (get_by_hash now (hash_key (first_key r)) keys) keys

  -- What a request leaves: the answer, the keys, and what the handler keeps.
  pub data Served (R : Type 0) : Type 0 where
    answered : R → Served R
    refused : Refusal → Served R

  abbrev pub pass_on :
      {R S : Type 0}
      → Bytes
      → (Identity → S → R × S)
      → S
      → Access × List ApiKey
      → Served R × List ApiKey × S
  pass_on scope next s (denied e, keys) = (refused e, keys, s)
  pass_on scope next s (granted id, keys) =
      if contains id.scopes scope
      then (answered (next id s).0, keys, (next id s).1)
      else (refused lacks_scope, keys, s)

  unfoldable pub middleware :
      {R S : Type 0}
      → Bytes
      → (Identity → S → R × S)
      → ℕ
      → Bool
      → Bool
      → AuthRequest
      → List ApiKey
      → S
      → Served R × List ApiKey × S
  unfolding authenticate has_scope
  middleware scope next now lookup_fails touch_fails r keys s =
      pass_on scope next s (authenticate now lookup_fails touch_fails r keys)
