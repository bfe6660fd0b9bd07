-- ===== src/VecCache.antt =====
-- internal/service/veccache.go: the cache of query embeddings in Redis. A float32 is its 32 bits; the
-- store maps keys to bytes, and `reachable` says whether it answers. SHA-256 is a parameter; the
-- expiry of entries is left to the store.
mod Tests
use flightdeck.Base.{
  ℕ, zero, suc, ◌+◌, ◌-◌, ◌*◌, ◌/◌, ◌%◌, ◌<◌, ◌≡◌, refl, sym, ap, ◌∙◌, subst, ◌≢◌, ◌↔◌, Bool, true,
  not, ◌&&◌, ◌||◌, Option, none, some, List, [], ◌∷◌, ◌++◌, arith, if◌then◌else◌, ◌==◌, nat_eq,
  string_eq, length, All,
}
use flightdeck.Base.Assoc.{Assoc, lookup, set, lookup-set_self}
use flightdeck.Base.Bytes.{Bytes, IsByte, codes, bytes_eq}

abbrev pub IsWord : ℕ → Type 0
IsWord w = w < 4294967296

-- binary.LittleEndian.PutUint32, for each element.
unfoldable pub encode_vec : List ℕ → Bytes
encode_vec [] = []
encode_vec (w ∷ ws) =
    (w % 256) ∷ (w / 256 % 256) ∷ (w / 65536 % 256) ∷ (w / 16777216 % 256) ∷ encode_vec ws

-- binary.LittleEndian.Uint32, of each four bytes.
unfoldable pub words : Bytes → List ℕ
words (a ∷ b ∷ c ∷ d ∷ rest) = (a + b * 256 + c * 65536 + d * 16777216) ∷ words rest
words _ = []

unfoldable pub decode_vec : Bytes → Option (List ℕ)
unfolding words
decode_vec b = if length b == 0 || not (length b % 4 == 0) then none else some (words b)

pub record VecCache : Type 0 where
  pub enabled : Bool
  pub model : Bytes
  pub reachable : Bool
  pub entries : Assoc Bytes Bytes

module _ (sha256_hex : Bytes → Bytes) where
  unfoldable pub vec_key : VecCache → Bytes → Bytes
  vec_key c q = codes "fd:emb:" ++ c.model ++ codes ":" ++ sha256_hex q

  unfoldable pub get_vec : VecCache → Bytes → Option (List ℕ)
  unfolding vec_key decode_vec lookup
  get_vec c q =
      if c.enabled && c.reachable
      then elim (lookup (vec_key c q) c.entries) [ none ↦ none | some b ↦ decode_vec b ]
      else none

  unfoldable pub set_vec : Bytes → List ℕ → VecCache → VecCache
  unfolding vec_key encode_vec set
  set_vec q [] c = c
  set_vec q (w ∷ ws) c =
      if c.enabled && c.reachable
      then record c { entries = set (vec_key c q) (encode_vec (w ∷ ws)) c.entries }
      else c

length-encode_vec : (v : List ℕ) → length (encode_vec v) ≡ 4 * length v
unfolding encode_vec
length-encode_vec [] = refl
length-encode_vec (w ∷ ws) = omega (arith, length-encode_vec ws)

words-encode_vec : (v : List ℕ) → All IsWord v → words (encode_vec v) ≡ v
unfolding words encode_vec
words-encode_vec [] h = refl
words-encode_vec (w ∷ ws) (p, h) = ground (arith, words-encode_vec ws h)

encode_vec-words : (b : Bytes) (n : ℕ) → All IsByte b → length b ≡ 4 * n → encode_vec (words b) ≡ b
unfolding words encode_vec
encode_vec-words [] n h e = refl
encode_vec-words (a ∷ []) n h e = absurd (omega arith)
encode_vec-words (a ∷ b ∷ []) n h e = absurd (omega arith)
encode_vec-words (a ∷ b ∷ c ∷ []) n h e = absurd (omega arith)
encode_vec-words (a ∷ b ∷ c ∷ d ∷ rest) zero h e = absurd (omega arith)
encode_vec-words (a ∷ b ∷ c ∷ d ∷ rest) (suc n) (p, (q, (r, (s, h)))) e =
    ground (arith, encode_vec-words rest n h (omega arith))

decode_encoded : (v : List ℕ) → All IsWord v → v ≢ [] → decode_vec (encode_vec v) ≡ some v
unfolding decode_vec
decode_encoded [] h ne = absurd (ne refl)
decode_encoded (w ∷ ws) h ne =
    ground (arith, length-encode_vec (w ∷ ws), words-encode_vec (w ∷ ws) h)

decode_vec-some :
    (b : Bytes) (v : List ℕ)
    → decode_vec b ≡ some v
    → (words b ≡ v) × (length b % 4 ≡ 0) × (length b ≢ 0)
unfolding decode_vec
decode_vec-some b v h = (ground arith, ground arith, λ e. ground arith)

-- Bytes decode to a vector exactly when the vector is not empty and they are its encoding.
pub decode_vec_iff :
    (b : Bytes) (v : List ℕ)
    → All IsByte b
    → All IsWord v
    → (decode_vec b ≡ some v) ↔ ((v ≢ []) × (encode_vec v ≡ b))
unfolding encode_vec
decode_vec_iff b v hb hv =
    (read, λ w. subst (λ x. decode_vec x ≡ some v) w.1 (decode_encoded v hv w.0))
  where
    read : decode_vec b ≡ some v → (v ≢ []) × (encode_vec v ≡ b)
    read h =
        let parts = decode_vec-some b v h in
        let n = length b / 4 in
        let back = ap encode_vec (sym parts.0) ∙ encode_vec-words b n hb (omega (arith, parts.1)) in
        (λ empty. parts.2 (ap length (sym back ∙ ap encode_vec empty)), back)

module _ (sha256_hex : Bytes → Bytes) where
  -- What is stored for a text is found again as it was, where the cache is on and answers.
  get_vec-set_vec :
      (c : VecCache) (q : Bytes) (v : List ℕ)
      → c.enabled ≡ true
      → c.reachable ≡ true
      → All IsWord v
      → v ≢ []
      → get_vec sha256_hex (set_vec sha256_hex q v c) q ≡ some v
  unfolding get_vec set_vec vec_key
  get_vec-set_vec c q [] on up h ne = absurd (ne refl)
  get_vec-set_vec c q (w ∷ ws) on up h ne = ground (
    arith,
    lookup-set_self (vec_key sha256_hex c q) (encode_vec (w ∷ ws)) c.entries,
    decode_encoded (w ∷ ws) h ne,
  )
