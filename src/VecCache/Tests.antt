-- ===== src/VecCache/Tests.antt =====
-- internal/service/veccache.go: a vector of two elements.
use flightdeck.Base.{ℕ, ◌≡◌, refl, ◌≢◌, ◌↔◌, some, List, [], ◌∷◌, arith, nat_eq, string_eq}
use flightdeck.Base.Bytes.{Bytes, bytes_eq}
use flightdeck.VecCache.{encode_vec, decode_vec, decode_vec_iff}

abbrev two_words : List ℕ
two_words = 1065353216 ∷ 3 ∷ []

abbrev eight_bytes : Bytes
eight_bytes = 0 ∷ 0 ∷ 128 ∷ 63 ∷ 3 ∷ 0 ∷ 0 ∷ 0 ∷ []

decode_vec_iff_example :
    (decode_vec eight_bytes ≡ some two_words)
    ↔ ((two_words ≢ []) × (encode_vec two_words ≡ eight_bytes))
decode_vec_iff_example = decode_vec_iff eight_bytes two_words (omega arith) (omega arith)

eight_bytes_decode : decode_vec eight_bytes ≡ some two_words
unfolding decode_vec
eight_bytes_decode = refl
