-- ===== src/MinHash.antt =====
-- internal/services/wfts/offline/indexer/minHash.go: the signature of a document. A token is the list
-- of its bytes. `hash64`, a parameter, is Sum64 of package hash/fnv. The salt arrays `a` and `b` are
-- one list of 128 pairs; NewHasher, which draws them from package math/rand, is left out.
pub mod Union
mod Tests
use wfts.Common.{ltb, if◌then◌else◌, length, take, ℕ, ◌+◌, ◌-◌, ◌*◌, ◌%◌, ◌^◌, List, [], ◌∷◌, ◌++◌}

abbrev pub n_gram_size : ℕ
n_gram_size = 4

abbrev pub prime : ℕ
prime = 2 ^ 61 - 1

-- The words of a gram, joined with spaces.
unfoldable pub join_words : List (List ℕ) → List ℕ
join_words [] = []
join_words (w ∷ []) = w
join_words (w ∷ v ∷ ws) = w ++ 32 ∷ join_words (v ∷ ws)

-- The loop of getWordNGrams, over the tokens from `i` on.
unfoldable pub get_word_n_grams : List (List ℕ) → List (List ℕ)
get_word_n_grams [] = []
get_word_n_grams (t ∷ ts) =
    let rest = get_word_n_grams ts in
    if ltb (length (t ∷ ts)) n_gram_size then [] else join_words (take n_gram_size (t ∷ ts)) ∷ rest

-- The body of the inner loop: `mh.a[i] * hash + mh.b[i]` in uint64, modulo the prime.
unfoldable pub mix : ℕ × ℕ → ℕ → ℕ
mix salt hash = (salt.0 * hash + salt.1) % 2 ^ 64 % prime

unfoldable pub lower_entries : List (ℕ × ℕ) → ℕ → List ℕ → List ℕ
lower_entries [] hash sign = []
lower_entries (salt ∷ salts) hash [] = []
lower_entries (salt ∷ salts) hash (s ∷ sign) =
    let x = mix salt hash in (if ltb x s then x else s) ∷ lower_entries salts hash sign

-- The loop over the shingles.
unfoldable pub sign_shingles : (List ℕ → ℕ) → List (ℕ × ℕ) → List (List ℕ) → List ℕ → List ℕ
sign_shingles hash64 salts [] sign = sign
sign_shingles hash64 salts (shingle ∷ shingles) sign =
    sign_shingles hash64 salts shingles (lower_entries salts (hash64 shingle) sign)

-- `^uint64(0)` at each place.
unfoldable pub blank_sign : List (ℕ × ℕ) → List ℕ
blank_sign [] = []
blank_sign (salt ∷ salts) = 18446744073709551615 ∷ blank_sign salts

unfoldable pub create_signature : (List ℕ → ℕ) → List (ℕ × ℕ) → List (List ℕ) → List ℕ
create_signature hash64 salts raw_tokens =
    sign_shingles hash64 salts (get_word_n_grams raw_tokens) (blank_sign salts)
