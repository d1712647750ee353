-- ===== src/Codec/Shards.antt =====
-- The buckets of the trigrams, the shards of the words, and the shards of the signatures.
use wfts.Common.{ℕ, ◌+◌, ◌-◌, ◌*◌, ◌%◌, ◌≤◌, ◌<◌, ◌≡◌, some, List, [], ◌∷◌, arith}
use wfts.Codec.{letter_index, make_bi_gram_key, shard_of, shingle_sum, make_shingle_key}

abbrev pub IsLower : ℕ → Type 0
IsLower c = (97 ≤ c) × (c ≤ 122)

letter_index-lower : (x : ℕ) → IsLower x → letter_index x ≡ x - 97
unfolding letter_index
letter_index-lower x h = ground arith

shard_of-lower : (x : ℕ) → IsLower x → shard_of x ≡ some (x - 97)
unfolding shard_of
shard_of-lower x h = rw (letter_index-lower x h) (ground arith)

make_bi_gram_key-lower :
    (a b : ℕ) → IsLower a → IsLower b → make_bi_gram_key a b ≡ (a - 97) * 26 + (b - 97)
unfolding make_bi_gram_key
make_bi_gram_key-lower a b ha hb =
    rw (letter_index-lower a ha, letter_index-lower b hb) (omega arith)

-- Two lower-case letters have a bucket among the 676, no two pairs of them share one, and a word
-- that begins with one has a shard.
pub make_bi_gram_key_bounds :
    (a b c d : ℕ)
    → IsLower a
    → IsLower b
    → IsLower c
    → IsLower d
    → (make_bi_gram_key a b < 676)
      × (make_bi_gram_key a b ≡ make_bi_gram_key c d → (a ≡ c) × (b ≡ d))
      × (shard_of a ≡ some (a - 97))
make_bi_gram_key_bounds a b c d ha hb hc hd =
    let first = make_bi_gram_key-lower a b ha hb in
    let second = make_bi_gram_key-lower c d hc hd in
    (omega arith, λ e. (omega arith, omega arith), shard_of-lower a ha)

-- The sum of a piece of a signature, taken without wrapping.
unfoldable pub plain_sum : List ℕ → ℕ
plain_sum [] = 0
plain_sum (s ∷ sign) = s + plain_sum sign

shingle_sum-mod :
    (key : ℕ) (sign : List ℕ) → shingle_sum key sign % 512 ≡ (key + plain_sum sign) % 512
unfolding shingle_sum plain_sum
shingle_sum-mod key [] = omega arith
shingle_sum-mod key (s ∷ sign) = omega (arith, shingle_sum-mod ((key + s % 512) % 65536) sign)

-- The shard of a piece of a signature is the sum of its numbers modulo 512, so it is one of the 512.
pub make_shingle_key_sum :
    (sign : List ℕ) → (make_shingle_key sign ≡ plain_sum sign % 512) × (make_shingle_key sign < 512)
unfolding make_shingle_key
make_shingle_key_sum sign = omega (arith, shingle_sum-mod 0 sign)
