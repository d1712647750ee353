-- ===== src/MinHash/Tests.antt =====
-- The signature of five tokens.
use wfts.Common.{ℕ, ◌+◌, ◌≡◌, refl, List, [], ◌∷◌}
use wfts.Common.Texts.{codes}
use wfts.MinHash.{
  join_words, get_word_n_grams, mix, lower_entries, sign_shingles, blank_sign, create_signature,
}
use wfts.MinHash.Union.{least_values, quadruples, create_signature-least_values}

abbrev sum_bytes : List ℕ → ℕ
sum_bytes [] = 0
sum_bytes (c ∷ s) = c + sum_bytes s

abbrev five_tokens : List (List ℕ)
five_tokens = codes "a" ∷ codes "b" ∷ codes "c" ∷ codes "d" ∷ codes "e" ∷ []

abbrev two_salts : List (ℕ × ℕ)
two_salts = (1, 0) ∷ (0, 7) ∷ []

five_signed : create_signature sum_bytes two_salts five_tokens ≡ 490 ∷ 7 ∷ []
unfolding join_words get_word_n_grams mix lower_entries sign_shingles blank_sign create_signature
five_signed = refl

create_signature-least_values_example :
    create_signature sum_bytes two_salts five_tokens
    ≡ least_values sum_bytes two_salts (quadruples five_tokens)
create_signature-least_values_example =
    create_signature-least_values sum_bytes two_salts five_tokens
