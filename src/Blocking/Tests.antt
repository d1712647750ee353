-- ===== src/Blocking/Tests.antt =====
-- The filter list with one host on it, and the refusal of a host below it.
use wfts.Common.{Result, ok, err, ℕ, ◌+◌, ◌≡◌, refl, inr, true, false, List, [], ◌∷◌, ◌++◌}
use wfts.Common.Texts.{codes, trim_space, split_from, split_lines}
use wfts.Blocking.{
  add_bits, contain_bits, bit_index, is_dot, join_dots, upload_filter, RoundTripError, blocked,
  round_trip,
}
use wfts.Blocking.Hosts.{rule_line, round_trip-upload_filter}

-- A hash for the tests: the sum of the bytes.
abbrev sum_bytes : List ℕ → ℕ
sum_bytes [] = 0
sum_bytes (c ∷ s) = c + sum_bytes s

abbrev small_bloom : List ℕ
small_bloom = 0 ∷ 0 ∷ 0 ∷ []

tests : Unit {0}
unfolding add_bits contain_bits bit_index split_from join_dots
tests =
    let added : add_bits 65 3 small_bloom (0 ∷ 1 ∷ []) ≡ 0 ∷ 18 ∷ 0 ∷ [] = refl in
    let there : contain_bits 65 3 (0 ∷ 18 ∷ 0 ∷ []) (0 ∷ 1 ∷ []) ≡ true = refl in
    let absent : contain_bits 66 3 (0 ∷ 18 ∷ 0 ∷ []) (0 ∷ 1 ∷ []) ≡ false = refl in
    let joined : join_dots (split_from is_dot [] (codes "a..b")) ≡ codes "a..b" = refl in tt

abbrev filter_list : List ℕ
filter_list = codes "! ads\n||ads.io^\r\n"

lines : split_lines filter_list ≡ (codes "! ads" ∷ []) ++ codes "||ads.io^\r" ∷ [] ∷ []
unfolding split_lines split_from
lines = refl

rule : trim_space (codes "||ads.io^\r") ≡ rule_line (codes "ads.io")
unfolding trim_space
rule = refl

abbrev answer_all : List ℕ → Result RoundTripError ℕ
answer_all host = ok 200

round_trip-upload_filter_example :
    round_trip sum_bytes (upload_filter sum_bytes filter_list) answer_all (codes "x.ads.io")
    ≡ err blocked
round_trip-upload_filter_example =
    round_trip-upload_filter sum_bytes ℕ answer_all filter_list (codes "! ads" ∷ []) ([] ∷ [])
      (codes "||ads.io^\r") (codes "ads.io") (codes "x.ads.io") lines rule (inr (codes "x", refl))
