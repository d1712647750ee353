-- ===== src/Stemmer/Tests.antt =====
-- The stemmer at fixed words, and its laws at them.
use wfts.Common.{length, ◌≤◌, ◌≡◌, refl, ◌↔◌, true, List, [], ◌∷◌, map, arith}
use mathlib.Core.List.{reverse}
use wfts.Common.Texts.{codes, text_eq, has_prefix, to_lower}
use wfts.Tokenizer.{TokenType, Token, is_word, is_kept}
use wfts.Stemmer.{
  SuffixRule, is_among, is_stop_word, measure_from, measure, has_suffix, trim_suffix,
  trim_rule_suffix, stem,
}
use wfts.Stemmer.Shape.{Visits, stem-empty_iff, length-stem}
use wfts.Stemmer.Tokens.{stem_tokens, word_values, content_words, stem_tokens-content_words}

program : Unit {0}
unfolding text_eq has_prefix to_lower reverse is_word is_kept is_among is_stop_word measure_from
    measure has_suffix trim_suffix trim_rule_suffix stem
program = tt

-- The rules in the order they are written, and the order that visits them backwards.
abbrev as_written : List SuffixRule → List SuffixRule
as_written rs = rs

relational : stem as_written (codes "relational") ≡ codes "relate"
unfolding program
relational = refl

-- The order of the visit decides what is left of `possesses`.
possesses : stem as_written (codes "possesses") ≡ codes "possess"
unfolding program
possesses = refl

possesses_backwards : stem reverse (codes "possesses") ≡ codes "possesse"
unfolding program
possesses_backwards = refl

stop_words : stem as_written (codes "with") ≡ []
unfolding program
stop_words = refl

as_written-Visits : Visits as_written
as_written-Visits p rs h = h

stem-empty_iff_example :
    (length (stem as_written (codes "cats")) ≡ 0) ↔ (is_stop_word (codes "cats") ≡ true)
stem-empty_iff_example = stem-empty_iff as_written (codes "cats") as_written-Visits (omega arith)

length-stem_example : length (stem as_written (codes "relational")) ≤ length (codes "relational")
length-stem_example = length-stem as_written (codes "relational") as_written-Visits

abbrev the_cats : List Token
the_cats =
    record { kind = TokenType.word; value = codes "the"; start_pos = 0; end_pos = 3 }
    ∷ record { kind = TokenType.whitespace; value = codes " "; start_pos = 3; end_pos = 4 }
    ∷ record { kind = TokenType.word; value = codes "cats"; start_pos = 4; end_pos = 8 }
    ∷ []

stem_tokens-content_words_example :
    ((stem_tokens as_written the_cats).0 ≡ content_words (word_values the_cats))
    × (word_values (stem_tokens as_written the_cats).1
        ≡ map (stem as_written) (content_words (word_values the_cats)))
stem_tokens-content_words_example = stem_tokens-content_words as_written the_cats as_written-Visits
