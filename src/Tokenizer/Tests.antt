-- ===== src/Tokenizer/Tests.antt =====
-- The tokens of a fixed text, with the regular expressions answered by hand.
use wfts.Common.{ℕ, ◌≡◌, refl, List, [], ◌∷◌}
use wfts.Common.Texts.{codes, to_lower}
use wfts.Tokenizer.{
  TokenType, Token, type_number, get_rune_type, flush, fragment_loop, fragment_tokenize,
  entity_tokens, goes_before, insert_token, sort_tokens, select_tokens, final_tokens,
  entity_tokenize,
}

program : Unit {0}
unfolding type_number get_rune_type flush fragment_loop fragment_tokenize entity_tokens goes_before
    insert_token sort_tokens select_tokens final_tokens entity_tokenize to_lower
program = tt

abbrev ip_only : TokenType → List ℕ → List (ℕ × ℕ)
ip_only TokenType.ip_v4_addr input = (3, 10) ∷ []
ip_only _ input = []

abbrev values : List Token → List (List ℕ)
values [] = []
values (t ∷ ts) = t.value ∷ values ts

words_and_address :
    values (entity_tokenize ip_only (codes "At 1.2.3.4, ok9"))
    ≡ codes "at" ∷ codes "1.2.3.4" ∷ codes "," ∷ codes "ok" ∷ codes "9" ∷ []
unfolding program
words_and_address = refl
