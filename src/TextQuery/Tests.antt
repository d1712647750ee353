-- ===== src/TextQuery/Tests.antt =====
-- A query of a known word, and one of a word that is split in two.
use wfts.Common.{
  ltb, if◌then◌else◌, length, ok, ℕ, ◌+◌, ◌-◌, ◌*◌, ◌/◌, ◌≡◌, refl, ◌||◌, some, List, [], ◌∷◌,
  arith,
}
use wfts.Common.Texts.{codes, text_eq}
use wfts.Tokenizer.{TokenType, Token, is_word}
use wfts.Searcher.{Float64, Postings}
use wfts.Spell.{levenshtein_distance, rows, fill, count_from}
use wfts.Spell.Replacement.{
  noisy_channel_score, best_candidate, scores_of, best_parts, best_replacement,
}
use wfts.TextQuery.Words.{InWords, handle_tokens-right_hash}
use wfts.TextQuery.{
  QueryState, right_hash, Repository, merge_posting, merge_postings, score_candidates, add_second,
  use_correction, replace_word, correct_word, handle_token, handle_tokens, handle_text_query,
}
use wfts.TextQuery.Lengths.{OnOk, IsAligned, handle_text_query-IsAligned}

abbrev counted : Float64
counted = record {
  F = ℕ;
  of_nat = λ n. n;
  literal = λ n places. n;
  add = ◌+◌;
  sub = ◌-◌;
  mul = ◌*◌;
  div = ◌/◌;
  log = λ x. x;
  gt = λ x y. ltb y x;
  differs = λ x y. ltb x y || ltb y x;
}

abbrev word_token : List ℕ → Token
word_token s = record { kind = TokenType.word; value = s; start_pos = 0; end_pos = 0 }

abbrev cut : List ℕ → List (List ℕ) × List Token
cut text = (text ∷ [], word_token text ∷ [])

abbrev one_document : Postings
one_document = (1 ∷ [], record { count = 1; positions = [] }) ∷ []

-- Only "dogcat" stands in no document; "dog" and "cat" are its candidates.
abbrev small : Repository
small = record {
  get_documents_by_word = λ w. some (if text_eq w (codes "dogcat") then [] else one_document);
  get_words_by_t_grams = λ w. some (codes "dog" ∷ codes "cat" ∷ []);
  get_freq = λ l r. some 1;
  hash64 = λ w. length w;
  tokenize_and_stem = cut;
  max_typo = 1;
}

program : Unit {0}
unfolding text_eq is_word merge_posting merge_postings score_candidates add_second use_correction
    replace_word correct_word handle_token handle_tokens handle_text_query
program = tt

split_word :
    handle_text_query counted small (codes "dogcat")
    ≡ ok (codes "dog" ∷ [], ((1 ∷ [], record { count = 2; positions = [] }) ∷ []) ∷ [])
unfolding program best_replacement best_candidate noisy_channel_score levenshtein_distance rows fill
    count_from best_parts scores_of
split_word = refl

-- As `cut`, but a query of two words without documents, and "the" as a stop word.
abbrev cut_with_stop : List ℕ → List (List ℕ) × List Token
cut_with_stop text =
    if text_eq text (codes "?")
    then (
      codes "thedog" ∷ codes "qqqq" ∷ [],
      word_token (codes "thedog") ∷ word_token (codes "qqqq") ∷ [],
    )
    else if text_eq text (codes "the")
    then (codes "the" ∷ [], [])
    else cut text

abbrev with_stop : Repository
with_stop = record small {
  get_documents_by_word = λ w.
      some (if text_eq w (codes "thedog") || text_eq w (codes "qqqq") then [] else one_document);
  get_words_by_t_grams = λ w. some (codes "the" ∷ codes "dog" ∷ []);
  tokenize_and_stem = cut_with_stop;
}

-- "thedog" is split and its first part is a stop word, so `lenWords` is one short: the second word of the query is
-- passed over, "dog" is corrected in its place, and "qqqq" is taken for the second part of that correction.
stale_len_words :
    handle_text_query counted with_stop (codes "?") ≡ ok (codes "dog" ∷ [], one_document ∷ [])
unfolding program best_replacement best_candidate noisy_channel_score levenshtein_distance rows fill
    count_from best_parts scores_of
stale_len_words = refl

known_word :
    handle_text_query counted small (codes "dog") ≡ ok (codes "dog" ∷ [], one_document ∷ [])
unfolding program
known_word = refl

handle_text_query-IsAligned_example :
    OnOk (IsAligned counted small 1) (handle_text_query counted small (codes "dogcat"))
handle_text_query-IsAligned_example = handle_text_query-IsAligned counted small (codes "dogcat")

abbrev two_words : QueryState
two_words = record {
  words = codes "thedog" ∷ codes "qqqq" ∷ [];
  len_words = 2;
  word_pos = 0;
  stemmed_tokens = [];
  revert_index = [];
}

handle_tokens-right_hash_example :
    OnOk
      (λ new. InWords new × ((h : ℕ) × (right_hash counted with_stop new ≡ some h)))
      (handle_tokens counted with_stop
        (word_token (codes "thedog") ∷ word_token (codes "qqqq") ∷ [])
        two_words)
handle_tokens-right_hash_example =
    handle_tokens-right_hash counted with_stop
      (word_token (codes "thedog") ∷ word_token (codes "qqqq") ∷ []) two_words (omega arith)
