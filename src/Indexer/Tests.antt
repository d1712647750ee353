-- ===== src/Indexer/Tests.antt =====
-- A page of five words, read once and then met again.
use wfts.Common.{
  length, replicate, err, ℕ, ◌+◌, ◌*◌, ◌/◌, ◌<◌, ◌≡◌, refl, true, false, some, List, [], ◌∷◌, arith,
}
use mathlib.Core.List as L
use mathlib.Core.List.{reverse}
use wfts.Common.Texts.{codes, text_eq, has_prefix, to_lower}
use wfts.Stemmer.{
  is_among, is_stop_word, measure_from, measure, has_suffix, trim_suffix, trim_rule_suffix, stem,
}
use wfts.Stemmer.Tokens.{stem_tokens, tokenize_and_stem}
use wfts.Tokenizer.{
  is_word, is_kept, type_number, get_rune_type, flush, fragment_loop, fragment_tokenize,
  entity_tokens, goes_before, insert_token, sort_tokens, select_tokens, final_tokens,
  entity_tokenize,
}
use wfts.MinHash.{
  join_words, get_word_n_grams, mix, lower_entries, sign_shingles, blank_sign, create_signature,
}
use wfts.Html.{Passage}
use wfts.Crawl.{Float64, Document, CrawlFeatures}
use wfts.Indexer.{
  lookup, update, nothing_gathered, add_stem, add_stems, gather, same_entries, calc_sim, stored,
  page_already_indexed, count_bigram, count_bigrams, Repository, feature_vector, store_words,
  store_bigrams, compare_signs, handle_gathered, handle_document_words,
}
use wfts.Indexer.Words.{places, IsRead, gather-IsRead}
use wfts.Indexer.Similar.{IsDecided, gathered, signature, handle_document_words-similar}

abbrev counted : Float64
counted = record {
  F = ℕ;
  of_nat = λ n. n;
  add = ◌+◌;
  mul = ◌*◌;
  div = ◌/◌;
  pow = λ x y. x;
  log = λ x. x;
}

-- The World counts what is stored.
abbrev full : Repository counted
full = record {
  World = ℕ;
  order = λ rules. rules;
  matches = λ kind input. [];
  hash64 = λ s. length s;
  salts = replicate 128 (3, 5);
  predicts_zero = λ x. false;
  get_similar_signs = λ sign w. (some (sign ∷ []), w);
  index_doc_shingles = λ sign w. (stored, w + 1);
  update_bi_freq = λ bigrams w. (true, w + 1);
  save_document = λ doc tokens w. (true, w + 1);
  index_document_words = λ id stem pos w. (true, w + 1);
  index_tri_grams = λ words w. (stored, w + 1);
}

abbrev five_words : List Passage
five_words = record { content = codes "cats see Dogs, cats hunt"; kind = 98 } ∷ []

program : Unit {0}
unfolding text_eq has_prefix to_lower reverse is_among is_stop_word measure_from measure has_suffix
    trim_suffix trim_rule_suffix stem stem_tokens tokenize_and_stem is_word is_kept type_number
    get_rune_type flush fragment_loop fragment_tokenize entity_tokens goes_before insert_token
    sort_tokens select_tokens final_tokens entity_tokenize join_words get_word_n_grams mix
    lower_entries sign_shingles blank_sign create_signature lookup update add_stem add_stems gather
    same_entries calc_sim count_bigram count_bigrams feature_vector store_words store_bigrams
    compare_signs handle_gathered handle_document_words places
program = tt

places_of_cat : places (codes "cat") (gathered full five_words) ≡ 0 ∷ 4 ∷ []
unfolding program
places_of_cat = refl

count_of_cat : lookup 0 (codes "cat") (gathered full five_words).stem ≡ 2
unfolding program
count_of_cat = refl

gather-IsRead_example :
    IsRead (gather (λ rules. rules) (λ kind input. []) five_words nothing_gathered)
gather-IsRead_example = gather-IsRead (λ rules. rules) (λ kind input. []) five_words

abbrev doc : Document
doc = record { id = []; url = codes "/" }

abbrev features : CrawlFeatures
features = record {
  dom_depth = 1;
  tag_count = 1;
  url_len = 1;
  url_count = 1;
  path_len = 1;
  host_len = 1;
}

five_read : 4 < length (gathered full five_words).all_word_tokens
unfolding program
five_read = omega arith

like_itself :
    102
    < same_entries
        (signature full (gathered full five_words))
        (signature full (gathered full five_words))
unfolding program
like_itself = omega arith

handle_document_words-similar_example :
    IsDecided full
      (gathered full five_words)
      (signature full (gathered full five_words) ∷ [])
      0
      (handle_document_words full doc features 1 five_words 0)
handle_document_words-similar_example =
    handle_document_words-similar full doc features 1 five_words 0
      (signature full (gathered full five_words) ∷ []) refl five_read refl

five_words_refused :
    handle_document_words full doc features 1 five_words 0 ≡ (err page_already_indexed, 0)
five_words_refused =
    (handle_document_words-similar full doc features 1 five_words 0
        (signature full (gathered full five_words) ∷ []) refl five_read refl).0
      (signature full (gathered full five_words), L.Memᴰ.head refl, like_itself)
