-- ===== src/TextQuery.antt =====
-- HandleTextQuery of internal/services/wfts/offline/indexer/wordHandling.go: the stems of a query with the documents
-- in which they stand, where a word without documents is replaced by its best correction. The repository is a
-- parameter, whose calls change nothing; `none` is an error of it. The stem of a second word that a correction
-- adds is appended behind the stems that the loop visits, and the flag that would read it is never set, so it is
-- left out but for its panic.
pub mod Lengths
pub mod Words
mod Tests
use wfts.Common.{
  ltb, if◌then◌else◌, ◌==◌, length, get_elem?, Result, ok, err, panic, ℕ, ◌+◌, ◌-◌, ◌&&◌, Option,
  none, some, List, [], ◌∷◌, ◌++◌,
}
use wfts.Common.Texts.{text_eq}
use wfts.Codec.{WordCountAndPositions}
use wfts.Tokenizer.{Token, is_word}
use wfts.Searcher.{Float64, Postings}
use wfts.Spell.Replacement.{best_replacement}

pub record Repository : Type 0 where
  pub get_documents_by_word : List ℕ → Option Postings
  pub get_words_by_t_grams : List ℕ → Option (List (List ℕ))
  pub get_freq : ℕ → ℕ → Option ℕ
  pub hash64 : List ℕ → ℕ
  pub tokenize_and_stem : List ℕ → List (List ℕ) × List Token
  pub max_typo : ℕ

pub data QueryError : Type 0 where
  empty_tokens : QueryError
  repository_error : QueryError

-- The variables of the loop; the results are `stemmedTokens` and `reverthIndex`.
pub record QueryState : Type 0 where
  pub words : List (List ℕ)
  pub len_words : ℕ
  pub word_pos : ℕ
  pub stemmed_tokens : List (List ℕ)
  pub revert_index : List Postings

unfoldable pub merge_posting : List ℕ → WordCountAndPositions → Postings → Postings
merge_posting id item [] = (id, item) ∷ []
merge_posting id item ((j, old) ∷ m) =
    let rest = merge_posting id item m in
    let both : WordCountAndPositions = record {
      count = old.count + item.count;
      positions = old.positions ++ item.positions;
    } in
    if text_eq j id then (j, both) ∷ m else (j, old) ∷ rest

-- The documents of a second word, merged into those of the first.
unfoldable pub merge_postings : Postings → Postings → Postings
merge_postings documents [] = documents
merge_postings documents ((id, item) ∷ docs) = merge_postings (merge_posting id item documents) docs

module _ (float : Float64) (r : Repository) where
  -- The scores of the candidates: the frequencies next to the words around. A hash of 0 stands for no word.
  unfoldable pub score_candidates :
      ℕ → ℕ → List (List ℕ) → Option (List (List ℕ × (float.F × float.F)))
  score_candidates left right [] = some []
  score_candidates left right (cond ∷ conds) =
      let near = λ (n : ℕ). float.log (float.of_nat (1 + n)) in
      let lscore = if left == 0 then some 0 else r.get_freq left (r.hash64 cond) in
      let rscore = if right == 0 then some 0 else r.get_freq (r.hash64 cond) right in
      let zeros : float.F × float.F = (float.of_nat 0, float.of_nat 0) in
      let rest = score_candidates left right conds in
      elim rest [
        | none ↦ none
        | some later ↦
            if left == 0 && right == 0 then some ((cond, zeros) ∷ later) else elim lscore [
              | none ↦ none
              | some l ↦ elim rscore [
                | none ↦ none
                | some n ↦ some ((cond, (near l, near n)) ∷ later)
              ]
            ]
      ]

  -- The end of the loop's body.
  abbrev pub add_result : Token → Postings → QueryState → QueryState
  add_result t documents st = record st {
    stemmed_tokens = st.stemmed_tokens ++ t.value ∷ [];
    revert_index = st.revert_index ++ documents ∷ [];
    word_pos = if is_word t.kind then st.word_pos + 1 else st.word_pos;
  }

  -- The correction has a second word, at the next place.
  unfoldable pub add_second : Token → Postings → QueryState → Result QueryError QueryState
  add_second t documents st =
      let moved : QueryState = record st {
        word_pos = st.word_pos + 1;
        len_words = st.len_words + 1;
      } in
      elim (get_elem? st.words (st.word_pos + 1)) [
        | none ↦ panic
        | some second ↦ elim ((r.tokenize_and_stem second).1) [
          | [] ↦ panic
          | s ∷ ss ↦ elim (r.get_documents_by_word s.value) [
            | none ↦ err repository_error
            | some docs ↦ ok (add_result t (merge_postings documents docs) moved)
          ]
        ]
      ]

  -- After the replacement. `len_words` is `lenWords`, which stays what it was where the correction is a stop word,
  -- also if a second word was put behind it.
  unfoldable pub use_correction : QueryState → Result QueryError QueryState
  use_correction st = elim (get_elem? st.words st.word_pos) [
    | none ↦ panic
    | some word ↦ elim ((r.tokenize_and_stem word).1) [
      | [] ↦ ok (record st { word_pos = st.word_pos + 1 })
      | s ∷ ss ↦ elim (r.get_documents_by_word s.value) [
        | none ↦ err repository_error
        | some documents ↦
            if ltb st.len_words (length st.words)
            then add_second s documents st
            else ok (add_result s documents st)
      ]
    ]
  ]

  -- The hash of the word at a place, `none` out of range.
  abbrev pub hash_at : List (List ℕ) → ℕ → Option ℕ
  hash_at words i = elim (get_elem? words i) [ none ↦ none | some w ↦ some (r.hash64 w) ]

  -- `right`, which is 0 behind the last of `len_words` words.
  abbrev pub right_hash : QueryState → Option ℕ
  right_hash st =
      if ltb (st.word_pos + 1) st.len_words then hash_at st.words (st.word_pos + 1) else some 0

  abbrev pub left_hash : QueryState → Option ℕ
  left_hash st = if ltb 0 st.word_pos then hash_at st.words (st.word_pos - 1) else some 0

  -- The replacement, with the copy of `len_words` words for the log, which is read at the word's place.
  unfoldable pub replace_word :
      List ℕ → List (List ℕ × (float.F × float.F)) → QueryState → Result QueryError QueryState
  replace_word word scored st =
      let replaced : QueryState = record st {
        words = best_replacement float r.max_typo st.words st.word_pos word scored;
      } in
      if ltb st.word_pos st.len_words then use_correction replaced else panic

  unfoldable pub correct_word : QueryState → Result QueryError QueryState
  correct_word st = elim (get_elem? st.words st.word_pos) [
    | none ↦ panic
    | some word ↦ elim (r.get_words_by_t_grams word) [
      | none ↦ err repository_error
      | some conds ↦ elim (left_hash st) [
        | none ↦ panic
        | some left ↦ elim (right_hash st) [
          | none ↦ panic
          | some right ↦ elim (score_candidates left right conds) [
            | none ↦ err repository_error
            | some scored ↦ replace_word word scored st
          ]
        ]
      ]
    ]
  ]

  unfoldable pub handle_token : Token → QueryState → Result QueryError QueryState
  handle_token t st = elim (r.get_documents_by_word t.value) [
    | none ↦ err repository_error
    | some documents ↦
        if length documents == 0 && is_word t.kind
        then correct_word st
        else ok (add_result t documents st)
  ]

  unfoldable pub handle_tokens : List Token → QueryState → Result QueryError QueryState
  handle_tokens [] st = ok st
  handle_tokens (t ∷ ts) st = elim (handle_token t st) [
    | ok new ↦ handle_tokens ts new
    | err e ↦ err e
    | panic ↦ panic
  ]

  unfoldable pub handle_text_query : List ℕ → Result QueryError (List (List ℕ) × List Postings)
  handle_text_query text =
      let (words, stemmed) = r.tokenize_and_stem text in
      let start : QueryState = record {
        words = words;
        len_words = length words;
        word_pos = 0;
        stemmed_tokens = [];
        revert_index = [];
      } in
      let answer : Result QueryError (List (List ℕ) × List Postings) =
        elim (handle_tokens stemmed start) [
          | ok st ↦ ok (st.stemmed_tokens, st.revert_index)
          | err e ↦ err e
          | panic ↦ panic
        ] in
      if length stemmed == 0 then err empty_tokens else answer
