-- ===== src/TextQuery/Words.antt =====
-- The number `lenWords` of the words against the words themselves.
use wfts.Common.{
  ltb, ltb→lt, ◌==◌, Bool-cases, length, get_elem?, take, drop, length-append, length-set,
  length-take, length-drop, ℕ, zero, suc, ◌+◌, ◌-◌, ◌≤◌, ◌<◌, ◌≡◌, refl, inl, inr, ◌&&◌, none, some,
  List, [], ◌∷◌, arith, if_both, option_both, option_known,
}
use wfts.Tokenizer.{Token, is_word}
use wfts.Searcher.{Float64, Postings}
use wfts.Spell.Replacement.{best_candidate, best_parts, best_replacement}
use wfts.TextQuery.{
  Repository, QueryState, score_candidates, add_second, use_correction, hash_at, left_hash,
  right_hash, replace_word, correct_word, handle_token, handle_tokens,
}
use wfts.TextQuery.Lengths.{OnOk, list_both, OnOk-map, result_both}

-- `lenWords` may stay behind the number of words, and never passes it.
abbrev pub InWords : QueryState → Type 0
InWords st = st.len_words ≤ length st.words

-- A place that is read lies in the list.
in_range : {A : Type 0} (xs : List A) (i : ℕ) {x : A} → get_elem? xs i ≡ some x → i < length xs
in_range [] i e = absurd cc
in_range (y ∷ xs) zero e = omega arith
in_range (y ∷ xs) (suc i) e = omega (arith, in_range xs i e)

get_elem?-some :
    {A : Type 0} (xs : List A) (i : ℕ) → i < length xs → (x : A) × (get_elem? xs i ≡ some x)
get_elem?-some [] i h = absurd (omega arith)
get_elem?-some (y ∷ xs) zero h = (y, refl)
get_elem?-some (y ∷ xs) (suc i) h = get_elem?-some xs i (omega arith)

module _ (float : Float64) (r : Repository) where
  -- The words of a replacement are as many as before, or one more.
  length-best_replacement :
      (words : List (List ℕ)) (i : ℕ) (orig : List ℕ) (scored : List (List ℕ × (float.F × float.F)))
      → i < length words
      → length words ≤ length (best_replacement float r.max_typo words i orig scored)
  unfolding best_replacement
  length-best_replacement words i orig [] h = omega arith
  length-best_replacement words i orig (c ∷ cs) h =
      let P : List (List ℕ) → Type 0 = λ new. length words ≤ length new in
      option_both P (best_candidate float r.max_typo orig (c ∷ cs) none)
        (option_both P (best_parts float (length orig - 2 - 3) 3 orig (c ∷ cs) none) (omega arith)
          (λ parts.
            let tail = parts.0.0 ∷ parts.0.1 ∷ drop (i + 1) words in
            omega (
              arith,
              length-append (take i words) tail,
              length-take i words,
              length-drop (i + 1) words,
            )))
        (λ best. omega (arith, length-set words i best.0))

  add_second-InWords :
      (t : Token) (documents : Postings) (st : QueryState)
      → st.len_words < length st.words
      → OnOk InWords (add_second float r t documents st)
  unfolding add_second
  add_second-InWords t documents st more =
      let P = OnOk InWords in
      option_both P (get_elem? st.words (st.word_pos + 1)) tt (λ second.
        list_both P ((r.tokenize_and_stem second).1) tt (λ s ss.
          option_both P (r.get_documents_by_word s.value) tt (λ docs. omega (arith, more))))

  use_correction-InWords : (st : QueryState) → InWords st → OnOk InWords (use_correction float r st)
  unfolding use_correction
  use_correction-InWords st within =
      let P = OnOk InWords in
      option_both P (get_elem? st.words st.word_pos) tt (λ word.
        list_both P ((r.tokenize_and_stem word).1) within (λ s ss.
          option_both P (r.get_documents_by_word s.value) tt (λ documents.
            elim (Bool-cases (ltb st.len_words (length st.words))) [
              | inl more ↦
                  rw more
                    (add_second-InWords s documents st (ltb→lt st.len_words (length st.words) more))
              | inr same ↦ rw same within
            ])))

  replace_word-InWords :
      (word : List ℕ) (scored : List (List ℕ × (float.F × float.F))) (st : QueryState)
      → st.word_pos < length st.words
      → InWords st
      → OnOk InWords (replace_word float r word scored st)
  unfolding replace_word
  replace_word-InWords word scored st here within =
      let replaced : QueryState = record st {
        words = best_replacement float r.max_typo st.words st.word_pos word scored;
      } in
      let grown = length-best_replacement st.words st.word_pos word scored here in
      if_both (OnOk InWords) (ltb st.word_pos st.len_words)
        (use_correction-InWords replaced (omega (arith, within, grown))) tt

  correct_word-InWords : (st : QueryState) → InWords st → OnOk InWords (correct_word float r st)
  unfolding correct_word
  correct_word-InWords st within =
      let P = OnOk InWords in
      option_known P (get_elem? st.words st.word_pos) tt (λ word found.
        option_both P (r.get_words_by_t_grams word) tt (λ conds.
          option_both P (left_hash float r st) tt (λ left.
            option_both P (right_hash float r st) tt (λ right.
              option_both P (score_candidates float r left right conds) tt (λ scored.
                replace_word-InWords word scored st (in_range st.words st.word_pos found)
                  within)))))

  handle_token-InWords :
      (t : Token) (st : QueryState) → InWords st → OnOk InWords (handle_token float r t st)
  unfolding handle_token
  handle_token-InWords t st within =
      let P = OnOk InWords in
      option_both P (r.get_documents_by_word t.value) tt (λ documents.
        if_both P (length documents == 0 && is_word t.kind) (correct_word-InWords st within) within)

  handle_tokens-InWords :
      (ts : List Token) (st : QueryState) → InWords st → OnOk InWords (handle_tokens float r ts st)
  unfolding handle_tokens
  handle_tokens-InWords [] st within = within
  handle_tokens-InWords (t ∷ ts) st within =
      result_both InWords InWords (handle_token float r t st) (handle_tokens float r ts)
        (handle_token-InWords t st within) (handle_tokens-InWords ts)

  right_hash-InWords : (st : QueryState) → InWords st → (h : ℕ) × (right_hash float r st ≡ some h)
  right_hash-InWords st within = elim (Bool-cases (ltb (st.word_pos + 1) st.len_words)) [
    | inl more ↦
        let lt = ltb→lt (st.word_pos + 1) st.len_words more in
        let (w, found) = get_elem?-some st.words (st.word_pos + 1) (omega (arith, lt, within)) in
        (r.hash64 w, rw more (rw (hash_at, found) refl))
    | inr last ↦ (0, rw last refl)
  ]

  -- However many tokens of a query are handled, with whatever corrections, if `lenWords` does not pass the number of
  -- the words at the start, as it does not in HandleTextQuery, and no error or panic ended the loop, then it does not
  -- pass it afterwards, so that the word on the right of the next one is never read out of range.
  pub handle_tokens-right_hash :
      (ts : List Token) (st : QueryState)
      → InWords st
      → OnOk
          (λ new. InWords new × ((h : ℕ) × (right_hash float r new ≡ some h)))
          (handle_tokens float r ts st)
  handle_tokens-right_hash ts st within =
      OnOk-map InWords (λ new. InWords new × ((h : ℕ) × (right_hash float r new ≡ some h)))
        (handle_tokens float r ts st) (λ new kept. (kept, right_hash-InWords new kept))
        (handle_tokens-InWords ts st within)
