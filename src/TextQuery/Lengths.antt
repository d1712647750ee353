-- ===== src/TextQuery/Lengths.antt =====
-- What Search needs of the answer to a query.
use wfts.Common.{
  ltb, ◌==◌, length, get_elem?, length-append, Result, ok, err, panic, ℕ, suc, ◌+◌, ◌≤◌, ◌≡◌, refl,
  ◌&&◌, List, [], ◌∷◌, arith, if_both, option_both,
}
use wfts.Tokenizer.{Token, is_word}
use wfts.Searcher.{Float64, Postings}
use wfts.Spell.Replacement.{best_replacement}
use wfts.TextQuery.{
  Repository, QueryError, QueryState, merge_postings, score_candidates, add_result, add_second,
  use_correction, left_hash, right_hash, replace_word, correct_word, handle_token, handle_tokens,
  handle_text_query,
}

-- As many stems as lists of documents, and one more at most than before.
abbrev pub IsEven : QueryState → QueryState → Type 0
IsEven st new =
    (length new.stemmed_tokens ≡ length new.revert_index)
    × (length new.stemmed_tokens ≤ length st.stemmed_tokens + 1)

-- A result that is no error.
abbrev pub OnOk : {A : Type 0} → (A → Type 0) → Result QueryError A → Type 0
OnOk P (ok x) = P x
OnOk P (err e) = Unit
OnOk P panic = Unit

pub list_both :
    {A B : Type 0} (P : B → Type 0) (l : List A) {n : B} {f : A → List A → B}
    → P n
    → ((x : A) (xs : List A) → P (f x xs))
    → P (elim l [ [] ↦ n | x ∷ xs ↦ f x xs ])
list_both P [] pn pf = pn
list_both P (x ∷ xs) pn pf = pf x xs

pub OnOk-map :
    {A : Type 0} (P Q : A → Type 0) (x : Result QueryError A)
    → ((a : A) → P a → Q a)
    → OnOk P x
    → OnOk Q x
OnOk-map P Q (ok a) weaker h = weaker a h
OnOk-map P Q (err e) weaker h = tt
OnOk-map P Q panic weaker h = tt

-- What follows a result, where the errors are passed on.
pub result_both :
    {A B : Type 0} (P : A → Type 0) (Q : B → Type 0) (x : Result QueryError A)
    (f : A → Result QueryError B)
    → OnOk P x
    → ((a : A) → P a → OnOk Q (f a))
    → OnOk Q (elim x [ ok a ↦ f a | err e ↦ err e | panic ↦ panic ])
result_both P Q (ok a) f h next = next a h
result_both P Q (err e) f h next = tt
result_both P Q panic f h next = tt

module _ (float : Float64) (r : Repository) where
  add_result-IsEven :
      (t : Token) (documents : Postings) (st : QueryState)
      → length st.stemmed_tokens ≡ length st.revert_index
      → IsEven st (add_result float r t documents st)
  add_result-IsEven t documents st even =
      let one = length-append st.stemmed_tokens (t.value ∷ []) in
      let two = length-append st.revert_index (documents ∷ []) in
      (omega (arith, one, two, even), omega (arith, one))

  add_second-IsEven :
      (t : Token) (documents : Postings) (st : QueryState)
      → length st.stemmed_tokens ≡ length st.revert_index
      → OnOk (IsEven st) (add_second float r t documents st)
  unfolding add_second
  add_second-IsEven t documents st even =
      let P = OnOk (IsEven st) in
      let moved : QueryState = record st {
        word_pos = st.word_pos + 1;
        len_words = st.len_words + 1;
      } in
      option_both P (get_elem? st.words (st.word_pos + 1)) tt (λ second.
        list_both P ((r.tokenize_and_stem second).1) tt (λ s ss.
          option_both P (r.get_documents_by_word s.value) tt
            (λ docs. add_result-IsEven t (merge_postings documents docs) moved even)))

  use_correction-IsEven :
      (st : QueryState)
      → length st.stemmed_tokens ≡ length st.revert_index
      → OnOk (IsEven st) (use_correction float r st)
  unfolding use_correction
  use_correction-IsEven st even =
      let P = OnOk (IsEven st) in
      option_both P (get_elem? st.words st.word_pos) tt (λ word.
        list_both P ((r.tokenize_and_stem word).1) (even, omega arith)
          (λ s ss. option_both P (r.get_documents_by_word s.value) tt (λ documents.
            if_both P (ltb st.len_words (length st.words)) (add_second-IsEven s documents st even)
              (add_result-IsEven s documents st even))))

  replace_word-IsEven :
      (word : List ℕ) (scored : List (List ℕ × (float.F × float.F))) (st : QueryState)
      → length st.stemmed_tokens ≡ length st.revert_index
      → OnOk (IsEven st) (replace_word float r word scored st)
  unfolding replace_word
  replace_word-IsEven word scored st even =
      let replaced : QueryState = record st {
        words = best_replacement float r.max_typo st.words st.word_pos word scored;
      } in
      if_both (OnOk (IsEven st)) (ltb st.word_pos st.len_words)
        (use_correction-IsEven replaced even) tt

  correct_word-IsEven :
      (st : QueryState)
      → length st.stemmed_tokens ≡ length st.revert_index
      → OnOk (IsEven st) (correct_word float r st)
  unfolding correct_word
  correct_word-IsEven st even =
      let P = OnOk (IsEven st) in
      option_both P (get_elem? st.words st.word_pos) tt (λ word.
        option_both P (r.get_words_by_t_grams word) tt (λ conds.
          option_both P (left_hash float r st) tt (λ left.
            option_both P (right_hash float r st) tt (λ right.
              option_both P (score_candidates float r left right conds) tt
                (λ scored. replace_word-IsEven word scored st even)))))

  handle_token-IsEven :
      (t : Token) (st : QueryState)
      → length st.stemmed_tokens ≡ length st.revert_index
      → OnOk (IsEven st) (handle_token float r t st)
  unfolding handle_token
  handle_token-IsEven t st even =
      let P = OnOk (IsEven st) in
      option_both P (r.get_documents_by_word t.value) tt (λ documents.
        if_both P (length documents == 0 && is_word t.kind) (correct_word-IsEven st even)
          (add_result-IsEven t documents st even))

  -- As many stems as lists of documents, and at most one for each token.
  abbrev pub IsAligned : ℕ → List (List ℕ) × List Postings → Type 0
  IsAligned n answer = (length answer.0 ≡ length answer.1) × (length answer.0 ≤ n)

  abbrev results : QueryState → List (List ℕ) × List Postings
  results st = (st.stemmed_tokens, st.revert_index)

  handle_tokens-IsAligned :
      (ts : List Token) (st : QueryState)
      → length st.stemmed_tokens ≡ length st.revert_index
      → OnOk
          (λ new. IsAligned (length ts + length st.stemmed_tokens) (results new))
          (handle_tokens float r ts st)
  unfolding handle_tokens
  handle_tokens-IsAligned [] st even = (even, omega arith)
  handle_tokens-IsAligned (t ∷ ts) st even =
      let P : QueryState → Type 0 =
        λ new. IsAligned (suc (length ts) + length st.stemmed_tokens) (results new) in
      result_both (IsEven st) P (handle_token float r t st) (handle_tokens float r ts)
        (handle_token-IsEven t st even)
        (λ new one.
          OnOk-map (λ last. IsAligned (length ts + length new.stemmed_tokens) (results last)) P
            (handle_tokens float r ts new) (λ last all. (all.0, omega (arith, all.1, one.1)))
            (handle_tokens-IsAligned ts new one.0))

  -- Where HandleTextQuery gives no error and does not panic, it gives as many lists of documents as stems, as
  -- Search needs them, and no more stems than the query has, whatever the corrections of the words.
  pub handle_text_query-IsAligned :
      (text : List ℕ)
      → OnOk (IsAligned (length (r.tokenize_and_stem text).1)) (handle_text_query float r text)
  unfolding handle_text_query
  handle_text_query-IsAligned text =
      let (words, stemmed) = r.tokenize_and_stem text in
      let start : QueryState = record {
        words = words;
        len_words = length words;
        word_pos = 0;
        stemmed_tokens = [];
        revert_index = [];
      } in
      let P = OnOk (IsAligned (length stemmed)) in
      let answer =
        result_both (λ st. IsAligned (length stemmed + 0) (results st)) (IsAligned (length stemmed))
          (handle_tokens float r stemmed start) (λ st. ok (results st))
          (handle_tokens-IsAligned stemmed start refl) (λ st h. (h.0, omega (arith, h.1))) in
      if_both P (length stemmed == 0) tt answer
