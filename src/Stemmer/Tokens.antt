-- ===== src/Stemmer/Tokens.antt =====
-- TokenizeAndStem over the tokens of a text, and what it keeps of the words.
use wfts.Common.{
  ltb, if◌then◌else◌, ltb→lt, Bool-cases, length, ℕ, ◌<◌, ◌≡◌, refl, ap, ◌∙◌, inl, inr, true, false,
  not, ◌&&◌, List, [], ◌∷◌, map, arith, and_right,
}
use wfts.Tokenizer.{TokenType, Token, is_word, is_kept, entity_tokenize}
use wfts.Stemmer.{SuffixRule, is_stop_word, stem}
use wfts.Stemmer.Shape.{Visits, stem-empty_iff}

-- The token of a stem: its positions are not set.
abbrev pub stem_token : List ℕ → Token
stem_token s = record { kind = TokenType.word; value = s; start_pos = 0; end_pos = 0 }

-- The loop of TokenizeAndStem, over the tokens of the text.
unfoldable pub stem_tokens :
    (List SuffixRule → List SuffixRule) → List Token → List (List ℕ) × List Token
stem_tokens order [] = ([], [])
stem_tokens order (t ∷ ts) =
    let rest = stem_tokens order ts in
    let stemmed = stem order t.value in
    let known : List (List ℕ) × List Token = (t.value ∷ rest.0, stem_token stemmed ∷ rest.1) in
    let other : List (List ℕ) × List Token = (rest.0, t ∷ rest.1) in
    if is_word t.kind && ltb 0 (length t.value)
    then (if ltb 0 (length stemmed) then known else rest)
    else if is_kept t.kind
    then other
    else rest

-- The words of a list of tokens, the empty ones left out.
unfoldable pub word_values : List Token → List (List ℕ)
word_values [] = []
word_values (t ∷ ts) =
    let rest = word_values ts in
    if is_word t.kind && ltb 0 (length t.value) then t.value ∷ rest else rest

unfoldable pub content_words : List (List ℕ) → List (List ℕ)
content_words [] = []
content_words (w ∷ ws) = let rest = content_words ws in if is_stop_word w then rest else w ∷ rest

stem-positive :
    (order : List SuffixRule → List SuffixRule) (w : List ℕ)
    → Visits order
    → 0 < length w
    → ltb 0 (length (stem order w)) ≡ not (is_stop_word w)
stem-positive order w visits h =
    let both = stem-empty_iff order w visits h in
    elim (Bool-cases (is_stop_word w)) [
      | inl stop ↦ rw (stop, both.1 stop) refl
      | inr content ↦ elim (Bool-cases (ltb 0 (length (stem order w)))) [
        | inl some_stem ↦ rw (content, some_stem) refl
        | inr none_left ↦
            let stop = both.0 (ground (arith, none_left)) in ground (arith, stop, content)
      ]
    ]

-- TokenizeAndStem gives the words of the text that are no stop words, in their order, and among the
-- tokens it gives the words are the stems of these, in the same order.
pub stem_tokens-content_words :
    (order : List SuffixRule → List SuffixRule) (ts : List Token)
    → Visits order
    → ((stem_tokens order ts).0 ≡ content_words (word_values ts))
      × (word_values (stem_tokens order ts).1 ≡ map (stem order) (content_words (word_values ts)))
unfolding stem_tokens word_values content_words is_word
stem_tokens-content_words order [] visits = (refl, refl)
stem_tokens-content_words order (t ∷ ts) visits =
    let ih = stem_tokens-content_words order ts visits in
    elim (Bool-cases (is_word t.kind && ltb 0 (length t.value))) [
      | inl some_word ↦
          let h : 0 < length t.value =
            ltb→lt 0 (length t.value)
              (and_right (is_word t.kind) (ltb 0 (length t.value)) some_word) in
          let size = stem-positive order t.value visits h in
          elim (Bool-cases (is_stop_word t.value)) [
            | inl stop ↦
                let gone : ltb 0 (length (stem order t.value)) ≡ false = size ∙ ap not stop in
                rw (some_word, gone) (rw stop ih)
            | inr content ↦
                let stemmed : ltb 0 (length (stem order t.value)) ≡ true = size ∙ ap not content in
                rw (some_word, stemmed)
                  (rw (content, stemmed)
                    (ap (◌∷◌ t.value) ih.0, ap (◌∷◌ (stem order t.value)) ih.1))
          ]
      | inr other ↦ elim (Bool-cases (is_kept t.kind)) [
        | inl kept ↦ rw (other, kept) (rw other ih)
        | inr dropped ↦ rw (other, dropped) ih
      ]
    ]

-- TokenizeAndStem, which never gives an error.
unfoldable pub tokenize_and_stem :
    (List SuffixRule → List SuffixRule)
    → (TokenType → List ℕ → List (ℕ × ℕ))
    → List ℕ
    → List (List ℕ) × List Token
tokenize_and_stem order matches text = stem_tokens order (entity_tokenize matches text)
