-- ===== src/Searcher/Total.antt =====
-- The ranking of a document does not panic: the conditions and the parts.
use wfts.Common.{
  ◌==◌, Bool-cases, length, ℕ, zero, suc, ◌≤◌, ◌<◌, min, ◌≡◌, subst, inl, inr, Bool, true, false,
  Option, none, some, List, [], ◌∷◌, arith, All, if_both, option_known,
}
use wfts.Common.Partial.{Yields, yields, Yields-bind}
use wfts.Common.Texts.{text_eq, to_lower}
use wfts.Codec.{Position, WordCountAndPositions, has_header, header_type}
use wfts.Ranking.Search.{get_min_query_dist_in_doc_total}
use wfts.Ranking.Url.{words_in_url, find-IsHit}
use wfts.Searcher.{
  Float64, Document, Postings, get_posting, score_words, in_header, or_else, rank_document,
}

abbrev pub IsWord : List ℕ → Type 0
IsWord word = 0 < length word

words_in_url-Yields :
    (url : List ℕ) (words : List (List ℕ))
    → All IsWord words
    → Yields (λ n. Unit {0}) (words_in_url url words)
unfolding words_in_url
words_in_url-Yields url [] all = yields tt
words_in_url-Yields url (word ∷ words) all =
    Yields-bind (find-IsHit word url all.0)
      (λ found hit. Yields-bind (words_in_url-Yields url words all.1) (λ rest any. yields tt))

-- A list of documents stands where the positions go as far as the count says, up to the 500 that are stored.
abbrev pub HasPositions : List ℕ × WordCountAndPositions → Type 0
HasPositions e = min e.1.count 500 ≤ length e.1.positions

abbrev pub Fits : Postings → Type 0
Fits m = All HasPositions m

get_posting-HasPositions :
    (id : List ℕ) (m : Postings) (item : WordCountAndPositions)
    → Fits m
    → get_posting id m ≡ some item
    → min item.count 500 ≤ length item.positions
unfolding get_posting
get_posting-HasPositions id [] item fits e = absurd cc
get_posting-HasPositions id ((j, x) ∷ m) item fits e = elim (Bool-cases (text_eq j id)) [
  | inl same ↦
      let own : x ≡ item = ground (arith, e, same) in
      subst (λ y. min y.count 500 ≤ length y.positions) own fits.0
  | inr apart ↦ get_posting-HasPositions id m item fits.1 (ground (arith, e, apart))
]

has_header-Yields :
    (n : ℕ) (ps : List Position) → n ≤ length ps → Yields (λ b. Unit {0}) (has_header n ps)
unfolding has_header
has_header-Yields zero ps le = yields tt
has_header-Yields (suc n) [] le = absurd (omega arith)
has_header-Yields (suc n) (p ∷ ps) le =
    if_both (Yields (λ b. Unit {0})) (p.kind == header_type) (yields tt)
      (has_header-Yields n ps (omega arith))

or_else-Yields :
    (x next : Option Bool)
    → Yields (λ b. Unit {0}) x
    → Yields (λ b. Unit {0}) next
    → Yields (λ b. Unit {0}) (or_else x next)
unfolding or_else
or_else-Yields none next one two = one
or_else-Yields (some true) next one two = yields tt
or_else-Yields (some false) next one two = two

module _ (float : Float64) where
  score_words-Yields :
      (avg_len : float.F) (total : ℕ) (doc : Document) (words : List (List ℕ)) (ms : List Postings)
      (sums : float.F × float.F)
      → length words ≤ length ms
      → Yields (λ r. Unit {0}) (score_words float avg_len total doc words ms sums)
  unfolding score_words
  score_words-Yields avg_len total doc [] ms sums le = yields tt
  score_words-Yields avg_len total doc (word ∷ words) [] sums le = absurd (omega arith)
  score_words-Yields avg_len total doc (word ∷ words) (m ∷ ms) sums le =
      Yields-bind (score_words-Yields avg_len total doc words ms _ (omega arith))
        (λ r any. yields tt)

  in_header-Yields :
      (id : List ℕ) (words : List (List ℕ)) (ms : List Postings)
      → length words ≤ length ms
      → All Fits ms
      → Yields (λ b. Unit {0}) (in_header float id words ms)
  unfolding in_header
  in_header-Yields id [] ms le fits = yields tt
  in_header-Yields id (word ∷ words) [] le fits = absurd (omega arith)
  in_header-Yields id (word ∷ words) (m ∷ ms) le fits =
      let rest = in_header-Yields id words ms (omega arith) fits.1 in
      option_known (Yields (λ b. Unit {0})) (get_posting id m) rest (λ item found.
        or_else-Yields _ _
          (has_header-Yields (min item.count 500) item.positions
            (get_posting-HasPositions id m item fits.0 found))
          rest)

  -- The ranking of a document does not panic.
  pub rank_document-Yields :
      (words : List (List ℕ)) (ms : List Postings) (avg_len : float.F) (total : ℕ) (doc : Document)
      → All IsWord words
      → length words ≤ length ms
      → All Fits ms
      → Yields (λ r. Unit {0}) (rank_document float words ms avg_len total doc)
  unfolding rank_document
  rank_document-Yields words ms avg_len total doc all even fits =
      Yields-bind
        (score_words-Yields avg_len total doc words ms (float.of_nat 0, float.of_nat 0) even)
        (λ scored any. Yields-bind (get_min_query_dist_in_doc_total scored.1) (λ proximity le.
          Yields-bind (words_in_url-Yields (to_lower doc.url) words all) (λ n any.
            Yields-bind (in_header-Yields doc.id words ms even fits) (λ header any. yields tt))))
