-- ===== src/Searcher.antt =====
-- internal/services/wfts/online/searcher/searcher.go: Search, which ranks the documents of a query. The index is a
-- parameter: its answer to the query, the average length, the number of documents, and the documents. The
-- arithmetic and the order of float64 are the record Float64, `sort` is sort.Slice. A map is the list of its
-- entries in the order in which a `range` visits it. The metrics and the log are left out; `none` is a panic, or a
-- search without fuel. A document that is asked for by an id has this id.
pub mod Total
pub mod Ranked
mod Tests
use wfts.Common.{
  ltb, if◌then◌else◌, length, take, Result, ok, err, panic, ℕ, ◌+◌, min, Bool, true, false, not,
  ◌&&◌, ◌||◌, Option, none, some, List, [], ◌∷◌, ◌++◌, map,
}
use wfts.Common.Partial.{◌>>=◌}
use wfts.Common.Texts.{text_eq, to_lower}
use wfts.Codec.{Position, WordCountAndPositions, has_header}
use wfts.Ranking.{get_min_query_dist_in_doc}
use wfts.Ranking.Url.{words_in_url}

pub record Float64 : Type 1 where
  pub F : Type 0
  pub of_nat : ℕ → F
  -- the decimal literal: a numerator over a power of ten
  pub literal : ℕ → ℕ → F
  pub add : F → F → F
  pub sub : F → F → F
  pub mul : F → F → F
  pub div : F → F → F
  pub log : F → F
  pub gt : F → F → Bool
  pub differs : F → F → Bool

pub record Document : Type 0 where
  pub id : List ℕ
  pub url : List ℕ
  pub token_count : ℕ

pub record DocRanking (float : Float64) : Type 0 where
  pub tf_idf : float.F
  pub bm25 : float.F
  pub log_len_word_in_url : float.F
  pub term_proximity : ℕ
  pub has_word_in_header : Bool

abbrev pub Postings : Type 0
Postings = List (List ℕ × WordCountAndPositions)

-- `none` is an error.
pub record Index (float : Float64) : Type 0 where
  pub handle_text_query : List ℕ → Option (List (List ℕ) × List Postings)
  pub get_avg_len : Option float.F
  pub get_documents_count : Option ℕ
  pub get_document_by_id : List ℕ → Option Document

pub get_posting : List ℕ → Postings → Option WordCountAndPositions
get_posting id [] = none
get_posting id ((j, item) ∷ m) =
    let rest = get_posting id m in if text_eq j id then some item else rest

pub is_known : List ℕ → List Document → Bool
is_known id [] = false
is_known id (doc ∷ docs) = text_eq doc.id id || is_known id docs

-- The next search, unless this one panics or finds.
pub or_else : Option Bool → Option Bool → Option Bool
or_else none next = none
or_else (some true) next = some true
or_else (some false) next = next

module _ {float : Float64} (index : Index float) where
  -- The loop over the documents of a word; the documents found are the keys of `docs` and `result`.
  pub fetch_postings : Postings → List Document → Option (List Document)
  fetch_postings [] docs = some docs
  fetch_postings ((id, item) ∷ m) docs = elim (is_known id docs) [
    | true ↦ fetch_postings m docs
    | false ↦ elim (index.get_document_by_id id) [
      | none ↦ none
      | some doc ↦ fetch_postings m (docs ++ doc ∷ [])
    ]
  ]

  -- The loop over the words, with `index[i]` for each.
  pub fetch_documents :
      List (List ℕ) → List Postings → List Document → Result (Unit {0}) (List Document)
  fetch_documents [] ms docs = ok docs
  fetch_documents (word ∷ words) [] docs = panic
  fetch_documents (word ∷ words) (m ∷ ms) docs = elim (fetch_postings m docs) [
    | none ↦ err tt
    | some more ↦ fetch_documents words ms more
  ]

module _ (float : Float64) where
  -- calcBM25, with k1 = 1.2 and b = 0.75
  pub calc_bm25 : float.F → float.F → float.F → float.F → float.F
  calc_bm25 idf avg_len tf tokens =
      let k1 = float.literal 12 1 in
      let b = float.literal 75 2 in
      let one = float.of_nat 1 in
      let len = float.add (float.log (float.div tokens avg_len)) (float.literal 1 2) in
      let norm = float.add (float.sub one b) (float.mul b len) in
      float.div (float.mul idf (float.mul tf (float.add k1 one))) (float.add tf (float.mul k1 norm))

  abbrev pub with_places :
      List ℕ → (float.F × float.F) × List (List ℕ) → Option ((float.F × float.F) × List (List ℕ))
  with_places places (sums, positions) = some (sums, places ∷ positions)

  -- The loop over the words: the sums of the scores, and the positions.
  pub score_words :
      float.F
      → ℕ
      → Document
      → List (List ℕ)
      → List Postings
      → float.F × float.F
      → Option ((float.F × float.F) × List (List ℕ))
  score_words avg_len total doc [] ms sums = some (sums, [])
  score_words avg_len total doc (word ∷ words) [] sums = none
  score_words avg_len total doc (word ∷ words) (m ∷ ms) (tf_idf, bm25) =
      let idf = float.log (float.div (float.of_nat total) (float.of_nat (length m + 1))) in
      let item = get_posting doc.id m in
      let tf : float.F = elim item [
        | none ↦ float.of_nat 0
        | some i ↦ float.div (float.of_nat i.count) (float.of_nat doc.token_count)
      ] in
      let scored : float.F × float.F = (
        float.add tf_idf (float.mul tf idf),
        float.add bm25 (calc_bm25 idf avg_len tf (float.of_nat doc.token_count)),
      ) in
      let sums : float.F × float.F = elim item [ none ↦ (tf_idf, bm25) | some i ↦ scored ] in
      let places : List ℕ = elim item [ none ↦ [] | some i ↦ map (λ p. p.place) i.positions ] in
      score_words avg_len total doc words ms sums >>= with_places places

  pub in_header : List ℕ → List (List ℕ) → List Postings → Option Bool
  unfolding or_else
  in_header id [] ms = some false
  in_header id (word ∷ words) [] = none
  in_header id (word ∷ words) (m ∷ ms) =
      let rest = in_header id words ms in
      elim (get_posting id m) [
        | none ↦ rest
        | some item ↦ or_else (has_header (min item.count 500) item.positions) rest
      ]

  pub rank_document :
      List (List ℕ) → List Postings → float.F → ℕ → Document → Option (DocRanking float)
  rank_document words ms avg_len total doc = do
    scored ← score_words avg_len total doc words ms (float.of_nat 0, float.of_nat 0)
    proximity ← get_min_query_dist_in_doc scored.1
    in_url ← words_in_url (to_lower doc.url) words
    header ← in_header doc.id words ms
    some (record {
      tf_idf = scored.0.0;
      bm25 = scored.0.1;
      log_len_word_in_url = float.log (float.of_nat (1 + in_url));
      term_proximity = proximity;
      has_word_in_header = header;
    })

  -- The documents with their rankings: `rank[doc.Id]`.
  abbrev pub Ranked : Type 0
  Ranked = Document × DocRanking float

  abbrev pub Sort : Type 0
  Sort = (Ranked → Ranked → Bool) → List Ranked → List Ranked

  pub rank_documents :
      List (List ℕ) → List Postings → float.F → ℕ → List Document → Option (List Ranked)
  rank_documents words ms avg_len total [] = some []
  rank_documents words ms avg_len total (doc ∷ docs) = do
    r ← rank_document words ms avg_len total doc
    rest ← rank_documents words ms avg_len total docs
    some ((doc, r) ∷ rest)

  -- The first order: all documents.
  pub goes_first : Ranked → Ranked → Bool
  goes_first x y =
      let i = x.1 in
      let j = y.1 in
      if float.differs i.bm25 j.bm25
      then float.gt i.bm25 j.bm25
      else if float.differs i.tf_idf j.tf_idf
      then float.gt i.tf_idf j.tf_idf
      else ltb i.term_proximity j.term_proximity

  -- The second order: those that are shown.
  pub is_shown_first : Ranked → Ranked → Bool
  is_shown_first x y =
      let i = x.1 in
      let j = y.1 in
      if float.differs i.log_len_word_in_url j.log_len_word_in_url
      then float.gt i.log_len_word_in_url j.log_len_word_in_url
      else i.has_word_in_header && not j.has_word_in_header

  pub top : Sort → ℕ → List Ranked → List Ranked
  top sort max_len ranked =
      sort is_shown_first (take (min (length ranked) max_len) (sort goes_first ranked))

  -- An error of the index gives nothing, as no documents do; else the documents with their rankings.
  pub search : Sort → Index float → List ℕ → ℕ → Option (List Ranked)
  search sort index query max_len = elim (index.handle_text_query query) [
    | none ↦ some []
    | some (words, ms) ↦ elim index.get_avg_len [
      | none ↦ some []
      | some avg_len ↦ elim index.get_documents_count [
        | none ↦ some []
        | some total ↦ elim (fetch_documents index words ms []) [
          | err e ↦ some []
          | panic ↦ none
          | ok docs ↦ elim (rank_documents words ms avg_len total docs) [
            | none ↦ none
            | some ranked ↦ some (top sort max_len ranked)
          ]
        ]
      ]
    ]
  ]
