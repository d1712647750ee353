-- ===== src/Indexer.antt =====
-- internal/services/wfts/offline/indexer/wordHandling.go: HandleDocumentWords, which reads the words of a page
-- and stores them, and calcSim. The calls of the repository act on a World and are the record Repository; the
-- scaler and the model of the logistic regression are one test of the features, `predicts_zero`. The similarity
-- of two signatures is a number of 128ths, which a float64 holds exactly; 0.8 lies between 102 and 103 of them.
-- A map is the list of its entries, in the order in which they were made.
pub mod Words
pub mod Similar
mod Tests
use wfts.Common.{
  ltb, if◌then◌else◌, ◌==◌, length, take, Result, ok, err, ℕ, suc, ◌+◌, ◌-◌, max, Bool, false, not,
  ◌&&◌, Option, none, some, List, [], ◌∷◌, ◌++◌,
}
use wfts.Common.Texts.{text_eq}
use wfts.Codec.{Position}
use wfts.Stemmer.{SuffixRule}
use wfts.Stemmer.Tokens.{tokenize_and_stem}
use wfts.Tokenizer.{TokenType, Token}
use wfts.MinHash.{create_signature}
use wfts.Html.{Passage}
use wfts.Crawl.{Float64, Document, CrawlFeatures}

abbrev pub Table {ℓ} : Type ℓ → Type ℓ
Table A = List (List ℕ × A)

module _ {ℓ} {A : Type ℓ} where
  -- `m[k]`, with the zero value of a missing key
  pub lookup : A → List ℕ → Table A → A
  lookup z k [] = z
  lookup z k ((j, v) ∷ m) = let rest = lookup z k m in if text_eq j k then v else rest

  -- `m[k] = f(m[k])`
  pub update : A → (A → A) → List ℕ → Table A → Table A
  update z f k [] = (k, f z) ∷ []
  update z f k ((j, v) ∷ m) =
      let rest = update z f k m in if text_eq j k then (j, f v) ∷ m else (j, v) ∷ rest

-- The variables of the loop over the passages; `place` is `i`.
pub record Gathered : Type 0 where
  pub place : ℕ
  pub all_word_tokens : List (List ℕ)
  pub stem : Table ℕ
  pub pos : Table (List Position)

abbrev pub nothing_gathered : Gathered
nothing_gathered = record { place = 0; all_word_tokens = []; stem = []; pos = [] }

-- The body of the loop over the stems.
pub add_stem : ℕ → List ℕ → Gathered → Gathered
add_stem kind w g =
    let added : Gathered = record g {
      place = g.place + 1;
      stem = update 0 (λ n. n + 1) w g.stem;
      pos = update [] (λ ps. ps ++ record { place = g.place; kind = kind } ∷ []) w g.pos;
    } in
    if ltb 64 (length w) then g else added

pub add_stems : ℕ → List Token → Gathered → Gathered
add_stems kind [] g = g
add_stems kind (t ∷ ts) g = add_stems kind ts (add_stem kind t.value g)

pub gather :
    (List SuffixRule → List SuffixRule)
    → (TokenType → List ℕ → List (ℕ × ℕ))
    → List Passage
    → Gathered
    → Gathered
gather order matches [] g = g
gather order matches (p ∷ ps) g =
    let (orig, stemmed) = tokenize_and_stem order matches p.content in
    let read : Gathered = record g { all_word_tokens = g.all_word_tokens ++ orig } in
    gather order matches ps (if length stemmed == 0 then g else add_stems p.kind stemmed read)

-- The number of places at which the signatures agree.
pub same_entries : List ℕ → List ℕ → ℕ
same_entries [] sign = 0
same_entries (x ∷ xs) [] = 0
same_entries (x ∷ xs) (y ∷ ys) = let rest = same_entries xs ys in if x == y then suc rest else rest

pub calc_sim : List ℕ → List (List ℕ) → ℕ
calc_sim sign [] = 0
calc_sim sign (cond ∷ conds) = max (calc_sim sign conds) (same_entries sign cond)

pub data Stored : Type 0 where
  stored : Stored
  context_canceled : Stored
  not_stored : Stored

pub data IndexerError : Type 0 where
  page_already_indexed : IndexerError
  skipped_by_model : IndexerError
  repository_error : IndexerError

abbrev pub Bigrams : Type 0
Bigrams = List ((ℕ × ℕ) × ℕ)

pub count_bigram : ℕ → ℕ → Bigrams → Bigrams
count_bigram l r [] = ((l, r), 1) ∷ []
count_bigram l r (((a, b), n) ∷ m) =
    let rest = count_bigram l r m in
    if a == l && b == r then ((a, b), n + 1) ∷ m else ((a, b), n) ∷ rest

-- The loop over the words from `j - 1` on.
pub count_bigrams : (List ℕ → ℕ) → List (List ℕ) → Bigrams → Bigrams
count_bigrams hash64 [] m = m
count_bigrams hash64 (v ∷ []) m = m
count_bigrams hash64 (v ∷ w ∷ ws) m =
    count_bigrams hash64 (w ∷ ws) (count_bigram (hash64 v) (hash64 w) m)

-- `false` and `none` are errors. A document is stored with its number of tokens.
pub record Repository (float : Float64) : Type 1 where
  pub World : Type 0
  pub order : List SuffixRule → List SuffixRule
  pub matches : TokenType → List ℕ → List (ℕ × ℕ)
  pub hash64 : List ℕ → ℕ
  pub salts : List (ℕ × ℕ)
  pub predicts_zero : List float.F → Bool
  pub get_similar_signs : List ℕ → World → Option (List (List ℕ)) × World
  pub index_doc_shingles : List ℕ → World → Stored × World
  pub update_bi_freq : Bigrams → World → Bool × World
  pub save_document : Document → ℕ → World → Bool × World
  pub index_document_words : List ℕ → Table ℕ → Table (List Position) → World → Bool × World
  pub index_tri_grams : List (List ℕ) → World → Stored × World

module _ {float : Float64} (r : Repository float) where
  -- The features of the page: `X`.
  pub feature_vector : CrawlFeatures → ℕ → ℕ → List float.F
  feature_vector features tokens utokens =
      let n = float.of_nat in
      n features.dom_depth
      ∷ n features.tag_count
      ∷ n features.url_count
      ∷ n tokens
      ∷ n utokens
      ∷ float.div (n tokens) (n features.url_count)
      ∷ float.div (n utokens) (n tokens)
      ∷ n features.url_len
      ∷ n features.path_len
      ∷ n features.host_len
      ∷ []

  -- From the end of the document on: the new priority.
  pub store_words :
      Document → Gathered → float.F → ℕ → r.World → Result IndexerError float.F × r.World
  store_words doc g priority sim w =
      let (saved, w1) = r.save_document doc g.place w in
      let (indexed, w2) = r.index_document_words doc.id g.stem g.pos w1 in
      let (grams, w3) = r.index_tri_grams g.all_word_tokens w2 in
      let unlike = float.div (float.of_nat (128 - sim)) (float.of_nat 128) in
      let share = float.div (float.of_nat (length g.pos)) (float.of_nat g.place) in
      let raised = float.mul (float.mul priority unlike) share in
      let last : Result IndexerError float.F = elim grams [
        | stored ↦ ok raised
        | context_canceled ↦ ok raised
        | not_stored ↦ err repository_error
      ] in
      if saved
      then if indexed then (last, w3) else (err repository_error, w2)
      else (err repository_error, w1)

  -- The bigrams, and the end of a page that the model skips.
  pub store_bigrams :
      Bool → Document → Gathered → float.F → ℕ → r.World → Result IndexerError float.F × r.World
  store_bigrams skips doc g priority sim w =
      let (updated, w1) = r.update_bi_freq (count_bigrams r.hash64 g.all_word_tokens []) w in
      if updated
      then if skips then (err skipped_by_model, w1) else store_words doc g priority sim w1
      else (err repository_error, w1)

  -- The comparison with the pages that have the signature in part.
  pub compare_signs :
      Document → Gathered → float.F → r.World → Result IndexerError float.F × r.World
  compare_signs doc g priority w =
      let sign = create_signature r.hash64 r.salts (take 5000 g.all_word_tokens) in
      let (conds, w1) = r.get_similar_signs sign w in
      let (shingles, w2) = r.index_doc_shingles sign w1 in
      elim conds [
        | none ↦ (err repository_error, w1)
        | some others ↦
            let sim = calc_sim sign others in
            let rest : Result IndexerError float.F × r.World = elim shingles [
              | stored ↦ store_bigrams false doc g priority sim w2
              | context_canceled ↦ store_bigrams false doc g priority sim w2
              | not_stored ↦ (err repository_error, w2)
            ] in
            if ltb 102 sim then (err page_already_indexed, w1) else rest
      ]

  pub handle_gathered :
      Document
      → CrawlFeatures
      → float.F
      → Gathered
      → r.World
      → Result IndexerError float.F × r.World
  handle_gathered doc features priority g w =
      let zero_score = r.predicts_zero (feature_vector features g.place (length g.pos)) in
      let skips = zero_score && ltb g.place 150 in
      if not skips && ltb 4 (length g.all_word_tokens)
      then compare_signs doc g priority w
      else store_bigrams skips doc g priority 0 w

  pub handle_document_words :
      Document
      → CrawlFeatures
      → float.F
      → List Passage
      → r.World
      → Result IndexerError float.F × r.World
  handle_document_words doc features priority passages w =
      handle_gathered doc features priority (gather r.order r.matches passages nothing_gathered) w
