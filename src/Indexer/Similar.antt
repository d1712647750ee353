-- ===== src/Indexer/Similar.antt =====
-- A page whose signature is stored already.
use wfts.Common.{
  ltb, ltb→lt, lt→ltb, Bool-cases, length, take, Result, err, ℕ, ◌≤◌, ◌<◌, ◌≡◌, refl, ap, ◌≢◌, inl,
  inr, Bool, false, ◌&&◌, some, List, [], ◌∷◌, arith, if_both,
}
use mathlib.Core.List as L
use mathlib.Core.List.{Memᴰ}
use wfts.MinHash.{create_signature}
use wfts.Html.{Passage}
use wfts.Crawl.{Float64, Document, CrawlFeatures}
use wfts.Indexer.{
  Stored, stored, context_canceled, not_stored, IndexerError, repository_error, count_bigrams,
  store_words, store_bigrams, Gathered, nothing_gathered, gather, same_entries, calc_sim,
  page_already_indexed, Repository, feature_vector, compare_signs, handle_gathered,
  handle_document_words,
}

same_entries-le-calc_sim :
    (sign : List ℕ) (conds : List (List ℕ)) (other : List ℕ)
    → Memᴰ other conds
    → same_entries sign other ≤ calc_sim sign conds
unfolding calc_sim
same_entries-le-calc_sim sign [] other at = elim at [ ]
same_entries-le-calc_sim sign (cond ∷ conds) other (L.Memᴰ.head e) =
    let here = ap (same_entries sign) e in omega (arith, here)
same_entries-le-calc_sim sign (cond ∷ conds) other (L.Memᴰ.tail at) =
    let rest = same_entries-le-calc_sim sign conds other at in omega (arith, rest)

-- A similarity over a bound is that of one of the signatures.
calc_sim-attained :
    (sign : List ℕ) (conds : List (List ℕ)) (n : ℕ)
    → n < calc_sim sign conds
    → (other : List ℕ) × Memᴰ other conds × (n < same_entries sign other)
unfolding calc_sim
calc_sim-attained sign [] n over = absurd (omega (arith, over))
calc_sim-attained sign (cond ∷ conds) n over = elim (Bool-cases (ltb n (same_entries sign cond))) [
  | inl here ↦ (cond, L.Memᴰ.head refl, ltb→lt n (same_entries sign cond) here)
  | inr below ↦
      let later : n < calc_sim sign conds = ground (arith, over, below) in
      let (other, at, like) = calc_sim-attained sign conds n later in (other, L.Memᴰ.tail at, like)
]

stored_both :
    {A : Type 0} (P : A → Type 0) (x : Stored) {a b c : A}
    → P a
    → P b
    → P c
    → P (elim x [ stored ↦ a | context_canceled ↦ b | not_stored ↦ c ])
stored_both P stored pa pb pc = pa
stored_both P context_canceled pa pb pc = pb
stored_both P not_stored pa pb pc = pc

module _ {float : Float64} (r : Repository float) where
  -- The signature of the first 5000 words.
  abbrev pub signature : Gathered → List ℕ
  signature g = create_signature r.hash64 r.salts (take 5000 g.all_word_tokens)

  abbrev pub gathered : List Passage → Gathered
  gathered passages = gather r.order r.matches passages nothing_gathered

  -- The end of the call is not that of a page which is indexed already.
  abbrev IsOther : Result IndexerError float.F × r.World → Type 0
  IsOther x = x.0 ≢ err page_already_indexed

  abbrev IsOtherResult : Result IndexerError float.F → Type 0
  IsOtherResult x = x ≢ err page_already_indexed

  store_words-IsOther :
      (doc : Document) (g : Gathered) (priority : float.F) (sim : ℕ) (w : r.World)
      → IsOther (store_words r doc g priority sim w)
  unfolding store_words
  store_words-IsOther doc g priority sim w =
      let w1 = (r.save_document doc g.place w).1 in
      let w2 = (r.index_document_words doc.id g.stem g.pos w1).1 in
      if_both IsOther (r.save_document doc g.place w).0
        (if_both IsOther (r.index_document_words doc.id g.stem g.pos w1).0
          (stored_both IsOtherResult (r.index_tri_grams g.all_word_tokens w2).0 (λ h. cc) (λ h. cc)
            (λ h. cc))
          (λ h. cc))
        (λ h. cc)

  store_bigrams-IsOther :
      (skips : Bool) (doc : Document) (g : Gathered) (priority : float.F) (sim : ℕ) (w : r.World)
      → IsOther (store_bigrams r skips doc g priority sim w)
  unfolding store_bigrams
  store_bigrams-IsOther skips doc g priority sim w =
      let pairs = count_bigrams r.hash64 g.all_word_tokens [] in
      if_both IsOther (r.update_bi_freq pairs w).0
        (if_both IsOther skips (λ h. cc)
          (store_words-IsOther doc g priority sim (r.update_bi_freq pairs w).1))
        (λ h. cc)

  -- One of the signatures has the page's entries at more than 102 places.
  abbrev pub HasSimilar : List ℕ → List (List ℕ) → Type 0
  HasSimilar sign others = (other : List ℕ) × Memᴰ other others × (102 < same_entries sign other)

  -- The page is refused where a signature is similar, and nothing is written before; else the refusal is another one.
  abbrev pub IsDecided :
      Gathered → List (List ℕ) → r.World → Result IndexerError float.F × r.World → Type 0
  IsDecided g others w result =
      (HasSimilar (signature g) others
        → result ≡ (err page_already_indexed, (r.get_similar_signs (signature g) w).1))
      × (result.0 ≡ err page_already_indexed → HasSimilar (signature g) others)

  compare_signs-IsDecided :
      (doc : Document) (priority : float.F) (g : Gathered) (w : r.World) (others : List (List ℕ))
      → (r.get_similar_signs (signature g) w).0 ≡ some others
      → IsDecided g others w (compare_signs r doc g priority w)
  unfolding compare_signs
  compare_signs-IsDecided doc priority g w others conds =
      let sim = calc_sim (signature g) others in
      let w1 = (r.get_similar_signs (signature g) w).1 in
      let (shingles, w2) = r.index_doc_shingles (signature g) w1 in
      let go_on : IsOther (elim shingles [
        | stored ↦ store_bigrams r false doc g priority sim w2
        | context_canceled ↦ store_bigrams r false doc g priority sim w2
        | not_stored ↦ (err repository_error, w2)
      ]) =
        stored_both IsOther shingles (store_bigrams-IsOther false doc g priority sim w2)
          (store_bigrams-IsOther false doc g priority sim w2) (λ h. cc) in
      (
        λ (other, at, like).
            let bound = same_entries-le-calc_sim (signature g) others other at in
            let over = lt→ltb 102 sim (omega (arith, bound, like)) in
            rw (compare_signs, conds) (rw over refl),
        elim (Bool-cases (ltb 102 sim)) [
          | inl over ↦ λ refused. calc_sim-attained (signature g) others 102 (ltb→lt 102 sim over)
          | inr under ↦ rw (compare_signs, conds) (rw under (λ refused. absurd (go_on refused)))
        ],
      )

  -- For a page that is not skipped (the model does not predict 0, or there are 150 tokens or more), which has more
  -- than four words, and for which the repository gives signatures: it is refused as already indexed exactly when
  -- its signature agrees with one of them at more than 102 of the places, and nothing is written before.
  pub handle_document_words-similar :
      (doc : Document) (features : CrawlFeatures) (priority : float.F) (passages : List Passage)
      (w : r.World) (others : List (List ℕ))
      → r.predicts_zero
            (feature_vector r features (gathered passages).place (length (gathered passages).pos))
          && ltb (gathered passages).place 150
        ≡ false
      → 4 < length (gathered passages).all_word_tokens
      → (r.get_similar_signs (signature (gathered passages)) w).0 ≡ some others
      → IsDecided
          (gathered passages)
          others
          w
          (handle_document_words r doc features priority passages w)
  unfolding handle_document_words handle_gathered
  handle_document_words-similar doc features priority passages w others taken many conds =
      let g = gathered passages in
      let more = lt→ltb 4 (length g.all_word_tokens) many in
      rw (taken, more) (compare_signs-IsDecided doc priority g w others conds)
