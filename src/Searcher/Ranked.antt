-- ===== src/Searcher/Ranked.antt =====
-- What Search gives.
use wfts.Common.{
  Bool-cases, Option-cases, length, take, length-take, ok, ℕ, zero, suc, ◌≤◌, min, ◌≡◌, refl, sym,
  ap, ◌∙◌, subst, ◌⊎◌, inl, inr, Bool, some, List, [], ◌∷◌, ◌++◌, arith, All,
}
use mathlib.Core.List as L
use mathlib.Core.List.{Memᴰ}
use mathlib.Core.List.Memᴰ.{append_cases, eq_of_singleton}
use wfts.Common.Partial.{Yields-inv}
use wfts.Common.Texts.{text_eq, text_eq_refl}
use wfts.Codec.{WordCountAndPositions}
use wfts.Searcher.Total.{IsWord, Fits, rank_document-Yields}
use wfts.Searcher.{
  Float64, Document, DocRanking, Postings, Index, get_posting, is_known, fetch_postings,
  fetch_documents, rank_document, Ranked, Sort, rank_documents, goes_first, is_shown_first, top,
  search,
}

module _ (float : Float64) where
  -- A permutation of the list, as sort.Slice gives it.
  pub record IsSort (sort : Sort float) : Type 0 where
    pub same_length :
        (less : Ranked float → Ranked float → Bool) (xs : List (Ranked float))
        → length (sort less xs) ≡ length xs
    pub same_members :
        (less : Ranked float → Ranked float → Bool) (xs : List (Ranked float)) (x : Ranked float)
        → Memᴰ x (sort less xs)
        → Memᴰ x xs

  -- The document is among those found, and the ranking is its own.
  abbrev pub IsRanked :
      List (List ℕ) → List Postings → float.F → ℕ → List Document → Ranked float → Type 0
  IsRanked words ms avg_len total docs x =
      Memᴰ x.0 docs × (rank_document float words ms avg_len total x.0 ≡ some x.1)

  ranked_cons :
      (words : List (List ℕ)) (ms : List Postings) (avg_len : float.F) (total : ℕ) (doc : Document)
      (r : DocRanking float) (docs : List Document) (rest : List (Ranked float))
      → rank_document float words ms avg_len total doc ≡ some r
      → ((x : Ranked float) → Memᴰ x rest → IsRanked words ms avg_len total docs x)
      → (x : Ranked float) → Memᴰ x ((doc, r) ∷ rest)
      → IsRanked words ms avg_len total (doc ∷ docs) x
  ranked_cons words ms avg_len total doc r docs rest one own x (L.Memᴰ.head e) = (
    L.Memᴰ.head (ap (λ y. y.0) e),
    subst (λ y. rank_document float words ms avg_len total y.0 ≡ some y.1) (sym e) one,
  )
  ranked_cons words ms avg_len total doc r docs rest one own x (L.Memᴰ.tail at) =
      let (found, same) = own x at in (L.Memᴰ.tail found, same)

  rank_documents-IsRanked :
      (words : List (List ℕ)) (ms : List Postings) (avg_len : float.F) (total : ℕ)
      (docs : List Document)
      → All IsWord words
      → length words ≤ length ms
      → All Fits ms
      → (ranked : List (Ranked float)) × (rank_documents float words ms avg_len total docs
          ≡ some ranked)
        × (length ranked ≡ length docs)
        × ((x : Ranked float) → Memᴰ x ranked → IsRanked words ms avg_len total docs x)
  unfolding rank_documents
  rank_documents-IsRanked words ms avg_len total [] all even fits =
      ([], refl, refl, λ x at. elim at [ ])
  rank_documents-IsRanked words ms avg_len total (doc ∷ docs) all even fits =
      let (r, one, any) =
        Yields-inv (rank_document-Yields float words ms avg_len total doc all even fits) in
      let (rest, run, len, own) =
        rank_documents-IsRanked words ms avg_len total docs all even fits in
      (
        (doc, r) ∷ rest,
        rw (rank_documents, one) (rw run refl),
        ap suc len,
        ranked_cons words ms avg_len total doc r docs rest one own,
      )

take-mem : {A : Type 0} (n : ℕ) (xs : List A) (x : A) → Memᴰ x (take n xs) → Memᴰ x xs
take-mem zero xs x at = elim at [ ]
take-mem (suc n) [] x at = elim at [ ]
take-mem (suc n) (y ∷ xs) x (L.Memᴰ.head e) = L.Memᴰ.head e
take-mem (suc n) (y ∷ xs) x (L.Memᴰ.tail at) = L.Memᴰ.tail (take-mem n xs x at)

-- A word of the query stands in the document.
abbrev pub IsPosted : List Postings → Document → Type 0
IsPosted ms doc =
    (m : Postings) × Memᴰ m ms
    × ((item : WordCountAndPositions) × (get_posting doc.id m ≡ some item))

-- The index gives the document that it is asked for.
abbrev pub GivesIds : (float : Float64) → Index float → Type 0
GivesIds float index =
    (id : List ℕ) (doc : Document) → index.get_document_by_id id ≡ some doc → doc.id ≡ id

module _ {float : Float64} (index : Index float) (gives : GivesIds float index) where
  posting_cons :
      (k j : List ℕ) (v x : WordCountAndPositions) (m : Postings)
      → get_posting k m ≡ some x
      → (y : WordCountAndPositions) × (get_posting k ((j, v) ∷ m) ≡ some y)
  unfolding get_posting
  posting_cons k j v x m h = elim (Bool-cases (text_eq j k)) [
    | inl same ↦ (v, rw (get_posting, same) refl)
    | inr apart ↦ (x, rw (get_posting, apart) h)
  ]

  posting_head :
      (id : List ℕ) (item : WordCountAndPositions) (m : Postings) (doc d : Document)
      → index.get_document_by_id id ≡ some d
      → doc ≡ d
      → get_posting doc.id ((id, item) ∷ m) ≡ some item
  unfolding get_posting
  posting_head id item m doc d known e =
      let same : doc.id ≡ id = ap (λ x. x.id) e ∙ gives id d known in
      rw same (rw (get_posting, text_eq_refl id) refl)

  -- Those found before, or those of the postings.
  fetch_postings-mem :
      (m : Postings) (docs found : List Document)
      → fetch_postings index m docs ≡ some found
      → (doc : Document) → Memᴰ doc found
      → Memᴰ doc docs ⊎ ((item : WordCountAndPositions) × (get_posting doc.id m ≡ some item))
  unfolding fetch_postings
  fetch_postings-mem [] docs found h doc at =
      let e : found ≡ docs = cc in inl (subst (Memᴰ doc) e at)
  fetch_postings-mem ((id, item) ∷ m) docs found h doc at = elim (Bool-cases (is_known id docs)) [
    | inl known ↦
        let rest : fetch_postings index m docs ≡ some found = ground (arith, h, known) in
        elim (fetch_postings-mem m docs found rest doc at) [
          | inl old ↦ inl old
          | inr (other, e) ↦ inr (posting_cons doc.id id item other m e)
        ]
    | inr fresh ↦ elim (Option-cases (index.get_document_by_id id)) [
      | inl missing ↦ absurd (ground (arith, h, fresh, missing))
      | inr (d, known) ↦
          let rest : fetch_postings index m (docs ++ d ∷ []) ≡ some found =
            ground (arith, h, fresh, known) in
          elim (fetch_postings-mem m (docs ++ d ∷ []) found rest doc at) [
            | inr (other, e) ↦ inr (posting_cons doc.id id item other m e)
            | inl old ↦ elim (append_cases docs old) [
              | inl before ↦ inl before
              | inr last ↦ inr (item, posting_head id item m doc d known (eq_of_singleton last))
            ]
          ]
    ]
  ]

  fetch_documents-IsPosted :
      (words : List (List ℕ)) (ms : List Postings) (docs found : List Document)
      → fetch_documents index words ms docs ≡ ok found
      → (doc : Document) → Memᴰ doc found
      → Memᴰ doc docs ⊎ IsPosted ms doc
  unfolding fetch_documents
  fetch_documents-IsPosted [] ms docs found h doc at =
      let e : found ≡ docs = cc in inl (subst (Memᴰ doc) e at)
  fetch_documents-IsPosted (word ∷ words) [] docs found h doc at = absurd (ground (arith, h))
  fetch_documents-IsPosted (word ∷ words) (m ∷ ms) docs found h doc at =
      elim (Option-cases (fetch_postings index m docs)) [
        | inl failed ↦ absurd (ground (arith, h, failed))
        | inr (mid, first) ↦
            let later : fetch_documents index words ms mid ≡ ok found = ground (arith, h, first) in
            elim (fetch_documents-IsPosted words ms mid found later doc at) [
              | inr (n, there, item) ↦ inr (n, L.Memᴰ.tail there, item)
              | inl before ↦ elim (fetch_postings-mem m docs mid first doc before) [
                | inl old ↦ inl old
                | inr item ↦ inr (m, L.Memᴰ.head refl, item)
              ]
            ]
      ]

  -- A document that is shown: a word of the query stands in it, and the ranking is its own.
  abbrev pub IsShown : List (List ℕ) → List Postings → float.F → ℕ → Ranked float → Type 0
  IsShown words ms avg_len total x =
      IsPosted ms x.0 × (rank_document float words ms avg_len total x.0 ≡ some x.1)

  -- Search gives a result and does not panic where the index answers with no error and gives each document the id
  -- that it is asked for, no word is empty, there are as many lists of documents as words or more, each entry has as
  -- many positions as its count says or 500, and sort.Slice permutes what it sorts. The result has as many documents as were found, at most `max_len` of them,
  -- and in each stands a word of the query and its ranking is its own.
  pub search-IsShown :
      (sort : Sort float) (query : List ℕ) (max_len : ℕ) (words : List (List ℕ))
      (ms : List Postings) (avg_len : float.F) (total : ℕ) (docs : List Document)
      → IsSort float sort
      → All IsWord words
      → length words ≤ length ms
      → All Fits ms
      → index.handle_text_query query ≡ some (words, ms)
      → index.get_avg_len ≡ some avg_len
      → index.get_documents_count ≡ some total
      → fetch_documents index words ms [] ≡ ok docs
      → (result : List (Ranked float)) × (search float sort index query max_len ≡ some result)
        × (length result ≡ min (length docs) max_len)
        × ((x : Ranked float) → Memᴰ x result → IsShown words ms avg_len total x)
  unfolding search top
  search-IsShown sort query max_len words ms avg_len total docs sorts all even fits answer avg count
        fetched =
      let (ranked, run, len, own) =
        rank_documents-IsRanked float words ms avg_len total docs all even fits in
      let first = sort (goes_first float) ranked in
      let shown = take (min (length ranked) max_len) first in
      let cut = length-take (min (length ranked) max_len) first in
      let whole = sorts.same_length (goes_first float) ranked in
      let last = sorts.same_length (is_shown_first float) shown in
      (
        top float sort max_len ranked,
        rw (search, answer) (rw avg (rw count (rw fetched (rw run refl)))),
        omega (arith, last, cut, whole, len),
        λ x at.
            let in_shown = sorts.same_members (is_shown_first float) shown x at in
            let in_first = take-mem (min (length ranked) max_len) first x in_shown in
            let (there, same) = own x (sorts.same_members (goes_first float) ranked x in_first) in
            elim (fetch_documents-IsPosted words ms [] docs fetched x.0 there) [
              | inl nowhere ↦ elim nowhere [ ]
              | inr posted ↦ (posted, same)
            ],
      )
