-- ===== src/Searcher/Tests.antt =====
-- A query of one word that stands in one document.
use wfts.Common.{
  ltb, length, ok, ℕ, ◌+◌, ◌-◌, ◌*◌, ◌/◌, ◌≡◌, refl, ap, ◌||◌, some, List, [], ◌∷◌, arith,
}
use wfts.Common.Texts.{codes, text_eq}
use mathlib.Core.List.{Memᴰ}
use wfts.Searcher.{
  Float64, Document, Postings, Index, is_known, fetch_postings, fetch_documents, Ranked, Sort,
  search,
}
use wfts.Searcher.Ranked.{GivesIds, IsShown, search-IsShown}

abbrev counted : Float64
counted = record {
  F = ℕ;
  of_nat = λ n. n;
  literal = λ n places. n;
  add = ◌+◌;
  sub = ◌-◌;
  mul = ◌*◌;
  div = ◌/◌;
  log = λ x. x;
  gt = λ x y. ltb y x;
  differs = λ x y. ltb x y || ltb y x;
}

abbrev dogs : Postings
dogs = (7 ∷ [], record { count = 1; positions = record { place = 2; kind = 98 } ∷ [] }) ∷ []

abbrev answers : Index counted
answers = record {
  handle_text_query = λ query. some (codes "dog" ∷ [], dogs ∷ []);
  get_avg_len = some 3;
  get_documents_count = some 5;
  get_document_by_id = λ id. some (record { id = id; url = codes "a.org/dog"; token_count = 3 });
}

program : Unit {0}
unfolding text_eq is_known fetch_postings fetch_documents
program = tt

abbrev the_document : Document
the_document = record { id = 7 ∷ []; url = codes "a.org/dog"; token_count = 3 }

one_fetched : fetch_documents answers (codes "dog" ∷ []) (dogs ∷ []) [] ≡ ok (the_document ∷ [])
unfolding program
one_fetched = refl

gives_ids : GivesIds counted answers
gives_ids id doc e =
    let same : doc ≡ record { id = id; url = codes "a.org/dog"; token_count = 3 } = cc in
    ap (λ d. d.id) same

abbrev as_is : Sort counted
as_is less xs = xs

search-IsShown_example :
    (result : List (Ranked counted)) × (search counted as_is answers (codes "dogs") 10
      ≡ some result)
    × (length result ≡ 1)
    × ((x : Ranked counted)
        → Memᴰ x result
        → IsShown answers gives_ids (codes "dog" ∷ []) (dogs ∷ []) 3 5 x)
search-IsShown_example =
    search-IsShown answers gives_ids as_is (codes "dogs") 10 (codes "dog" ∷ []) (dogs ∷ []) 3 5
      (the_document ∷ [])
      (record { same_length = λ less xs. refl; same_members = λ less xs x at. at })
      (omega arith, tt) (omega arith) ((omega arith, tt), tt) refl refl refl one_fetched
