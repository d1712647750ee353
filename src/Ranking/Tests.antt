-- ===== src/Ranking/Tests.antt =====
-- The distance of a query at fixed positions.
use wfts.Common.{zero, suc, ◌≡◌, refl, false, some, [], ◌∷◌, arith}
use wfts.Common.Partial.{Yields}
use wfts.Common.Texts.{codes}
use wfts.Ranking.Url.{
  shift_from, shift_of, match_back, find_loop, find, words_in_url, IsHit, find-IsHit,
}
use wfts.Ranking.{search_loop, search, follow, from_starts, from_words, get_min_query_dist_in_doc}
use wfts.Ranking.Search.{IsAscending, IsFirstAfter, search-IsFirstAfter}

program : Unit {0}
unfolding search_loop search follow from_starts from_words get_min_query_dist_in_doc
program = tt

two_words : get_min_query_dist_in_doc ((3 ∷ 20 ∷ []) ∷ (1 ∷ 9 ∷ 22 ∷ []) ∷ []) ≡ some 2
unfolding program
two_words = refl

missing_word : get_min_query_dist_in_doc ((3 ∷ []) ∷ [] ∷ []) ≡ some 50
unfolding program
missing_word = refl

ascending : IsAscending (1 ∷ 9 ∷ [])
ascending zero zero h k = omega arith
ascending zero (suc zero) h k = omega arith
ascending (suc i) zero h k = absurd (omega arith)
ascending (suc zero) (suc zero) h k = omega arith
ascending i (suc (suc j)) h k = absurd (omega arith)
ascending (suc (suc i)) (suc zero) h k = absurd (omega arith)

search-IsFirstAfter_example : Yields (IsFirstAfter (1 ∷ 9 ∷ []) 3) (search (1 ∷ 9 ∷ []) 3)
search-IsFirstAfter_example = search-IsFirstAfter (1 ∷ 9 ∷ []) 3 ascending

url_program : Unit {0}
unfolding shift_from shift_of match_back find_loop find words_in_url
url_program = tt

-- After a part of the word, the search moves on by its whole length, and so it misses "bab" here.
missed : find (codes "bab") (codes "aabab") ≡ some false
unfolding url_program
missed = refl

in_url :
    words_in_url (codes "go.org/bloom") (codes "org" ∷ codes "bloom" ∷ codes "tree" ∷ []) ≡ some 8
unfolding url_program
in_url = refl

find-IsHit_example :
    Yields (IsHit (codes "org") (codes "go.org")) (find (codes "org") (codes "go.org"))
find-IsHit_example = find-IsHit (codes "org") (codes "go.org") (omega arith)
