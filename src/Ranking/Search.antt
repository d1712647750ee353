-- ===== src/Ranking/Search.antt =====
-- The binary search for the first place after another, and the distance, which is always found.
use wfts.Common.{
  ltb, leb, ltb→lt, leb→le, ◌==◌, Bool-cases, length, get_or, ℕ, zero, suc, ◌+◌, ◌-◌, ◌/◌, ◌≤◌, ◌<◌,
  min, ◌≡◌, refl, inl, inr, some, List, [], ◌∷◌, arith, get_elem?-get_or,
}
use wfts.Common.Partial.{Yields, yields, Yields-bind, Yields-map, Yields-inv}
use wfts.Ranking.{
  max_int, search_loop, search, follow, from_starts, from_words, get_min_query_dist_in_doc,
}

-- The places do not fall.
abbrev pub IsAscending : List ℕ → Type 0
IsAscending arr = (i j : ℕ) → i ≤ j → j < length arr → get_or arr i 0 ≤ get_or arr j 0

-- What is left of the search: nothing before `l` is after the target, and the entry at `r` is.
abbrev Bracket : List ℕ → ℕ → ℕ → ℕ → Type 0
Bracket arr target l r =
    (l ≤ r)
    × (r ≤ length arr)
    × (0 < l → get_or arr (l - 1) 0 ≤ target)
    × (r < length arr → target < get_or arr r 0)

search_loop-Bracket :
    (f : ℕ) (arr : List ℕ) (target l r : ℕ)
    → Bracket arr target l r
    → r < f + l
    → Yields (λ k. Bracket arr target k k) (search_loop f arr target l r)
unfolding search_loop
search_loop-Bracket zero arr target l r (h1, h2, h3, h4) fuel = absurd (omega arith)
search_loop-Bracket (suc f) arr target l r (h1, h2, h3, h4) fuel =
    let m = (l + r) / 2 in
    elim (Bool-cases (ltb l r)) [
      | inr over ↦
          let e : r ≡ l = ground (arith, over, h1) in
          rw over (yields (omega arith, omega arith, h3, rw e at h4))
      | inl more ↦
          let lt = ltb→lt l r more in
          let inside = get_elem?-get_or arr m 0 (omega arith) in
          elim (Bool-cases (leb (get_or arr m 0) target)) [
            | inl right ↦
                let le = leb→le (get_or arr m 0) target right in
                let before : m + 1 - 1 ≡ m = omega arith in
                rw (more, inside)
                  (rw right (
                    search_loop-Bracket f arr target (m + 1) r
                      (omega arith, h2, λ _. rw before le, h4) (omega arith)))
            | inr left ↦
                let gt : target < get_or arr m 0 = ground (arith, left) in
                rw (more, inside)
                  (rw left (
                    search_loop-Bracket f arr target l m (omega arith, omega arith, h3, λ _. gt)
                      (omega arith)))
          ]
    ]

-- `k` is the place of the first entry after the target.
abbrev pub IsFirstAfter : List ℕ → ℕ → ℕ → Type 0
IsFirstAfter arr target k =
    (k ≤ length arr)
    × ((i : ℕ) → i < k → get_or arr i 0 ≤ target)
    × ((i : ℕ) → k ≤ i → i < length arr → target < get_or arr i 0)

search-Bracket :
    (arr : List ℕ) (target : ℕ) → Yields (λ k. Bracket arr target k k) (search arr target)
unfolding search
search-Bracket arr target =
    search_loop-Bracket (length arr + 1) arr target 0 (length arr)
      (omega arith, omega arith, λ z. absurd (omega (arith, z)), λ z. absurd (omega (arith, z)))
      (omega arith)

-- In places that do not fall, the search ends and finds the first entry after the target, or the
-- length if there is none.
pub search-IsFirstAfter :
    (arr : List ℕ) (target : ℕ)
    → IsAscending arr
    → Yields (IsFirstAfter arr target) (search arr target)
search-IsFirstAfter arr target up = Yields-map (search-Bracket arr target) λ k found. (
  found.1,
  λ i h. omega (arith, up i (k - 1) (omega arith) (omega (arith, found.1)), found.2 (omega arith)),
  λ i h inside. omega (arith, up k i h inside, found.3 (omega arith)),
)

follow-le :
    (n i j : ℕ) (arrs : List (List ℕ)) (cur last md : ℕ)
    → Yields (λ d. d ≤ md) (follow n i j arrs cur last md)
unfolding follow
follow-le n i j [] cur last md = yields (omega arith)
follow-le n i j (arr ∷ arrs) cur last md = elim (Bool-cases (length arr == 0)) [
  | inl empty ↦ rw empty (yields (omega arith))
  | inr some_places ↦ rw some_places (
      Yields-bind (search-Bracket arr last) λ k found. elim (Bool-cases (leb (length arr) k)) [
        | inl past ↦ rw past (yields (omega arith))
        | inr inside ↦
            let there = get_elem?-get_or arr k 0 (ground (arith, inside)) in
            rw (inside, there) (follow-le n i (j + 1) arrs cur (get_or arr k 0) md)
      ])
]

from_starts-le :
    (n i : ℕ) (later : List (List ℕ)) (starts : List ℕ) (md : ℕ)
    → Yields (λ d. d ≤ md) (from_starts n i later starts md)
unfolding from_starts
from_starts-le n i later [] md = yields (omega arith)
from_starts-le n i later (cur ∷ starts) md =
    Yields-bind (follow-le n i (i + 1) later cur cur md)
      λ d le. Yields-map (from_starts-le n i later starts d) λ e le'. omega (arith, le, le')

from_words-le :
    (n i : ℕ) (arrs : List (List ℕ)) (md : ℕ) → Yields (λ d. d ≤ md) (from_words n i arrs md)
unfolding from_words
from_words-le n i [] md = yields (omega arith)
from_words-le n i (starts ∷ later) md =
    Yields-bind (from_starts-le n i later starts md)
      λ d le. Yields-map (from_words-le n (i + 1) later d) λ e le'. omega (arith, le, le')

-- The distance is found for all positions, in any order of the places: no index is out of range, the
-- searches end, and the result is an int.
pub get_min_query_dist_in_doc_total :
    (positions : List (List ℕ)) → Yields (λ d. d ≤ max_int) (get_min_query_dist_in_doc positions)
unfolding get_min_query_dist_in_doc
get_min_query_dist_in_doc_total positions = from_words-le (length positions) 0 positions max_int

-- A query of one word that is in the document has the distance 0.
pub get_min_query_dist_in_doc_one_word :
    (place : ℕ) (places : List ℕ) → get_min_query_dist_in_doc ((place ∷ places) ∷ []) ≡ some 0
unfolding get_min_query_dist_in_doc from_words from_starts follow
get_min_query_dist_in_doc_one_word place places =
    let start : min max_int (0 + place - place) ≡ 0 = omega arith in
    let (d, e, le) = Yields-inv (from_starts-le 1 0 [] places 0) in
    let none_less : d ≡ 0 = omega (arith, le) in rw start (rw (e, none_less) refl)
