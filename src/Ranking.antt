-- ===== src/Ranking.antt =====
-- internal/services/wfts/online/searcher/preprocessingFeatures.go: the distance of the query's words
-- in a document. The positions of a word are the list of their places. `none` is a panic, or a search
-- without fuel. The search of the words in a URL is in Url.
pub mod Search
pub mod Url
mod Tests
use wfts.Common.{
  ltb, leb, if◌then◌else◌, ◌==◌, length, get_elem?, ℕ, zero, suc, ◌+◌, ◌-◌, ◌*◌, ◌/◌, ◌^◌, min,
  Option, none, some, List, [], ◌∷◌,
}
use wfts.Common.Partial.{◌>>=◌}

-- `a`
abbrev pub padding : ℕ
padding = 50

-- `math.MaxInt`
abbrev pub max_int : ℕ
max_int = 2 ^ 63 - 1

-- The loop of `bs`.
pub search_loop : ℕ → List ℕ → ℕ → ℕ → ℕ → Option ℕ
search_loop zero arr target l r = none
search_loop (suc f) arr target l r =
    let m = (l + r) / 2 in
    let right = search_loop f arr target (m + 1) r in
    let left = search_loop f arr target l m in
    let step = get_elem? arr m >>= λ place. if leb place target then right else left in
    if ltb l r then step else some l

pub search : List ℕ → ℕ → Option ℕ
search arr target = search_loop (length arr + 1) arr target 0 (length arr)

-- The loop over `j`, over the positions of the words from `j` on, and what follows it: the new value
-- of minDencity.
pub follow : ℕ → ℕ → ℕ → List (List ℕ) → ℕ → ℕ → ℕ → Option ℕ
follow len_query i j [] cur last min_dencity = some (min min_dencity (i * padding + last - cur))
follow len_query i j (arr ∷ arrs) cur last min_dencity =
    let penalty = (len_query - (j - i)) * padding in
    let next = λ (position : ℕ).
      get_elem? arr position >>= λ place. follow len_query i (j + 1) arrs cur place min_dencity in
    let found = search arr last >>= λ position.
    if leb (length arr) position then some min_dencity else next position in
    if length arr == 0 then some (min min_dencity (penalty + last - cur)) else found

-- The loop over the positions of the word `i`.
pub from_starts : ℕ → ℕ → List (List ℕ) → List ℕ → ℕ → Option ℕ
from_starts len_query i later [] min_dencity = some min_dencity
from_starts len_query i later (cur ∷ starts) min_dencity =
    follow len_query i (i + 1) later cur cur min_dencity >>= from_starts len_query i later starts

pub from_words : ℕ → ℕ → List (List ℕ) → ℕ → Option ℕ
from_words len_query i [] min_dencity = some min_dencity
from_words len_query i (starts ∷ later) min_dencity =
    from_starts len_query i later starts min_dencity >>= from_words len_query (i + 1) later

pub get_min_query_dist_in_doc : List (List ℕ) → Option ℕ
get_min_query_dist_in_doc positions = from_words (length positions) 0 positions max_int
