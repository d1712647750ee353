-- ===== src/Spell.antt =====
-- internal/services/wfts/offline/indexer/spellChecker/spellChecker.go: the edit distance with a
-- limit. A word is the list of its runes. The inner loop, which overwrites the row `dp` from left to
-- right, recurs on the second word and on the old row together.
pub mod Distance
pub mod Laws
pub mod Replacement
mod Tests
use wfts.Common.{ltb, if◌then◌else◌, ◌==◌, length, get_or, ℕ, ◌+◌, min, List, [], ◌∷◌}

-- One pass of the inner loop for the rune `c`: `up_left` and `left` are the variable and `dp[j - 1]`;
-- the result is the new row from here on, and minRow.
unfoldable pub fill : ℕ → List ℕ → List ℕ → ℕ → ℕ → ℕ → List ℕ × ℕ
fill c [] ds up_left left min_row = ([], min_row)
fill c (y ∷ ys) [] up_left left min_row = ([], min_row)
fill c (y ∷ ys) (d ∷ ds) up_left left min_row =
    let v = if c == y then up_left else min (min left up_left) d + 1 in
    let rest = fill c ys ds d v (min min_row v) in (v ∷ rest.0, rest.1)

-- The outer loop; `dp` is the row without `dp[0]`, which each pass sets to `i`.
unfoldable pub rows : ℕ → List ℕ → ℕ → List ℕ → List ℕ → ℕ
rows max_typo word2 i [] dp = get_or (i ∷ dp) (length word2) 0
rows max_typo word2 i (c ∷ cs) dp =
    let r = fill c word2 dp i i i in
    let rest = rows max_typo word2 (i + 1) cs r.0 in if ltb max_typo r.1 then max_typo + 1 else rest

-- `1 .. l2`, the rest of the first row.
unfoldable pub count_from : ℕ → List ℕ → List ℕ
count_from n [] = []
count_from n (y ∷ ys) = n ∷ count_from (n + 1) ys

unfoldable pub levenshtein_distance : List ℕ → List ℕ → ℕ → ℕ
levenshtein_distance word1 word2 max_typo =
    if length word1 == 0
    then length word2
    else if length word2 == 0
    then length word1
    else rows max_typo word2 0 word1 (count_from 1 word2)
