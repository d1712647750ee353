-- ===== src/Spell/Replacement.antt =====
-- BestReplacement of spellChecker.go. A score is a float64 and greater than -math.MaxFloat32, the value that stands
-- for no score, which is `none` here; the greater of two scores is the first if it is greater.
use wfts.Common.{
  ltb, if◌then◌else◌, length, set, take, drop, ℕ, zero, suc, ◌+◌, ◌-◌, ◌^◌, Bool, true, ◌&&◌,
  Option, none, some, List, [], ◌∷◌, ◌++◌,
}
use wfts.Common.Texts.{text_eq}
use wfts.Searcher.{Float64}
use wfts.Spell.{levenshtein_distance}

module _ (float : Float64) where
  abbrev pub floor_at_least : float.F → float.F
  floor_at_least x = let least = float.literal 1 5 in if float.gt x least then x else least

  -- `a * scores[0] + b * scores[1]`
  abbrev pub channel : float.F × float.F → float.F
  channel (l, r) = float.add (float.mul (float.of_nat 2) l) (float.mul (float.of_nat 3) r)

  unfoldable pub noisy_channel_score : ℕ → List ℕ → List ℕ → float.F × float.F → float.F × ℕ
  noisy_channel_score max_typo word1 word2 scores =
      let ld = levenshtein_distance word1 word2 max_typo in
      let falls = float.div (float.of_nat 1) (float.of_nat (2 ^ ld)) in
      (float.mul falls (floor_at_least (channel scores)), ld)

  abbrev pub beats : float.F → Option float.F → Bool
  beats score none = true
  beats score (some best) = float.gt score best

  -- The first loop: the best candidate with its score.
  unfoldable pub best_candidate :
      ℕ
      → List ℕ
      → List (List ℕ × (float.F × float.F))
      → Option (List ℕ × float.F)
      → Option (List ℕ × float.F)
  best_candidate max_typo orig [] best = best
  best_candidate max_typo orig ((candidate, scores) ∷ cs) best =
      let (score, distance) = noisy_channel_score max_typo orig candidate scores in
      let bscore : Option float.F = elim best [ none ↦ none | some b ↦ some b.1 ] in
      best_candidate max_typo orig cs
        (if beats score bscore && ltb distance max_typo then some (candidate, score) else best)

  -- `scores[set[part]]`: the scores of the last candidate with this text.
  unfoldable pub scores_of :
      List ℕ → List (List ℕ × (float.F × float.F)) → Option (float.F × float.F)
  scores_of part [] = none
  scores_of part ((candidate, scores) ∷ cs) = elim (scores_of part cs) [
    | some later ↦ some later
    | none ↦ if text_eq candidate part then some scores else none
  ]

  -- The second loop, over the places from `i` on: the best two parts.
  unfoldable pub best_parts :
      ℕ
      → ℕ
      → List ℕ
      → List (List ℕ × (float.F × float.F))
      → Option ((List ℕ × List ℕ) × float.F)
      → Option ((List ℕ × List ℕ) × float.F)
  best_parts zero i orig cs best = best
  best_parts (suc n) i orig cs best =
      let bscore : Option float.F = elim best [ none ↦ none | some b ↦ some b.1 ] in
      let next : Option ((List ℕ × List ℕ) × float.F) = elim (scores_of (take i orig) cs) [
        | none ↦ best
        | some first ↦ elim (scores_of (drop i orig) cs) [
          | none ↦ best
          | some second ↦
              let score = float.log (floor_at_least (channel (first.0, second.1))) in
              if beats score bscore then some ((take i orig, drop i orig), score) else best
        ]
      ] in
      best_parts n (i + 1) orig cs next

  -- The words afterwards; `orig` is the word at the index.
  unfoldable pub best_replacement :
      ℕ → List (List ℕ) → ℕ → List ℕ → List (List ℕ × (float.F × float.F)) → List (List ℕ)
  best_replacement max_typo words index orig [] = words
  best_replacement max_typo words index orig (c ∷ cs) =
      elim (best_candidate max_typo orig (c ∷ cs) none) [
        | some (best, score) ↦ set words index best
        | none ↦ elim (best_parts (length orig - 2 - 3) 3 orig (c ∷ cs) none) [
          | none ↦ words
          | some ((part1, part2), score) ↦
              take index words ++ (part1 ∷ part2 ∷ drop (index + 1) words)
        ]
      ]
