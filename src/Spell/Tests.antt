-- ===== src/Spell/Tests.antt =====
-- Tests of the edit distance, and its law at two words.
use wfts.Common.{◌≡◌, refl, []}
use wfts.Common.Texts.{codes}
use wfts.Spell.{fill, rows, count_from, levenshtein_distance}
use wfts.Spell.Distance.{distance, reverse_onto}
use wfts.Spell.Laws.{Limited, levenshtein_distance-Limited}

kitten : levenshtein_distance (codes "kitten") (codes "sitting") 4 ≡ 3
unfolding levenshtein_distance rows fill count_from
kitten = refl

cut_off : levenshtein_distance (codes "abcdef") (codes "uvwxyz") 2 ≡ 3
unfolding levenshtein_distance rows fill count_from
cut_off = refl

levenshtein_distance-Limited_example :
    Limited 2
      (distance (reverse_onto [] (codes "abc")) (reverse_onto [] (codes "axc")))
      (levenshtein_distance (codes "abc") (codes "axc") 2)
levenshtein_distance-Limited_example = levenshtein_distance-Limited (codes "abc") (codes "axc") 2
