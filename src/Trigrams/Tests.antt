-- ===== src/Trigrams/Tests.antt =====
-- The word "table" in an empty index, found by "cable".
use wfts.Common.{ok, ℕ, ◌≤◌, ◌≡◌, refl, true, none, List, [], arith, All}
use mathlib.Core.List as L
use mathlib.Core.List.{Memᴰ}
use wfts.Common.Texts.{codes}
use wfts.Codec.Shards.{IsLower}
use wfts.Storage.{decimal, decimal_from}
use wfts.Storage.Pairs.{pairs, pairs-Reliable}
use wfts.Trigrams.{
  Cacher, Files, Trigram, Index, word_key, seq_key, windows, new_grams, extract_t_grams, add_letter,
  group, extract_t_grams_by_b_gram, give_id, allocate, alloc, write_grams, index_word,
  index_tri_grams, collect, collect_all, get_words_from_seq, get_words_by_t_grams,
}
use wfts.Trigrams.Written.{IsRegistered}
use wfts.Trigrams.Found.{get_words_by_t_grams-index_word}

program : Unit {0}
unfolding decimal decimal_from word_key seq_key windows new_grams extract_t_grams add_letter group
    extract_t_grams_by_b_gram give_id allocate alloc write_grams index_word index_tri_grams collect
    collect_all get_words_from_seq get_words_by_t_grams
program = tt

abbrev no_cache : Cacher
no_cache = record { Cache = Unit; get = λ word cache. (none, cache); put = λ word id cache. cache }

abbrev disk : Files
disk = record { opens = λ k. true; writes = λ k. true; reads = λ k. true }

abbrev empty : Index pairs no_cache
empty = record { db = []; next_id = 40; caches = λ k. tt; chunks = λ k. [] }

number_key : seq_key 207 ≡ codes "num:207"
unfolding program
number_key = refl

no_double_gram : new_grams [] (windows (codes "aaaa")) ≡ windows (codes "aaa")
unfolding program
no_double_gram = refl

table_low : All IsLower (codes "table")
table_low =
    let low : (x : ℕ) → 97 ≤ x → x ≤ 122 → IsLower x = λ x l h. (l, h) in
    (
      low 116 (omega arith) (omega arith),
      (
        low 97 (omega arith) (omega arith),
        (
          low 98 (omega arith) (omega arith),
          (low 108 (omega arith) (omega arith), (low 101 (omega arith) (omega arith), tt)),
        ),
      ),
    )

abbrev abl : Trigram
abl = record { first = 97; second = 98; third = 108 }

in_table : Memᴰ abl (windows (codes "table"))
unfolding program
in_table = L.Memᴰ.tail (L.Memᴰ.head refl)

in_cable : Memᴰ abl (windows (codes "cable"))
unfolding program
in_cable = L.Memᴰ.tail (L.Memᴰ.head refl)

get_words_by_t_grams-index_word_example :
    (new : Index pairs no_cache) × (index_word pairs no_cache disk (codes "table") empty ≡ ok new)
    × IsRegistered pairs no_cache new
    × ((words : List (List ℕ)) × (get_words_by_t_grams pairs no_cache disk
            (λ m. m)
            new
            (codes "cable")
          ≡ ok words)
        × Memᴰ (codes "table") words)
get_words_by_t_grams-index_word_example =
    get_words_by_t_grams-index_word pairs no_cache disk (λ m. m) 116 97 (codes "ble")
      (codes "cable") abl empty pairs-Reliable
      (record { opens = λ k. refl; writes = λ k. refl; reads = λ k. refl }) (λ m e at. at) table_low
      (record { uncached = refl; unknown = refl; small = omega arith }) (λ k d at. elim at [ ])
      in_table in_cable
