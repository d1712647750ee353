-- ===== src/Storage/Pairs.antt =====
-- A database without errors: a list of pairs, the latest first.
use wfts.Common.{if◌then◌else◌, ℕ, refl, some, List, [], ◌∷◌}
use wfts.Common.Texts.{text_eq, text_eq_refl}
use wfts.Storage.{Fetched, found, not_found, Pebble, Reliable}

abbrev pub lookup : List (List ℕ × List ℕ) → List ℕ → Fetched
lookup [] k = not_found
lookup ((j, v) ∷ db) k = if text_eq j k then found v else lookup db k

abbrev pub pairs : Pebble
pairs = record { Db = List (List ℕ × List ℕ); get = lookup; set = λ db k v. some ((k, v) ∷ db) }

pub pairs-Reliable : Reliable pairs
pairs-Reliable = record {
  set_found = λ db k v. ((k, v) ∷ db, refl, rw (text_eq_refl k) refl, λ j apart. rw apart refl);
}
