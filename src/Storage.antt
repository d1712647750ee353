-- ===== src/Storage.antt =====
-- The database of internal/repository, package pebble, as a parameter, and the formats of numbers in its keys.
pub mod Pairs
use wfts.Common.{
  ltb, if◌then◌else◌, ℕ, zero, suc, ◌+◌, ◌/◌, ◌%◌, ◌≡◌, false, Option, some, List, [], ◌∷◌,
}
use wfts.Common.Texts.{text_eq}

-- What Get gives: a value, ErrNotFound, or another error.
pub data Fetched : Type 0 where
  found : List ℕ → Fetched
  not_found : Fetched
  failed : Fetched

-- `set` is `none` when Set gives an error.
pub record Pebble : Type 1 where
  pub Db : Type 0
  pub get : Db → List ℕ → Fetched
  pub set : Db → List ℕ → List ℕ → Option Db

-- A database without errors: a value that was set is found, and the other keys keep theirs.
pub record Reliable (p : Pebble) : Type 0 where
  pub set_found :
      (db : p.Db) (k v : List ℕ)
      → (new : p.Db) × (p.set db k v ≡ some new)
        × (p.get new k ≡ found v)
        × ((j : List ℕ) → text_eq k j ≡ false → p.get new j ≡ p.get db j)

-- The digits of `%d`, before those of `acc`; the fuel is more than the number.
unfoldable pub decimal_from : ℕ → ℕ → List ℕ → List ℕ
decimal_from zero n acc = acc
decimal_from (suc fuel) n acc =
    let more = decimal_from fuel (n / 10) ((48 + n % 10) ∷ acc) in
    if ltb n 10 then (48 + n) ∷ acc else more

unfoldable pub decimal : ℕ → List ℕ
decimal n = decimal_from (suc n) n []
