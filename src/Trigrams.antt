-- ===== src/Trigrams.antt =====
-- internal/repository/nGramRepo.go with alloc of indexRepos.go: the trigrams of the words, in files, and the
-- words that share a trigram with a given one. A word is the list of its bytes, which are ASCII. A file is the
-- list of its entries of four bytes, so that reading it sixteen at a time gives them in order; a missing file is
-- empty. The requests to a shard are answered one after the other, and the context is not done.
-- A `range` over a map may visit it in any order: `visit`, a parameter, gives the order.
pub mod Grams
pub mod Written
pub mod Found
mod Tests
use wfts.Common.{
  ltb, if◌then◌else◌, ◌==◌, set, Result, ok, err, panic, ℕ, ◌+◌, ◌%◌, Bool, true, false, not, ◌&&◌,
  ◌||◌, Option, none, some, List, [], ◌∷◌, ◌++◌,
}
use wfts.Common.Texts.{codes}
use wfts.Codec.{u32_mod, le32, read_le32, enc_ng_data, dec_ng_data, make_bi_gram_key, shard_of}
use wfts.Storage.{Fetched, found, not_found, failed, Pebble, decimal}

-- The interface Cacher of indexRepos.go, for the numbers of the words.
pub record Cacher : Type 1 where
  pub Cache : Type 0
  pub get : List ℕ → Cache → Option ℕ × Cache
  pub put : List ℕ → ℕ → Cache → Cache

-- Which calls of package os succeed, by bucket.
pub record Files : Type 0 where
  pub opens : ℕ → Bool
  pub writes : ℕ → Bool
  pub reads : ℕ → Bool

-- `shard_waits`: the shard ended at an error of the database, so that the call waits for the end of its context.
pub data IndexError : Type 0 where
  shard_waits : IndexError
  file_error : IndexError
  database_error : IndexError
  invalid_id : ℕ → IndexError

pub record Trigram : Type 0 where
  pub first : ℕ
  pub second : ℕ
  pub third : ℕ

-- `next_id` is the counter that NewIndexRepository hands to alloc; each shard has a cache of its own.
pub record Index (p : Pebble) (c : Cacher) : Type 0 where
  pub db : p.Db
  pub next_id : ℕ
  pub caches : ℕ → c.Cache
  pub chunks : ℕ → List ℕ

abbrev pub put_at {ℓ} : {A : Type ℓ} → (ℕ → A) → ℕ → A → ℕ → A
put_at m k a j = if k == j then a else m j

pub word_key : List ℕ → List ℕ
word_key word = codes "word:" ++ word

pub seq_key : ℕ → List ℕ
seq_key id = codes "num:" ++ decimal id

abbrev pub same_gram : Trigram → Trigram → Bool
same_gram g h = g.first == h.first && g.second == h.second && g.third == h.third

abbrev pub is_seen : Trigram → List Trigram → Bool
is_seen g [] = false
is_seen g (h ∷ hs) = same_gram g h || is_seen g hs

pub windows : List ℕ → List Trigram
windows [] = []
windows (a ∷ []) = []
windows (a ∷ b ∷ []) = []
windows (a ∷ b ∷ c ∷ s) = record { first = a; second = b; third = c } ∷ windows (b ∷ c ∷ s)

-- The loop over the windows; `seen` is `alIn`.
pub new_grams : List Trigram → List Trigram → List Trigram
new_grams seen [] = []
new_grams seen (g ∷ gs) = elim (is_seen g seen) [
  | true ↦ new_grams seen gs
  | false ↦ g ∷ new_grams (g ∷ seen) gs
]

pub extract_t_grams : List ℕ → List Trigram
extract_t_grams word = new_grams [] (windows word)

abbrev pub bucket : Trigram → ℕ
bucket g = make_bi_gram_key g.first g.second

-- `out[bikey] = append(out[bikey], ng[2])`
pub add_letter : ℕ → ℕ → List (ℕ × List ℕ) → List (ℕ × List ℕ)
add_letter k c [] = (k, c ∷ []) ∷ []
add_letter k c ((j, letters) ∷ m) =
    let rest = add_letter k c m in
    if j == k then (j, letters ++ c ∷ []) ∷ m else (j, letters) ∷ rest

pub group : List (ℕ × List ℕ) → List Trigram → List (ℕ × List ℕ)
group m [] = m
group m (g ∷ gs) = group (add_letter (bucket g) g.third m) gs

pub extract_t_grams_by_b_gram : List ℕ → List (ℕ × List ℕ)
extract_t_grams_by_b_gram word = group [] (extract_t_grams word)

abbrev pub is_in : ℕ → List ℕ → Bool
is_in n [] = false
is_in n (m ∷ ms) = m == n || is_in n ms

module _ (p : Pebble) (c : Cacher) where
  -- The word gets the number.
  pub give_id : ℕ → ℕ → List ℕ → Index p c → Result IndexError ((ℕ × Bool) × Index p c)
  give_id id shard word ix = elim (p.set ix.db (word_key word) (le32 id)) [
    | none ↦ err shard_waits
    | some db1 ↦ elim (p.set db1 (seq_key id) word) [
      | none ↦ err shard_waits
      | some db2 ↦ ok (
        (id, false),
        record ix {
          db = db2;
          next_id = id;
          caches = put_at ix.caches shard (c.put word id (ix.caches shard));
        },
      )
    ]
  ]

  -- A new number for the word.
  pub allocate : ℕ → List ℕ → Index p c → Result IndexError ((ℕ × Bool) × Index p c)
  allocate shard word ix = give_id ((ix.next_id + 1) % u32_mod) shard word ix

  -- The answer of a shard to a request: the number, and whether the word had it before. An error of the
  -- database counts as a new word.
  pub alloc : ℕ → List ℕ → Index p c → Result IndexError ((ℕ × Bool) × Index p c)
  alloc shard word ix =
      let (cached, cache) = c.get word (ix.caches shard) in
      let looked : Index p c = record ix { caches = put_at ix.caches shard cache } in
      elim cached [
        | some id ↦ ok ((id, true), looked)
        | none ↦ elim (p.get ix.db (word_key word)) [
          | found v ↦ elim (read_le32 v) [ none ↦ panic | some id ↦ ok ((id, true), looked) ]
          | not_found ↦ allocate shard word looked
          | failed ↦ allocate shard word looked
        ]
      ]

  -- The loop over the trigrams of a word.
  pub write_grams : Files → ℕ → Bool → List Trigram → Index p c → Result IndexError (Index p c)
  write_grams files id loaded [] ix = ok ix
  write_grams files id loaded (g ∷ gs) ix =
      let k = bucket g in
      let written : Index p c = record ix {
        chunks = put_at ix.chunks k (ix.chunks k ++ enc_ng_data id g.third ∷ []);
      } in
      let rest = write_grams files id loaded gs (if loaded then ix else written) in
      if ltb k 676
      then if files.opens k
        then if loaded || files.writes k then rest else err file_error
        else err file_error
      else panic

  abbrev pub write_word :
      Files → List ℕ → Result IndexError ((ℕ × Bool) × Index p c) → Result IndexError (Index p c)
  write_word files word (ok ((id, loaded), ix)) =
      write_grams files id loaded (extract_t_grams word) ix
  write_word files word (err e) = err e
  write_word files word panic = panic

  pub index_word : Files → List ℕ → Index p c → Result IndexError (Index p c)
  index_word files [] ix = ok ix
  index_word files (a ∷ []) ix = ok ix
  index_word files (a ∷ b ∷ s) ix = elim (shard_of a) [
    | none ↦ panic
    | some shard ↦ write_word files (a ∷ b ∷ s) (alloc shard (a ∷ b ∷ s) ix)
  ]

  pub index_tri_grams : Files → List (List ℕ) → Index p c → Result IndexError (Index p c)
  index_tri_grams files [] ix = ok ix
  index_tri_grams files (word ∷ words) ix = elim (index_word files word ix) [
    | ok new ↦ index_tri_grams files words new
    | err e ↦ err e
    | panic ↦ panic
  ]

  -- The entries of a file; `result` holds the numbers taken, which are those of `alreadyInc`.
  pub collect : List ℕ → List ℕ → List ℕ → List ℕ
  collect letters [] result = result
  collect letters (d ∷ ds) result =
      let (id, letter) = dec_ng_data d in
      let takes = is_in letter letters && not (is_in id result) in
      collect letters ds (if takes then result ++ id ∷ [] else result)

  pub collect_all : Files → Index p c → List (ℕ × List ℕ) → List ℕ → Result IndexError (List ℕ)
  collect_all files ix [] result = ok result
  collect_all files ix ((k, letters) ∷ m) result =
      let read = files.opens k in
      let rest =
        collect_all files ix m (if read then collect letters (ix.chunks k) result else result) in
      if read && not (files.reads k) then err file_error else rest

  abbrev pub prepend_word :
      List ℕ → Result IndexError (List (List ℕ)) → Result IndexError (List (List ℕ))
  prepend_word word (ok words) = ok (word ∷ words)
  prepend_word word (err e) = err e
  prepend_word word panic = panic

  pub get_words_from_seq : Index p c → List ℕ → Result IndexError (List (List ℕ))
  get_words_from_seq ix [] = ok []
  get_words_from_seq ix (id ∷ ids) = elim (p.get ix.db (seq_key id)) [
    | failed ↦ err database_error
    | not_found ↦ err (invalid_id id)
    | found v ↦ prepend_word v (get_words_from_seq ix ids)
  ]

  pub get_words_by_t_grams :
      Files
      → (List (ℕ × List ℕ) → List (ℕ × List ℕ))
      → Index p c
      → List ℕ
      → Result IndexError (List (List ℕ))
  get_words_by_t_grams files visit ix word =
      elim (collect_all files ix (visit (extract_t_grams_by_b_gram word)) []) [
        | ok ids ↦ get_words_from_seq ix ids
        | err e ↦ err e
        | panic ↦ panic
      ]
