-- ===== src/Trigrams/Written.antt =====
-- What IndexTriGrams leaves of a new word.
use wfts.Common.{
  lt→ltb, ◌==◌, Bool-cases, ok, ℕ, ◌+◌, ◌%◌, ◌^◌, ◌<◌, ◌≡◌, refl, sym, ap, ◌∙◌, subst, ◌⊎◌, inl,
  inr, true, false, none, some, List, [], ◌∷◌, ◌++◌, arith, All,
}
use mathlib.Core.List as L
use mathlib.Core.List.{Memᴰ}
use mathlib.Core.List.Memᴰ.{append_left, append_right, append_cases, eq_of_singleton}
use wfts.Common.Texts.{text_eq, text_eq→eq}
use wfts.Codec.{u32_mod, le32, enc_ng_data, dec_ng_data, shard_of}
use wfts.Codec.Entries.{dec_ng_data-enc_ng_data}
use wfts.Storage.{found, not_found, Pebble, Reliable}
use wfts.Trigrams.{
  Cacher, Files, Trigram, Index, put_at, word_key, seq_key, extract_t_grams, bucket, give_id,
  allocate, alloc, write_grams, index_word,
}
use wfts.Trigrams.Grams.{IsGram}

-- No call of package os fails.
pub record Works (files : Files) : Type 0 where
  pub opens : (k : ℕ) → files.opens k ≡ true
  pub writes : (k : ℕ) → files.writes k ≡ true
  pub reads : (k : ℕ) → files.reads k ≡ true

-- The files with an entry more at the end of one.
abbrev append_at : (ℕ → List ℕ) → ℕ → ℕ → ℕ → List ℕ
append_at m b e = put_at m b (m b ++ e ∷ [])

append_at-keeps : (m : ℕ → List ℕ) (b e k d : ℕ) → Memᴰ d (m k) → Memᴰ d (append_at m b e k)
append_at-keeps m b e k d at = elim (Bool-cases (b == k)) [
  | inl same ↦
      let here : k ≡ b = ground arith in
      rw same (append_left (e ∷ []) (subst (λ i. Memᴰ d (m i)) here at))
  | inr apart ↦ rw apart at
]

append_at-adds : (m : ℕ → List ℕ) (b e : ℕ) → Memᴰ e (append_at m b e b)
append_at-adds m b e =
    let same : (b == b) ≡ true = ground arith in rw same (append_right (m b) (L.Memᴰ.head refl))

append_at-only :
    (m : ℕ → List ℕ) (b e k d : ℕ) → Memᴰ d (append_at m b e k) → Memᴰ d (m k) ⊎ (d ≡ e)
append_at-only m b e k d at = elim (Bool-cases (b == k)) [
  | inl same ↦
      let here : b ≡ k = ground arith in
      let old : Memᴰ d (m b ++ e ∷ []) = rw same at at in
      elim (append_cases (m b) old) [
        | inl before ↦ inl (subst (λ i. Memᴰ d (m i)) here before)
        | inr last ↦ inr (eq_of_singleton last)
      ]
  | inr apart ↦ inl (rw apart at at)
]

module _ (p : Pebble) (c : Cacher) where
  -- The number belongs to a word.
  abbrev pub IsKnown : Index p c → ℕ → Type 0
  IsKnown ix id = (v : List ℕ) × (p.get ix.db (seq_key id) ≡ found v)

  -- Every entry of the files has the number of a word.
  abbrev pub IsRegistered : Index p c → Type 0
  IsRegistered ix = (k d : ℕ) → Memᴰ d (ix.chunks k) → IsKnown ix (dec_ng_data d).0

  -- The files after the trigrams of a word were written.
  pub record Written (id : ℕ) (gs : List Trigram) (ix new : Index p c) : Type 0 where
    pub same_db : new.db ≡ ix.db
    pub keeps : (k d : ℕ) → Memᴰ d (ix.chunks k) → Memᴰ d (new.chunks k)
    pub adds : (g : Trigram) → Memᴰ g gs → Memᴰ (enc_ng_data id g.third) (new.chunks (bucket g))
    pub only : (k d : ℕ) → Memᴰ d (new.chunks k) → Memᴰ d (ix.chunks k) ⊎ ((dec_ng_data d).0 ≡ id)

  write_grams-adds :
      (id : ℕ) (g : Trigram) (gs : List Trigram) (new : Index p c)
      → Memᴰ (enc_ng_data id g.third) (new.chunks (bucket g))
      → ((h : Trigram) → Memᴰ h gs → Memᴰ (enc_ng_data id h.third) (new.chunks (bucket h)))
      → (h : Trigram) → Memᴰ h (g ∷ gs)
      → Memᴰ (enc_ng_data id h.third) (new.chunks (bucket h))
  write_grams-adds id g gs new first later h (L.Memᴰ.head e) =
      subst (λ x. Memᴰ (enc_ng_data id x.third) (new.chunks (bucket x))) (sym e) first
  write_grams-adds id g gs new first later h (L.Memᴰ.tail at) = later h at

  write_grams-Written :
      (files : Files) (id : ℕ) (gs : List Trigram) (ix : Index p c)
      → Works files
      → id < 2 ^ 24
      → All IsGram gs
      → (new : Index p c) × (write_grams p c files id false gs ix ≡ ok new) × Written id gs ix new
  unfolding write_grams
  write_grams-Written files id [] ix works small all = (
    ix,
    refl,
    record {
      same_db = refl;
      keeps = λ k d at. at;
      adds = λ g at. elim at [ ];
      only = λ k d at. inl at;
    },
  )
  write_grams-Written files id (g ∷ gs) ix works small all =
      let b = bucket g in
      let e = enc_ng_data id g.third in
      let grown : Index p c = record ix { chunks = append_at ix.chunks b e } in
      let (new, run, rest) = write_grams-Written files id gs grown works small all.1 in
      let number : (dec_ng_data e).0 ≡ id =
        ap (λ x. x.0) (dec_ng_data-enc_ng_data id g.third all.0.1) ∙ omega (arith, small) in
      (
        new,
        rw (lt→ltb b 676 all.0.0, works.opens b, works.writes b) run,
        record {
          same_db = rest.same_db;
          keeps = λ k d at. rest.keeps k d (append_at-keeps ix.chunks b e k d at);
          adds =
              write_grams-adds id g gs new (rest.keeps b e (append_at-adds ix.chunks b e))
                rest.adds;
          only = λ k d at. elim (rest.only k d at) [
            | inr own ↦ inr own
            | inl before ↦ elim (append_at-only ix.chunks b e k d before) [
              | inl old ↦ inl old
              | inr same ↦ inr (ap (λ x. (dec_ng_data x).0) same ∙ number)
            ]
          ];
        },
      )

  set-found :
      (reliable : Reliable p) (db : p.Db) (k v j u : List ℕ)
      → p.get db j ≡ found u
      → (x : List ℕ) × (p.get (reliable.set_found db k v).0 j ≡ found x)
  set-found reliable db k v j u known =
      let (new, worked, hit, kept) = reliable.set_found db k v in
      elim (Bool-cases (text_eq k j)) [
        | inl same ↦ (v, subst (λ i. p.get new i ≡ found v) (text_eq→eq k j same) hit)
        | inr apart ↦ (u, kept j apart ∙ known)
      ]

  -- The number of a new word, with the keys of the database.
  allocate-new :
      (shard : ℕ) (word : List ℕ) (ix : Index p c)
      → Reliable p
      → ix.next_id + 1 < u32_mod
      → (new : Index p c) × (allocate p c shard word ix ≡ ok ((ix.next_id + 1, false), new))
        × (new.chunks ≡ ix.chunks)
        × (p.get new.db (seq_key (ix.next_id + 1)) ≡ found word)
        × ((id : ℕ) → IsKnown ix id → IsKnown new id)
  unfolding allocate give_id
  allocate-new shard word ix reliable small =
      let number : (ix.next_id + 1) % u32_mod ≡ ix.next_id + 1 = omega arith in
      let id = ix.next_id + 1 in
      let (db1, set1, hit1, kept1) = reliable.set_found ix.db (word_key word) (le32 id) in
      let (db2, set2, hit2, kept2) = reliable.set_found db1 (seq_key id) word in
      let new : Index p c = record ix {
        db = db2;
        next_id = id;
        caches = put_at ix.caches shard (c.put word id (ix.caches shard));
      } in
      let known : (i : ℕ) → IsKnown ix i → IsKnown new i = λ i k.
        let (u, one) = set-found reliable ix.db (word_key word) (le32 id) (seq_key i) k.0 k.1 in
        set-found reliable db1 (seq_key id) word (seq_key i) u one in
      let run : give_id p c id shard word ix ≡ ok ((id, false), new) =
        rw (give_id, set1) (rw set2 refl) in
      (new, ap (λ n. give_id p c n shard word ix) number ∙ run, refl, hit2, known)

  -- The word is new: neither the cache of its shard nor the database has it, and its number fits in three
  -- bytes.
  pub record IsNew (shard : ℕ) (word : List ℕ) (ix : Index p c) : Type 0 where
    pub uncached : (c.get word (ix.caches shard)).0 ≡ none
    pub unknown : p.get ix.db (word_key word) ≡ not_found
    pub small : ix.next_id + 1 < 2 ^ 24

  -- The index after a new word: its number leads to it, its trigrams stand in the files, and the entries
  -- are those of words as before.
  pub index_word-new :
      (files : Files) (a b : ℕ) (s : List ℕ) (shard : ℕ) (ix : Index p c)
      → Reliable p
      → Works files
      → shard_of a ≡ some shard
      → All IsGram (extract_t_grams (a ∷ b ∷ s))
      → IsNew shard (a ∷ b ∷ s) ix
      → IsRegistered ix
      → (new : Index p c) × (index_word p c files (a ∷ b ∷ s) ix ≡ ok new)
        × IsRegistered new
        × (p.get new.db (seq_key (ix.next_id + 1)) ≡ found (a ∷ b ∷ s))
        × ((g : Trigram)
            → Memᴰ g (extract_t_grams (a ∷ b ∷ s))
            → Memᴰ (enc_ng_data (ix.next_id + 1) g.third) (new.chunks (bucket g)))
  unfolding index_word alloc
  index_word-new files a b s shard ix reliable works here all fresh registered =
      let word = a ∷ b ∷ s in
      let id = ix.next_id + 1 in
      let looked : Index p c = record ix {
        caches = put_at ix.caches shard (c.get word (ix.caches shard)).1;
      } in
      let (ix1, run1, chunks1, hit, known) =
        allocate-new shard word looked reliable (omega (arith, fresh.small)) in
      let answer : alloc p c shard word ix ≡ ok ((id, false), ix1) =
        rw (alloc, fresh.uncached) (rw fresh.unknown run1) in
      let (new, run2, w) =
        write_grams-Written files id (extract_t_grams word) ix1 works fresh.small all in
      let found_in : (i : ℕ) → IsKnown ix1 i → IsKnown new i =
        λ i k. (k.0, subst (λ db. p.get db (seq_key i) ≡ found k.0) (sym w.same_db) k.1) in
      let own : IsKnown new id = found_in id (word, hit) in
      let still : IsRegistered new = λ k d at. elim (w.only k d at) [
        | inr mine ↦ subst (λ i. IsKnown new i) (sym mine) own
        | inl old ↦
            let before = subst (λ m. Memᴰ d (m k)) chunks1 old in
            found_in (dec_ng_data d).0 (known (dec_ng_data d).0 (registered k d before))
      ] in
      (new, rw (index_word, here) (rw answer run2), still, own.1, w.adds)
