-- ===== src/Trigrams/Found.antt =====
-- What GetWordsByTGrams finds.
use wfts.Common.{
  if◌then◌else◌, ◌==◌, Bool-cases, ok, ℕ, ◌+◌, ◌-◌, ◌≡◌, refl, sym, ap, ◌∙◌, subst, inl, inr, true,
  not, ◌&&◌, List, [], ◌∷◌, ◌++◌, arith, All, if_both,
}
use mathlib.Core.List as L
use mathlib.Core.List.{Memᴰ}
use mathlib.Core.List.Memᴰ.{append_left, append_right, append_cases, eq_of_singleton}
use wfts.Codec.{dec_ng_data, enc_ng_data}
use wfts.Codec.Entries.{dec_ng_data-enc_ng_data}
use wfts.Codec.Shards.{IsLower, make_bi_gram_key_bounds}
use wfts.Storage.{found, Pebble, Reliable}
use wfts.Trigrams.{
  Cacher, Files, Trigram, Index, seq_key, windows, extract_t_grams, extract_t_grams_by_b_gram,
  bucket, is_in, index_word, collect, collect_all, get_words_from_seq, get_words_by_t_grams,
}
use wfts.Trigrams.Grams.{
  IsGram, HasLetter, extract_t_grams-mem, extract_t_grams-IsGram,
  extract_t_grams_by_b_gram-HasLetter,
}
use wfts.Trigrams.Written.{Works, IsKnown, IsRegistered, IsNew, index_word-new}

is_in→mem : (n : ℕ) (ms : List ℕ) → is_in n ms ≡ true → Memᴰ n ms
is_in→mem n [] h = cc
is_in→mem n (m ∷ ms) h = elim (Bool-cases (m == n)) [
  | inl same ↦ L.Memᴰ.head (ground arith)
  | inr apart ↦ L.Memᴰ.tail (is_in→mem n ms (ground (arith, h, apart)))
]

mem→is_in : (n : ℕ) (ms : List ℕ) → Memᴰ n ms → is_in n ms ≡ true
mem→is_in n [] at = elim at [ ]
mem→is_in n (m ∷ ms) (L.Memᴰ.head e) = ground (arith, e)
mem→is_in n (m ∷ ms) (L.Memᴰ.tail at) = ground (arith, mem→is_in n ms at)

All-mem : {A : Type 0} (P : A → Type 0) (x : A) (xs : List A) → All P xs → Memᴰ x xs → P x
All-mem P x [] all at = elim at [ ]
All-mem P x (y ∷ ys) all (L.Memᴰ.head e) = subst P (sym e) all.0
All-mem P x (y ∷ ys) all (L.Memᴰ.tail at) = All-mem P x ys all.1 at

module _ (p : Pebble) (c : Cacher) where
  collect-keeps :
      (letters ds result : List ℕ) (id : ℕ)
      → Memᴰ id result
      → Memᴰ id (collect p c letters ds result)
  unfolding collect
  collect-keeps letters [] result id at = at
  collect-keeps letters (d ∷ ds) result id at =
      let i = (dec_ng_data d).0 in
      let takes = is_in (dec_ng_data d).1 letters && not (is_in i result) in
      collect-keeps letters ds (if takes then result ++ i ∷ [] else result) id
        (if_both (λ r. Memᴰ id r) takes (append_left (i ∷ []) at) at)

  collect-has :
      (letters ds result : List ℕ) (d : ℕ)
      → Memᴰ d ds
      → Memᴰ (dec_ng_data d).1 letters
      → Memᴰ (dec_ng_data d).0 (collect p c letters ds result)
  unfolding collect
  collect-has letters [] result d at has = elim at [ ]
  collect-has letters (e ∷ ds) result d (L.Memᴰ.head same) has =
      let i = (dec_ng_data e).0 in
      let letter = (dec_ng_data e).1 in
      let takes = is_in letter letters && not (is_in i result) in
      let in_letters : is_in letter letters ≡ true =
        mem→is_in letter letters (subst (λ x. Memᴰ (dec_ng_data x).1 letters) same has) in
      let stands : Memᴰ i (if takes then result ++ i ∷ [] else result) =
        elim (Bool-cases (is_in i result)) [
          | inl old ↦
              let at = is_in→mem i result old in
              if_both (λ r. Memᴰ i r) takes (append_left (i ∷ []) at) at
          | inr new ↦ rw (in_letters, new) (append_right result (L.Memᴰ.head refl))
        ] in
      let kept = collect-keeps letters ds (if takes then result ++ i ∷ [] else result) i stands in
      subst (λ x. Memᴰ (dec_ng_data x).0 (collect p c letters (e ∷ ds) result)) (sym same) kept
  collect-has letters (e ∷ ds) result d (L.Memᴰ.tail at) has =
      let i = (dec_ng_data e).0 in
      let takes = is_in (dec_ng_data e).1 letters && not (is_in i result) in
      collect-has letters ds (if takes then result ++ i ∷ [] else result) d at has

  -- Every number of the list leads to a word.
  abbrev AllKnown : Index p c → List ℕ → Type 0
  AllKnown ix ids = (id : ℕ) → Memᴰ id ids → IsKnown p c ix id

  collect-AllKnown :
      (ix : Index p c) (letters ds result : List ℕ)
      → AllKnown ix result
      → ((d : ℕ) → Memᴰ d ds → IsKnown p c ix (dec_ng_data d).0)
      → AllKnown ix (collect p c letters ds result)
  unfolding collect
  collect-AllKnown ix letters [] result known entries = known
  collect-AllKnown ix letters (d ∷ ds) result known entries =
      let i = (dec_ng_data d).0 in
      let takes = is_in (dec_ng_data d).1 letters && not (is_in i result) in
      let grown : AllKnown ix (result ++ i ∷ []) = λ id at. elim (append_cases result at) [
        | inl old ↦ known id old
        | inr new ↦
            subst (λ x. IsKnown p c ix x) (sym (eq_of_singleton new)) (entries d (L.Memᴰ.head refl))
      ] in
      collect-AllKnown ix letters ds (if takes then result ++ i ∷ [] else result)
        (if_both (AllKnown ix) takes grown known) (λ e at. entries e (L.Memᴰ.tail at))

  -- What is taken from the files: only numbers of words, all that were taken before, and the number of each
  -- entry whose letter is looked for in its file.
  record Taken (ix : Index p c) (m : List (ℕ × List ℕ)) (result ids : List ℕ) : Type 0 where
    known : AllKnown ix ids
    keeps : (id : ℕ) → Memᴰ id result → Memᴰ id ids
    takes :
        (k d : ℕ)
        → HasLetter k (dec_ng_data d).1 m
        → Memᴰ d (ix.chunks k)
        → Memᴰ (dec_ng_data d).0 ids

  takes_cons :
      (ix : Index p c) (k : ℕ) (letters : List ℕ) (m : List (ℕ × List ℕ)) (ids : List ℕ)
      → ((d : ℕ)
          → Memᴰ (dec_ng_data d).1 letters
          → Memᴰ d (ix.chunks k)
          → Memᴰ (dec_ng_data d).0 ids)
      → ((j d : ℕ)
          → HasLetter j (dec_ng_data d).1 m
          → Memᴰ d (ix.chunks j)
          → Memᴰ (dec_ng_data d).0 ids)
      → (j d : ℕ) → HasLetter j (dec_ng_data d).1 ((k, letters) ∷ m)
      → Memᴰ d (ix.chunks j)
      → Memᴰ (dec_ng_data d).0 ids
  takes_cons ix k letters m ids first later j d (ls, L.Memᴰ.head e, has) at =
      first d (subst (λ x. Memᴰ (dec_ng_data d).1 x.1) e has)
        (subst (λ x. Memᴰ d (ix.chunks x.0)) e at)
  takes_cons ix k letters m ids first later j d (ls, L.Memᴰ.tail there, has) at =
      later j d (ls, there, has) at

  collect_all-Taken :
      (files : Files) (ix : Index p c) (m : List (ℕ × List ℕ)) (result : List ℕ)
      → Works files
      → IsRegistered p c ix
      → AllKnown ix result
      → (ids : List ℕ) × (collect_all p c files ix m result ≡ ok ids) × Taken ix m result ids
  unfolding collect_all
  collect_all-Taken files ix [] result works registered known = (
    result,
    refl,
    record { known = known; keeps = λ id at. at; takes = λ k d has. elim has.1 [ ] },
  )
  collect_all-Taken files ix ((k, letters) ∷ m) result works registered known =
      let more = collect p c letters (ix.chunks k) result in
      let all = collect-AllKnown ix letters (ix.chunks k) result known (registered k) in
      let (ids, run, rest) = collect_all-Taken files ix m more works registered all in
      (
        ids,
        rw (works.opens k, works.reads k) run,
        record {
          known = rest.known;
          keeps = λ id at. rest.keeps id (collect-keeps letters (ix.chunks k) result id at);
          takes =
              takes_cons ix k letters m ids
                (λ d has at.
                  rest.keeps (dec_ng_data d).0 (collect-has letters (ix.chunks k) result d at has))
                rest.takes;
        },
      )

  words_cons :
      (ix : Index p c) (i : ℕ) (u : List ℕ) (ids : List ℕ) (words : List (List ℕ))
      → p.get ix.db (seq_key i) ≡ found u
      → ((id : ℕ) (v : List ℕ) → p.get ix.db (seq_key id) ≡ found v → Memᴰ id ids → Memᴰ v words)
      → (id : ℕ) (v : List ℕ) → p.get ix.db (seq_key id) ≡ found v
      → Memᴰ id (i ∷ ids)
      → Memᴰ v (u ∷ words)
  words_cons ix i u ids words first later id v hit (L.Memᴰ.head e) =
      let same : p.get ix.db (seq_key i) ≡ found v =
        subst (λ n. p.get ix.db (seq_key n) ≡ found v) e hit in
      L.Memᴰ.head cc
  words_cons ix i u ids words first later id v hit (L.Memᴰ.tail at) =
      L.Memᴰ.tail (later id v hit at)

  get_words_from_seq-mem :
      (ix : Index p c) (ids : List ℕ)
      → AllKnown ix ids
      → (words : List (List ℕ)) × (get_words_from_seq p c ix ids ≡ ok words)
        × ((id : ℕ) (v : List ℕ) → p.get ix.db (seq_key id) ≡ found v → Memᴰ id ids → Memᴰ v words)
  unfolding get_words_from_seq
  get_words_from_seq-mem ix [] known = ([], refl, λ id v hit at. elim at [ ])
  get_words_from_seq-mem ix (i ∷ ids) known =
      let (v, hit) = known i (L.Memᴰ.head refl) in
      let (words, run, mem) = get_words_from_seq-mem ix ids (λ id at. known id (L.Memᴰ.tail at)) in
      (v ∷ words, rw (get_words_from_seq, hit) (rw run refl), words_cons ix i v ids words hit mem)

  -- Once a new word is indexed, whose letters are lower case and whose number is below 2 ^ 24, as the entries of the
  -- files keep no more of it, it is found by every word that has a trigram in
  -- common with it: GetWordsByTGrams gives words, and the new one is among them. The database and the files
  -- work, the entries of the files are those of words, and the visit of the map leaves out no entry.
  pub get_words_by_t_grams-index_word :
      (files : Files) (visit : List (ℕ × List ℕ) → List (ℕ × List ℕ)) (a b : ℕ) (s query : List ℕ)
      (g : Trigram) (ix : Index p c)
      → Reliable p
      → Works files
      → ((m : List (ℕ × List ℕ)) (e : ℕ × List ℕ) → Memᴰ e m → Memᴰ e (visit m))
      → All IsLower (a ∷ b ∷ s)
      → IsNew p c (a - 97) (a ∷ b ∷ s) ix
      → IsRegistered p c ix
      → Memᴰ g (windows (a ∷ b ∷ s))
      → Memᴰ g (windows query)
      → (new : Index p c) × (index_word p c files (a ∷ b ∷ s) ix ≡ ok new)
        × IsRegistered p c new
        × ((words : List (List ℕ)) × (get_words_by_t_grams p c files visit new query ≡ ok words)
            × Memᴰ (a ∷ b ∷ s) words)
  unfolding get_words_by_t_grams
  get_words_by_t_grams-index_word files visit a b s query g ix reliable works visits low fresh
        registered own asked =
      let word = a ∷ b ∷ s in
      let id = ix.next_id + 1 in
      let grams = extract_t_grams-IsGram word low in
      let shard = (make_bi_gram_key_bounds a a a a low.0 low.0 low.0 low.0).2 in
      let (new, indexed, kept, hit, adds) =
        index_word-new p c files a b s (a - 97) ix reliable works shard grams fresh registered in
      let at = adds g (extract_t_grams-mem g word own) in
      let third =
        (All-mem IsGram g (extract_t_grams word) grams (extract_t_grams-mem g word own)).1 in
      let d = enc_ng_data id g.third in
      let decoded = dec_ng_data-enc_ng_data id g.third third in
      let number : (dec_ng_data d).0 ≡ id = ap (λ x. x.0) decoded ∙ omega (arith, fresh.small) in
      let letter : (dec_ng_data d).1 ≡ g.third = ap (λ x. x.1) decoded in
      let m = extract_t_grams_by_b_gram query in
      let (letters, there, has) = extract_t_grams_by_b_gram-HasLetter g query asked in
      let (ids, took, taken) =
        collect_all-Taken files new (visit m) [] works kept (λ i none_yet. elim none_yet [ ]) in
      let takes =
        taken.takes (bucket g) d
          (
            letters,
            visits m (bucket g, letters) there,
            subst (λ x. Memᴰ x letters) (sym letter) has,
          )
          at in
      let (words, answered, mem) = get_words_from_seq-mem new ids taken.known in
      (
        new,
        indexed,
        kept,
        (
          words,
          rw (get_words_by_t_grams, took) answered,
          mem id word hit (subst (λ i. Memᴰ i ids) number takes),
        ),
      )
