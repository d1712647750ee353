-- ===== src/Indexer/Words.antt =====
-- The words of a page: their counts, and their places in the order in which the searcher needs them.
use wfts.Common.{
  ltb, if◌then◌else◌, ltb→lt, ◌==◌, Bool-cases, length, get_or, length-append, get_or-append_right,
  ℕ, ◌+◌, ◌<◌, ◌≡◌, refl, sym, subst, ◌⊎◌, inl, inr, false, List, [], ◌∷◌, ◌++◌, map, arith,
  get_or-append_left, if_both,
}
use mathlib.Core.List.{map-append}
use wfts.Common.Texts.{text_eq, text_eq→eq, text_eq_refl}
use wfts.Codec.{Position}
use wfts.Stemmer.{SuffixRule}
use wfts.Stemmer.Tokens.{tokenize_and_stem}
use wfts.Tokenizer.{TokenType, Token}
use wfts.Html.{Passage}
use wfts.Ranking.Search.{IsAscending}
use wfts.Indexer.{Table, lookup, update, Gathered, nothing_gathered, add_stem, add_stems, gather}

module _ {ℓ} {A : Type ℓ} (z : A) (f : A → A) where
  lookup-update_same : (k : List ℕ) (m : Table A) → lookup z k (update z f k m) ≡ f (lookup z k m)
  unfolding lookup update
  lookup-update_same k [] = rw (text_eq_refl k) refl
  lookup-update_same k ((j, v) ∷ m) = elim (Bool-cases (text_eq j k)) [
    | inl same ↦ rw same (rw same refl)
    | inr apart ↦ rw apart (rw apart (lookup-update_same k m))
  ]

  lookup-update_other :
      (k i : List ℕ) (m : Table A)
      → text_eq k i ≡ false
      → lookup z i (update z f k m) ≡ lookup z i m
  unfolding lookup update
  lookup-update_other k i [] other = rw other refl
  lookup-update_other k i ((j, v) ∷ m) other = elim (Bool-cases (text_eq j k)) [
    | inl same ↦
        let e : j ≡ k = text_eq→eq j k same in
        let apart : text_eq j i ≡ false = rw e other in rw same (rw apart refl)
    | inr apart ↦ rw apart (elim (Bool-cases (text_eq j i)) [
      | inl hit ↦ rw hit refl
      | inr miss ↦ rw miss (lookup-update_other k i m other)
    ])
  ]

-- The places at which a word was read.
unfoldable pub places : List ℕ → Gathered → List ℕ
places w g = map (λ p. p.place) (lookup [] w g.pos)

-- All places are less than the bound.
abbrev pub IsBelow : ℕ → List ℕ → Type 0
IsBelow n arr = (i : ℕ) → i < length arr → get_or arr i 0 < n

append_entry :
    (arr : List ℕ) (n i : ℕ)
    → i < length (arr ++ n ∷ [])
    → ((i < length arr) × (get_or (arr ++ n ∷ []) i 0 ≡ get_or arr i 0))
      ⊎ ((i ≡ length arr) × (get_or (arr ++ n ∷ []) i 0 ≡ n))
append_entry arr n i h = elim (Bool-cases (ltb i (length arr))) [
  | inl inside ↦
      let lt = ltb→lt i (length arr) inside in inl (lt, get_or-append_left arr (n ∷ []) i 0 lt)
  | inr last ↦
      let len = length-append arr (n ∷ []) in
      let e : i ≡ length arr + 0 = ground (arith, last, h, len) in
      inr (omega (arith, e), rw e (get_or-append_right arr (n ∷ []) 0 0))
]

IsBelow-append : (arr : List ℕ) (n : ℕ) → IsBelow n arr → IsBelow (n + 1) (arr ++ n ∷ [])
IsBelow-append arr n below i h = elim (append_entry arr n i h) [
  | inl (lt, e) ↦ omega (arith, e, below i lt)
  | inr (last, e) ↦ omega (arith, e)
]

IsAscending-append :
    (arr : List ℕ) (n : ℕ) → IsAscending arr → IsBelow n arr → IsAscending (arr ++ n ∷ [])
IsAscending-append arr n up below i j le h = elim (append_entry arr n j h) [
  | inl (jl, ej) ↦
      let il : i < length arr = omega arith in
      let ei = get_or-append_left arr (n ∷ []) i 0 il in omega (arith, ei, ej, up i j le jl)
  | inr (jl, ej) ↦ elim (append_entry arr n i (omega (arith, length-append arr (n ∷ []), le, jl))) [
    | inl (il, ei) ↦ omega (arith, ei, ej, below i il)
    | inr (il, ei) ↦ omega (arith, ei, ej)
  ]
]

-- What holds of each word while the words are read.
pub record IsRead (g : Gathered) : Type 0 where
  pub counted : (w : List ℕ) → lookup 0 w g.stem ≡ length (places w g)
  pub ascending : (w : List ℕ) → IsAscending (places w g)
  pub below : (w : List ℕ) → IsBelow g.place (places w g)

-- The word at hand gets a place more, the others keep theirs.
added_cases :
    (p : Position) (w v : List ℕ) (g new : Gathered)
    → new.stem ≡ update 0 (λ n. n + 1) w g.stem
    → new.pos ≡ update [] (λ ps. ps ++ p ∷ []) w g.pos
    → ((lookup 0 v new.stem ≡ lookup 0 v g.stem) × (places v new ≡ places v g))
      ⊎ ((lookup 0 v new.stem ≡ lookup 0 v g.stem + 1)
          × (places v new ≡ places v g ++ p.place ∷ []))
unfolding places
added_cases p w v g new stems poss = elim (Bool-cases (text_eq w v)) [
  | inr other ↦ inl (
    rw (stems, lookup-update_other 0 (λ n. n + 1) w v g.stem other) refl,
    rw (poss, lookup-update_other [] (λ ps. ps ++ p ∷ []) w v g.pos other) refl,
  )
  | inl same ↦
      let e : w ≡ v = text_eq→eq w v same in
      let counts = lookup-update_same 0 (λ n. n + 1) v g.stem in
      let adds = lookup-update_same [] (λ ps. ps ++ p ∷ []) v g.pos in
      inr (
        rw (stems, e) counts,
        rw (poss, e, adds) (map-append (λ q. q.place) (lookup [] v g.pos) (p ∷ [])),
      )
]

add_stem-IsRead : (kind : ℕ) (w : List ℕ) (g : Gathered) → IsRead g → IsRead (add_stem kind w g)
unfolding add_stem
add_stem-IsRead kind w g read =
    let p : Position = record { place = g.place; kind = kind } in
    let added : Gathered = record g {
      place = g.place + 1;
      stem = update 0 (λ n. n + 1) w g.stem;
      pos = update [] (λ ps. ps ++ p ∷ []) w g.pos;
    } in
    let cases = λ (v : List ℕ). added_cases p w v g added refl refl in
    let after : IsRead added = record {
      counted = λ v. elim (cases v) [
        | inl (n, ps) ↦ rw (n, ps) (read.counted v)
        | inr (n, ps) ↦
            let len = length-append (places v g) (g.place ∷ []) in
            rw (n, ps) (omega (arith, len, read.counted v))
      ];
      ascending = λ v. elim (cases v) [
        | inl (n, ps) ↦ subst IsAscending (sym ps) (read.ascending v)
        | inr (n, ps) ↦
            subst IsAscending (sym ps)
              (IsAscending-append (places v g) g.place (read.ascending v) (read.below v))
      ];
      below = λ v. elim (cases v) [
        | inl (n, ps) ↦
            subst (IsBelow (g.place + 1)) (sym ps) (λ i h. omega (arith, read.below v i h))
        | inr (n, ps) ↦
            subst (IsBelow (g.place + 1)) (sym ps)
              (IsBelow-append (places v g) g.place (read.below v))
      ];
    } in
    if_both IsRead (ltb 64 (length w)) read after

add_stems-IsRead :
    (kind : ℕ) (ts : List Token) (g : Gathered) → IsRead g → IsRead (add_stems kind ts g)
unfolding add_stems
add_stems-IsRead kind [] g read = read
add_stems-IsRead kind (t ∷ ts) g read =
    add_stems-IsRead kind ts (add_stem kind t.value g) (add_stem-IsRead kind t.value g read)

gather-IsRead_from :
    (order : List SuffixRule → List SuffixRule) (matches : TokenType → List ℕ → List (ℕ × ℕ))
    (passages : List Passage) (g : Gathered)
    → IsRead g
    → IsRead (gather order matches passages g)
unfolding gather places
gather-IsRead_from order matches [] g read = read
gather-IsRead_from order matches (p ∷ ps) g read =
    let (orig, stemmed) = tokenize_and_stem order matches p.content in
    let wider : Gathered = record g { all_word_tokens = g.all_word_tokens ++ orig } in
    let same : IsRead wider = record {
      counted = read.counted;
      ascending = read.ascending;
      below = read.below;
    } in
    let next =
      if_both IsRead (length stemmed == 0) read (add_stems-IsRead p.kind stemmed wider same) in
    gather-IsRead_from order matches ps
      (if length stemmed == 0 then g else add_stems p.kind stemmed wider) next

-- Whatever the passages of the page are, the count of each word is the number of its places, and its places,
-- as they are before they are stored, ascend and are less than the number of the tokens.
pub gather-IsRead :
    (order : List SuffixRule → List SuffixRule) (matches : TokenType → List ℕ → List (ℕ × ℕ))
    (passages : List Passage)
    → IsRead (gather order matches passages nothing_gathered)
unfolding places lookup
gather-IsRead order matches passages =
    gather-IsRead_from order matches passages nothing_gathered (record {
      counted = λ w. refl;
      ascending = λ w i j le h. absurd (omega arith);
      below = λ w i h. absurd (omega arith);
    })
