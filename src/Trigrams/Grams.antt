-- ===== src/Trigrams/Grams.antt =====
-- The trigrams of a word, and their letters by bucket.
use wfts.Common.{
  ◌==◌, Bool-cases, ℕ, ◌<◌, ◌≡◌, refl, sym, ap, subst, ◌⊎◌, inl, inr, true, false, List, [], ◌∷◌,
  ◌++◌, arith, All,
}
use mathlib.Core.List as L
use mathlib.Core.List.{Memᴰ}
use mathlib.Core.List.Memᴰ.{append_left, append_right}
use wfts.Codec.Shards.{IsLower, make_bi_gram_key_bounds}
use wfts.Trigrams.{
  Trigram, same_gram, is_seen, windows, new_grams, extract_t_grams, bucket, add_letter, group,
  extract_t_grams_by_b_gram,
}

same_gram→eq : (g h : Trigram) → same_gram g h ≡ true → g ≡ h
same_gram→eq g h e =
    let first : g.first ≡ h.first = ground arith in
    let second : g.second ≡ h.second = ground arith in
    let third : g.third ≡ h.third = ground arith in cc

new_grams-old :
    (g : Trigram) (seen gs : List Trigram)
    → is_seen g seen ≡ true
    → new_grams seen (g ∷ gs) ≡ new_grams seen gs
unfolding new_grams
new_grams-old g seen gs e = rw (new_grams, e) refl

new_grams-new :
    (g : Trigram) (seen gs : List Trigram)
    → is_seen g seen ≡ false
    → new_grams seen (g ∷ gs) ≡ g ∷ new_grams (g ∷ seen) gs
unfolding new_grams
new_grams-new g seen gs e = rw (new_grams, e) refl

new_grams-mem :
    (g : Trigram) (seen gs : List Trigram)
    → Memᴰ g gs
    → (is_seen g seen ≡ true) ⊎ Memᴰ g (new_grams seen gs)
new_grams-mem g seen [] m = elim m [ ]
new_grams-mem g seen (h ∷ gs) (L.Memᴰ.head e) = elim (Bool-cases (is_seen h seen)) [
  | inl old ↦ inl (subst (λ x. is_seen x seen ≡ true) (sym e) old)
  | inr new ↦ inr (rw (new_grams-new h seen gs new) (L.Memᴰ.head e))
]
new_grams-mem g seen (h ∷ gs) (L.Memᴰ.tail m) = elim (Bool-cases (is_seen h seen)) [
  | inl old ↦ rw (new_grams-old h seen gs old) (new_grams-mem g seen gs m)
  | inr new ↦ elim (new_grams-mem g (h ∷ seen) gs m) [
    | inr later ↦ inr (rw (new_grams-new h seen gs new) (L.Memᴰ.tail later))
    | inl seen_now ↦ elim (Bool-cases (same_gram g h)) [
      | inl same ↦ inr (rw (new_grams-new h seen gs new) (L.Memᴰ.head (same_gram→eq g h same)))
      | inr apart ↦ inl (ground (arith, apart, seen_now))
    ]
  ]
]

-- Every trigram of the word is extracted.
pub extract_t_grams-mem :
    (g : Trigram) (word : List ℕ) → Memᴰ g (windows word) → Memᴰ g (extract_t_grams word)
unfolding extract_t_grams
extract_t_grams-mem g word m = elim (new_grams-mem g [] (windows word) m) [
  | inl seen ↦ cc
  | inr new ↦ new
]

-- A trigram whose bucket and whose last letter are in range.
abbrev pub IsGram : Trigram → Type 0
IsGram g = (bucket g < 676) × (g.third < 256)

windows-IsGram : (word : List ℕ) → All IsLower word → All IsGram (windows word)
unfolding windows
windows-IsGram [] low = tt
windows-IsGram (a ∷ []) low = tt
windows-IsGram (a ∷ b ∷ []) low = tt
windows-IsGram (a ∷ b ∷ c ∷ s) low =
    let bounds = make_bi_gram_key_bounds a b a b low.0 low.1.0 low.0 low.1.0 in
    ((bounds.0, omega (arith, low.1.1.0)), windows-IsGram (b ∷ c ∷ s) low.1)

new_grams-IsGram : (seen gs : List Trigram) → All IsGram gs → All IsGram (new_grams seen gs)
unfolding new_grams
new_grams-IsGram seen [] all = tt
new_grams-IsGram seen (g ∷ gs) all = elim (Bool-cases (is_seen g seen)) [
  | inl old ↦ rw (new_grams-old g seen gs old) (new_grams-IsGram seen gs all.1)
  | inr new ↦ rw (new_grams-new g seen gs new) (all.0, new_grams-IsGram (g ∷ seen) gs all.1)
]

pub extract_t_grams-IsGram : (word : List ℕ) → All IsLower word → All IsGram (extract_t_grams word)
unfolding extract_t_grams
extract_t_grams-IsGram word low = new_grams-IsGram [] (windows word) (windows-IsGram word low)

-- The letter stands in the bucket.
abbrev pub HasLetter : ℕ → ℕ → List (ℕ × List ℕ) → Type 0
HasLetter k c m = (letters : List ℕ) × Memᴰ (k, letters) m × Memᴰ c letters

add_letter-HasLetter : (k c : ℕ) (m : List (ℕ × List ℕ)) → HasLetter k c (add_letter k c m)
unfolding add_letter
add_letter-HasLetter k c [] = (c ∷ [], L.Memᴰ.head refl, L.Memᴰ.head refl)
add_letter-HasLetter k c ((j, letters) ∷ m) = elim (Bool-cases (j == k)) [
  | inl same ↦
      let e : k ≡ j = ground arith in
      rw same (
        letters ++ c ∷ [],
        L.Memᴰ.head (ap (λ i. (i, letters ++ c ∷ [])) e),
        append_right letters (L.Memᴰ.head refl),
      )
  | inr apart ↦
      let (more, at, has) = add_letter-HasLetter k c m in rw apart (more, L.Memᴰ.tail at, has)
]

add_letter-keeps :
    (k c j d : ℕ) (m : List (ℕ × List ℕ)) → HasLetter k c m → HasLetter k c (add_letter j d m)
unfolding add_letter
add_letter-keeps k c j d [] (letters, at, has) = elim at [ ]
add_letter-keeps k c j d ((i, letters) ∷ m) (found, L.Memᴰ.head e, has) =
    elim (Bool-cases (i == j)) [
      | inl same ↦ rw same (
        letters ++ d ∷ [],
        L.Memᴰ.head (ap (λ x. (x.0, letters ++ d ∷ [])) e),
        append_left (d ∷ []) (subst (Memᴰ c) (ap (λ x. x.1) e) has),
      )
      | inr apart ↦ rw apart (found, L.Memᴰ.head e, has)
    ]
add_letter-keeps k c j d ((i, letters) ∷ m) (found, L.Memᴰ.tail at, has) =
    elim (Bool-cases (i == j)) [
      | inl same ↦ rw same (found, L.Memᴰ.tail at, has)
      | inr apart ↦
          let (more, at', has') = add_letter-keeps k c j d m (found, at, has) in
          rw apart (more, L.Memᴰ.tail at', has')
    ]

group-keeps :
    (k c : ℕ) (m : List (ℕ × List ℕ)) (gs : List Trigram)
    → HasLetter k c m
    → HasLetter k c (group m gs)
unfolding group
group-keeps k c m [] has = has
group-keeps k c m (g ∷ gs) has =
    group-keeps k c (add_letter (bucket g) g.third m) gs
      (add_letter-keeps k c (bucket g) g.third m has)

group-HasLetter :
    (g : Trigram) (m : List (ℕ × List ℕ)) (gs : List Trigram)
    → Memᴰ g gs
    → HasLetter (bucket g) g.third (group m gs)
unfolding group
group-HasLetter g m [] at = elim at [ ]
group-HasLetter g m (h ∷ gs) (L.Memᴰ.head e) =
    let grown = add_letter (bucket h) h.third m in
    let has = add_letter-HasLetter (bucket h) h.third m in
    subst (λ x. HasLetter (bucket x) x.third (group grown gs)) (sym e)
      (group-keeps (bucket h) h.third grown gs has)
group-HasLetter g m (h ∷ gs) (L.Memᴰ.tail at) =
    group-HasLetter g (add_letter (bucket h) h.third m) gs at

-- Every trigram of the word is looked for.
pub extract_t_grams_by_b_gram-HasLetter :
    (g : Trigram) (word : List ℕ)
    → Memᴰ g (windows word)
    → HasLetter (bucket g) g.third (extract_t_grams_by_b_gram word)
unfolding extract_t_grams_by_b_gram
extract_t_grams_by_b_gram-HasLetter g word at =
    group-HasLetter g [] (extract_t_grams word) (extract_t_grams-mem g word at)
