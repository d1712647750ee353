-- ===== src/Heap/Extreme.antt =====
-- What extremeDescendant finds: the best of the children and grandchildren that exist.
use wfts.Common.{
  leb, Bool-cases, length, ℕ, ◌+◌, ◌*◌, ◌≤◌, ◌<◌, ◌≡◌, refl, ◌⊎◌, inl, inr, Bool, Option, none,
  some, List, [], ◌∷◌, arith,
}
use native.Mathlib.Decide.{ℕ_discrete}
use wfts.Common.Partial.{Yields, yields, Yields-bind, Yields-map}
use wfts.Heap.{LinkToken, before, descendants, pick_extreme, extreme_loop, extreme_descendant}
use wfts.Heap.Slice.{key, compare_at-key}
use wfts.Heap.Order.{parent, grandparent, Le}

-- The indices seen, the last first.
abbrev seen_after : List ℕ → List ℕ → List ℕ
seen_after seen [] = seen
seen_after seen (c ∷ cs) = seen_after (c ∷ seen) cs

module _ (n : ℕ) (d : Bool) (a : List LinkToken) where
  abbrev NoneInside : List ℕ → Type 0
  NoneInside [] = Unit
  NoneInside (c ∷ cs) = (n ≤ c) × NoneInside cs

  abbrev NoneBetter : ℕ → List ℕ → Type 0
  NoneBetter b [] = Unit
  NoneBetter b (c ∷ cs) = (c < n → Le d (key a b) (key a c)) × NoneBetter b cs

  abbrev IsAmong : ℕ → List ℕ → Type 0
  IsAmong b [] = ⊥
  IsAmong b (c ∷ cs) = (b ≡ c) ⊎ IsAmong b cs

  -- `best` is the first of the best among the indices that were seen.
  abbrev Best : List ℕ → Option ℕ → Type 0
  Best seen none = NoneInside seen
  Best seen (some b) = (b < n) × IsAmong b seen × NoneBetter b seen

  NoneBetter-of_none : (b : ℕ) (seen : List ℕ) → NoneInside seen → NoneBetter b seen
  NoneBetter-of_none b [] h = tt
  NoneBetter-of_none b (c ∷ cs) h = (λ q. absurd (omega arith), NoneBetter-of_none b cs h.1)

  NoneBetter-trans :
      (b b' : ℕ) (seen : List ℕ)
      → Le d (key a b') (key a b)
      → NoneBetter b seen
      → NoneBetter b' seen
  NoneBetter-trans b b' [] le h = tt
  NoneBetter-trans b b' (c ∷ cs) le h =
      (λ q. ground (arith, le, h.0 q), NoneBetter-trans b b' cs le h.1)

  module _ (size : length a ≡ n) where
    pick_extreme-Best :
        (seen : List ℕ) (best : Option ℕ) (idx : ℕ)
        → Best seen best
        → Yields (Best (idx ∷ seen)) (pick_extreme n d a best idx)
    unfolding pick_extreme
    pick_extreme-Best seen none idx h = elim (Bool-cases (leb n idx)) [
      | inl out ↦ rw out (yields (ground arith, h))
      | inr inside ↦
          rw inside
            (yields (ground arith, inl refl, (λ q. ground arith, NoneBetter-of_none idx seen h)))
    ]
    pick_extreme-Best seen (some b) idx h = elim (Bool-cases (leb n idx)) [
      | inl out ↦ rw out (yields (h.0, inr h.1, (λ q. absurd (ground arith), h.2)))
      | inr inside ↦
          let hi : idx < n = ground arith in
          rw (inside, compare_at-key a idx b (omega arith) (omega (arith, h.0)) d)
            (elim (Bool-cases (before d (key a idx) (key a b))) [
              | inl better ↦ rw better (
                  yields (
                    hi,
                    inl refl,
                    (λ q. ground arith, NoneBetter-trans b idx seen (ground (arith, better)) h.2),
                  ))
              | inr worse ↦ rw worse (yields (h.0, inr h.1, (λ q. ground (arith, worse), h.2)))
            ])
    ]

    extreme_loop-Best :
        (seen : List ℕ) (best : Option ℕ) (rest : List ℕ)
        → Best seen best
        → Yields (Best (seen_after seen rest)) (extreme_loop n d a best rest)
    unfolding extreme_loop
    extreme_loop-Best seen best [] h = yields h
    extreme_loop-Best seen best (idx ∷ rest) h =
        Yields-bind (pick_extreme-Best seen best idx h)
          λ b p. extreme_loop-Best (idx ∷ seen) b rest p

-- `m` is the best of the children and grandchildren of `i`.
pub record IsExtreme (n : ℕ) (d : Bool) (a : List LinkToken) (i m : ℕ) : Type 0 where
  pub inside : m < n
  pub below : i < m
  pub kin : (parent m ≡ i) ⊎ (grandparent m ≡ i) × (3 ≤ m)
  pub children : (c : ℕ) → 0 < c → c < n → parent c ≡ i → Le d (key a m) (key a c)
  pub grandchildren : (c : ℕ) → 3 ≤ c → c < n → grandparent c ≡ i → Le d (key a m) (key a c)

-- What the loop's result says of the children and grandchildren of `i`.
abbrev pub Found : ℕ → Bool → List LinkToken → ℕ → Option ℕ → Type 0
Found n d a i none = n ≤ 2 * i + 1
Found n d a i (some m) = IsExtreme n d a i m

NoneBetter-among :
    (n : ℕ) (d : Bool) (a : List LinkToken) (b c : ℕ) (seen : List ℕ)
    → IsAmong n d a c seen
    → NoneBetter n d a b seen
    → c < n
    → Le d (key a b) (key a c)
NoneBetter-among n d a b c (c' ∷ seen) (inl e) h q = rw e (h.0 (rw (← e) q))
NoneBetter-among n d a b c (c' ∷ seen) (inr k) h q = NoneBetter-among n d a b c seen k h.1 q
NoneBetter-among n d a b c [] k h q = absurd k

child-IsAmong :
    (n : ℕ) (d : Bool) (a : List LinkToken) (i c : ℕ)
    → 0 < c
    → parent c ≡ i
    → IsAmong n d a c (seen_after [] (descendants i))
child-IsAmong n d a i c pos e = elim (ℕ_discrete c (2 * i + 1)) [
  | yes k ↦ inr (inr (inr (inr (inr (inl k)))))
  | no k ↦ inr (inr (inr (inr (inl (omega arith)))))
]

grandchild-IsAmong :
    (n : ℕ) (d : Bool) (a : List LinkToken) (i c : ℕ)
    → 3 ≤ c
    → grandparent c ≡ i
    → IsAmong n d a c (seen_after [] (descendants i))
grandchild-IsAmong n d a i c pos e = elim (ℕ_discrete c (4 * i + 3)) [
  | yes k ↦ inr (inr (inr (inl k)))
  | no k ↦ elim (ℕ_discrete c (4 * i + 4)) [
    | yes k' ↦ inr (inr (inl k'))
    | no k' ↦ elim (ℕ_discrete c (4 * i + 5)) [
      | yes k'' ↦ inr (inl k'')
      | no k'' ↦ inl (omega arith)
    ]
  ]
]

Best-Found :
    (n : ℕ) (d : Bool) (a : List LinkToken) (i : ℕ) (best : Option ℕ)
    → Best n d a (seen_after [] (descendants i)) best
    → Found n d a i best
Best-Found n d a i none h = omega arith
Best-Found n d a i (some m) (inside, among, none_better) = record {
  inside = inside;
  below = omega (arith, among);
  kin = omega (arith, among);
  children = λ c pos hc e.
      NoneBetter-among n d a m c (seen_after [] (descendants i)) (child-IsAmong n d a i c pos e)
        none_better hc;
  grandchildren = λ c pos hc e.
      NoneBetter-among n d a m c (seen_after [] (descendants i))
        (grandchild-IsAmong n d a i c pos e) none_better hc;
}

pub extreme_descendant-Found :
    (n : ℕ) (d : Bool) (a : List LinkToken) (i : ℕ)
    → length a ≡ n
    → Yields (Found n d a i) (extreme_descendant n d a i)
unfolding extreme_descendant
extreme_descendant-Found n d a i size =
    Yields-map (extreme_loop-Best n d a size [] none (descendants i) tt) (Best-Found n d a i)
