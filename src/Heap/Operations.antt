-- ===== src/Heap/Operations.antt =====
-- The operations of the heap: each keeps the order, and adds or removes exactly one token.
use wfts.Common.{
  ==_iff, ◌==◌, Bool-cases, length, length-append, ℕ, ◌-◌, ◌≤◌, ◌<◌, ◌≡◌, refl, ap, inl, inr, false,
  Option, none, some, List, [], ◌∷◌, ◌++◌, arith, get_elem?-get_or, get_or-append_left,
}
use mathlib.Core.List.{Perm, append-nil, perm_middle}
use mathlib.Core.List.Perm
use wfts.Common.Partial.{Yields, yields, Yields-bind}
use wfts.Heap.{LinkToken, MinMaxHeap, before, insert, get_min, max_index, get_max}
use wfts.Heap.Slice.{nil_token, token_at, key, compare_at-key, length-perm}
use wfts.Heap.Order.{parent, grandparent, IsHeap}
use wfts.Heap.Bubble.{Added, bubble_up_restores}
use wfts.Heap.Bounds.{root_least, children_greatest}

pub record IsValid (h : MinMaxHeap) : Type 0 where
  pub counted : h.len ≡ length h.items
  pub heap : IsHeap h.items

-- A heap of exactly the tokens `ts`.
abbrev pub Holds : List LinkToken → MinMaxHeap → Type 0
Holds ts h = IsValid h × Perm h.items ts

key-append :
    (a : List LinkToken) (v : LinkToken) (c : ℕ) → c < length a → key (a ++ v ∷ []) c ≡ key a c
unfolding key
key-append a v c h =
    ap (λ (t : LinkToken). t.priority) (get_or-append_left a (v ∷ []) c nil_token h)

pub append-perm : (a : List LinkToken) (v : LinkToken) → Perm (a ++ v ∷ []) (v ∷ a)
append-perm a v = rw (append-nil a) at (perm_middle {a = v} a [])

grown-Added :
    (a : List LinkToken) (v : LinkToken) → IsHeap a → Added (a ++ v ∷ []) (length (a ++ v ∷ []) - 1)
grown-Added a v h =
    let size = length-append a (v ∷ []) in
    record {
      last = omega (arith, size);
      parents =
          λ c p q. ground (arith, size, h.parents c, key-append a v c, key-append a v (parent c));
      grandparents = λ c p q.
          ground (arith, size, h.grandparents c, key-append a v c, key-append a v (grandparent c));
    }

-- Insert does not panic; the result is a valid heap of the old tokens and the new one.
pub insert_correct :
    (h : MinMaxHeap) (v : LinkToken) → IsValid h → Yields (Holds (v ∷ h.items)) (insert h v)
unfolding insert
insert_correct h v valid =
    Yields-bind (bubble_up_restores _ _ (grown-Added h.items v valid.heap)) λ a s. yields (
      record {
        counted = omega (arith, length-perm s.1, length-append h.items (v ∷ []), valid.counted);
        heap = s.0;
      },
      Perm.trans s.1 (append-perm h.items v),
    )

-- What a look at the heap yields: none if it is empty, and else a token that `P` describes.
abbrev pub Looked : MinMaxHeap → (LinkToken → Type 0) → Option LinkToken → Type 0
Looked h P none = length h.items ≡ 0
Looked h P (some t) = P t

pub get_min-root :
    (h : MinMaxHeap) → 0 < length h.items → get_min h ≡ some (some (token_at h.items 0))
unfolding get_min
get_min-root h some_items =
    let more : (length h.items == 0) ≡ false = ground arith in
    rw (more, get_elem?-get_or h.items 0 nil_token some_items) refl

pub get_min-none : (h : MinMaxHeap) → length h.items ≡ 0 → get_min h ≡ some none
unfolding get_min
get_min-none h empty = rw empty refl

-- GetMin yields a token of the least priority.
pub get_min_least :
    (h : MinMaxHeap)
    → IsValid h
    → Yields
        (Looked h (λ t.
          (i : ℕ) × (i < length h.items)
          × (t ≡ token_at h.items i)
          × ((c : ℕ) → c < length h.items → t.priority ≤ key h.items c)))
        (get_min h)
unfolding get_min key
get_min_least h valid = elim (Bool-cases (length h.items == 0)) [
  | inl empty ↦ rw empty (yields ((==_iff _ _).0 empty))
  | inr more ↦
      let pos : 0 < length h.items = ground (arith, more) in
      rw (more, get_elem?-get_or h.items 0 nil_token pos)
        (yields (0, pos, refl, unfold key in root_least h.items valid.heap))
]

-- `i` is the place of a token of the greatest priority.
pub record IsGreatest (a : List LinkToken) (i : ℕ) : Type 0 where
  pub inside : i < length a
  pub greatest : (c : ℕ) → c < length a → key a c ≤ key a i

pub root-IsGreatest : (a : List LinkToken) → length a ≡ 1 → IsGreatest a 0
root-IsGreatest a size = record {
  inside = omega arith;
  greatest = λ c hc. let e : c ≡ 0 = omega arith in rw e (omega arith);
}

pub max_index-IsGreatest :
    (a : List LinkToken) (n : ℕ)
    → IsHeap a
    → length a ≡ n
    → 2 ≤ n
    → Yields (λ i. IsGreatest a i × (0 < i) × (i < 3)) (max_index n a)
unfolding max_index
max_index-IsGreatest a n h size two = elim (Bool-cases (n == 2)) [
  | inl e ↦ rw e (
      yields (
        record {
          inside = omega arith;
          greatest = λ c hc.
              children_greatest a h (key a 1) c (omega arith)
                (λ f. absurd (omega (arith, (==_iff n 2).0 e))) (omega arith) hc;
        },
        omega arith,
        omega arith,
      ))
  | inr ne ↦
      let far : 2 < length a = ground (arith, ne, size) in
      rw (ne, compare_at-key a 1 2 (omega arith) far false)
        (elim (Bool-cases (before false (key a 1) (key a 2))) [
          | inl first ↦ rw first (
              yields (
                record {
                  inside = omega arith;
                  greatest = λ c hc.
                      children_greatest a h (key a 1) c (omega arith) (λ f. ground (arith, first))
                        (omega arith) hc;
                },
                omega arith,
                omega arith,
              ))
          | inr second ↦ rw second (
              yields (
                record {
                  inside = far;
                  greatest = λ c hc.
                      children_greatest a h (key a 2) c (ground (arith, second)) (λ f. omega arith)
                        (omega arith) hc;
                },
                omega arith,
                omega arith,
              ))
        ])
]

-- GetMax yields a token of the greatest priority.
pub get_max-IsGreatest :
    (h : MinMaxHeap)
    → IsValid h
    → Yields (Looked h (λ t. (i : ℕ) × IsGreatest h.items i × (t ≡ token_at h.items i))) (get_max h)
unfolding get_max
get_max-IsGreatest h valid = elim (Bool-cases (length h.items == 0)) [
  | inl empty ↦ rw empty (yields ((==_iff _ _).0 empty))
  | inr more ↦ elim (Bool-cases (length h.items == 1)) [
    | inl single ↦
        let size : length h.items ≡ 1 = (==_iff _ _).0 single in
        rw (more, single, get_elem?-get_or h.items 0 nil_token (omega arith))
          (yields (0, root-IsGreatest h.items size, refl))
    | inr many ↦
        rw (more, many)
          (Yields-bind
            (max_index-IsGreatest h.items (length h.items) valid.heap refl
              (ground (arith, more, many)))
            λ i (g, _, _). rw (get_elem?-get_or h.items i nil_token g.inside) (yields (i, g, refl)))
  ]
]
