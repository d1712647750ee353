-- ===== src/Heap/Deletion.antt =====
-- DeleteMin and DeleteMax take out one token of the least or of the greatest priority, and leave a
-- valid heap of the others.
use wfts.Common.{
  ltb, if◌then◌else◌, ==_iff, ◌==◌, Bool-cases, length, set, take, length-set, length-take,
  get_or-set, ℕ, suc, ◌-◌, ◌≤◌, ◌<◌, ◌≡◌, refl, sym, ap, ◌∙◌, ◌⊎◌, inl, inr, Option, none, some,
  List, [], ◌∷◌, ◌++◌, arith, get_elem?-get_or, get_or-take, take-append-last,
}
use mathlib.Core.List.{Perm}
use mathlib.Core.List.Perm
use native.Mathlib.Decide.{ℕ_discrete}
use wfts.Common.Partial.{Yields, yields, Yields-bind, Yields-map}
use wfts.Heap.{LinkToken, MinMaxHeap, is_min_level, delete_at, delete_min, delete_max}
use wfts.Heap.Slice.{nil_token, token_at, key, write-perm, length-perm}
use wfts.Heap.Order.{parent, grandparent, is_min_level-parent, IsHeap}
use wfts.Heap.Down.{DownInv}
use wfts.Heap.Trickle.{trickle_down_restores}
use wfts.Heap.Bounds.{root_least, is_min_level-zero}
use wfts.Heap.Operations.{IsValid, IsGreatest, root-IsGreatest, max_index-IsGreatest, append-perm}

module _ (a : List LinkToken) (last idx : ℕ) (size : length a ≡ suc last) (hi : idx ≤ last) where
  -- The slice that is repaired.
  abbrev cut : List LinkToken
  cut = take last (set a idx (token_at a last))

  cut-perm : Perm (token_at a idx ∷ cut) a
  cut-perm =
      let y = token_at a last in
      let b = set a idx y in
      let end : token_at b last ≡ y =
        ground (arith, get_or-set a idx last y nil_token (omega arith)) in
      let whole : cut ++ y ∷ [] ≡ b =
        ap (λ t. cut ++ t ∷ []) (sym end)
        ∙ take-append-last b last nil_token (length-set a idx y ∙ size) in
      let moved : Perm (token_at a idx ∷ b) (y ∷ token_at a idx ∷ cut) =
        Perm.trans (Perm.cons _ (rw whole at (append-perm cut y))) (Perm.swap _ _ cut) in
      Perm.symm (Perm.cons_inv (Perm.trans (write-perm a idx y (omega arith)) moved))

  key-cut : (c : ℕ) → c < last → key cut c ≡ (if idx == c then key a last else key a c)
  unfolding key
  key-cut c hc = ground (
    arith,
    get_or-take last (set a idx (token_at a last)) c nil_token hc,
    get_or-set a idx c (token_at a last) nil_token (omega arith),
  )

  cut-DownInv : IsHeap a → idx < 3 → idx < last → DownInv (is_min_level idx) last cut idx
  cut-DownInv h near lt =
      let size' : length cut ≡ last = omega (
        arith,
        length-take last (set a idx (token_at a last)),
        length-set a idx (token_at a last),
      ) in
      record {
        size = size';
        inside = lt;
        side = refl;
        parents = λ c p q r. elim (ℕ_discrete c idx) [
          | yes e ↦
              let root : parent c ≡ 0 = omega arith in
              ground (
                arith,
                key-cut c q,
                key-cut (parent c) (omega arith),
                ap (key a) root,
                is_min_level-parent c p,
                ap is_min_level root,
                is_min_level-zero,
                root_least a h last (omega arith),
              )
          | no k ↦ ground (arith, key-cut c q, key-cut (parent c) (omega arith), h.parents c)
        ];
        grandparents = λ c p q r.
            ground (arith, key-cut c q, key-cut (grandparent c) (omega arith), h.grandparents c);
        below_child = λ c f. absurd (omega arith);
        below_grandchild = λ c f. absurd (omega arith);
      }

module _ (a : List LinkToken) (last idx : ℕ) (size : length a ≡ suc last) (hi : idx ≤ last) where
  -- Without its last entry a heap is a heap.
  cut-IsHeap : IsHeap a → last ≤ idx → IsHeap (cut a last idx size hi)
  cut-IsHeap h end =
      let short : length (cut a last idx size hi) ≡ last =
        omega (arith, length-perm (cut-perm a last idx size hi)) in
      let at = key-cut a last idx size hi in
      record {
        parents = λ c p q. ground (arith, short, at c, at (parent c), h.parents c);
        grandparents = λ c p q. ground (arith, short, at c, at (grandparent c), h.grandparents c);
      }

-- What is left after the token at `idx` is taken out.
pub record Removed (h : MinMaxHeap) (idx : ℕ) (r : MinMaxHeap × Option LinkToken) : Type 0 where
  pub token : r.1 ≡ some (token_at h.items idx)
  pub valid : IsValid r.0
  pub same : Perm (token_at h.items idx ∷ r.0.items) h.items

delete_at_correct :
    (h : MinMaxHeap) (idx last : ℕ)
    → IsValid h
    → length h.items ≡ suc last
    → idx < 3
    → idx ≤ last
    → Yields (Removed h idx) (delete_at h idx last)
unfolding delete_at
delete_at_correct h idx last valid size near hi =
    let a = h.items in
    let c = cut a last idx size hi in
    let perm = cut-perm a last idx size hi in
    let short : length c ≡ last = omega (arith, length-perm perm) in
    let left : h.len - 1 ≡ last = omega (arith, valid.counted) in
    rw
      (
        get_elem?-get_or a idx nil_token (omega arith),
        get_elem?-get_or a last nil_token (omega arith),
        left,
      )
      (elim (Bool-cases (ltb idx (length c))) [
        | inl inside ↦ rw inside (
            Yields-bind
              (trickle_down_restores last c idx
                (cut-DownInv a last idx size hi valid.heap near (ground (arith, inside))))
              λ b s. yields (record {
                token = refl;
                valid = record { counted = omega (arith, length-perm s.1); heap = s.0 };
                same = Perm.trans (Perm.cons _ s.1) perm;
              }))
        | inr out ↦ rw out (
            yields (record {
              token = refl;
              valid = record {
                counted = sym short;
                heap = cut-IsHeap a last idx size hi valid.heap (ground (arith, out));
              };
              same = perm;
            }))
      ])

-- DeleteMin on an empty heap yields none and changes nothing; on any other valid heap it takes out
-- one token of the least priority.
pub delete_min_correct :
    (h : MinMaxHeap)
    → IsValid h
    → ((h.len ≡ 0) × (delete_min h ≡ some (h, none)))
      ⊎ ((0 < h.len)
          × ((c : ℕ) → c < length h.items → key h.items 0 ≤ key h.items c)
          × Yields (Removed h 0) (delete_min h))
unfolding delete_min
delete_min_correct h valid = elim (Bool-cases (h.len == 0)) [
  | inl empty ↦ inl ((==_iff _ _).0 empty, rw empty)
  | inr more ↦
      let pos : 0 < h.len = ground (arith, more) in
      inr (
        pos,
        root_least h.items valid.heap,
        rw more (
            delete_at_correct h 0 (length h.items - 1) valid (omega (arith, valid.counted))
              (omega arith) (omega arith)),
      )
]

-- DeleteMax on an empty heap yields none and changes nothing; on any other valid heap it takes out
-- one token of the greatest priority.
pub delete_max_correct :
    (h : MinMaxHeap)
    → IsValid h
    → ((h.len ≡ 0) × (delete_max h ≡ some (h, none)))
      ⊎ ((0 < h.len) × Yields (λ r. (i : ℕ) × IsGreatest h.items i × Removed h i r) (delete_max h))
unfolding delete_max
delete_max_correct h valid = elim (Bool-cases (h.len == 0)) [
  | inl empty ↦ inl ((==_iff _ _).0 empty, rw empty)
  | inr more ↦
      let pos : 0 < h.len = ground (arith, more) in
      inr (
        pos,
        elim (Bool-cases (h.len == 1)) [
          | inl single ↦
              let size : length h.items ≡ 1 = ground (arith, single, valid.counted) in
              rw (more, single)
                (Yields-map
                  (delete_at_correct h 0 (h.len - 1) valid (omega (arith, valid.counted))
                    (omega arith) (omega arith))
                  λ r x. (0, root-IsGreatest h.items size, x))
          | inr many ↦
              rw (more, many)
                (Yields-bind
                  (max_index-IsGreatest h.items h.len valid.heap (sym valid.counted)
                    (ground (arith, more, many)))
                  λ i (g, low, near).
                    Yields-map
                      (delete_at_correct h i (h.len - 1) valid (omega (arith, valid.counted)) near
                        (omega (arith, g.inside, valid.counted)))
                      λ r x. (i, g, x))
        ],
      )
]
