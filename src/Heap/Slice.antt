-- ===== src/Heap/Slice.antt =====
-- The slice of tokens: reads by priority, and a swap as a function and as a permutation.
use wfts.Common.{
  if◌then◌else◌, ◌==◌, length, get_or, set, length-set, get_or-set, ℕ, zero, suc, ◌<◌, ◌≡◌, refl,
  ◌∙◌, Bool, false, some, List, [], ◌∷◌, arith, get_elem?-get_or,
}
use mathlib.Core.List.Perm
use mathlib.Core.List.{Perm, Permᴰ}
use mathlib.Core.Logic.{∥∥₁_elim}
use native.Mathlib.Nat.{ℕ_set}
use wfts.Heap.{LinkToken, swap, compare_at, before}

-- What a read out of range is taken for; `Yields` statements show that there is none.
abbrev pub nil_token : LinkToken
nil_token = record { link = []; priority = 0; depth = 0; same_domain = false }

abbrev pub token_at : List LinkToken → ℕ → LinkToken
token_at a i = get_or a i nil_token

unfoldable pub key : List LinkToken → ℕ → ℕ
key a i = (token_at a i).priority

pub swapped : List LinkToken → ℕ → ℕ → List LinkToken
swapped a i j = set (set a i (token_at a j)) j (token_at a i)

pub length-swapped : (a : List LinkToken) (i j : ℕ) → length (swapped a i j) ≡ length a
unfolding swapped
length-swapped a i j = simp length-set

-- A write puts the new token in and takes the old one out.
pub write-perm :
    (a : List LinkToken) (i : ℕ) (v : LinkToken)
    → i < length a
    → Perm (v ∷ a) (token_at a i ∷ set a i v)
write-perm [] i v h = absurd (omega arith)
write-perm (x ∷ a) zero v h = Perm.swap x v a
write-perm (x ∷ a) (suc i) v h =
    Perm.trans (Perm.swap x v a)
      (Perm.trans (Perm.cons x (write-perm a i v (omega arith))) (Perm.swap _ x _))

module _ (a : List LinkToken) (i j : ℕ) (hi : i < length a) (hj : j < length a) where
  pub swap-swapped : swap a i j ≡ some (swapped a i j)
  unfolding swap swapped
  swap-swapped = rw (get_elem?-get_or a j nil_token hj, get_elem?-get_or a i nil_token hi)

  pub compare_at-key : (d : Bool) → compare_at d a i j ≡ some (before d (key a i) (key a j))
  unfolding compare_at key
  compare_at-key d = rw (get_elem?-get_or a i nil_token hi, get_elem?-get_or a j nil_token hj)

  pub token_at-swapped :
      (c : ℕ)
      → token_at (swapped a i j) c
        ≡ (if j == c then token_at a i else if i == c then token_at a j else token_at a c)
  unfolding swapped
  token_at-swapped c = rw (
    get_or-set (set a i (token_at a j)) j c (token_at a i) nil_token (rw length-set hj),
    get_or-set a i c (token_at a j) nil_token hi,
  )

  pub swapped-perm : Perm (swapped a i j) a
  unfolding swapped
  swapped-perm =
      let b = set a i (token_at a j) in
      let same : token_at b j ≡ token_at a j =
        ground (arith, get_or-set a i j (token_at a j) nil_token hi) in
      let second = rw same at (write-perm b j (token_at a i) (rw length-set hj)) in
      Perm.symm (Perm.cons_inv (Perm.trans (write-perm a i (token_at a j) hi) second))

  pub key-swapped :
      (c : ℕ)
      → key (swapped a i j) c ≡ (if j == c then key a i else if i == c then key a j else key a c)
  unfolding key
  key-swapped c = ground (arith, token_at-swapped c)

Permᴰ-length : {old new : List LinkToken} → Permᴰ old new → length old ≡ length new
Permᴰ-length (Permᴰ.trans before after) = Permᴰ-length before ∙ Permᴰ-length after
Permᴰ-length (Permᴰ.cons _ rest) = omega (arith, Permᴰ-length rest)
Permᴰ-length (Permᴰ.swap _ _) = refl
Permᴰ-length Permᴰ.nil = refl

pub length-perm : {old new : List LinkToken} → Perm old new → length old ≡ length new
length-perm same = ∥∥₁_elim same (ℕ_set _ _) Permᴰ-length
