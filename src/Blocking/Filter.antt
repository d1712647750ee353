-- ===== src/Blocking/Filter.antt =====
-- The Bloom filter keeps what was added to it.
use wfts.Common.{
  ◌==◌, Bool-cases, length, get_or, set, length-set, length-replicate, get_or-set, ℕ, ◌/◌, ◌%◌, ◌^◌,
  ◌<◌, ◌≡◌, refl, sym, inl, inr, true, false, List, [], ◌∷◌, arith,
}
use Prim.Native.Nat.{bit_and, bit_or}
use wfts.Common.Bits.{bit, bit-bit_or, bit-pow, bit-le-one, bit_and-pow, two_pow-positive}
use wfts.Blocking.{
  filter_size, rounds, Bloom, empty_bloom, bit_index, add_bits, contain_bits, second_hash, add,
  contain,
}

-- The filter has its size, and the bit `k` is set in it.
abbrev pub IsFull : Bloom → Type 0
IsFull b = length b ≡ filter_size / 64

abbrev pub HasBit : Bloom → ℕ → Type 0
HasBit b k = bit (get_or b (k / 64) 0) (k % 64) ≡ 1

abbrev set_at : Bloom → ℕ → Bloom
set_at b k = set b (k / 64) (bit_or (get_or b (k / 64) 0) (2 ^ (k % 64)))

set_at-HasBit : (b : Bloom) (k : ℕ) → k / 64 < length b → HasBit (set_at b k) k
set_at-HasBit b k h =
    let word = get_or b (k / 64) 0 in
    let there = get_or-set b (k / 64) (k / 64) (bit_or word (2 ^ (k % 64))) 0 h in
    let same : (k / 64 == k / 64) ≡ true = ground arith in
    rw (there, same)
      (omega (
        arith,
        bit-bit_or (k % 64) word (2 ^ (k % 64)),
        bit-pow (k % 64),
        bit-le-one (k % 64) word,
      ))

set_at-keeps : (b : Bloom) (k j : ℕ) → k / 64 < length b → HasBit b j → HasBit (set_at b k) j
set_at-keeps b k j h old =
    let word = get_or b (k / 64) 0 in
    let there = get_or-set b (k / 64) (j / 64) (bit_or word (2 ^ (k % 64))) 0 h in
    elim (Bool-cases (k / 64 == j / 64)) [
      | inr apart ↦ rw (there, apart) old
      | inl same ↦
          let e : j / 64 ≡ k / 64 = ground (arith, same) in
          let was : bit word (j % 64) ≡ 1 = rw (sym e) old in
          rw (there, same)
            (omega (
              arith,
              bit-bit_or (j % 64) word (2 ^ (k % 64)),
              bit-le-one (j % 64) (2 ^ (k % 64)),
              was,
            ))
    ]

bit_index-lt : (h1 h2 i : ℕ) → bit_index h1 h2 i / 64 < filter_size / 64
unfolding bit_index
bit_index-lt h1 h2 i = omega arith

add_bits-keeps :
    (h1 h2 : ℕ) (b : Bloom) (is : List ℕ) (j : ℕ)
    → IsFull b
    → HasBit b j
    → HasBit (add_bits h1 h2 b is) j
unfolding add_bits
add_bits-keeps h1 h2 b [] j full old = old
add_bits-keeps h1 h2 b (i ∷ is) j full old =
    let k = bit_index h1 h2 i in
    let inside : k / 64 < length b = rw full (bit_index-lt h1 h2 i) in
    let full' : IsFull (set_at b k) =
      rw (length-set b (k / 64) (bit_or (get_or b (k / 64) 0) (2 ^ (k % 64)))) full in
    add_bits-keeps h1 h2 (set_at b k) is j full' (set_at-keeps b k j inside old)

add_bits-IsFull : (h1 h2 : ℕ) (b : Bloom) (is : List ℕ) → IsFull b → IsFull (add_bits h1 h2 b is)
unfolding add_bits
add_bits-IsFull h1 h2 b [] full = full
add_bits-IsFull h1 h2 b (i ∷ is) full =
    let k = bit_index h1 h2 i in
    add_bits-IsFull h1 h2 (set_at b k) is
      (rw (length-set b (k / 64) (bit_or (get_or b (k / 64) 0) (2 ^ (k % 64)))) full)

-- Every bit of the hashes is set.
abbrev pub HasBits : ℕ → ℕ → Bloom → List ℕ → Type 0
HasBits h1 h2 b [] = Unit
HasBits h1 h2 b (i ∷ is) = HasBit b (bit_index h1 h2 i) × HasBits h1 h2 b is

add_bits-HasBits :
    (h1 h2 : ℕ) (b : Bloom) (is : List ℕ) → IsFull b → HasBits h1 h2 (add_bits h1 h2 b is) is
unfolding add_bits
add_bits-HasBits h1 h2 b [] full = tt
add_bits-HasBits h1 h2 b (i ∷ is) full =
    let k = bit_index h1 h2 i in
    let inside : k / 64 < length b = rw full (bit_index-lt h1 h2 i) in
    let full' : IsFull (set_at b k) =
      rw (length-set b (k / 64) (bit_or (get_or b (k / 64) 0) (2 ^ (k % 64)))) full in
    (
      add_bits-keeps h1 h2 (set_at b k) is k full' (set_at-HasBit b k inside),
      add_bits-HasBits h1 h2 (set_at b k) is full',
    )

HasBits-keeps :
    (h1 h2 g1 g2 : ℕ) (b : Bloom) (is js : List ℕ)
    → IsFull b
    → HasBits h1 h2 b is
    → HasBits h1 h2 (add_bits g1 g2 b js) is
HasBits-keeps h1 h2 g1 g2 b [] js full old = tt
HasBits-keeps h1 h2 g1 g2 b (i ∷ is) js full old = (
  add_bits-keeps g1 g2 b js (bit_index h1 h2 i) full old.0,
  HasBits-keeps h1 h2 g1 g2 b is js full old.1,
)

contain_bits-HasBits :
    (h1 h2 : ℕ) (b : Bloom) (is : List ℕ) → HasBits h1 h2 b is → contain_bits h1 h2 b is ≡ true
unfolding contain_bits
contain_bits-HasBits h1 h2 b [] old = refl
contain_bits-HasBits h1 h2 b (i ∷ is) old =
    let k = bit_index h1 h2 i in
    let word = get_or b (k / 64) 0 in
    let value : bit_and word (2 ^ (k % 64)) ≡ 2 ^ (k % 64) =
      rw (bit_and-pow (k % 64) word, old.0) (omega arith) in
    let missing : (2 ^ (k % 64) == 0) ≡ false = ground (arith, two_pow-positive (k % 64)) in
    rw (value, missing) (contain_bits-HasBits h1 h2 b is old.1)

-- The text was added.
pub Added : (List ℕ → ℕ) → Bloom → List ℕ → Type 0
Added fnv b s = IsFull b × HasBits (fnv s) (second_hash (fnv s)) b rounds

pub contain-Added :
    (fnv : List ℕ → ℕ) (b : Bloom) (s : List ℕ) → Added fnv b s → contain fnv b s ≡ true
unfolding contain Added
contain-Added fnv b s h = contain_bits-HasBits (fnv s) (second_hash (fnv s)) b rounds h.1

pub add-Added : (fnv : List ℕ → ℕ) (b : Bloom) (s : List ℕ) → IsFull b → Added fnv (add fnv b s) s
unfolding add Added
add-Added fnv b s full =
    let (h1, h2) : ℕ × ℕ = (fnv s, second_hash (fnv s)) in
    (add_bits-IsFull h1 h2 b rounds full, add_bits-HasBits h1 h2 b rounds full)

pub Added-add :
    (fnv : List ℕ → ℕ) (b : Bloom) (s t : List ℕ) → Added fnv b s → Added fnv (add fnv b t) s
unfolding add Added
Added-add fnv b s t h = (
  add_bits-IsFull (fnv t) (second_hash (fnv t)) b rounds h.0,
  HasBits-keeps (fnv s) (second_hash (fnv s)) (fnv t) (second_hash (fnv t)) b rounds rounds h.0 h.1,
)

pub add-IsFull : (fnv : List ℕ → ℕ) (b : Bloom) (s : List ℕ) → IsFull b → IsFull (add fnv b s)
unfolding add
add-IsFull fnv b s full = add_bits-IsFull (fnv s) (second_hash (fnv s)) b rounds full

pub empty_bloom-IsFull : IsFull empty_bloom
empty_bloom-IsFull = length-replicate {A = ℕ} (filter_size / 64) 0
