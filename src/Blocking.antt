-- ===== src/Blocking.antt =====
-- internal/services/wfts/offline/scraper/roundTripper: bloom.go, the Bloom filter, and
-- roundTripper.go, the filter list in it and the refusal of the hosts on the list. `fnv`, a
-- parameter, is Sum64 of package hash/fnv; `base`, a parameter, is the transport below. A text is
-- the list of its bytes. The fetch of the list is left out: its body is the argument of
-- `upload_filter`.
pub mod Filter
pub mod Hosts
mod Tests
use wfts.Common.{
  if◌then◌else◌, ◌==◌, length, get_or, set, take, drop, replicate, Result, err, ℕ, ◌+◌, ◌-◌, ◌*◌,
  ◌/◌, ◌%◌, ◌^◌, Bool, true, false, ◌&&◌, ◌||◌, List, [], ◌∷◌, ◌++◌,
}
use Prim.Native.Nat.{bit_and, bit_or, bit_xor}
use mathlib.Core.List.{reverse}
use wfts.Common.Texts.{codes, has_prefix, trim_space, split_from, split_lines}

-- `m`
abbrev pub filter_size : ℕ
filter_size = 2 ^ 20

-- `range k`
abbrev pub rounds : List ℕ
rounds = 0 ∷ 1 ∷ 2 ∷ 3 ∷ 4 ∷ []

-- The words `bits` of a Bloom.
abbrev pub Bloom : Type 0
Bloom = List ℕ

abbrev pub empty_bloom : Bloom
empty_bloom = replicate (filter_size / 64) 0

-- `(h1 + h2*uint64(i)) % m`
pub bit_index : ℕ → ℕ → ℕ → ℕ
bit_index h1 h2 i = (h1 + h2 * i % 2 ^ 64) % 2 ^ 64 % filter_size

-- The loop of Add, over the rounds to go.
pub add_bits : ℕ → ℕ → Bloom → List ℕ → Bloom
add_bits h1 h2 b [] = b
add_bits h1 h2 b (i ∷ is) =
    let k = bit_index h1 h2 i in
    add_bits h1 h2 (set b (k / 64) (bit_or (get_or b (k / 64) 0) (2 ^ (k % 64)))) is

-- The loop of Contain.
pub contain_bits : ℕ → ℕ → Bloom → List ℕ → Bool
contain_bits h1 h2 b [] = true
contain_bits h1 h2 b (i ∷ is) =
    let k = bit_index h1 h2 i in
    let rest = contain_bits h1 h2 b is in
    if bit_and (get_or b (k / 64) 0) (2 ^ (k % 64)) == 0 then false else rest

-- The second hash: `h1 ^ (h1 >> 33) * 0xff51afd7ed558ccd`, where the product binds first.
pub second_hash : ℕ → ℕ
second_hash h1 = bit_xor h1 (h1 / 2 ^ 33 * 18397679294719823053 % 2 ^ 64)

pub add : (List ℕ → ℕ) → Bloom → List ℕ → Bloom
add fnv b s = add_bits (fnv s) (second_hash (fnv s)) b rounds

pub contain : (List ℕ → ℕ) → Bloom → List ℕ → Bool
contain fnv b s = contain_bits (fnv s) (second_hash (fnv s)) b rounds

-- strings.HasSuffix
pub has_suffix : List ℕ → List ℕ → Bool
has_suffix s p = has_prefix (reverse s) (reverse p)

-- The body of the loop over the lines in uploadTXTFilter.
pub upload_line : (List ℕ → ℕ) → Bloom → List ℕ → Bloom
upload_line fnv b line =
    let trimmed = trim_space line in
    let skip =
      length trimmed == 0 || has_prefix trimmed (codes "!") || has_prefix trimmed (codes "@@") in
    let rule = has_prefix trimmed (codes "||") && has_suffix trimmed (codes "^") in
    if skip then b else if rule then add fnv b (drop 2 (take (length trimmed - 1) trimmed)) else b

pub upload_lines : (List ℕ → ℕ) → Bloom → List (List ℕ) → Bloom
upload_lines fnv b [] = b
upload_lines fnv b (line ∷ lines) = upload_lines fnv (upload_line fnv b line) lines

pub upload_filter : (List ℕ → ℕ) → List ℕ → Bloom
upload_filter fnv body = upload_lines fnv empty_bloom (split_lines body)

abbrev pub is_dot : ℕ → Bool
is_dot c = c == 46

-- strings.Join(parts, ".")
pub join_dots : List (List ℕ) → List ℕ
join_dots [] = []
join_dots (p ∷ []) = p
join_dots (p ∷ q ∷ ps) = p ++ 46 ∷ join_dots (q ∷ ps)

-- The loop of isBlocked over `parts[i:]`.
pub blocked_from : (List ℕ → ℕ) → Bloom → List (List ℕ) → Bool
blocked_from fnv b [] = false
blocked_from fnv b (p ∷ ps) = contain fnv b (join_dots (p ∷ ps)) || blocked_from fnv b ps

pub is_blocked : (List ℕ → ℕ) → Bloom → List ℕ → Bool
is_blocked fnv b host = blocked_from fnv b (split_from is_dot [] host)

pub data RoundTripError : Type 0 where
  blocked : RoundTripError
  transport_error : RoundTripError

pub round_trip :
    {Response : Type 0}
    → (List ℕ → ℕ)
    → Bloom
    → (List ℕ → Result RoundTripError Response)
    → List ℕ
    → Result RoundTripError Response
round_trip fnv b base host = if is_blocked fnv b host then err blocked else base host
