-- ===== src/Codec.antt =====
-- internal/repository: the encodings under which the index keeps its data. indexRepos.go: the upper
-- bound of a key prefix, the word counts with their positions, the counters; nGramRepo.go: the
-- trigram entries and their buckets; shingleRepo.go: the shard of a piece of a signature. A byte
-- string is the list of its bytes. The type bytes are those of internal/model/document.go.
pub mod Prefix
pub mod Positions
pub mod Entries
pub mod Shards
mod Tests
use wfts.Common.{
  ltb, if◌then◌else◌, ◌==◌, length, get_or, take, drop, replicate, Result, ok, err, panic, ℕ, zero,
  suc, ◌+◌, ◌-◌, ◌*◌, ◌/◌, ◌%◌, ◌^◌, min, Bool, true, false, Option, none, some, List, [], ◌∷◌,
  ◌++◌,
}
use Prim.Native.Nat.{bit_and, bit_or}
use mathlib.Core.List.{reverse}

abbrev pub u32_mod : ℕ
u32_mod = 2 ^ 32

abbrev pub body_type : ℕ
body_type = 98

abbrev pub header_type : ℕ
header_type = 104

-- The loop of prefixUpperBound, over the bytes from the last one.
pub increment_last : List ℕ → Option (List ℕ)
increment_last [] = none
increment_last (b ∷ bs) =
    let carry = increment_last bs in
    if (b + 1) % 256 == 0 then carry else some (reverse ((b + 1) % 256 ∷ bs))

pub prefix_upper_bound : List ℕ → Option (List ℕ)
prefix_upper_bound prefix = increment_last (reverse prefix)

pub record Position : Type 0 where
  pub place : ℕ
  pub kind : ℕ

pub record WordCountAndPositions : Type 0 where
  pub count : ℕ
  pub positions : List Position

-- `uint32((p << 1) | int(a))`
pub enc_pos_entry : ℕ → ℕ → ℕ
enc_pos_entry a p = bit_or (p * 2) a % u32_mod

pub dec_pos_entry : ℕ → ℕ × ℕ
dec_pos_entry d = (bit_and d 1, d / 2)

-- `binary.LittleEndian`
abbrev pub le16 : ℕ → List ℕ
le16 n = n % 256 ∷ n / 256 % 256 ∷ []

abbrev pub le32 : ℕ → List ℕ
le32 n = n % 256 ∷ n / 256 % 256 ∷ n / 65536 % 256 ∷ n / 16777216 % 256 ∷ []

abbrev pub read_le16 : List ℕ → ℕ
read_le16 s = get_or s 0 0 + 256 * get_or s 1 0

pub read_le32 : List ℕ → Option ℕ
read_le32 (a ∷ b ∷ c ∷ d ∷ s) = some (a + 256 * b + 65536 * c + 16777216 * d)
read_le32 s = none

pub write_entries : List Position → List ℕ
write_entries [] = []
write_entries (p ∷ ps) = le32 (enc_pos_entry p.kind p.place) ++ write_entries ps

-- The buffer has eight bytes for each position, and four of them are used.
pub marshal_wcp : WordCountAndPositions → List ℕ
marshal_wcp wcp =
    le16 (wcp.count % 65536)
    ++ write_entries wcp.positions
    ++ replicate (4 * length wcp.positions) 0

-- `none` is the panic of a read past the end.
pub read_entries : ℕ → List ℕ → Option (List Position)
read_entries zero s = some []
read_entries (suc n) s = elim (read_le32 s) [
  | none ↦ none
  | some d ↦ elim (read_entries n (drop 4 s)) [
    | none ↦ none
    | some ps ↦ some (record { place = (dec_pos_entry d).1; kind = (dec_pos_entry d).0 } ∷ ps)
  ]
]

pub data ShortData : Type 0 where
  short_data : ShortData

abbrev pub with_count : ℕ → Option (List Position) → Result ShortData WordCountAndPositions
with_count count none = panic
with_count count (some ps) = ok (record { count = count; positions = ps })

pub unmarshal_wcp : List ℕ → Result ShortData WordCountAndPositions
unmarshal_wcp s =
    let count = read_le16 s in
    if ltb (length s) 2
    then err short_data
    else with_count count (read_entries (min count 500) (drop 2 s))

-- What IndexDocumentWords stores of a word: its frequency, and its first 500 positions.
pub stored_positions : ℕ → List Position → WordCountAndPositions
stored_positions freq ps = record {
  count = freq;
  positions = if ltb 500 (length ps) then take 500 ps else ps;
}

-- The search for a header position in Search; `n` is min(item.Count, 500).
-- `none` is the panic of an index out of range.
unfoldable pub has_header : ℕ → List Position → Option Bool
has_header zero ps = some false
has_header (suc n) [] = none
has_header (suc n) (p ∷ ps) = if p.kind == header_type then some true else has_header n ps

-- `binary.BigEndian`
pub enc_count : ℕ → List ℕ
enc_count n = n / 16777216 % 256 ∷ n / 65536 % 256 ∷ n / 256 % 256 ∷ n % 256 ∷ []

pub dec_count : List ℕ → Option ℕ
dec_count (a ∷ b ∷ c ∷ d ∷ s) = some (16777216 * a + 65536 * b + 256 * c + d)
dec_count s = none

-- `(wordId << 8) | uint32(lastLet)`, in uint32
pub enc_ng_data : ℕ → ℕ → ℕ
enc_ng_data word_id last_let = bit_or (word_id * 256 % u32_mod) last_let

pub dec_ng_data : ℕ → ℕ × ℕ
dec_ng_data d = (d / 256, d % 256)

-- `a - 'a'` or `a - 'A'`, in a byte
pub letter_index : ℕ → ℕ
letter_index c = if ltb 90 c then (c + 256 - 97) % 256 else (c + 256 - 65) % 256

pub make_bi_gram_key : ℕ → ℕ → ℕ
make_bi_gram_key a b = (letter_index a * 26 + letter_index b) % 65536

-- `none` when the index of `ir.ni.shards` is out of range
pub shard_of : ℕ → Option ℕ
shard_of c = if ltb (letter_index c) 26 then some (letter_index c) else none

pub shingle_sum : ℕ → List ℕ → ℕ
shingle_sum key [] = key
shingle_sum key (s ∷ sign) = shingle_sum ((key + s % 512) % 65536) sign

pub make_shingle_key : List ℕ → ℕ
make_shingle_key sign = shingle_sum 0 sign % 512
