-- ===== src/Codec/Tests.antt =====
-- The encodings at fixed inputs, and the theorems at them.
use wfts.Common.{
  take, ok, ℕ, ◌%◌, ◌^◌, ◌≤◌, ◌<◌, min, ◌≡◌, refl, false, not, ◌&&◌, none, some, List, [], ◌∷◌, map,
  arith,
}
use wfts.Common.Texts.{has_prefix}
use wfts.Codec.{
  body_type, header_type, Position, increment_last, prefix_upper_bound, enc_pos_entry,
  dec_pos_entry, read_le32, write_entries, marshal_wcp, read_entries, unmarshal_wcp,
  stored_positions, has_header, enc_count, dec_count, enc_ng_data, dec_ng_data, letter_index,
  make_bi_gram_key, shard_of, shingle_sum, make_shingle_key,
}
use wfts.Codec.Prefix.{text_lt, below_bound, prefix_upper_bound_range}
use wfts.Codec.Positions.{reread, unmarshal_wcp-marshal_wcp, has_header_unmarshalled}
use wfts.Codec.Entries.{dec_ng_data-enc_ng_data}

tests : Unit {0}
unfolding increment_last prefix_upper_bound enc_pos_entry dec_pos_entry read_le32 write_entries
    marshal_wcp read_entries unmarshal_wcp stored_positions has_header enc_count dec_count
    enc_ng_data dec_ng_data letter_index make_bi_gram_key shard_of shingle_sum make_shingle_key
tests =
    let bound : prefix_upper_bound (97 ∷ 255 ∷ []) ≡ some (98 ∷ []) = refl in
    let none_above : prefix_upper_bound (255 ∷ 255 ∷ []) ≡ none = refl in
    let entry : enc_pos_entry 1 5 ≡ 11 = refl in
    let header : dec_pos_entry (enc_pos_entry header_type 5) ≡ (0, 53) = refl in
    let key : make_bi_gram_key 98 67 ≡ 28 = refl in
    let shard : shard_of 48 ≡ none = refl in
    let sum : make_shingle_key (65535 ∷ 3 ∷ []) ≡ 2 = refl in
    let counter : dec_count (enc_count 4294967298) ≡ some 2 = refl in tt

abbrev two_words : List Position
two_words = record { place = 3; kind = body_type } ∷ record { place = 7; kind = header_type } ∷ []

prefix_upper_bound_range_example :
    (not (text_lt (98 ∷ []) (97 ∷ 255 ∷ []))
      && below_bound (prefix_upper_bound (97 ∷ 255 ∷ [])) (98 ∷ []))
    ≡ has_prefix (98 ∷ []) (97 ∷ 255 ∷ [])
prefix_upper_bound_range_example =
    prefix_upper_bound_range (97 ∷ 255 ∷ []) (98 ∷ []) (omega arith, (omega arith, tt))
      (omega arith, tt)

unmarshal_wcp-marshal_wcp_example :
    unmarshal_wcp (marshal_wcp (stored_positions 2 two_words))
    ≡ ok (record { count = 2; positions = map reread (take 500 two_words) })
unmarshal_wcp-marshal_wcp_example = unmarshal_wcp-marshal_wcp 2 two_words refl (omega arith)

abbrev stored_header : List ℕ
stored_header = 1 ∷ 0 ∷ 104 ∷ 0 ∷ 0 ∷ 0 ∷ []

read_header :
    unmarshal_wcp stored_header
    ≡ ok (record { count = 1; positions = record { place = 52; kind = 0 } ∷ [] })
unfolding unmarshal_wcp read_entries read_le32 dec_pos_entry
read_header = refl

has_header_unmarshalled_example :
    (1 ≤ 1 → has_header 1 (record { place = 52; kind = 0 } ∷ []) ≡ some false)
    × (1 < 1 → has_header 1 (record { place = 52; kind = 0 } ∷ []) ≡ none)
    × (min 1 500 ≡ 1)
has_header_unmarshalled_example =
    has_header_unmarshalled stored_header
      (record { count = 1; positions = record { place = 52; kind = 0 } ∷ [] }) 1 read_header

dec_ng_data-enc_ng_data_example : dec_ng_data (enc_ng_data 70000 99) ≡ (70000 % 2 ^ 24, 99)
dec_ng_data-enc_ng_data_example = dec_ng_data-enc_ng_data 70000 99 (omega arith)
