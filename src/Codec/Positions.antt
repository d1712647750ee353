-- ===== src/Codec/Positions.antt =====
-- The word counts and their positions: what comes back of what is stored.
use wfts.Common.{
  ltb, leb, if◌then◌else◌, Bool-cases, Option-cases, length, take, drop, replicate, length-take,
  take_of_length-le, ok, ℕ, zero, suc, ◌+◌, ◌*◌, ◌/◌, ◌%◌, ◌^◌, ◌≤◌, ◌<◌, min, ◌≡◌, refl, sym, ap,
  subst, inl, inr, Bool, false, Option, none, some, List, [], ◌∷◌, ◌++◌, map, arith,
}
use Prim.Native.Nat.{bit_and, bit_or}
use wfts.Common.Bits.{bit_or_step, bit_and-one, bit_or-shifted}
use wfts.Codec.{
  u32_mod, le32, read_le16, Position, WordCountAndPositions, enc_pos_entry, dec_pos_entry,
  read_le32, write_entries, marshal_wcp, read_entries, unmarshal_wcp, stored_positions, has_header,
}

-- The type of a decoded entry is the lowest bit of the type that was encoded.
dec_pos_entry-kind : (a p : ℕ) → (dec_pos_entry (enc_pos_entry a p)).0 ≡ a % 2
unfolding dec_pos_entry enc_pos_entry
dec_pos_entry-kind a p =
    omega (arith, bit_and-one (bit_or (p * 2) a % u32_mod), bit_or_step (p * 2) a)

-- An entry comes back as it was if its type is 0 or 1 and its place below 2 ^ 31.
pub dec_pos_entry-enc_pos_entry :
    (a p : ℕ) → a < 2 → p < 2 ^ 31 → dec_pos_entry (enc_pos_entry a p) ≡ (a, p)
unfolding dec_pos_entry enc_pos_entry
dec_pos_entry-enc_pos_entry a p ha hp =
    let join : bit_or (p * 2) a ≡ p * 2 + a = bit_or-shifted 1 p a (omega arith) in
    let fits : (p * 2 + a) % u32_mod ≡ p * 2 + a = omega arith in
    let kind : bit_and (p * 2 + a) 1 ≡ a = omega (arith, bit_and-one (p * 2 + a)) in
    let place : (p * 2 + a) / 2 ≡ p = omega arith in rw (join, fits) (rw (kind, place))

-- A position as it comes back from the store.
abbrev pub reread : Position → Position
reread p = record {
  place = (dec_pos_entry (enc_pos_entry p.kind p.place)).1;
  kind = (dec_pos_entry (enc_pos_entry p.kind p.place)).0;
}

read_le32-enc :
    (a p : ℕ) (s : List ℕ) → read_le32 (le32 (enc_pos_entry a p) ++ s) ≡ some (enc_pos_entry a p)
unfolding read_le32 enc_pos_entry
read_le32-enc a p s = ap some (omega arith)

read_entries-write_entries :
    (ps : List Position) (s : List ℕ)
    → read_entries (length ps) (write_entries ps ++ s) ≡ some (map reread ps)
unfolding read_entries write_entries
read_entries-write_entries [] s = refl
read_entries-write_entries (p ∷ ps) s =
    ground
      (arith, read_le32-enc p.kind p.place (write_entries ps ++ s), read_entries-write_entries ps s)

unmarshal_wcp-count :
    (count : ℕ) (qs : List Position)
    → count < 65536
    → min count 500 ≡ length qs
    → unmarshal_wcp (marshal_wcp (record { count = count; positions = qs }))
      ≡ ok (record { count = count; positions = map reread qs })
unfolding unmarshal_wcp marshal_wcp
unmarshal_wcp-count count qs small size =
    let body = write_entries qs ++ replicate (4 * length qs) 0 in
    let long : ltb (suc (suc (length body))) 2 ≡ false = ground arith in
    let whole : count % 65536 % 256 + 256 * (count % 65536 / 256 % 256) ≡ count = omega arith in
    rw (long, whole, size, read_entries-write_entries qs (replicate (4 * length qs) 0))

stored_positions-take :
    (freq : ℕ) (ps : List Position) → (stored_positions freq ps).positions ≡ take 500 ps
unfolding stored_positions
stored_positions-take freq ps = elim (Bool-cases (ltb 500 (length ps))) [
  | inl long ↦ ground (arith, long)
  | inr short ↦ let kept = take_of_length-le 500 ps (ground (arith, short)) in rw short (sym kept)
]

-- What IndexDocumentWords stores of a word with a frequency below 65536 is read back with its count
-- and with each of its first 500 positions as the entry encoding keeps it.
pub unmarshal_wcp-marshal_wcp :
    (freq : ℕ) (ps : List Position)
    → freq ≡ length ps
    → freq < 65536
    → unmarshal_wcp (marshal_wcp (stored_positions freq ps))
      ≡ ok (record { count = freq; positions = map reread (take 500 ps) })
unfolding stored_positions
unmarshal_wcp-marshal_wcp freq ps size small =
    let known =
      unmarshal_wcp-count freq (take 500 ps) small (omega (arith, size, length-take 500 ps)) in
    rw (stored_positions-take freq ps) known

-- The result of the search of `m` positions, where there are `n` of them and no header word.
abbrev no_header : ℕ → ℕ → Option Bool
no_header m n = if leb m n then some false else none

abbrev entry : ℕ → Position
entry d = record { place = (dec_pos_entry d).1; kind = (dec_pos_entry d).0 }

read_entries-has_header :
    (n : ℕ) (s : List ℕ) (ps : List Position) (m : ℕ)
    → read_entries n s ≡ some ps
    → (has_header m ps ≡ no_header m n) × (length ps ≡ n)
unfolding read_entries has_header
read_entries-has_header zero s ps zero e = ground (arith, e)
read_entries-has_header zero s ps (suc m) e = ground (arith, e)
read_entries-has_header (suc n) s ps m e = elim (Option-cases (read_le32 s)) [
  | inl none_left ↦ absurd (ground (arith, none_left, e))
  | inr (d, found) ↦ elim (Option-cases (read_entries n (drop 4 s))) [
    | inl none_left ↦ absurd (ground (arith, found, none_left, e))
    | inr (qs, more) ↦
        let whole : entry d ∷ qs ≡ ps = ground (arith, found, more, e) in
        subst (λ l. (has_header m l ≡ no_header m (suc n)) × (length l ≡ suc n)) whole
          (with_first d qs n m (λ k. read_entries-has_header n (drop 4 s) qs k more))
  ]
]
  where
    with_first :
        (d : ℕ) (qs : List Position) (n m : ℕ)
        → ((k : ℕ) → (has_header k qs ≡ no_header k n) × (length qs ≡ n))
        → (has_header m (entry d ∷ qs) ≡ no_header m (suc n)) × (suc (length qs) ≡ suc n)
    with_first d qs n zero ih = (ground arith, ap suc (ih 0).1)
    with_first d qs n (suc m) ih =
        let kind : (dec_pos_entry d).0 ≡ d % 2 =
          unfold dec_pos_entry in ground (arith, bit_and-one d) in
        let (rest, len) = ih m in (ground (arith, kind, rest), ap suc len)

-- No position that is read from the store has the header's type, whatever the bytes are: the search for a header
-- word in `n` of the positions fails, and panics where there are fewer. There are as many as Search looks at.
pub has_header_unmarshalled :
    (s : List ℕ) (w : WordCountAndPositions) (n : ℕ)
    → unmarshal_wcp s ≡ ok w
    → (n ≤ length w.positions → has_header n w.positions ≡ some false)
      × (length w.positions < n → has_header n w.positions ≡ none)
      × (min w.count 500 ≡ length w.positions)
unfolding unmarshal_wcp
has_header_unmarshalled s w n e =
    elim (Option-cases (read_entries (min (read_le16 s) 500) (drop 2 s))) [
      | inl lost ↦ absurd (ground (arith, lost, e))
      | inr (ps, found) ↦
          let same : w.positions ≡ ps = ground (arith, found, e) in
          let counted : w.count ≡ read_le16 s = ground (arith, found, e) in
          let (result, len) =
            read_entries-has_header (min (read_le16 s) 500) (drop 2 s) ps n found in
          let count : min w.count 500 ≡ length w.positions = rw (same, counted) (sym len) in
          (
            λ few. ground (arith, result, same, len, count),
            λ more. ground (arith, result, same, len, count),
            count,
          )
    ]
