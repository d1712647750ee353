-- ===== src/Codec/Entries.antt =====
-- The counters and the trigram entries.
use wfts.Common.{ℕ, ◌+◌, ◌*◌, ◌/◌, ◌%◌, ◌^◌, ◌<◌, ◌≡◌, ap, some, arith}
use Prim.Native.Nat.{bit_or}
use wfts.Common.Bits.{bit_or-shifted}
use wfts.Codec.{u32_mod, enc_count, dec_count, enc_ng_data, dec_ng_data}

-- A counter comes back modulo 2 ^ 32.
pub dec_count-enc_count : (n : ℕ) → dec_count (enc_count n) ≡ some (n % u32_mod)
unfolding dec_count enc_count
dec_count-enc_count n = ap some (omega arith)

-- A trigram entry gives the last letter back, and the word's number modulo 2 ^ 24.
pub dec_ng_data-enc_ng_data :
    (word_id last_let : ℕ)
    → last_let < 256
    → dec_ng_data (enc_ng_data word_id last_let) ≡ (word_id % 2 ^ 24, last_let)
unfolding dec_ng_data enc_ng_data
dec_ng_data-enc_ng_data w l h =
    let cut : w * 256 % u32_mod ≡ w % 2 ^ 24 * 2 ^ 8 = omega arith in
    let join : bit_or (w * 256 % u32_mod) l ≡ w % 2 ^ 24 * 256 + l =
      rw cut (bit_or-shifted 8 (w % 2 ^ 24) l (omega arith)) in
    let high : (w % 2 ^ 24 * 256 + l) / 256 ≡ w % 2 ^ 24 = omega arith in
    let low : (w % 2 ^ 24 * 256 + l) % 256 ≡ l = omega arith in rw join (rw (high, low))
