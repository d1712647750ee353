-- ===== src/FileQueue/Laws.antt =====
-- What Push and Pop do to the file, seen as a stack of byte strings.
use wfts.Common.{
  length, get_or, take, drop, length-append, length-take, take-append, drop-append,
  get_or-append_right, ok, panic, ℕ, ◌+◌, ◌-◌, ◌%◌, ◌≤◌, ◌<◌, ◌≡◌, refl, ◌∙◌, ◌≢◌, ◌↔◌, false,
  Option, none, some, List, ◌++◌, arith,
}
use native.Mathlib.Nat.{add_assoc, mod-le}
use wfts.FileQueue.{append_bytes, Stack, Faults, no_faults, put_uint16, uint16_at, push, pop}

module _ (base d : List ℕ) (n : ℕ) where
  pub length-frame : length (base ++ (d ++ put_uint16 n)) ≡ length base + length d + 2
  length-frame =
      omega (arith, length-append base (d ++ put_uint16 n), length-append d (put_uint16 n))

  get_or-frame :
      (k : ℕ)
      → get_or (base ++ (d ++ put_uint16 n)) (length base + length d + k) 0
        ≡ get_or (put_uint16 n) k 0
  get_or-frame k = rw (add_assoc (length base) (length d) k) (
      get_or-append_right base (d ++ put_uint16 n) (length d + k) 0
      ∙ get_or-append_right d (put_uint16 n) k 0)

  -- The header that Push writes is read back by Pop.
  uint16_at-frame : n < 65536 → uint16_at (base ++ (d ++ put_uint16 n)) (length base + length d) ≡ n
  uint16_at-frame h =
      let start : length base + length d + 0 ≡ length base + length d = omega arith in
      omega (arith, rw start at (get_or-frame 0), get_or-frame 1)

  take_body-frame : take (length d) (drop (length base) (base ++ (d ++ put_uint16 n))) ≡ d
  take_body-frame =
      rw (drop-append base (d ++ put_uint16 n) (length base) refl)
        (take-append d (put_uint16 n) (length d) refl)

-- A file that ends in a frame gives the frame's data to Pop, and is cut back to what stood below.
pub pop-frame :
    (base d : List ℕ) (m : ℕ)
    → length d < 65536
    → pop no_faults (record { rw_file = base ++ (d ++ put_uint16 (length d)); m_offset = m })
      ≡ (record { rw_file = base; m_offset = m }, ok d)
unfolding pop
pop-frame base d m h =
    let file = base ++ (d ++ put_uint16 (length d)) in
    let size = length-frame base d (length d) in
    let start : length file - 2 ≡ length base + length d = omega arith in
    let len : uint16_at file (length file - 2) ≡ length d =
      rw start (uint16_at-frame base d (length d) h) in
    let offset : length file - 2 - length d ≡ length base = omega arith in
    let kept : take (length base) file ≡ base = take-append base _ (length base) refl in
    rw (len, offset, kept, take_body-frame) (ground (arith, size))

-- With room in the file and a length that the header can hold, Push appends one frame.
pub push-frame :
    (st : Stack) (d : List ℕ)
    → length st.rw_file ≤ st.m_offset
    → length d % 65536 < 65534
    → push no_faults st d ≡ (
      record st {
        rw_file = st.rw_file ++ (take (length d % 65536) d ++ put_uint16 (length d % 65536));
      },
      ok tt,
    )
unfolding push
push-frame st d room short = ground arith

-- Where no call of package os fails, the file is within its limit and the length of the data modulo 2 ^ 16 is below
-- 65534, Pop after Push gives the data back, cut to its length modulo 2 ^ 16, and leaves the file as it was; so
-- every byte string of at most 65533 bytes comes back whole.
pub pop-push :
    (st : Stack) (d : List ℕ)
    → length st.rw_file ≤ st.m_offset
    → length d % 65536 < 65534
    → pop no_faults (push no_faults st d).0 ≡ (st, ok (take (length d % 65536) d))
pop-push st d room short =
    let r = length d % 65536 in
    let cut : length (take r d) ≡ r = omega (arith, length-take r d, mod-le (length d) 65536) in
    rw (push-frame st d room short)
      (rw cut at (pop-frame st.rw_file (take r d) st.m_offset (omega arith)))

append_bytes-no_panic :
    (st : Stack) (bytes : List ℕ) (w : Option ℕ) → (append_bytes st bytes w).1 ≢ panic
append_bytes-no_panic st bytes none h = cc
append_bytes-no_panic st bytes (some n) h = cc

push_panics :
    (fs : Faults) (st : Stack) (d : List ℕ)
    → (push fs st d).1 ≡ panic
    → (fs.seek_end ≡ false) × (length st.rw_file ≤ st.m_offset) × (65534 ≤ length d % 65536)
unfolding push
push_panics fs st d h =
    let len = length d % 65536 in
    let fine = append_bytes-no_panic st (take len d ++ put_uint16 len) fs.write in
    (ground (arith, h), ground (arith, h), ground (arith, h, fine))

-- Push panics exactly when the end of the file is found, the file is within its limit, and the length of the data
-- is 65534 or 65535 modulo 2 ^ 16, since two bytes more do not fit a uint16; the file is then as it was. In all other
-- cases, failing calls included, it returns.
pub push-panic :
    (fs : Faults) (st : Stack) (d : List ℕ)
    → ((push fs st d).1 ≡ panic
        ↔ (fs.seek_end ≡ false) × (length st.rw_file ≤ st.m_offset) × (65534 ≤ length d % 65536))
      × ((push fs st d).1 ≡ panic → (push fs st d).0 ≡ st)
unfolding push
push-panic fs st d = (
  (push_panics fs st d, λ (seek, room, long). ground arith),
  λ h. let (seek, room, long) = push_panics fs st d h in ground arith,
)
