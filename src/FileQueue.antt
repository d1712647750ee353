-- ===== src/FileQueue.antt =====
-- internal/services/wfts/offline/scraper/fileQueue.go: the stack of byte strings that the crawler
-- keeps in a file. A frame is the data followed by its length, a little-endian uint16, so that Pop
-- reads backwards from the end. The file is the list of its bytes; `Faults` says which calls of
-- package os fail, and how much a failing Write has written.
pub mod Laws
pub mod Refinement
mod Tests
use wfts.Common.{
  ltb, if◌then◌else◌, length, get_or, take, drop, Result, ok, err, panic, ℕ, ◌+◌, ◌-◌, ◌*◌, ◌/◌,
  ◌%◌, Bool, false, Option, none, some, List, [], ◌∷◌, ◌++◌,
}

pub data Error : Type 0 where
  io_error eof corrupted : Error

pub record Stack : Type 0 where
  pub rw_file : List ℕ
  pub m_offset : ℕ

pub record Faults : Type 0 where
  pub seek_end : Bool
  pub seek_header : Bool
  pub read_header : Bool
  pub read_body : Bool
  pub truncate : Bool
  pub write : Option ℕ

abbrev pub no_faults : Faults
no_faults = record {
  seek_end = false;
  seek_header = false;
  read_header = false;
  read_body = false;
  truncate = false;
  write = none;
}

abbrev pub header_offset : ℕ
header_offset = 2

-- `binary.LittleEndian.PutUint16`, and the reading of such a pair of bytes
abbrev pub put_uint16 : ℕ → List ℕ
put_uint16 n = n % 256 ∷ n / 256 % 256 ∷ []

abbrev pub uint16_at : List ℕ → ℕ → ℕ
uint16_at file i = get_or file i 0 + 256 * get_or file (i + 1) 0

abbrev pub append_bytes : Stack → List ℕ → Option ℕ → Stack × Result Error (Unit {0})
append_bytes st bytes none = (record st { rw_file = st.rw_file ++ bytes }, ok tt)
append_bytes st bytes (some n) = (record st { rw_file = st.rw_file ++ take n bytes }, err io_error)

-- `headerOffset + length` is computed in uint16; `toWrite[length:]` panics past its end.
pub write_frame : Faults → Stack → List ℕ → ℕ → Stack × Result Error (Unit {0})
write_frame fs st bytes len =
    if ltb ((header_offset + len) % 65536) len
    then (st, panic)
    else append_bytes st (take len bytes ++ put_uint16 len) fs.write

pub push : Faults → Stack → List ℕ → Stack × Result Error (Unit {0})
unfolding write_frame
push fs st bytes =
    if fs.seek_end
    then (st, err io_error)
    else if ltb st.m_offset (length st.rw_file)
    then (st, ok tt)
    else write_frame fs st bytes (length bytes % 65536)

pub read_frame : Faults → Stack → ℕ → ℕ → Stack × Result Error (List ℕ)
read_frame fs st size len =
    if ltb (size - header_offset) len
    then (st, err corrupted)
    else if fs.read_body
    then (st, err io_error)
    else if fs.truncate
    then (st, err io_error)
    else (
      record st { rw_file = take (size - header_offset - len) st.rw_file },
      ok (take len (drop (size - header_offset - len) st.rw_file)),
    )

pub pop : Faults → Stack → Stack × Result Error (List ℕ)
unfolding read_frame
pop fs st =
    let size = length st.rw_file in
    if fs.seek_end
    then (st, err io_error)
    else if ltb size header_offset
    then (st, err eof)
    else if fs.seek_header
    then (st, err io_error)
    else if fs.read_header
    then (st, err io_error)
    else read_frame fs st size (uint16_at st.rw_file (size - header_offset))
