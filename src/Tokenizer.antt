-- ===== src/Tokenizer.antt =====
-- internal/services/wfts/offline/indexer/textHandling/tokenizer.go: the tokens of a text. A text is the
-- list of its bytes, which are ASCII, so that a byte is a rune, the classes of package unicode are
-- those of ASCII, and lower case keeps the length; of other texts the definitions say nothing. The matches of the regular expressions are a parameter: `matches`, from a type of
-- token and the text to the pairs of indices that FindAllStringIndex of package regexp gives.
pub mod Cover
pub mod Whole
mod Tests
use wfts.Common.{
  ltb, leb, if◌then◌else◌, ◌==◌, length, take, drop, ℕ, ◌+◌, ◌-◌, Bool, true, false, not, ◌&&◌,
  ◌||◌, List, [], ◌∷◌, ◌++◌,
}
use wfts.Common.Texts.{to_lower}

pub data TokenType : Type 0 where
  word : TokenType
  number : TokenType
  whitespace : TokenType
  symbol : TokenType
  unknown : TokenType
  email_addr : TokenType
  url_addr : TokenType
  ip_v4_addr : TokenType

pub record Token : Type 0 where
  pub kind : TokenType
  pub value : List ℕ
  pub start_pos : ℕ
  pub end_pos : ℕ

unfoldable pub is_word : TokenType → Bool
is_word word = true
is_word _ = false

-- `t.Type != UNKNOWN && t.Type != WHITESPACE`
unfoldable pub is_kept : TokenType → Bool
is_kept unknown = false
is_kept whitespace = false
is_kept _ = true

-- The number of a type: its place in the `const` block.
unfoldable pub type_number : TokenType → ℕ
type_number word = 0
type_number number = 1
type_number whitespace = 2
type_number symbol = 3
type_number unknown = 4
type_number email_addr = 5
type_number url_addr = 6
type_number ip_v4_addr = 7

abbrev pub same_type : TokenType → TokenType → Bool
same_type a b = type_number a == type_number b

-- The classes of the runes below 128; white space is tab to carriage return, and space.
unfoldable pub get_rune_type : ℕ → TokenType
get_rune_type r =
    if leb 97 r && leb r 122
    then word
    else if leb 48 r && leb r 57
    then number
    else if (leb 9 r && leb r 13) || r == 32
    then whitespace
    else if (leb 33 r && leb r 64) || (leb 91 r && leb r 96) || (leb 123 r && leb r 126)
    then symbol
    else unknown

-- What is appended for the buffer when its run of runes ends.
unfoldable pub flush : ℕ → ℕ → TokenType → List ℕ → List Token
flush base start kind buffer =
    if ltb 0 (length buffer) && not (same_type kind whitespace)
    then record {
      kind = kind;
      value = buffer;
      start_pos = base + start;
      end_pos = base + start + length buffer;
    }
      ∷ []
    else []

-- The loop of fragmentTokenize, over the runes to come, and the flush after it.
unfoldable pub fragment_loop : ℕ → ℕ → TokenType → List ℕ → List ℕ → List Token
fragment_loop base start kind buffer [] = flush base start kind buffer
fragment_loop base start kind buffer (r ∷ runes) =
    let first = fragment_loop base start (get_rune_type r) (r ∷ []) runes in
    let grow = fragment_loop base start kind (buffer ++ r ∷ []) runes in
    let cut =
      flush base start kind buffer
      ++ fragment_loop base (start + length buffer) (get_rune_type r) (r ∷ []) runes in
    if length buffer == 0 then first else if same_type (get_rune_type r) kind then grow else cut

-- The text is of ASCII.
unfoldable pub fragment_tokenize : List ℕ → ℕ → List Token
fragment_tokenize text_fragment global_start_pos =
    fragment_loop global_start_pos 0 unknown [] (to_lower text_fragment)

-- `input[start:end]`
abbrev pub slice : List ℕ → ℕ → ℕ → List ℕ
slice input start end = take (end - start) (drop start input)

unfoldable pub entity_tokens : List ℕ → TokenType → List (ℕ × ℕ) → List Token
entity_tokens input kind [] = []
entity_tokens input kind ((start, end) ∷ found) =
    record { kind = kind; value = slice input start end; start_pos = start; end_pos = end }
    ∷ entity_tokens input kind found

-- The comparison of the sort; at equal starts it says `startPos - endPos` is greater.
unfoldable pub goes_before : Token → Token → Bool
goes_before s t =
    if s.start_pos == t.start_pos then ltb s.end_pos t.end_pos else ltb s.start_pos t.start_pos

-- sort.SliceStable
unfoldable pub insert_token : Token → List Token → List Token
insert_token t [] = t ∷ []
insert_token t (s ∷ ts) = if goes_before s t then s ∷ insert_token t ts else t ∷ s ∷ ts

unfoldable pub sort_tokens : List Token → List Token
sort_tokens [] = []
sort_tokens (t ∷ ts) = insert_token t (sort_tokens ts)

-- The greedy choice; the first bound is 0 for -1, since a start is not negative.
unfoldable pub select_tokens : ℕ → List Token → List Token
select_tokens last_selected_pos [] = []
select_tokens last_selected_pos (t ∷ ts) =
    let taken = t ∷ select_tokens t.end_pos ts in
    let passed = select_tokens last_selected_pos ts in
    if leb last_selected_pos t.start_pos then taken else passed

-- The last loop of entityTokenize, and the rest of the text after it.
unfoldable pub final_tokens : List ℕ → ℕ → List Token → List Token
final_tokens input current_text_pos [] =
    if ltb current_text_pos (length input)
    then fragment_tokenize (drop current_text_pos input) current_text_pos
    else []
final_tokens input current_text_pos (t ∷ ts) =
    let rest = t ∷ final_tokens input t.end_pos ts in
    if ltb current_text_pos t.start_pos
    then fragment_tokenize (slice input current_text_pos t.start_pos) current_text_pos ++ rest
    else rest

unfoldable pub entity_tokenize : (TokenType → List ℕ → List (ℕ × ℕ)) → List ℕ → List Token
entity_tokenize matches input =
    let potential =
      entity_tokens input email_addr (matches email_addr input)
      ++ (entity_tokens input ip_v4_addr (matches ip_v4_addr input)
          ++ entity_tokens input url_addr (matches url_addr input)) in
    final_tokens input 0 (select_tokens 0 (sort_tokens potential))
