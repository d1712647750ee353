-- ===== src/Tokenizer/Whole.antt =====
-- The tokens of a whole text.
use wfts.Common.{length, ℕ, ◌≤◌, ◌<◌, ◌≡◌, true, List, [], ◌∷◌}
use wfts.Tokenizer.{Token, slice}
use wfts.Tokenizer.Cover.{is_entity}

-- A token that a regular expression found in the text.
abbrev IsFound : List ℕ → Token → Type 0
IsFound input t =
    (is_entity t.kind ≡ true)
    × (t.value ≡ slice input t.start_pos t.end_pos)
    × (t.start_pos ≤ t.end_pos)
    × (t.end_pos ≤ length input)

abbrev AllFound : List ℕ → List Token → Type 0
AllFound input [] = Unit
AllFound input (t ∷ ts) = IsFound input t × AllFound input ts

-- Tokens found in the text, each of them after the end of the one before.
abbrev Chained : List ℕ → ℕ → List Token → Type 0
Chained input cur [] = Unit
Chained input cur (t ∷ ts) = (cur ≤ t.start_pos) × IsFound input t × Chained input t.end_pos ts

-- Pairs of indices of the text.
abbrev pub InRange : List ℕ → List (ℕ × ℕ) → Type 0
InRange input [] = Unit
InRange input (m ∷ ms) = (m.0 ≤ m.1) × (m.1 ≤ length input) × InRange input ms

-- A byte that is a rune.
abbrev pub IsAscii : ℕ → Type 0
IsAscii c = c < 128
