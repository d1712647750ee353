-- ===== src/Stemmer.antt =====
-- internal/services/wfts/offline/indexer/textHandling/stemmer.go: the stop words, the suffix rules and
-- the stemmer. A word is the list of its bytes; letter case is that of ASCII. A table of rules is a
-- map in the code, and a `range` over it may visit the rules in any order: `order`, a parameter,
-- lists the rules as they are visited.
pub mod Shape
pub mod Tokens
mod Tests
use wfts.Common.{
  leb, if◌then◌else◌, ◌==◌, length, take, ℕ, ◌+◌, ◌-◌, Bool, true, false, not, ◌&&◌, ◌||◌, some,
  List, [], ◌∷◌, ◌++◌,
}
use mathlib.Core.List.{reverse}
use wfts.Common.Texts.{codes, text_eq, has_prefix, to_lower}

pub record SuffixRule : Type 0 where
  pub suffix : List ℕ
  pub replacement : List ℕ

abbrev rule : List ℕ → List ℕ → SuffixRule
rule s r = record { suffix = s; replacement = r }

abbrev pub step1a_rules : List SuffixRule
step1a_rules =
    rule (codes "sses") (codes "ss")
    ∷ rule (codes "ies") (codes "i")
    ∷ rule (codes "ss") (codes "ss")
    ∷ rule (codes "s") []
    ∷ []

abbrev pub step1b_rules : List SuffixRule
step1b_rules = rule (codes "eed") (codes "ee") ∷ rule (codes "ed") [] ∷ rule (codes "ing") [] ∷ []

abbrev pub step2_rules : List SuffixRule
step2_rules =
    rule (codes "ational") (codes "ate")
    ∷ rule (codes "tional") (codes "tion")
    ∷ rule (codes "enci") (codes "ence")
    ∷ rule (codes "anci") (codes "ance")
    ∷ rule (codes "izer") (codes "ize")
    ∷ rule (codes "abli") (codes "able")
    ∷ rule (codes "alli") (codes "al")
    ∷ rule (codes "entli") (codes "ent")
    ∷ rule (codes "eli") (codes "e")
    ∷ rule (codes "ousli") (codes "ous")
    ∷ rule (codes "ization") (codes "ize")
    ∷ rule (codes "ation") (codes "ate")
    ∷ rule (codes "ator") (codes "ate")
    ∷ rule (codes "alism") (codes "al")
    ∷ rule (codes "iveness") (codes "ive")
    ∷ rule (codes "fulness") (codes "ful")
    ∷ rule (codes "ousness") (codes "ous")
    ∷ rule (codes "aliti") (codes "al")
    ∷ rule (codes "iviti") (codes "ive")
    ∷ rule (codes "biliti") (codes "ble")
    ∷ []

abbrev pub step3_rules : List SuffixRule
step3_rules =
    rule (codes "icate") (codes "ic")
    ∷ rule (codes "ative") []
    ∷ rule (codes "alize") (codes "al")
    ∷ rule (codes "iciti") (codes "ic")
    ∷ rule (codes "ical") (codes "ic")
    ∷ rule (codes "ful") []
    ∷ rule (codes "ness") []
    ∷ []

abbrev pub step4_rules : List SuffixRule
step4_rules =
    rule (codes "al") []
    ∷ rule (codes "ance") []
    ∷ rule (codes "ence") []
    ∷ rule (codes "er") []
    ∷ rule (codes "ic") []
    ∷ rule (codes "able") []
    ∷ rule (codes "ible") []
    ∷ rule (codes "ant") []
    ∷ rule (codes "ement") []
    ∷ rule (codes "ment") []
    ∷ rule (codes "ent") []
    ∷ rule (codes "ion") []
    ∷ rule (codes "ou") []
    ∷ rule (codes "ism") []
    ∷ rule (codes "ate") []
    ∷ rule (codes "iti") []
    ∷ rule (codes "ous") []
    ∷ rule (codes "ive") []
    ∷ rule (codes "ize") []
    ∷ []

abbrev pub english_stops : List (List ℕ)
english_stops =
    codes "a"
    ∷ codes "an"
    ∷ codes "and"
    ∷ codes "are"
    ∷ codes "as"
    ∷ codes "at"
    ∷ codes "be"
    ∷ codes "by"
    ∷ codes "for"
    ∷ codes "from"
    ∷ codes "has"
    ∷ codes "he"
    ∷ codes "in"
    ∷ codes "is"
    ∷ codes "it"
    ∷ codes "its"
    ∷ codes "of"
    ∷ codes "on"
    ∷ codes "that"
    ∷ codes "the"
    ∷ codes "to"
    ∷ codes "was"
    ∷ codes "were"
    ∷ codes "will"
    ∷ codes "with"
    ∷ codes "the"
    ∷ codes "this"
    ∷ codes "but"
    ∷ codes "they"
    ∷ codes "have"
    ∷ codes "had"
    ∷ codes "what"
    ∷ codes "when"
    ∷ codes "where"
    ∷ codes "who"
    ∷ codes "which"
    ∷ codes "why"
    ∷ codes "how"
    ∷ codes "all"
    ∷ codes "any"
    ∷ codes "both"
    ∷ codes "each"
    ∷ codes "few"
    ∷ codes "more"
    ∷ codes "most"
    ∷ codes "other"
    ∷ codes "some"
    ∷ codes "such"
    ∷ codes "no"
    ∷ codes "nor"
    ∷ codes "not"
    ∷ codes "only"
    ∷ codes "own"
    ∷ codes "same"
    ∷ codes "so"
    ∷ codes "than"
    ∷ codes "too"
    ∷ codes "very"
    ∷ []

unfoldable pub is_among : List ℕ → List (List ℕ) → Bool
is_among w [] = false
is_among w (x ∷ xs) = text_eq w x || is_among w xs

unfoldable pub is_stop_word : List ℕ → Bool
is_stop_word word = is_among (to_lower word) english_stops

abbrev pub is_vowel : ℕ → Bool
is_vowel c = c == 97 || c == 101 || c == 105 || c == 111 || c == 117

-- The loop of `measure`, from `m` and `hasVowel` on.
unfoldable pub measure_from : ℕ → Bool → List ℕ → ℕ
measure_from m has_vowel [] = m
measure_from m has_vowel (c ∷ w) =
    let vowel = measure_from m true w in
    let closed = measure_from (m + 1) false w in
    let other = measure_from m false w in
    if is_vowel c then vowel else if has_vowel then closed else other

unfoldable pub measure : List ℕ → ℕ
measure word = measure_from 0 false word

-- strings.HasSuffix and strings.TrimSuffix
unfoldable pub has_suffix : List ℕ → List ℕ → Bool
has_suffix s p = has_prefix (reverse s) (reverse p)

unfoldable pub trim_suffix : List ℕ → List ℕ → List ℕ
trim_suffix s p = if has_suffix s p then take (length s - length p) s else s

-- The rules in the order of the visit; `least` is the threshold plus one, so that the test is `≥`.
unfoldable pub trim_rule_suffix : List ℕ → List SuffixRule → ℕ → List ℕ
trim_rule_suffix word [] least = word
trim_rule_suffix word (r ∷ rs) least =
    let cut = trim_suffix word r.suffix in
    let rest = trim_rule_suffix word rs least in
    if has_suffix word r.suffix && leb least (measure cut) then cut ++ r.replacement else rest

unfoldable pub stem : (List SuffixRule → List SuffixRule) → List ℕ → List ℕ
stem order word =
    let word1 = trim_rule_suffix word (order step1a_rules) 0 in
    let word2 = trim_rule_suffix word1 (order step1b_rules) 1 in
    let word3 = trim_rule_suffix word2 (order step2_rules) 1 in
    let word4 = trim_rule_suffix word3 (order step3_rules) 1 in
    let word5 = trim_rule_suffix word4 (order step4_rules) 2 in
    if is_stop_word word then [] else if leb (length word) 2 then word else word5
