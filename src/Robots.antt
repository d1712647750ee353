-- ===== src/Robots.antt =====
-- internal/utils/parser/robotsTXT.go: the parser of robots.txt and its answer to whether a path may
-- be fetched. A text is the list of its bytes; white space and letter case are those of ASCII. A
-- Rule is a struct, so that storing `*currentRule` in the map stores a copy. `none` is a panic.
-- FetchRobotsTxt, which only calls package http, is left out.
pub mod Stored
mod Tests
use wfts.Common.{
  leb, if◌then◌else◌, ◌==◌, length, ℕ, zero, suc, ◌+◌, ◌-◌, ◌*◌, ◌^◌, min, Bool, true, false, ◌&&◌,
  ◌||◌, Option, none, some, List, [], ◌∷◌, ◌++◌,
}
use wfts.Common.Partial.{◌>>=◌}
use wfts.Common.Texts.{codes, text_eq, has_prefix, trim_space, to_lower, fields, split_lines}

pub data ℤ : Type 0 where
  pos : ℕ → ℤ
  negsuc : ℕ → ℤ

pub record Rule : Type 0 where
  pub allow : List (List ℕ)
  pub disallow : List (List ℕ)
  pub delay : ℤ

abbrev pub empty_rule : Rule
empty_rule = record { allow = []; disallow = []; delay = pos 0 }

abbrev pub RobotsTxt : Type 0
RobotsTxt = List (List ℕ × Rule)

pub get_rule : List ℕ → RobotsTxt → Option Rule
get_rule k [] = none
get_rule k ((j, r) ∷ m) = if text_eq j k then some r else get_rule k m

pub put_rule : List ℕ → Rule → RobotsTxt → RobotsTxt
put_rule k r [] = (k, r) ∷ []
put_rule k r ((j, q) ∷ m) = if text_eq j k then (k, r) ∷ m else (j, q) ∷ put_rule k r m

-- `strconv.Atoi` with its error dropped: 0 for what is no number, and clamped to an int64.
pub digits_from : ℕ → List ℕ → Option ℕ
digits_from acc [] = some acc
digits_from acc (c ∷ s) =
    let rest = digits_from (acc * 10 + (c - 48)) s in if leb 48 c && leb c 57 then rest else none

pub unsigned : List ℕ → Option ℕ
unsigned [] = none
unsigned (c ∷ s) = digits_from 0 (c ∷ s)

abbrev pub clamp_neg : Option ℕ → ℤ
clamp_neg none = pos 0
clamp_neg (some zero) = pos 0
clamp_neg (some (suc n)) = negsuc (min n (2 ^ 63 - 1))

abbrev pub clamp_pos : Option ℕ → ℤ
clamp_pos none = pos 0
clamp_pos (some n) = pos (min n (2 ^ 63 - 1))

pub atoi : List ℕ → ℤ
atoi [] = pos 0
atoi (c ∷ s) =
    if c == 45
    then clamp_neg (unsigned s)
    else if c == 43
    then clamp_pos (unsigned s)
    else clamp_pos (unsigned (c ∷ s))

pub record Parser : Type 0 where
  pub rules : RobotsTxt
  pub current_rule : Option Rule

abbrev pub update_current : (Rule → Rule) → Parser → Parser
update_current f st = elim st.current_rule [
  | none ↦ st
  | some r ↦ record st { current_rule = some (f r) }
]

-- `robots.Rules[currentAgent] = *currentRule`
pub store_current : List ℕ → Parser → Option Parser
store_current agent st = elim st.current_rule [
  | none ↦ none
  | some r ↦ some (record st { rules = put_rule agent r st.rules })
]

pub user_agent : List ℕ → Parser → Option Parser
user_agent agent st = elim (get_rule agent st.rules) [
  | none ↦ store_current agent (record st { current_rule = some empty_rule })
  | some _ ↦ store_current agent st
]

-- The switch over the directive.
pub directive : List ℕ → List ℕ → Parser → Option Parser
directive name value st =
    if text_eq name (codes "user-agent:")
    then user_agent value st
    else if text_eq name (codes "allow:")
    then some (update_current (λ r. record r { allow = r.allow ++ value ∷ [] }) st)
    else if text_eq name (codes "disallow:")
    then some (update_current (λ r. record r { disallow = r.disallow ++ value ∷ [] }) st)
    else if text_eq name (codes "crawl-delay:")
    then some (update_current (λ r. record r { delay = atoi value }) st)
    else some st

-- The two fields that a line contributes, unless it is empty, a comment, or too short.
pub split_directive : List ℕ → Option (List ℕ × List ℕ)
split_directive raw =
    let line = trim_space raw in
    if length line == 0 || has_prefix line (codes "#") then none else elim (fields line) [
      | [] ↦ none
      | (d ∷ rest) ↦ elim rest [ [] ↦ none | (v ∷ _) ↦ some (to_lower d, v) ]
    ]

abbrev pub step_line : Option (List ℕ × List ℕ) → Parser → Option Parser
step_line none st = some st
step_line (some (d, v)) st = directive d v st

pub parse_lines : List (List ℕ) → Parser → Option Parser
parse_lines [] st = some st
parse_lines (l ∷ ls) st = step_line (split_directive l) st >>= parse_lines ls

abbrev pub start : Parser
start = record { rules = []; current_rule = none }

pub parse_robots_txt : List ℕ → Option RobotsTxt
parse_robots_txt content = parse_lines (split_lines content) start >>= λ st. some st.rules

-- The loops over `rule.Disallow` and `rule.Allow`.
pub any_prefix : List ℕ → List (List ℕ) → Bool
any_prefix url [] = false
any_prefix url (p ∷ ps) = has_prefix url p || any_prefix url ps

pub is_allowed : RobotsTxt → List ℕ → List ℕ → Bool
is_allowed r agent url = elim (get_rule agent r) [
  | none ↦ true
  | some rule ↦
      if any_prefix url rule.disallow
      then false
      else if any_prefix url rule.allow
      then true
      else true
]
