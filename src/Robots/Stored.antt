-- ===== src/Robots/Stored.antt =====
-- What the parser stores, and what follows for the answers.
use wfts.Common.{
  if◌then◌else◌, Bool-cases, Option-cases, ℕ, ◌≡◌, refl, inl, inr, Bool, true, false, not, ◌||◌,
  Option, none, some, List, [], ◌∷◌, arith,
}
use wfts.Common.Partial.{Yields, yields, Yields-bind, Yields-inv}
use wfts.Common.Texts.{codes, text_eq, text_eq_iff, text_eq_refl, split_lines}
use wfts.Robots.{
  Rule, empty_rule, RobotsTxt, get_rule, put_rule, Parser, update_current, store_current,
  user_agent, directive, split_directive, step_line, parse_lines, start, parse_robots_txt,
  any_prefix, is_allowed,
}

-- IsAllowed refuses exactly the paths that begin with a Disallow entry of the agent's stored rule;
-- the Allow entries never change the answer.
is_allowed_disallow :
    (r : RobotsTxt) (agent url : List ℕ)
    → is_allowed r agent url
      ≡ elim (get_rule agent r) [ none ↦ true | some rule ↦ not (any_prefix url rule.disallow) ]
unfolding is_allowed
is_allowed_disallow r agent url = ground arith

get_rule-put_rule :
    (k j : List ℕ) (r : Rule) (m : RobotsTxt)
    → get_rule k (put_rule j r m) ≡ (if text_eq j k then some r else get_rule k m)
unfolding get_rule put_rule
get_rule-put_rule k j r [] = refl
get_rule-put_rule k j r ((i, q) ∷ m) =
    ground (arith, text_eq_iff i j, text_eq_iff i k, text_eq_iff j k, get_rule-put_rule k j r m)

-- A parser can store its current rule once it has stored any rule.
abbrev Ready : Parser → Type 0
Ready st = st.current_rule ≡ none → st.rules ≡ []

-- The cases of the switch: a rule is stored, the current rule is changed, or nothing happens.
directive-Yields :
    (P : Parser → Type 0) (name value : List ℕ) (st : Parser)
    → (text_eq name (codes "user-agent:") ≡ true → Yields P (user_agent value st))
    → ((f : Rule → Rule) → P (update_current f st))
    → P st
    → Yields P (directive name value st)
unfolding directive
directive-Yields P name value st user update same =
    elim (Bool-cases (text_eq name (codes "user-agent:"))) [
      | inl e ↦ rw e (user e)
      | inr e ↦ rw e (elim (Bool-cases (text_eq name (codes "allow:"))) [
        | inl a ↦ rw a (yields (update _))
        | inr a ↦ rw a (elim (Bool-cases (text_eq name (codes "disallow:"))) [
          | inl d ↦ rw d (yields (update _))
          | inr d ↦ rw d (elim (Bool-cases (text_eq name (codes "crawl-delay:"))) [
            | inl c ↦ rw c (yields (update _))
            | inr c ↦ rw c (yields same)
          ])
        ])
      ])
    ]

update_current-Ready : (f : Rule → Rule) (st : Parser) → Ready st → Ready (update_current f st)
update_current-Ready f st h = ground arith

user_agent-Ready : (agent : List ℕ) (st : Parser) → Ready st → Yields Ready (user_agent agent st)
unfolding user_agent store_current
user_agent-Ready agent st h = elim (Option-cases (get_rule agent st.rules)) [
  | inl new ↦ rw (new, user_agent) (yields (λ e. cc))
  | inr (r, old) ↦ elim (Option-cases st.current_rule) [
    | inl e ↦
        let gone : get_rule agent st.rules ≡ none = rw (h e) (unfold get_rule in refl) in
        absurd (cc)
    | inr (c, e) ↦ rw (old, e, user_agent) (yields (λ k. cc))
  ]
]

parse_lines-Ready : (ls : List (List ℕ)) (st : Parser) → Ready st → Yields Ready (parse_lines ls st)
unfolding parse_lines
parse_lines-Ready [] st h = yields h
parse_lines-Ready (l ∷ ls) st h =
    Yields-bind (step (split_directive l)) λ st' h'. parse_lines-Ready ls st' h'
  where
    step : (d : Option (List ℕ × List ℕ)) → Yields Ready (step_line d st)
    step none = yields h
    step (some (name, value)) =
        directive-Yields Ready name value st (λ e. user_agent-Ready value st h)
          (λ f. update_current-Ready f st h) h

-- ParseRobotsTxt returns on every text: it never stores through a nil rule.
pub parse_robots_txt_total :
    (content : List ℕ) → (r : RobotsTxt) × (parse_robots_txt content ≡ some r)
unfolding parse_robots_txt
parse_robots_txt_total content =
    let (st, e, _) = Yields-inv (parse_lines-Ready (split_lines content) start (λ e. refl)) in
    (st.rules, rw e)

abbrev pub named : Option (List ℕ × List ℕ) → List (List ℕ) → List (List ℕ)
named none ks = ks
named (some (name, value)) ks = if text_eq name (codes "user-agent:") then value ∷ ks else ks

-- The agents that the lines name, in order.
unfoldable pub agents : List (List ℕ) → List (List ℕ)
agents [] = []
agents (l ∷ ls) = named (split_directive l) (agents ls)

unfoldable pub member : List ℕ → List (List ℕ) → Bool
member k [] = false
member k (j ∷ js) = text_eq j k || member k js

abbrev pub Distinct : List (List ℕ) → Type 0
Distinct [] = Unit
Distinct (k ∷ ks) = (member k ks ≡ false) × Distinct ks

record Inv (ks : List (List ℕ)) (st : Parser) : Type 0 where
  ready : Ready st
  plain : (k : List ℕ) (r : Rule) → get_rule k st.rules ≡ some r → r.disallow ≡ []
  fresh : (k : List ℕ) → member k ks ≡ true → get_rule k st.rules ≡ none
  distinct : Distinct ks

user_agent-Inv :
    (agent : List ℕ) (ks : List (List ℕ)) (st : Parser)
    → Inv (agent ∷ ks) st
    → Yields (Inv ks) (user_agent agent st)
unfolding user_agent store_current member
user_agent-Inv agent ks st v =
    let new : get_rule agent st.rules ≡ none = v.fresh agent (rw (text_eq_refl agent)) in
    rw (new, user_agent)
      (yields (record {
        ready = λ e. cc;
        plain = λ k r e. ground (arith, get_rule-put_rule k agent empty_rule st.rules, v.plain k r);
        fresh = λ k e. ground (
          arith,
          get_rule-put_rule k agent empty_rule st.rules,
          v.fresh k,
          text_eq_iff agent k,
          v.distinct.0,
        );
        distinct = v.distinct.1;
      }))

update_current-rules : (f : Rule → Rule) (st : Parser) → (update_current f st).rules ≡ st.rules
update_current-rules f st = ground arith

update_current-Inv :
    (f : Rule → Rule) (ks : List (List ℕ)) (st : Parser) → Inv ks st → Inv ks (update_current f st)
update_current-Inv f ks st v =
    let same = update_current-rules f st in
    record {
      ready = update_current-Ready f st v.ready;
      plain = λ k r. rw same (v.plain k r);
      fresh = λ k. rw same (v.fresh k);
      distinct = v.distinct;
    }

-- A line that names an agent has one agent less behind it.
later-Inv :
    (d : Option (List ℕ × List ℕ)) (ks : List (List ℕ)) (st : Parser)
    → Inv (named d ks) st
    → Inv ks st
unfolding member
later-Inv none ks st v = v
later-Inv (some (name, value)) ks st v = elim (Bool-cases (text_eq name (codes "user-agent:"))) [
  | inl e ↦
      let w : Inv (value ∷ ks) st = rw e at v in
      record {
        ready = w.ready;
        plain = w.plain;
        fresh = λ k h. w.fresh k (ground (arith, h));
        distinct = w.distinct.1;
      }
  | inr e ↦ rw e at v
]

step-Inv :
    (d : Option (List ℕ × List ℕ)) (ks : List (List ℕ)) (st : Parser)
    → Inv (named d ks) st
    → Yields (Inv ks) (step_line d st)
step-Inv none ks st v = yields v
step-Inv (some (name, value)) ks st v =
    let w = later-Inv (some (name, value)) ks st v in
    directive-Yields (Inv ks) name value st (λ e. user_agent-Inv value ks st (rw e at v))
      (λ f. update_current-Inv f ks st w) w

parse_lines-Inv :
    (ls : List (List ℕ)) (st : Parser) → Inv (agents ls) st → Yields (Inv []) (parse_lines ls st)
unfolding parse_lines agents
parse_lines-Inv [] st v = yields v
parse_lines-Inv (l ∷ ls) st v =
    Yields-bind (step-Inv (split_directive l) (agents ls) st v) λ st' w. parse_lines-Inv ls st' w

-- If no agent is named twice, the parsed file allows every path to every agent: a rule is copied
-- into the map before its Allow and Disallow lines are read, and those never reach the copy.
pub is_allowed-Distinct :
    (content agent url : List ℕ)
    → Distinct (agents (split_lines content))
    → (r : RobotsTxt) × (parse_robots_txt content ≡ some r) × (is_allowed r agent url ≡ true)
unfolding parse_robots_txt
is_allowed-Distinct content agent url d =
    let begin : Inv (agents (split_lines content)) start = record {
      ready = λ e. refl;
      plain = λ k r. unfold get_rule in λ e. cc;
      fresh = λ k e. unfold get_rule in refl;
      distinct = d;
    } in
    let (st, e, v) = Yields-inv (parse_lines-Inv (split_lines content) start begin) in
    (st.rules, rw e, allowed st v)
  where
    allowed : (st : Parser) → Inv [] st → is_allowed st.rules agent url ≡ true
    allowed st v = elim (Option-cases (get_rule agent st.rules)) [
      | inl e ↦ rw (is_allowed_disallow st.rules agent url, e)
      | inr (r, e) ↦
          rw (is_allowed_disallow st.rules agent url, e, v.plain agent r e)
            (unfold any_prefix in refl)
    ]
