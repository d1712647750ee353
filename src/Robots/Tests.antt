-- ===== src/Robots/Tests.antt =====
-- Tests of the robots.txt parser, and its laws at small files.
use wfts.Common.{ℕ, ◌≡◌, refl, true, some, List, [], ◌∷◌}
use wfts.Common.Texts.{codes, text_eq, has_prefix, trim_space, to_lower, fields, split_lines}
use wfts.Robots.{
  empty_rule, RobotsTxt, get_rule, put_rule, digits_from, unsigned, atoi, store_current, user_agent,
  directive, split_directive, parse_lines, parse_robots_txt, any_prefix, is_allowed,
}
use wfts.Robots.Stored.{agents, member, Distinct, is_allowed-Distinct}

program : Unit {0}
unfolding text_eq has_prefix trim_space to_lower fields split_lines get_rule put_rule digits_from
    unsigned atoi store_current user_agent directive split_directive parse_lines parse_robots_txt
    any_prefix is_allowed agents member
program = tt

abbrev one_agent : List ℕ
one_agent = codes "User-agent: *\nDisallow: /private\n"

abbrev named_twice : List ℕ
named_twice = codes "User-agent: *\nDisallow: /private\nUser-agent: *\n"

-- The Disallow line is lost.
one_agent_rules : parse_robots_txt one_agent ≡ some ((codes "*", empty_rule) ∷ [])
unfolding program
one_agent_rules = refl

-- It is kept if the agent is named again.
named_twice_rules :
    parse_robots_txt named_twice
    ≡ some ((codes "*", record empty_rule { disallow = codes "/private" ∷ [] }) ∷ [])
unfolding program
named_twice_rules = refl

one_agent-agents : agents (split_lines one_agent) ≡ codes "*" ∷ []
unfolding program
one_agent-agents = refl

one_agent-Distinct : Distinct (agents (split_lines one_agent))
one_agent-Distinct = rw one_agent-agents (unfold member in (refl, tt))

is_allowed-Distinct_example :
    (r : RobotsTxt) × (parse_robots_txt one_agent ≡ some r)
    × (is_allowed r (codes "*") (codes "/private/a") ≡ true)
is_allowed-Distinct_example =
    is_allowed-Distinct one_agent (codes "*") (codes "/private/a") one_agent-Distinct
