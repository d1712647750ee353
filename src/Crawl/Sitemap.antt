-- ===== src/Crawl/Sitemap.antt =====
-- sitemapHandling.go: the rules and the sitemap of a page's host.
use wfts.Common.{
  ltb, if◌then◌else◌, ◌==◌, length, ℕ, Bool, not, ◌&&◌, Option, none, some, List, [], ◌∷◌, ◌++◌,
}
use wfts.Common.Texts.{codes, contains, trim_suffix}
use wfts.Urls.{Url, make_absolute_url, is_same_origin}
use wfts.Robots.{pos, negsuc, RobotsTxt, get_rule, parse_robots_txt}
use wfts.Crawl.{Float64, LinkToken, Services}
use wfts.Crawl.Fetch.{default_delay}

-- The error of prepareSitemapLinks, which never returns without one.
pub data SitemapError : Type 0 where
  base_xml_page : SitemapError
  no_sitemap : SitemapError

unfoldable pub reset_url : Url → List ℕ
reset_url uri = uri.scheme ++ (codes "://" ++ (uri.hostname ++ codes "/"))

-- The delay of the rule for every agent; a missing rule is an empty one.
unfoldable pub delay_of : RobotsTxt → ℕ
delay_of rules = elim (get_rule (codes "*") rules) [
  | none ↦ 0
  | some r ↦ elim r.delay [ pos d ↦ d | negsuc d ↦ 0 ]
]

module _ {float : Float64} (s : Services float) where
  abbrev pub absolute_links : Url → List (List ℕ) → List (List ℕ)
  absolute_links base [] = []
  absolute_links base (item ∷ items) =
      let rest = absolute_links base items in
      elim (make_absolute_url s.api item base) [
        | none ↦ rest
        | some abs ↦ if length abs == 0 then rest else abs ∷ rest
      ]

  unfoldable pub process_sitemap : Url → List ℕ → s.World → Option (List (List ℕ)) × s.World
  process_sitemap base sitemap_url w =
      let (found, w1) = s.get_sitemap_urls sitemap_url w in
      elim found [ none ↦ (none, w1) | some items ↦ (some (absolute_links base items), w1) ]

  unfoldable pub have_sitemap : Url → s.World → Option (List (List ℕ)) × s.World
  have_sitemap url w =
      let page = trim_suffix (s.api.to_text url) (codes "/") ++ codes "/sitemap.xml" in
      let sitemap_url =
        if contains (reset_url url) (codes "sitemap") then reset_url url else page in
      process_sitemap url sitemap_url w

  abbrev pub sitemap_tokens : Bool → Url → List (List ℕ) → List (LinkToken float)
  sitemap_tokens only_same_domain current [] = []
  sitemap_tokens only_same_domain current (link ∷ links) =
      let rest = sitemap_tokens only_same_domain current links in
      elim (s.api.parse link) [
        | none ↦ rest
        | some parsed ↦
            let same = is_same_origin parsed current in
            let token : LinkToken float = record {
              link = parsed;
              priority = float.of_nat 0;
              depth = 0;
              same_domain = same;
            } in
            if not same && only_same_domain then rest else token ∷ rest
      ]

  unfoldable pub prepare_sitemap_links :
      Bool → Url → s.World → (List (LinkToken float) × SitemapError) × s.World
  prepare_sitemap_links only_same_domain current w =
      let (urls, w1) = have_sitemap current w in
      elim urls [
        | none ↦ (([], no_sitemap), w1)
        | some links ↦ ((sitemap_tokens only_same_domain current links, base_xml_page), w1)
      ]

  -- A rate limiter with the default rate is replaced by one with the delay of the rules.
  unfoldable pub update_limiter : List ℕ → RobotsTxt → s.World → s.World
  update_limiter host rules w =
      let (known, w1) = s.get_limiter host w in
      elim known [
        | none ↦ w1
        | some rate ↦
            if rate == default_delay && ltb 0 (delay_of rules)
            then s.put_limiter host (delay_of rules) w1
            else w1
      ]

  -- The rules of the host, where it has some: ParseRobotsTxt does not panic.
  unfoldable pub fetch_rules : Url → s.World → Option RobotsTxt × s.World
  fetch_rules cur w =
      let (body, w1) = s.fetch_robots_txt (reset_url cur) w in
      elim body [
        | none ↦ (none, w1)
        | some r ↦ if length r == 0 then (none, w1) else elim (parse_robots_txt r) [
          | none ↦ (none, w1)
          | some rules ↦ (some rules, update_limiter cur.hostname rules w1)
        ]
      ]

  -- The sitemap is read after the rules.
  unfoldable pub fetch_page_rules_and_offers :
      Bool → Url → s.World → (List (LinkToken float) × (Option RobotsTxt × SitemapError)) × s.World
  fetch_page_rules_and_offers only_same_domain cur w =
      let (rules, w1) = fetch_rules cur w in
      let ((links, e), w2) = prepare_sitemap_links only_same_domain cur w1 in
      ((links, (rules, e)), w2)
