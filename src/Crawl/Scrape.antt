-- ===== src/Crawl/Scrape.antt =====
-- ScrapeWithContext of scraper.go: a link token is fetched, or its links are taken from where they were stored,
-- and the links are submitted. A token is a value: that the assignments to a link reach a token that the
-- scheduler still holds, since the cache keeps the same pointers, is left out.
use wfts.Common.{
  leb, if◌then◌else◌, ◌==◌, length, ℕ, ◌+◌, ◌-◌, Bool, true, false, not, ◌&&◌, Option, none, some,
  List, [], ◌∷◌, ◌++◌,
}
use wfts.Common.Texts.{text_eq}
use wfts.Urls.{normalize_url}
use wfts.Robots.{RobotsTxt}
use wfts.Crawl.{Float64, LinkToken, CompletionState, done, canceled, error, Services, WebScraper}
use wfts.Crawl.Fetch.{fetch_html_content}
use wfts.Crawl.Sitemap.{base_xml_page, no_sitemap, fetch_page_rules_and_offers}

-- sync.Map: LoadOrStore and Swap of a missing or a larger depth.
unfoldable pub put_visited : (List ℕ → Option ℕ) → List ℕ → ℕ → List ℕ → Option ℕ
put_visited visited url depth u = if text_eq url u then some depth else visited u

module _ {float : Float64} (s : Services float) where
  -- The links to submit with the priority and the penalty, or the end.
  pub data Loaded : Type 0 where
    ends : CompletionState → WebScraper float s → Loaded
    loads : List (LinkToken float) → float.F → ℕ → WebScraper float s → Loaded

  -- The part after the links are there: new ones are stored.
  unfoldable pub store_links :
      Bool → List ℕ → List (LinkToken float) → float.F → ℕ → WebScraper float s → Loaded
  store_links load hashed links priority penalty ws =
      let stored : Loaded = elim (s.encode links) [
        | none ↦ ends error ws
        | some bytes ↦
            let (saved, w) = s.index_urls_by_hash hashed bytes ws.world in
            if saved
            then loads links priority penalty (record ws { world = w })
            else ends error (record ws { world = w })
      ] in
      if length links == 0
      then ends done ws
      else if load
      then loads links priority penalty ws
      else stored

  -- The page was visited from a greater depth: its links are in the cache, or in the database.
  unfoldable pub reload_links : List ℕ → ℕ → WebScraper float s → Loaded
  reload_links hashed penalty ws =
      let (cached, w1) = s.get_links hashed ws.world in
      let (encoded, w2) = s.get_page_urls_by_hash hashed w1 in
      elim cached [
        | some links ↦
            store_links true hashed links (float.of_nat 1) penalty (record ws { world = w1 })
        | none ↦ elim encoded [
          | none ↦ ends error (record ws { world = w2 })
          | some bytes ↦ elim (s.decode bytes) [
            | none ↦ ends error (record ws { world = w2 })
            | some links ↦
                let w3 = if length links == 0 then w2 else s.put_links hashed links w2 in
                store_links true hashed links (float.of_nat 1) penalty (record ws { world = w3 })
          ]
        ]
      ]

  unfoldable pub fetch_links : LinkToken float → List ℕ → List ℕ → WebScraper float s → Loaded
  fetch_links cur normalized hashed ws =
      let (fetched, w) =
        fetch_html_content s ws cur.link normalized (float.of_nat 1) cur.depth ws.world in
      elim fetched [
        | none ↦ ends error (record ws { world = w })
        | some found ↦ store_links false hashed found.0 found.1 0 (record ws { world = w })
      ]

  unfoldable pub load_links : LinkToken float → WebScraper float s → Loaded
  load_links cur ws =
      let normalized = normalize_url s.api cur.link in
      let hashed = s.sha256 normalized in
      let marked : WebScraper float s = record ws {
        visited = put_visited ws.visited normalized cur.depth;
      } in
      elim (ws.visited normalized) [
        | none ↦ fetch_links cur normalized hashed marked
        | some depth ↦
            if leb depth cur.depth
            then ends done ws
            else reload_links hashed (depth - cur.depth) marked
      ]

  -- `link.Priority * 3 * depthPriority * math.Pow(curLink.Priority, 0.6)`
  unfoldable pub child_priority : float.F → Bool → ℕ → ℕ → float.F → float.F
  child_priority priority same depth penalty parent =
      let base = if same then float.mul priority (float.of_nat 2) else priority in
      let one = float.of_nat 1 in
      let depth_priority =
        float.div (float.div one (float.of_nat (depth + 1))) (float.of_nat (penalty + 1)) in
      let exponent = float.div (float.of_nat 6) (float.of_nat 10) in
      float.mul (float.mul (float.mul base (float.of_nat 3)) depth_priority)
        (float.pow parent exponent)

  abbrev pub child : LinkToken float → float.F → ℕ → LinkToken float → LinkToken float
  child cur priority penalty link = record link {
    depth = cur.depth + 1;
    priority = child_priority priority link.same_domain (cur.depth + 1) penalty cur.priority;
  }

  unfoldable pub submit_links :
      LinkToken float
      → float.F
      → ℕ
      → List (LinkToken float)
      → WebScraper float s
      → CompletionState × WebScraper float s
  submit_links cur priority penalty [] ws = (done, ws)
  submit_links cur priority penalty (link ∷ links) ws =
      let (stopped, w) = s.check_context ws.world in
      let sent : WebScraper float s = record ws {
        world = w;
        submitted = ws.submitted ++ child cur priority penalty link ∷ [];
      } in
      let skip = ws.only_same_domain && not link.same_domain in
      let rest = submit_links cur priority penalty links (if skip then ws else sent) in
      if not skip && stopped then (canceled, record ws { world = w }) else rest

  abbrev pub submit_loaded : LinkToken float → Loaded → CompletionState × WebScraper float s
  submit_loaded cur (ends state ws) = (state, ws)
  submit_loaded cur (loads links priority penalty ws) = submit_links cur priority penalty links ws

  unfoldable pub cache_rules : List ℕ → Option RobotsTxt → s.World → s.World
  cache_rules host none w = w
  cache_rules host (some rules) w =
      let (known, w1) = s.get_rules host w in
      elim known [ none ↦ s.put_rules host rules w1 | some r ↦ w1 ]

  -- The rest of ScrapeWithContext, where the error is not that of a sitemap.
  unfoldable pub scrape_page :
      LinkToken float
      → List (LinkToken float)
      → Option RobotsTxt
      → WebScraper float s
      → CompletionState × WebScraper float s
  scrape_page cur links rules ws =
      let cached : WebScraper float s = record ws {
        world = cache_rules cur.link.hostname rules ws.world;
      } in
      if length links == 0
      then submit_loaded cur (load_links cur cached)
      else submit_links cur (float.of_nat 1) 0 links cached

  unfoldable pub scrape_with_context :
      LinkToken float → WebScraper float s → CompletionState × WebScraper float s
  scrape_with_context cur ws =
      let (stopped, w1) = s.check_context ws.world in
      let ((links, (rules, e)), w2) =
        fetch_page_rules_and_offers s ws.only_same_domain cur.link w1 in
      let (late, w3) = s.check_context w2 in
      let at : s.World → WebScraper float s = λ w. record ws { world = w } in
      if stopped then (canceled, at w1) else elim e [
        | base_xml_page ↦ (done, at w2)
        | no_sitemap ↦ if late then (done, at w3) else scrape_page cur links rules (at w3)
      ]
