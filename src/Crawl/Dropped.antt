-- ===== src/Crawl/Dropped.antt =====
-- A page whose sitemap can be fetched.
use wfts.Common.{if◌then◌else◌, ℕ, ◌≡◌, refl, ap, Bool, false, some, List, ◌++◌}
use wfts.Common.Texts.{codes, contains, trim_suffix}
use wfts.Urls.{Url}
use wfts.Crawl.{Float64, LinkToken, done, Services, WebScraper}
use wfts.Crawl.Sitemap.{
  base_xml_page, process_sitemap, have_sitemap, reset_url, fetch_rules, prepare_sitemap_links,
  absolute_links, fetch_page_rules_and_offers,
}
use wfts.Crawl.Scrape.{scrape_with_context}

module _ {float : Float64} (s : Services float) where
  -- Where haveSitemap looks for the sitemap of a page.
  abbrev pub sitemap_of : Url → List ℕ
  sitemap_of current =
      let page = trim_suffix (s.api.to_text current) (codes "/") ++ codes "/sitemap.xml" in
      if contains (reset_url current) (codes "sitemap") then reset_url current else page

  -- getSitemapURLs has no error for the sitemap of this page, at this moment.
  abbrev pub HasSitemap : Url → s.World → Type 0
  HasSitemap current w =
      (urls : List (List ℕ)) × ((s.get_sitemap_urls (sitemap_of current) w).0 ≡ some urls)

  -- Once the context is checked and the rules of the host are fetched.
  abbrev pub after_rules : LinkToken float → s.World → s.World
  after_rules cur w = (fetch_rules s cur.link (s.check_context w).1).1

  -- The world after the last call, which asks for the sitemap.
  abbrev pub after_sitemap : LinkToken float → s.World → s.World
  after_sitemap cur w = (s.get_sitemap_urls (sitemap_of cur.link) (after_rules cur w)).1

  have_sitemap-found :
      (current : Url) (w : s.World) (urls : List (List ℕ))
      → (s.get_sitemap_urls (sitemap_of current) w).0 ≡ some urls
      → have_sitemap s current w
        ≡ (some (absolute_links s current urls), (s.get_sitemap_urls (sitemap_of current) w).1)
  unfolding have_sitemap process_sitemap
  have_sitemap-found current w urls e = rw (process_sitemap, e) refl

  prepare_sitemap_links-base :
      (only : Bool) (current : Url) (w : s.World)
      → HasSitemap current w
      → ((prepare_sitemap_links s only current w).0.1 ≡ base_xml_page)
        × ((prepare_sitemap_links s only current w).1
            ≡ (s.get_sitemap_urls (sitemap_of current) w).1)
  unfolding prepare_sitemap_links
  prepare_sitemap_links-base only current w has =
      let (urls, e) = has in
      let whole = have_sitemap-found current w urls e in
      (
        rw (prepare_sitemap_links, whole) refl,
        rw (prepare_sitemap_links, whole) (ap (λ x. x.1) whole),
      )

  -- Where the sitemap of the page can be fetched when it is asked for, after the rules of the host, and the context is
  -- not done before, the call ends as done right after the sitemap: the page is neither fetched nor indexed nor
  -- counted as visited, and no link is submitted, those of the sitemap neither.
  pub scrape_with_context-sitemap :
      (cur : LinkToken float) (ws : WebScraper float s)
      → HasSitemap cur.link (after_rules cur ws.world)
      → (s.check_context ws.world).0 ≡ false
      → scrape_with_context s cur ws ≡ (done, record ws { world = after_sitemap cur ws.world })
  unfolding scrape_with_context fetch_page_rules_and_offers
  scrape_with_context-sitemap cur ws has going =
      let (ends, last) =
        prepare_sitemap_links-base ws.only_same_domain cur.link (after_rules cur ws.world) has in
      rw going (rw ends (rw last refl))
