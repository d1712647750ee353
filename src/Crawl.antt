-- ===== src/Crawl.antt =====
-- internal/services/wfts/offline/scraper: what happens to a link token that a worker takes, in scraper.go,
-- sitemapHandling.go and the fetches of htmlHandling.go. What the code asks of others (package http, the
-- regular expressions, the XML decoder, the caches of hosts, the rate limiters and the indexer) is the record
-- Services, whose operations act on a World; the arithmetic of float64 is the record Float64.
-- `visited` is the map of the call: what other workers do to the shared map between its operations is left out, and
-- tokens are values. The logger of the context is set, as Packed does, and what is logged is left out.
pub mod Fetch
pub mod Sitemap
pub mod Scrape
pub mod Requests
pub mod Depths
pub mod Dropped
mod Tests
use wfts.Common.{ℕ, Bool, Option, List}
use wfts.Urls.{Url, UrlApi}
use wfts.Robots.{RobotsTxt}
use wfts.Html.{HtmlToken, Passage}

pub record Float64 : Type 1 where
  pub F : Type 0
  pub of_nat : ℕ → F
  pub add : F → F → F
  pub mul : F → F → F
  pub div : F → F → F
  pub pow : F → F → F
  pub log : F → F

pub record LinkToken (float : Float64) : Type 0 where
  pub link : Url
  pub priority : float.F
  pub depth : ℕ
  pub same_domain : Bool

pub data CompletionState : Type 0 where
  done : CompletionState
  canceled : CompletionState
  error : CompletionState

pub record Document : Type 0 where
  pub id : List ℕ
  pub url : List ℕ

pub record CrawlFeatures : Type 0 where
  pub dom_depth : ℕ
  pub tag_count : ℕ
  pub url_len : ℕ
  pub url_count : ℕ
  pub path_len : ℕ
  pub host_len : ℕ

-- What client.Do gives: an error, or a response, whose body is `none` if reading it fails.
pub data Response : Type 0 where
  failed : Response
  response : ℕ → List ℕ → Option (List ℕ) → Response

-- Each call may change the World. `none` is an error, or a missing entry.
pub record Services (float : Float64) : Type 1 where
  pub World : Type 0
  pub api : UrlApi
  pub sha256 : List ℕ → List ℕ
  pub check_context : World → Bool × World
  pub check_global : World → Bool × World
  -- whether NewRequestWithContext takes the URL
  pub is_request : List ℕ → Bool
  pub http_get : List ℕ → World → Response × World
  pub get_token : List ℕ → World → World
  pub meta_charset : List ℕ → Option (List ℕ)
  pub convert_charset : List ℕ → List ℕ → List ℕ
  pub html_tokens : List ℕ → List HtmlToken
  -- at which tokens of the page its context is found done
  pub page_deadline : World → ℕ → Bool
  pub fetch_robots_txt : List ℕ → World → Option (List ℕ) × World
  -- getSitemapURLs
  pub get_sitemap_urls : List ℕ → World → Option (List (List ℕ)) × World
  -- rlCache: the rate of the limiter of a host
  pub get_limiter : List ℕ → World → Option ℕ × World
  pub put_limiter : List ℕ → ℕ → World → World
  pub get_rules : List ℕ → World → Option RobotsTxt × World
  pub put_rules : List ℕ → RobotsTxt → World → World
  -- lru: the links of a page
  pub get_links : List ℕ → World → Option (List (LinkToken float)) × World
  pub put_links : List ℕ → List (LinkToken float) → World → World
  pub encode : List (LinkToken float) → Option (List ℕ)
  pub decode : List ℕ → Option (List (LinkToken float))
  pub get_page_urls_by_hash : List ℕ → World → Option (List ℕ) × World
  pub index_urls_by_hash : List ℕ → List ℕ → World → Bool × World
  -- the priority afterwards, or an error
  pub handle_document_words :
      Document → CrawlFeatures → float.F → List Passage → World → Option float.F × World

-- `visited` is the map of the visited pages with their depths, `submitted` are the tokens of the calls of
-- Submit, in their order.
pub record WebScraper (float : Float64) (s : Services float) : Type 0 where
  pub only_same_domain : Bool
  pub visited : List ℕ → Option ℕ
  pub submitted : List (LinkToken float)
  pub world : s.World
