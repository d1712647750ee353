-- ===== src/Crawl/Tests.antt =====
-- A crawl of one page with one link, over services answered by hand; the World is the number of requests.
use wfts.Common.{
  ℕ, ◌+◌, ◌*◌, ◌/◌, ◌≤◌, ◌≡◌, refl, true, false, Option, none, some, List, [], ◌∷◌, arith,
}
use wfts.Common.Texts.{
  codes, text_eq, has_prefix, has_suffix, contains, trim_space, trim_left, trim_suffix, trim_prefix,
  to_lower, is_space,
}
use wfts.Urls.Tests.{plain_url, plain_api}
use wfts.Html.{start_tag}
use wfts.Crawl.{Float64, LinkToken, done, Response, response, Services, WebScraper}
use wfts.Crawl.Fetch.{
  num_of_tries, read_html, get_html, ensure_limiter, fetch_html_content, charset_from_response,
}
use wfts.Crawl.Sitemap.{
  reset_url, delay_of, process_sitemap, have_sitemap, prepare_sitemap_links, fetch_rules,
  fetch_page_rules_and_offers,
}
use wfts.Crawl.Scrape.{
  put_visited, store_links, reload_links, fetch_links, load_links, child_priority, submit_links,
  cache_rules, scrape_page, scrape_with_context,
}
use wfts.Crawl.Requests.{get_html-requests}
use wfts.Crawl.Dropped.{scrape_with_context-sitemap}
use wfts.Crawl.Depths.{Scraped, scrape_with_context-Scraped}

abbrev whole_numbers : Float64
whole_numbers = record {
  F = ℕ;
  of_nat = λ n. n;
  add = ◌+◌;
  mul = ◌*◌;
  div = ◌/◌;
  pow = λ x y. x;
  log = λ x. x;
}

abbrev answers : Response → Option (List (List ℕ)) → Services whole_numbers
answers reply sitemap = record {
  World = ℕ;
  api = plain_api;
  sha256 = λ s. s;
  check_context = λ w. (false, w);
  check_global = λ w. (false, w);
  is_request = λ url. true;
  http_get = λ url w. (reply, w + 1);
  get_token = λ host w. w;
  meta_charset = λ body. none;
  convert_charset = λ chset body. body;
  html_tokens = λ body. start_tag (codes "a") ((codes "href", codes "/next") ∷ []) ∷ [];
  page_deadline = λ w n. false;
  fetch_robots_txt = λ url w. (none, w);
  get_sitemap_urls = λ url w. (sitemap, w);
  get_limiter = λ host w. (none, w);
  put_limiter = λ host rate w. w;
  get_rules = λ host w. (none, w);
  put_rules = λ host rules w. w;
  get_links = λ key w. (none, w);
  put_links = λ key links w. w;
  encode = λ links. some [];
  decode = λ bytes. none;
  get_page_urls_by_hash = λ key w. (none, w);
  index_urls_by_hash = λ key bytes w. (true, w);
  handle_document_words = λ document features priority passages w. (some priority, w);
}

abbrev page : Response
page = response 200 (codes "text/html") (some (codes "page"))

abbrev home : LinkToken whole_numbers
home = record {
  link = plain_url (codes "a.org") (codes "/");
  priority = 1;
  depth = 4;
  same_domain = true;
}

abbrev fresh :
    (reply : Response) (sitemap : Option (List (List ℕ)))
    → WebScraper whole_numbers (answers reply sitemap)
fresh reply sitemap = record {
  only_same_domain = true;
  visited = λ u. none;
  submitted = [];
  world = 0;
}

program : Unit {0}
unfolding text_eq has_prefix has_suffix contains trim_space trim_left trim_suffix trim_prefix
    to_lower is_space reset_url delay_of process_sitemap have_sitemap prepare_sitemap_links
    fetch_rules fetch_page_rules_and_offers read_html get_html ensure_limiter fetch_html_content
    charset_from_response put_visited store_links reload_links fetch_links load_links child_priority
    submit_links cache_rules scrape_page scrape_with_context
program = tt

-- A server that answers 429 is asked three times.
three_requests :
    get_html (answers (response 429 [] none) none) (codes "a.org") (codes "/") num_of_tries 0
    ≡ (none, 3)
unfolding program
three_requests = refl

-- The links of a sitemap are not submitted.
sitemap_dropped :
    (scrape_with_context
      (answers page (some (codes "/b" ∷ [])))
      home
      (fresh page (some (codes "/b" ∷ [])))).1.submitted
    ≡ []
unfolding program
sitemap_dropped = refl

get_html-requests_example :
    (0 ≤ (get_html (answers page none) (codes "a.org") (codes "/") 3 0).1)
    × ((get_html (answers page none) (codes "a.org") (codes "/") 3 0).1 ≤ 30)
get_html-requests_example =
    get_html-requests (answers page none) (λ w. w) 10
      (record {
        http_get = λ url w. (omega arith, omega arith);
        get_token = λ host w. refl;
        check_context = λ w. refl;
        check_global = λ w. refl;
      })
      (codes "a.org") (codes "/") 3 0

scrape_with_context-sitemap_example :
    scrape_with_context (answers page (some [])) home (fresh page (some []))
    ≡ (done, fresh page (some []))
unfolding fetch_rules
scrape_with_context-sitemap_example =
    scrape_with_context-sitemap (answers page (some [])) home (fresh page (some [])) ([], refl) refl

scrape_with_context-Scraped_example :
    Scraped
      (answers page none)
      home
      (fresh page none)
      (scrape_with_context (answers page none) home (fresh page none)).1
scrape_with_context-Scraped_example =
    scrape_with_context-Scraped (answers page none) home (fresh page none)
