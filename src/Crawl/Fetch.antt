-- ===== src/Crawl/Fetch.antt =====
-- getHTML and fetchHTMLcontent of htmlHandling.go.
use wfts.Common.{
  ltb, leb, if◌then◌else◌, ◌==◌, length, ℕ, zero, suc, Bool, false, ◌||◌, Option, none, some, List,
  map,
}
use wfts.Common.Texts.{codes, text_eq, contains, trim_space, to_lower}
use wfts.Urls.{Url}
use wfts.Html.Links.{PageLink, Page}
use wfts.Html.{parse_html_stream}
use wfts.Crawl.{
  Float64, LinkToken, Document, CrawlFeatures, Response, failed, response, Services, WebScraper,
}

abbrev pub num_of_tries : ℕ
num_of_tries = 3

abbrev pub default_delay : ℕ
default_delay = 3

-- charsetFromResponse: the header that it reads is the one of the request, which has no "charset".
unfoldable pub charset_from_response : {float : Float64} → Services float → List ℕ → List ℕ
charset_from_response s html = elim (s.meta_charset html) [
  | none ↦ codes "utf-8"
  | some found ↦ to_lower (trim_space found)
]

module _ {float : Float64} (s : Services float) where
  abbrev pub html_text : List ℕ → List ℕ
  html_text body =
      let chset = charset_from_response s body in
      if text_eq chset (codes "utf-8") then body else s.convert_charset chset body

  -- getHTML after a response that is not to be tried again. The checks of the contexts are made one after
  -- the other.
  unfoldable pub read_html : Response → s.World → Option (List ℕ) × s.World
  read_html failed w = (none, w)
  read_html (response status ctype body) w =
      let (stopped, w1) = s.check_global w in
      let (late, w2) = s.check_context w1 in
      let text : Option (List ℕ) × s.World = elim body [
        | none ↦ (none, w1)
        | some bytes ↦ if late then (none, w2) else (some (html_text bytes), w2)
      ] in
      if ltb status 200 || leb 300 status
      then (none, w)
      else if stopped
      then (none, w1)
      else if contains ctype (codes "text/html")
      then text
      else (none, w1)

  abbrev pub is_too_many : Response → Bool
  is_too_many failed = false
  is_too_many (response status ctype body) = status == 429

  unfoldable pub get_html : List ℕ → List ℕ → ℕ → s.World → Option (List ℕ) × s.World
  get_html host url zero w = (none, w)
  get_html host url (suc try) w =
      let (reply, w1) = s.http_get url (s.get_token host w) in
      let (late, w2) = s.check_context w1 in
      let again = get_html host url try w2 in
      if s.is_request url
      then if is_too_many reply
        then if late then read_html reply w2 else again
        else read_html reply w1
      else (none, w)

  -- The token of a link of a page: priority and depth are set when it is submitted.
  abbrev pub page_token : PageLink → LinkToken float
  page_token l = record {
    link = l.link;
    priority = float.of_nat 0;
    depth = 0;
    same_domain = l.same_domain;
  }

  -- The limiter of the host, made with the default rate when there is none.
  unfoldable pub ensure_limiter : List ℕ → s.World → s.World
  ensure_limiter host w =
      let (known, w1) = s.get_limiter host w in
      elim known [ none ↦ s.put_limiter host default_delay w1 | some rate ↦ w1 ]

  -- fetchHTMLcontent with the page at hand: the links and the priority, or an error.
  unfoldable pub index_page :
      WebScraper float s
      → Url
      → List ℕ
      → float.F
      → ℕ
      → List ℕ
      → s.World
      → Option (List (LinkToken float) × float.F) × s.World
  index_page ws cur norm priority deep doc w =
      let hashed = s.sha256 norm in
      let (rules, w1) = s.get_rules cur.hostname w in
      let page : Page = record {
        base_url = cur;
        current_deep = deep;
        rules = rules;
        visited = ws.visited;
      } in
      let parsed = parse_html_stream (s.page_deadline w1) s.api page (s.html_tokens doc) in
      let links = map page_token parsed.links in
      let l = length links in
      let document : Document = record { id = hashed; url = s.api.to_text cur } in
      let features : CrawlFeatures = record {
        dom_depth = parsed.dom_depth;
        tag_count = parsed.tag_count;
        url_len = length (s.api.to_text cur);
        url_count = parsed.url_count;
        path_len = length cur.path;
        host_len = length cur.hostname;
      } in
      let raised = float.add priority (float.log (float.add (float.of_nat l) (float.of_nat 1))) in
      let kept : float.F × s.World =
        if l == 0 then (priority, w1) else (raised, s.put_links hashed links w1) in
      let (handled, w3) = s.handle_document_words document features kept.0 parsed.passages kept.1 in
      elim handled [ none ↦ (none, w3) | some p ↦ (some (links, p), w3) ]

  unfoldable pub fetch_html_content :
      WebScraper float s
      → Url
      → List ℕ
      → float.F
      → ℕ
      → s.World
      → Option (List (LinkToken float) × float.F) × s.World
  fetch_html_content ws cur norm priority deep w =
      let w1 = ensure_limiter cur.hostname w in
      let (doc, w2) = get_html cur.hostname (s.api.to_text cur) num_of_tries w1 in
      elim doc [
        | none ↦ (none, w2)
        | some text ↦
            if length text == 0 then (none, w2) else index_page ws cur norm priority deep text w2
      ]
