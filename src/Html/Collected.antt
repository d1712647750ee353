-- ===== src/Html/Collected.antt =====
-- What parseHTMLStream hands on, whatever the tokens of the page are.
use wfts.Common.{
  ltb, leb, if◌then◌else◌, leb→le, ◌==◌, Bool-cases, Option-cases, length, length-append, ℕ, ◌+◌,
  ◌%◌, ◌≤◌, ◌<◌, ◌≡◌, refl, subst, ◌⊎◌, inl, inr, Bool, true, ◌&&◌, Option, none, some, List, [],
  ◌∷◌, arith, All, All-append, if_both,
}
use wfts.Common.Partial.{>>=-eq-some}
use wfts.Common.Int.{increment}
use wfts.Common.Texts.{codes, text_eq, trim_space}
use wfts.Codec.{body_type, header_type}
use wfts.Urls.{Url, UrlApi, make_absolute_url, normalize_url, is_same_origin}
use wfts.Html.Links.{PageLink, Page, is_wanted, wanted_link, page_link, is_among}
use wfts.Html.{
  HtmlToken, start_tag, end_tag, text, other, Passage, ParseState, start_state, raise_dom_depth,
  add_link, is_garbage_div, is_foreign, dropped_tags, Outcome, goes_on, returns, and_then,
  on_start_tag, on_end_tag, on_text, on_token, parse_tokens, parse_html_stream,
}

-- The page was visited at no depth, or at one that is not less than the depth of this page.
abbrev pub IsNews : ℕ → Option ℕ → Type 0
IsNews deep none = Unit
IsNews deep (some depth) = deep ≤ depth

-- A link that the crawler may take: by its extension, its format and the rules of the host, with the
-- right mark for its origin, to a page that was not visited from a smaller depth.
abbrev pub IsCrawlable : UrlApi → Page → PageLink → Type 0
IsCrawlable api page l =
    (is_wanted api page.rules l.link ≡ true)
    × (l.same_domain ≡ is_same_origin l.link page.base_url)
    × IsNews page.current_deep (page.visited (normalize_url api l.link))

-- A passage holds a trimmed text that is not empty, as a header or as a body.
abbrev pub IsPassage : Passage → Type 0
IsPassage p =
    ((raw : List ℕ) × (p.content ≡ trim_space raw))
    × (0 < length p.content)
    × ((p.kind ≡ header_type) ⊎ (p.kind ≡ body_type))

pub record IsCollected (api : UrlApi) (page : Page) (st : ParseState) : Type 0 where
  pub crawlable : All (IsCrawlable api page) st.links
  pub counted : st.url_count ≡ length st.links
  pub passages : All IsPassage st.passages

wanted_link-IsCrawlable :
    (api : UrlApi) (page : Page) (uri : Url) {l : PageLink}
    → wanted_link api page uri ≡ some l
    → IsCrawlable api page l
unfolding wanted_link
wanted_link-IsCrawlable api page uri {l} h =
    let found : PageLink = record { link = uri; same_domain = is_same_origin uri page.base_url } in
    elim (Bool-cases (is_wanted api page.rules uri)) [
      | inr unwanted ↦ let lost : none ≡ some l = rw unwanted at h in cc
      | inl wanted ↦ elim (Option-cases (page.visited (normalize_url api uri))) [
        | inl fresh ↦
            let same : some found ≡ some l = rw (wanted, fresh) at h in
            let e : found ≡ l = cc in subst (IsCrawlable api page) e (wanted, refl, rw fresh tt)
        | inr (depth, seen) ↦ elim (Bool-cases (leb page.current_deep depth)) [
          | inr stale ↦ let lost : none ≡ some l = rw (wanted, seen, stale) at h in cc
          | inl news ↦
              let same : some found ≡ some l = rw (wanted, seen, news) at h in
              let e : found ≡ l = cc in
              subst (IsCrawlable api page) e
                (wanted, refl, rw seen (leb→le page.current_deep depth news))
        ]
      ]
    ]

page_link-IsCrawlable :
    (api : UrlApi) (page : Page) (attrs : List (List ℕ × List ℕ)) {l : PageLink}
    → page_link api page attrs ≡ some l
    → IsCrawlable api page l
unfolding page_link
page_link-IsCrawlable api page [] h = cc
page_link-IsCrawlable api page ((key, value) ∷ attrs) h =
    elim (Bool-cases (text_eq key (codes "href"))) [
      | inr later ↦ page_link-IsCrawlable api page attrs (rw later at h)
      | inl here ↦
          let (link, _, after) =
            >>=-eq-some (make_absolute_url api value page.base_url) _ (rw here at h) in
          let (uri, _, last) = >>=-eq-some _ (wanted_link api page) after in
          wanted_link-IsCrawlable api page uri last
    ]

add_link-IsCollected :
    (api : UrlApi) (page : Page) (o : Option PageLink) (st : ParseState)
    → ((l : PageLink) → o ≡ some l → IsCrawlable api page l)
    → IsCollected api page st
    → IsCollected api page (add_link o st)
add_link-IsCollected api page none st wanted c = c
add_link-IsCollected api page (some l) st wanted c = record {
  crawlable = All-append (IsCrawlable api page) st.links (l ∷ []) c.crawlable (wanted l refl, tt);
  counted = omega (arith, c.counted, length-append st.links (l ∷ []));
  passages = c.passages;
}

-- The state that a step leaves, whether the loop goes on or not.
abbrev state_of : Outcome → ParseState
state_of (goes_on st) = st
state_of (returns st) = st

-- A step that leaves the links, their number and the passages alone.
abbrev Kept : ParseState → ParseState → Type 0
Kept st new = (new.links ≡ st.links) × (new.url_count ≡ st.url_count) × (new.passages ≡ st.passages)

Kept-IsCollected :
    (api : UrlApi) (page : Page) (st new : ParseState)
    → Kept st new
    → IsCollected api page st
    → IsCollected api page new
Kept-IsCollected api page st new (links, count, passages) c = record {
  crawlable = rw links c.crawlable;
  counted = rw (links, count) c.counted;
  passages = rw passages c.passages;
}

raise_dom_depth-Kept : (st : ParseState) → Kept st (raise_dom_depth st)
unfolding raise_dom_depth
raise_dom_depth-Kept st = ground arith

on_end_tag-Kept : (name : List ℕ) (st : ParseState) → Kept st (on_end_tag name st)
unfolding on_end_tag
on_end_tag-Kept name st = ground (arith, raise_dom_depth-Kept st)

on_text-IsCollected :
    (api : UrlApi) (page : Page) (raw : List ℕ) (st : ParseState)
    → IsCollected api page st
    → IsCollected api page (on_text raw st)
unfolding on_text
on_text-IsCollected api page raw st c = elim (Bool-cases (ltb 0 st.garbage_tag_counter)) [
  | inl garbage ↦ rw garbage c
  | inr clean ↦ elim (Bool-cases (length (trim_space raw) == 0)) [
    | inl empty ↦ rw (clean, empty) c
    | inr some_text ↦
        let kind = if ltb 0 st.header_mark then header_type else body_type in
        let named : (kind ≡ header_type) ⊎ (kind ≡ body_type) =
          elim (Bool-cases (ltb 0 st.header_mark)) [
            | inl header ↦ inl (rw header refl)
            | inr body ↦ inr (rw body refl)
          ] in
        rw (clean, some_text)
          (record {
            crawlable = c.crawlable;
            counted = c.counted;
            passages =
                All-append IsPassage st.passages _ c.passages
                  (((raw, refl), ground (arith, some_text), named), tt);
          })
  ]
]

on_start_tag-IsCollected :
    (api : UrlApi) (page : Page) (name : List ℕ) (attrs : List (List ℕ × List ℕ)) (st : ParseState)
    → IsCollected api page st
    → IsCollected api page (state_of (on_start_tag api page name attrs st))
unfolding on_start_tag
on_start_tag-IsCollected api page name attrs st c =
    let entered : ParseState = record st {
      cur_dom_depth = increment st.cur_dom_depth;
      tag_count = st.tag_count + 1;
    } in
    let kept : IsCollected api page entered =
      Kept-IsCollected api page st entered (refl, refl, refl) c in
    let linked =
      add_link-IsCollected api page (page_link api page attrs) entered
        (λ l. page_link-IsCrawlable api page attrs) kept in
    let P = λ (o : Outcome). IsCollected api page (state_of o) in
    let same = λ (new : ParseState) (k : Kept st new). Kept-IsCollected api page st new k c in
    let dropped : ParseState = record entered {
      garbage_tag_counter = st.garbage_tag_counter + 1;
    } in
    let drops : IsCollected api page dropped = same dropped (refl, refl, refl) in
    if_both P (ltb 0 st.garbage_tag_counter) kept (
      if_both P (text_eq name (codes "html")) (if_both P (is_foreign attrs) kept kept) (
        if_both P (text_eq name (codes "h1")) (same _ (refl, refl, refl)) (
          if_both P (text_eq name (codes "h2")) (same _ (refl, refl, refl)) (
            if_both P (text_eq name (codes "div"))
              (if_both (IsCollected api page) (is_garbage_div attrs) drops kept)
              (if_both P (text_eq name (codes "a")) linked
                (if_both P (is_among name dropped_tags) drops kept))))))

on_token-IsCollected :
    (api : UrlApi) (page : Page) (t : HtmlToken) (st : ParseState)
    → IsCollected api page st
    → IsCollected api page (state_of (on_token api page t st))
unfolding on_token
on_token-IsCollected api page (start_tag name attrs) st c =
    on_start_tag-IsCollected api page name attrs st c
on_token-IsCollected api page (end_tag name) st c =
    Kept-IsCollected api page st (on_end_tag name st) (on_end_tag-Kept name st) c
on_token-IsCollected api page (text raw) st c = on_text-IsCollected api page raw st c
on_token-IsCollected api page other st c = c

and_then-IsCollected :
    (api : UrlApi) (page : Page) (o : Outcome) (rest : ParseState → ParseState)
    → IsCollected api page (state_of o)
    → ((st : ParseState) → IsCollected api page st → IsCollected api page (rest st))
    → IsCollected api page (and_then o rest)
and_then-IsCollected api page (goes_on st) rest c go = go st c
and_then-IsCollected api page (returns st) rest c go = c

parse_tokens-IsCollected :
    (context_done : ℕ → Bool) (api : UrlApi) (page : Page) (n : ℕ) (ts : List HtmlToken)
    (st : ParseState)
    → IsCollected api page st
    → IsCollected api page (parse_tokens context_done api page n ts st)
unfolding parse_tokens
parse_tokens-IsCollected context_done api page n [] st c =
    if_both (IsCollected api page) ((n + 1) % 128 == 0 && context_done (n + 1)) c
      (Kept-IsCollected api page st (raise_dom_depth st) (raise_dom_depth-Kept st) c)
parse_tokens-IsCollected context_done api page n (t ∷ ts) st c =
    if_both (IsCollected api page) ((n + 1) % 128 == 0 && context_done (n + 1)) c (
      and_then-IsCollected api page (on_token api page t st)
        (parse_tokens context_done api page (n + 1) ts) (on_token-IsCollected api page t st c)
        (λ new. parse_tokens-IsCollected context_done api page (n + 1) ts new))

-- Whatever the tokens of a page are, and wherever the context ends the loop: each link may be crawled
-- by its extension, its format, the rules of the host and its last visit, and is marked with its
-- origin; UrlCount is the number of links; each passage is a trimmed text that is not empty.
pub parse_html_stream-IsCollected :
    (context_done : ℕ → Bool) (api : UrlApi) (page : Page) (ts : List HtmlToken)
    → IsCollected api page (parse_html_stream context_done api page ts)
unfolding parse_html_stream
parse_html_stream-IsCollected context_done api page ts =
    parse_tokens-IsCollected context_done api page 0 ts start_state
      (record { crawlable = tt; counted = refl; passages = tt })
