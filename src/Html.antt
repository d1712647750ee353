-- ===== src/Html.antt =====
-- internal/services/wfts/offline/scraper/htmlHandling.go: parseHTMLStream, which takes the links and
-- the passages out of a page. The tokens of golang.org/x/net/html are a parameter, the list of the
-- tokens up to the end of the page or the error that ends it. `context_done` says at which tokens the
-- context is found done, `visited` is the map of the visited pages with their depths.
pub mod Links
pub mod Collected
pub mod Garbage
mod Tests
use wfts.Common.{
  ltb, if◌then◌else◌, ◌==◌, length, ℕ, ◌+◌, ◌-◌, ◌%◌, Bool, false, not, ◌&&◌, ◌||◌, Option, none,
  some, List, [], ◌∷◌, ◌++◌,
}
use wfts.Common.Int.{ℤ, pos, negsuc, increment, decrement}
use wfts.Common.Texts.{codes, text_eq, contains, trim_space, to_lower}
use wfts.Codec.{body_type, header_type}
use wfts.Urls.{Url, UrlApi}
use wfts.Html.Links.{PageLink, Page, page_link, is_among}

pub data HtmlToken : Type 0 where
  start_tag : List ℕ → List (List ℕ × List ℕ) → HtmlToken
  end_tag : List ℕ → HtmlToken
  text : List ℕ → HtmlToken
  other : HtmlToken

pub record Passage : Type 0 where
  pub content : List ℕ
  pub kind : ℕ

-- The features of the page are its first three fields.
pub record ParseState : Type 0 where
  pub tag_count : ℕ
  pub url_count : ℕ
  pub dom_depth : ℕ
  pub cur_dom_depth : ℤ
  pub header_mark : ℕ
  pub garbage_tag_counter : ℕ
  pub links : List PageLink
  pub passages : List Passage

abbrev pub start_state : ParseState
start_state = record {
  tag_count = 0;
  url_count = 0;
  dom_depth = 0;
  cur_dom_depth = pos 0;
  header_mark = 0;
  garbage_tag_counter = 0;
  links = [];
  passages = [];
}

-- `if curDomDepth > features.DomDepth {features.DomDepth = curDomDepth}`
pub raise_dom_depth : ParseState → ParseState
raise_dom_depth st = elim st.cur_dom_depth [
  | pos d ↦ if ltb st.dom_depth d then record st { dom_depth = d } else st
  | negsuc d ↦ st
]

-- Whether an attribute of a "div" marks it as garbage.
pub is_garbage_div : List (List ℕ × List ℕ) → Bool
is_garbage_div [] = false
is_garbage_div ((key, value) ∷ attrs) =
    ((text_eq key (codes "class") || text_eq key (codes "id"))
      && (contains value (codes "ad")
          || contains value (codes "banner")
          || contains value (codes "promo")))
    || is_garbage_div attrs

-- Whether the page says that it is not in English.
pub is_foreign : List (List ℕ × List ℕ) → Bool
is_foreign [] = false
is_foreign ((key, value) ∷ attrs) =
    (text_eq key (codes "lang") && not (contains (to_lower value) (codes "en"))) || is_foreign attrs

abbrev pub dropped_tags : List (List ℕ)
dropped_tags =
    codes "script"
    ∷ codes "style"
    ∷ codes "iframe"
    ∷ codes "aside"
    ∷ codes "nav"
    ∷ codes "footer"
    ∷ []

abbrev pub garbage_tags : List (List ℕ)
garbage_tags =
    codes "script"
    ∷ codes "style"
    ∷ codes "iframe"
    ∷ codes "aside"
    ∷ codes "nav"
    ∷ codes "footer"
    ∷ codes "div"
    ∷ []

abbrev pub add_link : Option PageLink → ParseState → ParseState
add_link none st = st
add_link (some l) st = record st { url_count = st.url_count + 1; links = st.links ++ l ∷ [] }

-- What a step does to the loop: it goes on, or parseHTMLStream returns.
pub data Outcome : Type 0 where
  goes_on : ParseState → Outcome
  returns : ParseState → Outcome

abbrev pub and_then : Outcome → (ParseState → ParseState) → ParseState
and_then (goes_on st) rest = rest st
and_then (returns st) rest = st

pub on_start_tag : UrlApi → Page → List ℕ → List (List ℕ × List ℕ) → ParseState → Outcome
on_start_tag api page name attrs st =
    let entered = record st {
      cur_dom_depth = increment st.cur_dom_depth;
      tag_count = st.tag_count + 1;
    } in
    let dropped = record entered { garbage_tag_counter = st.garbage_tag_counter + 1 } in
    if ltb 0 st.garbage_tag_counter
    then goes_on entered
    else if text_eq name (codes "html")
    then (if is_foreign attrs then returns entered else goes_on entered)
    else if text_eq name (codes "h1")
    then goes_on (record entered { header_mark = (st.header_mark + 49) % 256 })
    else if text_eq name (codes "h2")
    then goes_on (record entered { header_mark = (st.header_mark + 50) % 256 })
    else if text_eq name (codes "div")
    then goes_on (if is_garbage_div attrs then dropped else entered)
    else if text_eq name (codes "a")
    then goes_on (add_link (page_link api page attrs) entered)
    else if is_among name dropped_tags
    then goes_on dropped
    else goes_on entered

-- The mark of the header that the end tag closes: its second byte. A name is not empty.
pub header_end : List ℕ → Option ℕ
header_end [] = none
header_end (c ∷ []) = none
header_end (c ∷ d ∷ s) = if c == 104 && (d == 49 || d == 50) then some d else none

pub on_end_tag : List ℕ → ParseState → ParseState
on_end_tag name st =
    let raised = raise_dom_depth st in
    let left = record raised { cur_dom_depth = decrement st.cur_dom_depth } in
    let tag_name = to_lower name in
    elim (header_end tag_name) [
      | some d ↦ record left { header_mark = (st.header_mark + 256 - d) % 256 }
      | none ↦
          if ltb 0 st.garbage_tag_counter && is_among tag_name garbage_tags
          then record left { garbage_tag_counter = st.garbage_tag_counter - 1 }
          else left
    ]

pub on_text : List ℕ → ParseState → ParseState
on_text raw st =
    let b = trim_space raw in
    let kind = if ltb 0 st.header_mark then header_type else body_type in
    if ltb 0 st.garbage_tag_counter
    then st
    else if length b == 0
    then st
    else record st { passages = st.passages ++ record { content = b; kind = kind } ∷ [] }

pub on_token : UrlApi → Page → HtmlToken → ParseState → Outcome
on_token api page (start_tag name attrs) st = on_start_tag api page name attrs st
on_token api page (end_tag name) st = goes_on (on_end_tag name st)
on_token api page (text raw) st = goes_on (on_text raw st)
on_token api page other st = goes_on st

-- The loop; `token_count` is that of the last token, and the context is asked at every 128th.
pub parse_tokens : (ℕ → Bool) → UrlApi → Page → ℕ → List HtmlToken → ParseState → ParseState
parse_tokens context_done api page token_count [] st =
    if (token_count + 1) % 128 == 0 && context_done (token_count + 1)
    then st
    else raise_dom_depth st
parse_tokens context_done api page token_count (t ∷ ts) st =
    let next =
      and_then (on_token api page t st) (parse_tokens context_done api page (token_count + 1) ts) in
    if (token_count + 1) % 128 == 0 && context_done (token_count + 1) then st else next

pub parse_html_stream : (ℕ → Bool) → UrlApi → Page → List HtmlToken → ParseState
parse_html_stream context_done api page tokens =
    parse_tokens context_done api page 0 tokens start_state
