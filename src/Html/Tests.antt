-- ===== src/Html/Tests.antt =====
-- A small page with a link, a header and a script.
use wfts.Common.{ℕ, ◌+◌, ◌≡◌, refl, true, none, List, [], ◌∷◌, ◌++◌}
use wfts.Common.Texts.{codes, text_eq, has_prefix, contains, trim_space, to_lower}
use wfts.Urls.Tests.{plain_api, plain_url}
use wfts.Html.Links.{Page, is_among}
use wfts.Html.{
  HtmlToken, start_tag, end_tag, text, ParseState, start_state, raise_dom_depth, is_garbage_div,
  dropped_tags, garbage_tags, on_start_tag, on_end_tag, header_end, on_text, on_token, parse_tokens,
  parse_html_stream,
}
use wfts.Html.Collected.{IsCollected, parse_html_stream-IsCollected}
use wfts.Html.Garbage.{
  never, SameContent, parse_tokens-dropped, PassedOver, parse_tokens-garbage_div,
}

program : Unit {0}
unfolding text_eq has_prefix trim_space to_lower contains is_among is_garbage_div raise_dom_depth
    on_start_tag on_end_tag header_end on_text on_token parse_tokens parse_html_stream
program = tt

abbrev home : Page
home = record {
  base_url = plain_url (codes "example.org") (codes "/");
  current_deep = 0;
  rules = none;
  visited = λ url. none;
}

abbrev small_page : List HtmlToken
small_page =
    start_tag (codes "h1") []
    ∷ text (codes " Title ")
    ∷ end_tag (codes "h1")
    ∷ start_tag (codes "script") []
    ∷ text (codes "x = 1")
    ∷ end_tag (codes "script")
    ∷ text (codes "words")
    ∷ []

small_page_passages :
    (parse_html_stream never plain_api home small_page).passages
    ≡ record { content = codes "Title"; kind = 104 }
      ∷ record { content = codes "words"; kind = 98 }
      ∷ []
unfolding program
small_page_passages = refl

parse_html_stream-IsCollected_example :
    IsCollected plain_api home (parse_html_stream never plain_api home small_page)
parse_html_stream-IsCollected_example =
    parse_html_stream-IsCollected never plain_api home small_page

script_dropped : is_among (codes "script") dropped_tags ≡ true
unfolding program
script_dropped = refl

script_closes :
    (is_among (to_lower (codes "script")) garbage_tags ≡ true)
    × (header_end (to_lower (codes "script")) ≡ none)
unfolding program
script_closes = (refl, refl)

parse_tokens-dropped_example :
    (new : ParseState) × (parse_tokens never plain_api home 0
        (start_tag (codes "script") [] ∷ (text (codes "x") ∷ [])
          ++ end_tag (codes "script") ∷ text (codes "y") ∷ [])
        start_state
      ≡ parse_tokens never plain_api home (0 + 1 + 1 + 1) (text (codes "y") ∷ []) new)
    × SameContent start_state new
    × (new.garbage_tag_counter ≡ 0)
parse_tokens-dropped_example =
    parse_tokens-dropped plain_api home 0 (codes "script") (codes "script") []
      (text (codes "x") ∷ []) (text (codes "y") ∷ []) start_state script_dropped script_closes.0
      script_closes.1 (tt, tt) refl

abbrev ad_class : List (List ℕ × List ℕ)
ad_class = (codes "class", codes "ad") ∷ []

ad_garbage : is_garbage_div ad_class ≡ true
unfolding program
ad_garbage = refl

div_closes :
    (is_among (to_lower (codes "div")) garbage_tags ≡ true)
    × (header_end (to_lower (codes "div")) ≡ none)
unfolding program
div_closes = (refl, refl)

-- The inner "div" ends the garbage one, so that " buy", which stands in it, is read.
parse_tokens-garbage_div_example :
    PassedOver plain_api home 0
      (codes "div")
      (codes "div")
      ad_class
      (start_tag (codes "div") [] ∷ [])
      (text (codes " buy") ∷ end_tag (codes "div") ∷ [])
      start_state
parse_tokens-garbage_div_example =
    parse_tokens-garbage_div plain_api home 0 (codes "div") ad_class
      (start_tag (codes "div") [] ∷ []) (text (codes " buy") ∷ end_tag (codes "div") ∷ [])
      start_state ad_garbage div_closes.0 div_closes.1 (tt, tt) refl
