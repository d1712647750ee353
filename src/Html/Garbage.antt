-- ===== src/Html/Garbage.antt =====
-- What stands in an element that is dropped, such as a script, and where the element ends.
use wfts.Common.{
  ltb, lt→ltb, ◌==◌, Bool-cases, length, drop, ℕ, suc, ◌+◌, ◌%◌, ◌<◌, ◌≡◌, refl, sym, ap, ◌∙◌, inl,
  inr, Bool, true, false, ◌&&◌, none, List, [], ◌∷◌, ◌++◌, arith, All,
}
use wfts.Common.Int.{increment, decrement}
use wfts.Common.Texts.{codes, text_eq, text_eq→eq, to_lower}
use wfts.Urls.{UrlApi}
use wfts.Html.Links.{Page, is_among}
use wfts.Html.{
  HtmlToken, start_tag, end_tag, text, other, ParseState, raise_dom_depth, is_garbage_div,
  dropped_tags, garbage_tags, goes_on, on_start_tag, on_end_tag, header_end, on_text, on_token,
  parse_tokens,
}

-- A token that closes neither a header nor an element that may be dropped.
abbrev pub IsQuiet : HtmlToken → Type 0
IsQuiet (end_tag name) =
    (header_end (to_lower name) ≡ none) × (is_among (to_lower name) garbage_tags ≡ false)
IsQuiet (start_tag name attrs) = Unit
IsQuiet (text raw) = Unit
IsQuiet other = Unit

-- All but the counts of tags and depths.
pub record SameContent (st new : ParseState) : Type 0 where
  pub links : new.links ≡ st.links
  pub url_count : new.url_count ≡ st.url_count
  pub passages : new.passages ≡ st.passages
  pub header_mark : new.header_mark ≡ st.header_mark

SameContent-refl : (st : ParseState) → SameContent st st
SameContent-refl st = record { links = refl; url_count = refl; passages = refl; header_mark = refl }

SameContent-trans :
    (st new last : ParseState) → SameContent st new → SameContent new last → SameContent st last
SameContent-trans st new last s t = record {
  links = t.links ∙ s.links;
  url_count = t.url_count ∙ s.url_count;
  passages = t.passages ∙ s.passages;
  header_mark = t.header_mark ∙ s.header_mark;
}

-- The context is not done.
abbrev pub never : ℕ → Bool
never n = false

raise_dom_depth-SameContent :
    (st : ParseState)
    → SameContent st (raise_dom_depth st)
      × ((raise_dom_depth st).garbage_tag_counter ≡ st.garbage_tag_counter)
unfolding raise_dom_depth
raise_dom_depth-SameContent st = ground arith

-- In a dropped element a quiet token changes nothing else.
on_token-quiet :
    (api : UrlApi) (page : Page) (t : HtmlToken) (st : ParseState)
    → IsQuiet t
    → 0 < st.garbage_tag_counter
    → (new : ParseState) × (on_token api page t st ≡ goes_on new)
      × SameContent st new
      × (new.garbage_tag_counter ≡ st.garbage_tag_counter)
unfolding on_token on_start_tag on_end_tag on_text
on_token-quiet api page (start_tag name attrs) st quiet h =
    let entered : ParseState = record st {
      cur_dom_depth = increment st.cur_dom_depth;
      tag_count = st.tag_count + 1;
    } in
    (
      entered,
      rw (lt→ltb 0 st.garbage_tag_counter h) refl,
      record { links = refl; url_count = refl; passages = refl; header_mark = refl },
      refl,
    )
on_token-quiet api page (end_tag name) st quiet h =
    let raised = raise_dom_depth-SameContent st in
    let left : ParseState = record (raise_dom_depth st) {
      cur_dom_depth = decrement st.cur_dom_depth;
    } in
    (
      left,
      ap goes_on (ground (arith, quiet.0, quiet.1)),
      record {
        links = raised.0.links;
        url_count = raised.0.url_count;
        passages = raised.0.passages;
        header_mark = raised.0.header_mark;
      },
      raised.1,
    )
on_token-quiet api page (text raw) st quiet h =
    (st, rw (lt→ltb 0 st.garbage_tag_counter h) refl, SameContent-refl st, refl)
on_token-quiet api page other st quiet h = (st, refl, SameContent-refl st, refl)

and_false : (b : Bool) → b && false ≡ false
and_false true = refl
and_false false = refl

parse_tokens-quiet :
    (api : UrlApi) (page : Page) (n : ℕ) (inner rest : List HtmlToken) (st : ParseState)
    → All IsQuiet inner
    → 0 < st.garbage_tag_counter
    → (new : ParseState) × (parse_tokens never api page n (inner ++ rest) st
        ≡ parse_tokens never api page (n + length inner) rest new)
      × SameContent st new
      × (new.garbage_tag_counter ≡ st.garbage_tag_counter)
unfolding parse_tokens
parse_tokens-quiet api page n [] rest st quiet h =
    let e : n + 0 ≡ n = omega arith in (st, rw e refl, SameContent-refl st, refl)
parse_tokens-quiet api page n (t ∷ inner) rest st quiet h =
    let (one, step, same, kept) = on_token-quiet api page t st quiet.0 h in
    let (new, run, same', kept') =
      parse_tokens-quiet api page (n + 1) inner rest one quiet.1 (omega (arith, kept, h)) in
    let e : n + suc (length inner) ≡ n + 1 + length inner = omega arith in
    (
      new,
      rw (and_false ((n + 1) % 128 == 0), step, e) run,
      SameContent-trans st one new same same',
      kept' ∙ kept,
    )

among-apart :
    (name w : List ℕ) (ws : List (List ℕ))
    → is_among name ws ≡ true
    → is_among w ws ≡ false
    → text_eq name w ≡ false
among-apart name w ws h k = elim (Bool-cases (text_eq name w)) [
  | inl same ↦
      let e : name ≡ w = text_eq→eq name w same in
      let both : true ≡ false = sym (rw e at h) ∙ k in cc
  | inr apart ↦ apart
]

on_start_tag-dropped :
    (api : UrlApi) (page : Page) (name : List ℕ) (attrs : List (List ℕ × List ℕ)) (st : ParseState)
    → is_among name dropped_tags ≡ true
    → st.garbage_tag_counter ≡ 0
    → (new : ParseState) × (on_start_tag api page name attrs st ≡ goes_on new)
      × SameContent st new
      × (new.garbage_tag_counter ≡ 1)
unfolding on_start_tag is_among text_eq
on_start_tag-dropped api page name attrs st drop clean =
    let dropped : ParseState = record st {
      cur_dom_depth = increment st.cur_dom_depth;
      tag_count = st.tag_count + 1;
      garbage_tag_counter = st.garbage_tag_counter + 1;
    } in
    let no_garbage : ltb 0 st.garbage_tag_counter ≡ false = ground (arith, clean) in
    let no_html = among-apart name (codes "html") dropped_tags drop refl in
    let no_h1 = among-apart name (codes "h1") dropped_tags drop refl in
    let no_h2 = among-apart name (codes "h2") dropped_tags drop refl in
    let no_div = among-apart name (codes "div") dropped_tags drop refl in
    let no_a = among-apart name (codes "a") dropped_tags drop refl in
    (
      dropped,
      rw (no_garbage, no_html, no_h1) (rw (no_h2, no_div, no_a) (rw drop refl)),
      record { links = refl; url_count = refl; passages = refl; header_mark = refl },
      omega (arith, clean),
    )

on_end_tag-closing :
    (name : List ℕ) (st : ParseState)
    → is_among (to_lower name) garbage_tags ≡ true
    → st.garbage_tag_counter ≡ 1
    → header_end (to_lower name) ≡ none
    → SameContent st (on_end_tag name st) × ((on_end_tag name st).garbage_tag_counter ≡ 0)
unfolding on_end_tag
on_end_tag-closing name st closes one no_header =
    let raised = raise_dom_depth-SameContent st in ground (arith, no_header, closes, one, raised)

on_start_tag-garbage_div :
    (api : UrlApi) (page : Page) (attrs : List (List ℕ × List ℕ)) (st : ParseState)
    → is_garbage_div attrs ≡ true
    → st.garbage_tag_counter ≡ 0
    → (new : ParseState) × (on_start_tag api page (codes "div") attrs st ≡ goes_on new)
      × SameContent st new
      × (new.garbage_tag_counter ≡ 1)
unfolding on_start_tag text_eq
on_start_tag-garbage_div api page attrs st garbage clean =
    let dropped : ParseState = record st {
      cur_dom_depth = increment st.cur_dom_depth;
      tag_count = st.tag_count + 1;
      garbage_tag_counter = st.garbage_tag_counter + 1;
    } in
    let no_garbage : ltb 0 st.garbage_tag_counter ≡ false = ground (arith, clean) in
    (
      dropped,
      rw (no_garbage, garbage) refl,
      record { links = refl; url_count = refl; passages = refl; header_mark = refl },
      omega (arith, clean),
    )

module _ (api : UrlApi) (page : Page) (n : ℕ) (name close : List ℕ) (attrs : List (List ℕ × List ℕ))
    (inner rest : List HtmlToken) (st : ParseState) where
  -- The element is passed over: what follows its end tag is parsed from a state with the same content.
  abbrev pub PassedOver : Type 0
  PassedOver =
      (new : ParseState) × (parse_tokens never api page n
          (start_tag name attrs ∷ inner ++ end_tag close ∷ rest) st
        ≡ parse_tokens never api page (n + 1 + length inner + 1) rest new)
      × SameContent st new
      × (new.garbage_tag_counter ≡ 0)

  parse_tokens-opened :
      is_among (to_lower close) garbage_tags ≡ true
      → header_end (to_lower close) ≡ none
      → All IsQuiet inner
      → (opened : ParseState) → on_start_tag api page name attrs st ≡ goes_on opened
      → SameContent st opened
      → opened.garbage_tag_counter ≡ 1
      → PassedOver
  unfolding parse_tokens on_token
  parse_tokens-opened closes no_header quiet opened step same one =
      let (last, run, same', kept) =
        parse_tokens-quiet api page (n + 1) inner (end_tag close ∷ rest) opened quiet
          (omega (arith, one)) in
      let (same'', none_left) = on_end_tag-closing close last closes (kept ∙ one) no_header in
      (
        on_end_tag close last,
        rw (and_false ((n + 1) % 128 == 0), step)
            (run ∙ rw (and_false ((n + 1 + length inner + 1) % 128 == 0)) refl),
        SameContent-trans st opened _ same (SameContent-trans opened last _ same' same''),
        none_left,
      )

-- A dropped element, with anything in it but an end tag of a header or of an element that may be
-- dropped, adds no link and no passage, and leaves the parser as it was before but for the counts of
-- tags and depths. The context is not done, and the element does not stand in another dropped one.
pub parse_tokens-dropped :
    (api : UrlApi) (page : Page) (n : ℕ) (name close : List ℕ) (attrs : List (List ℕ × List ℕ))
    (inner rest : List HtmlToken) (st : ParseState)
    → is_among name dropped_tags ≡ true
    → is_among (to_lower close) garbage_tags ≡ true
    → header_end (to_lower close) ≡ none
    → All IsQuiet inner
    → st.garbage_tag_counter ≡ 0
    → (new : ParseState) × (parse_tokens never api page n
          (start_tag name attrs ∷ inner ++ end_tag close ∷ rest)
          st
        ≡ parse_tokens never api page (n + 1 + length inner + 1) rest new)
      × SameContent st new
      × (new.garbage_tag_counter ≡ 0)
parse_tokens-dropped api page n name close attrs inner rest st drop closes no_header quiet clean =
    let (opened, step, same, one) = on_start_tag-dropped api page name attrs st drop clean in
    parse_tokens-opened api page n name close attrs inner rest st closes no_header quiet opened step
      same one

-- A "div" whose class or id makes it garbage is over at the first end tag in it of an element that may be dropped,
-- whatever start tags, of "div" too, stand before that end tag: what follows is parsed from a state that drops
-- nothing, and what stands before, where it is no end tag of a header, has added no link and no passage. The
-- context is not done, and the "div" does not stand in a dropped element.
pub parse_tokens-garbage_div :
    (api : UrlApi) (page : Page) (n : ℕ) (close : List ℕ) (attrs : List (List ℕ × List ℕ))
    (inner rest : List HtmlToken) (st : ParseState)
    → is_garbage_div attrs ≡ true
    → is_among (to_lower close) garbage_tags ≡ true
    → header_end (to_lower close) ≡ none
    → All IsQuiet inner
    → st.garbage_tag_counter ≡ 0
    → PassedOver api page n (codes "div") close attrs inner rest st
parse_tokens-garbage_div api page n close attrs inner rest st garbage closes no_header quiet clean =
    let (opened, step, same, one) = on_start_tag-garbage_div api page attrs st garbage clean in
    parse_tokens-opened api page n (codes "div") close attrs inner rest st closes no_header quiet
      opened step same one
