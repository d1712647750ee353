-- ===== src/Html/Links.antt =====
-- The links that parseHTMLStream takes: the case "a" of its switch.
use wfts.Common.{
  leb, if◌then◌else◌, ◌==◌, length, ℕ, Bool, true, false, not, ◌&&◌, ◌||◌, Option, none, some, List,
  [], ◌∷◌,
}
use mathlib.Core.List.{reverse}
use wfts.Common.Partial.{◌>>=◌}
use wfts.Common.Texts.{codes, text_eq, to_lower}
use wfts.Robots.{RobotsTxt, is_allowed}
use wfts.Urls.{Url, UrlApi, make_absolute_url, normalize_url, is_same_origin}

-- A link token as it is made here: its priority and its depth are set later.
pub record PageLink : Type 0 where
  pub link : Url
  pub same_domain : Bool

unfoldable pub is_among : List ℕ → List (List ℕ) → Bool
is_among s [] = false
is_among s (t ∷ ts) = text_eq t s || is_among s ts

-- path.Ext: what follows the last dot of the last element, with the dot.
pub ext_from : List ℕ → List ℕ → List ℕ
ext_from acc [] = []
ext_from acc (c ∷ s) =
    let rest = ext_from (c ∷ acc) s in if c == 47 then [] else if c == 46 then c ∷ acc else rest

pub path_ext : List ℕ → List ℕ
path_ext path = ext_from [] (reverse path)

abbrev pub skipped_extensions : List (List ℕ)
skipped_extensions = codes ".pdf" ∷ codes ".xml" ∷ []

-- The extension, the format and the rules of the host let the link be crawled.
pub is_wanted : UrlApi → Option RobotsTxt → Url → Bool
is_wanted api rules uri =
    let types = api.formats uri.raw_query in
    let allowed : Bool = elim rules [ none ↦ true | some r ↦ is_allowed r (codes "*") uri.path ] in
    not (is_among (to_lower (path_ext uri.path)) skipped_extensions)
    && (length types == 0 || is_among (codes "html") types)
    && allowed

pub record Page : Type 0 where
  pub base_url : Url
  pub current_deep : ℕ
  pub rules : Option RobotsTxt
  pub visited : List ℕ → Option ℕ

-- The tail of the case "a", for a parsed link.
unfoldable pub wanted_link : UrlApi → Page → Url → Option PageLink
wanted_link api page uri =
    let taken : Option PageLink =
      some (record { link = uri; same_domain = is_same_origin uri page.base_url }) in
    if is_wanted api page.rules uri
    then elim (page.visited (normalize_url api uri)) [
      | none ↦ taken
      | some depth ↦ if leb page.current_deep depth then taken else none
    ]
    else none

-- The case "a": the first "href" among the attributes ends the loop over them.
unfoldable pub page_link : UrlApi → Page → List (List ℕ × List ℕ) → Option PageLink
page_link api page [] = none
page_link api page ((key, value) ∷ attrs) =
    let here : Option PageLink = do
      link ← make_absolute_url api value page.base_url
      uri ← if length link == 0 then none else api.parse link
      wanted_link api page uri
    in let later = page_link api page attrs in if text_eq key (codes "href") then here else later
