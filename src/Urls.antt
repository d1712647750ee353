-- ===== src/Urls.antt =====
-- internal/services/wfts/offline/scraper/urlHandling.go: the links of a page made absolute, the form of
-- a URL under which a page counts as visited, and the test of the origin. Package net/url is a
-- parameter: the fields of a URL that the code reads are a record, and parsing, resolving, printing
-- and the query are the functions of UrlApi.
pub mod Tests
use wfts.Common.{
  if◌then◌else◌, ◌==◌, length, ℕ, ◌/◌, Bool, true, false, ◌&&◌, ◌||◌, Option, none, some, List, [],
  ◌∷◌, ◌++◌,
}
use wfts.Common.Partial.{◌>>=◌}
use wfts.Common.Texts.{
  codes, text_eq, has_prefix, contains, trim_prefix, trim_suffix, trim_space, to_lower,
}

pub record Url : Type 0 where
  pub scheme : List ℕ
  pub hostname : List ℕ
  pub path : List ℕ
  pub raw_query : List ℕ
  pub fragment : List ℕ

-- `query_encode` is Query().Encode(), `formats` is Query()["format"], both of the raw query.
pub record UrlApi : Type 0 where
  pub parse : List ℕ → Option Url
  pub resolve_reference : Url → Url → Url
  pub to_text : Url → List ℕ
  pub query_encode : List ℕ → List ℕ
  pub formats : List ℕ → List (List ℕ)

-- The errors of makeAbsoluteURL are `none`, since its callers only test for one.
pub make_absolute_url : UrlApi → List ℕ → Url → Option (List ℕ)
make_absolute_url api raw_url base_url =
    let trimmed = trim_space raw_url in
    let absolute = λ (u : Url).
      let resolved = record (api.resolve_reference base_url u) { fragment = [] } in
      if text_eq resolved.scheme (codes "https") then some (api.to_text resolved) else none in
    if length trimmed == 0
    then none
    else if has_prefix trimmed (codes "#") || has_prefix (to_lower trimmed) (codes "javascript:")
    then none
    else (api.parse trimmed >>= absolute)

-- strings.ReplaceAll(path, "//", "/")
pub merge_slashes : List ℕ → List ℕ
merge_slashes [] = []
merge_slashes (c ∷ []) = c ∷ []
merge_slashes (c ∷ d ∷ s) = elim (c == 47 && d == 47) [
  | true ↦ 47 ∷ merge_slashes s
  | false ↦ c ∷ merge_slashes (d ∷ s)
]

pub normalize_url : UrlApi → Url → List ℕ
normalize_url api uri =
    let host = trim_prefix (to_lower uri.hostname) (codes "www.") in
    let merged = if contains uri.path (codes "//") then merge_slashes uri.path else uri.path in
    let path = trim_suffix merged (codes "/") in
    let query = api.query_encode uri.raw_query in
    if length query == 0 then host ++ path else host ++ path ++ codes "?" ++ query

pub is_same_origin : Url → Url → Bool
is_same_origin raw_url base_url = contains base_url.hostname raw_url.hostname
