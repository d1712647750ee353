-- ===== src/Urls/Tests.antt =====
-- Fixed URLs, without queries, and an interface for them.
use wfts.Common.{ℕ, ◌≡◌, refl, true, some, List, []}
use wfts.Common.Texts.{
  codes, trim_space, trim_left, has_prefix, to_lower, contains, trim_prefix, trim_suffix,
  has_suffix, text_eq, is_space,
}
use wfts.Urls.{Url, UrlApi, make_absolute_url, merge_slashes, normalize_url, is_same_origin}

abbrev pub plain_url : List ℕ → List ℕ → Url
plain_url host path = record {
  scheme = codes "https";
  hostname = host;
  path = path;
  raw_query = [];
  fragment = [];
}

-- An interface for the tests: a text is a path on the host of the base.
abbrev pub plain_api : UrlApi
plain_api = record {
  parse = λ s. some (plain_url [] s);
  resolve_reference = λ base u. record base { path = u.path };
  to_text = λ u. u.path;
  query_encode = λ q. q;
  formats = λ q. [];
}

program : Unit {0}
unfolding make_absolute_url merge_slashes normalize_url is_same_origin trim_space trim_left
    has_prefix to_lower contains trim_prefix trim_suffix has_suffix text_eq is_space
program = tt

-- One pass over a triple slash leaves a double one.
triple_slash :
    normalize_url plain_api (plain_url (codes "WWW.a.b") (codes "/x///y/")) ≡ codes "a.b/x//y"
unfolding program
triple_slash = refl

other_origin :
    is_same_origin (plain_url (codes "a.org") []) (plain_url (codes "data.org") []) ≡ true
unfolding program
other_origin = refl

absolute :
    make_absolute_url plain_api (codes " /x ") (plain_url (codes "a.b") []) ≡ some (codes "/x")
unfolding program
absolute = refl
