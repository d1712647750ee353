-- ===== src/Crawl/Requests.antt =====
-- How often a page is requested.
use wfts.Common.{
  ℕ, zero, suc, ◌+◌, ◌*◌, ◌≤◌, ◌≡◌, refl, ◌∙◌, Option, List, arith, if_both, option_both,
}
use native.Mathlib.Nat.{suc-mul}
use wfts.Common.Texts.{codes, contains}
use wfts.Crawl.{Float64, Response, failed, response, Services}
use wfts.Crawl.Fetch.{read_html, is_too_many, get_html}

-- Only http_get adds to the number of requests, and it adds `most` at most: client.Do follows redirections, and by
-- default it stops after 10 requests.
pub record CountsRequests {float : Float64} (s : Services float) (requests : s.World → ℕ) (most : ℕ)
    : Type 0 where
  pub http_get :
      (url : List ℕ) (w : s.World)
      → (requests w ≤ requests (s.http_get url w).1)
        × (requests (s.http_get url w).1 ≤ requests w + most)
  pub get_token : (host : List ℕ) (w : s.World) → requests (s.get_token host w) ≡ requests w
  pub check_context : (w : s.World) → requests (s.check_context w).1 ≡ requests w
  pub check_global : (w : s.World) → requests (s.check_global w).1 ≡ requests w

module _ {float : Float64} (s : Services float) (requests : s.World → ℕ) (most : ℕ)
    (counts : CountsRequests s requests most) where
  read_html-requests : (r : Response) (w : s.World) → requests (read_html s r w).1 ≡ requests w
  unfolding read_html
  read_html-requests failed w = refl
  read_html-requests (response status ctype body) w =
      let global = counts.check_global w in
      let late = counts.check_context (s.check_global w).1 ∙ global in
      let P : Option (List ℕ) × s.World → Type 0 = λ r. requests r.1 ≡ requests w in
      let last =
        if_both P (contains ctype (codes "text/html"))
          (option_both P body global
            (λ bytes. if_both P (s.check_context (s.check_global w).1).0 late late))
          global in
      if_both P _ refl (if_both P (s.check_global w).0 global last)

  -- Where each call of client.Do makes at most `most` requests, with the redirections that it follows, and none of the
  -- other calls makes one, getHTML makes at most `most` requests for each of its tries.
  pub get_html-requests :
      (host url : List ℕ) (try : ℕ) (w : s.World)
      → (requests w ≤ requests (get_html s host url try w).1)
        × (requests (get_html s host url try w).1 ≤ requests w + try * most)
  unfolding get_html
  get_html-requests host url zero w = (omega arith, omega arith)
  get_html-requests host url (suc try) w =
      let w0 = s.get_token host w in
      let w1 = (s.http_get url w0).1 in
      let w2 = (s.check_context w1).1 in
      let reply = (s.http_get url w0).0 in
      let (more1, most1) = counts.http_get url w0 in
      let same0 = counts.get_token host w in
      let whole = suc-mul try most in
      let P : Option (List ℕ) × s.World → Type 0 =
        λ r. (requests w ≤ requests r.1) × (requests r.1 ≤ requests w + suc try * most) in
      let (more2, most2) = get_html-requests host url try w2 in
      let two = counts.check_context w1 in
      let read1 = read_html-requests reply w1 in
      let read2 = read_html-requests reply w2 in
      let again : P (get_html s host url try w2) = (omega arith, omega arith) in
      let stop : P (read_html s reply w2) = (omega arith, omega arith) in
      let now : P (read_html s reply w1) = (omega arith, omega arith) in
      if_both P (s.is_request url)
        (if_both P (is_too_many s reply) (if_both P (s.check_context w1).0 stop again) now)
        (omega arith, omega arith)
