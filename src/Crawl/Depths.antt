-- ===== src/Crawl/Depths.antt =====
-- What ScrapeWithContext changes of the visited pages, and what it submits.
use wfts.Common.{
  leb, if◌then◌else◌, ◌==◌, Bool-cases, Option-cases, length, ℕ, ◌+◌, ◌-◌, ◌<◌, ◌≡◌, refl, sym, ap,
  ◌∙◌, subst, ◌⊎◌, inl, inr, Bool, true, false, not, ◌&&◌, ◌||◌, Option, none, some, List, [], ◌∷◌,
  ◌++◌, arith, All, if_both, option_both,
}
use mathlib.Core.List.{append-nil, append_assoc}
use wfts.Urls.{normalize_url}
use wfts.Robots.{RobotsTxt}
use wfts.Crawl.{Float64, LinkToken, CompletionState, done, Services, WebScraper}
use wfts.Crawl.Fetch.{fetch_html_content}
use wfts.Crawl.Sitemap.{base_xml_page, no_sitemap, fetch_page_rules_and_offers}
use wfts.Crawl.Scrape.{
  put_visited, Loaded, ends, loads, store_links, reload_links, fetch_links, load_links, child,
  submit_links, submit_loaded, cache_rules, scrape_page, scrape_with_context,
}

module _ {float : Float64} (s : Services float) where
  -- Only the world differs.
  abbrev Same : WebScraper float s → WebScraper float s → Type 0
  Same ws new =
      (new.visited ≡ ws.visited)
      × (new.submitted ≡ ws.submitted)
      × (new.only_same_domain ≡ ws.only_same_domain)

  abbrev pub crawler : Loaded s → WebScraper float s
  crawler (ends state ws) = ws
  crawler (loads links priority penalty ws) = ws

  at_world : (ws : WebScraper float s) (w : s.World) → Same ws (record ws { world = w })
  at_world ws w = (refl, refl, refl)

  Same-refl : (ws : WebScraper float s) → Same ws ws
  Same-refl ws = (refl, refl, refl)

  store_links-Same :
      (load : Bool) (hashed : List ℕ) (links : List (LinkToken float)) (priority : float.F)
      (penalty : ℕ) (ws : WebScraper float s)
      → Same ws (crawler (store_links s load hashed links priority penalty ws))
  unfolding store_links
  store_links-Same load hashed links priority penalty ws =
      let P : Loaded s → Type 0 = λ l. Same ws (crawler l) in
      if_both P (length links == 0) (Same-refl ws) (
        if_both P load (Same-refl ws) (
          option_both P (s.encode links) (Same-refl ws) (λ bytes.
            if_both P (s.index_urls_by_hash hashed bytes ws.world).0
              (at_world ws (s.index_urls_by_hash hashed bytes ws.world).1)
              (at_world ws (s.index_urls_by_hash hashed bytes ws.world).1))))

  reload_links-Same :
      (hashed : List ℕ) (penalty : ℕ) (ws : WebScraper float s)
      → Same ws (crawler (reload_links s hashed penalty ws))
  unfolding reload_links
  reload_links-Same hashed penalty ws =
      let P : Loaded s → Type 0 = λ l. Same ws (crawler l) in
      let (cached, w1) = s.get_links hashed ws.world in
      let (encoded, w2) = s.get_page_urls_by_hash hashed w1 in
      let stored = λ (links : List (LinkToken float)) (w : s.World).
        store_links-Same true hashed links (float.of_nat 1) penalty (record ws { world = w }) in
      option_both P cached
        (option_both P encoded (at_world ws w2) (λ bytes.
          option_both P (s.decode bytes) (at_world ws w2) (λ links.
            stored links (if length links == 0 then w2 else s.put_links hashed links w2))))
        (λ links. stored links w1)

  fetch_links-Same :
      (cur : LinkToken float) (normalized hashed : List ℕ) (ws : WebScraper float s)
      → Same ws (crawler (fetch_links s cur normalized hashed ws))
  unfolding fetch_links
  fetch_links-Same cur normalized hashed ws =
      let P : Loaded s → Type 0 = λ l. Same ws (crawler l) in
      let (fetched, w) =
        fetch_html_content s ws cur.link normalized (float.of_nat 1) cur.depth ws.world in
      option_both P fetched (at_world ws w)
        (λ found. store_links-Same false hashed found.0 found.1 0 (record ws { world = w }))

  abbrev pub IsDeeper : ℕ → Option ℕ → Type 0
  IsDeeper depth none = Unit
  IsDeeper depth (some d) = depth < d

  -- The page of the token is not touched, or it counts as visited at the depth of the token, where it was not
  -- visited before or only at a greater depth.
  abbrev pub IsMarked : LinkToken float → (List ℕ → Option ℕ) → (List ℕ → Option ℕ) → Type 0
  IsMarked cur before after =
      (after ≡ before)
      ⊎ ((after ≡ put_visited before (normalize_url s.api cur.link) cur.depth)
          × IsDeeper cur.depth (before (normalize_url s.api cur.link)))

  -- A link that the token submits.
  abbrev pub IsChild : LinkToken float → Bool → LinkToken float → Type 0
  IsChild cur only_same_domain link =
      (link.depth ≡ cur.depth + 1) × (not only_same_domain || link.same_domain ≡ true)

  pub record Scraped (cur : LinkToken float) (ws new : WebScraper float s) : Type 0 where
    pub visited : IsMarked cur ws.visited new.visited
    pub children :
        (links : List (LinkToken float)) × (new.submitted ≡ ws.submitted ++ links)
        × All (IsChild cur ws.only_same_domain) links

  load_links-IsMarked :
      (cur : LinkToken float) (ws : WebScraper float s)
      → IsMarked cur ws.visited (crawler (load_links s cur ws)).visited
        × ((crawler (load_links s cur ws)).submitted ≡ ws.submitted)
        × ((crawler (load_links s cur ws)).only_same_domain ≡ ws.only_same_domain)
  unfolding load_links
  load_links-IsMarked cur ws =
      let normalized = normalize_url s.api cur.link in
      let hashed = s.sha256 normalized in
      let marked : WebScraper float s = record ws {
        visited = put_visited ws.visited normalized cur.depth;
      } in
      elim (Option-cases (ws.visited normalized)) [
        | inl fresh ↦
            let same = fetch_links-Same cur normalized hashed marked in
            rw (load_links, fresh) (inr (same.0, tt), same.1, same.2)
        | inr (depth, known) ↦ elim (Bool-cases (leb depth cur.depth)) [
          | inl seen ↦ rw (load_links, known) (rw seen (inl refl, refl, refl))
          | inr deeper ↦
              let same = reload_links-Same hashed (depth - cur.depth) marked in
              rw (load_links, known) (rw deeper (inr (same.0, ground arith), same.1, same.2))
        ]
      ]

  submit_links-children :
      (cur : LinkToken float) (priority : float.F) (penalty : ℕ) (links : List (LinkToken float))
      (ws : WebScraper float s)
      → ((submit_links s cur priority penalty links ws).1.visited ≡ ws.visited)
        × ((sent : List (LinkToken float)) × ((submit_links s cur priority penalty links
                ws).1.submitted
              ≡ ws.submitted ++ sent)
            × All (IsChild cur ws.only_same_domain) sent)
  unfolding submit_links
  submit_links-children cur priority penalty [] ws = (refl, ([], sym (append-nil ws.submitted), tt))
  submit_links-children cur priority penalty (link ∷ links) ws =
      let (stopped, w) = s.check_context ws.world in
      let sent : WebScraper float s = record ws {
        world = w;
        submitted = ws.submitted ++ child s cur priority penalty link ∷ [];
      } in
      let P : CompletionState × WebScraper float s → Type 0 = λ r.
        (r.1.visited ≡ ws.visited)
        × ((sent : List (LinkToken float)) × (r.1.submitted ≡ ws.submitted ++ sent)
            × All (IsChild cur ws.only_same_domain) sent) in
      elim (Bool-cases (ws.only_same_domain && not link.same_domain)) [
        | inl skip ↦ rw skip (submit_links-children cur priority penalty links ws)
        | inr taken ↦
            let (kept, (more, adds, children)) =
              submit_links-children cur priority penalty links sent in
            let one : not ws.only_same_domain || link.same_domain ≡ true = ground (arith, taken) in
            let all : P (submit_links s cur priority penalty links sent) = (
              kept,
              (
                child s cur priority penalty link ∷ more,
                adds ∙ append_assoc ws.submitted (child s cur priority penalty link ∷ []) more,
                ((refl, one), children),
              ),
            ) in
            rw taken (if_both P stopped (refl, ([], sym (append-nil ws.submitted), tt)) all)
      ]

  Scraped-world :
      (cur : LinkToken float) (ws : WebScraper float s) (w : s.World) {new : WebScraper float s}
      → Scraped cur (record ws { world = w }) new
      → Scraped cur ws new
  Scraped-world cur ws w r = record { visited = r.visited; children = r.children }

  Scraped-refl :
      (cur : LinkToken float) (ws : WebScraper float s) (w : s.World)
      → Scraped cur ws (record ws { world = w })
  Scraped-refl cur ws w = record {
    visited = inl refl;
    children = ([], sym (append-nil ws.submitted), tt);
  }

  submit_loaded-Scraped :
      (cur : LinkToken float) (ws : WebScraper float s) (l : Loaded s)
      → IsMarked cur ws.visited (crawler l).visited
      → (crawler l).submitted ≡ ws.submitted
      → (crawler l).only_same_domain ≡ ws.only_same_domain
      → Scraped cur ws (submit_loaded s cur l).1
  submit_loaded-Scraped cur ws (ends state new) marked same only = record {
    visited = marked;
    children = ([], same ∙ sym (append-nil ws.submitted), tt);
  }
  submit_loaded-Scraped cur ws (loads links priority penalty new) marked same only =
      let (kept, (sent, adds, all)) = submit_links-children cur priority penalty links new in
      record {
        visited = subst (IsMarked cur ws.visited) (sym kept) marked;
        children = (
          sent,
          adds ∙ ap (λ before. before ++ sent) same,
          subst (λ b. All (IsChild cur b) sent) only all,
        );
      }

  scrape_page-Scraped :
      (cur : LinkToken float) (links : List (LinkToken float)) (rules : Option RobotsTxt)
      (ws : WebScraper float s)
      → Scraped cur ws (scrape_page s cur links rules ws).1
  unfolding scrape_page
  scrape_page-Scraped cur links rules ws =
      let w = cache_rules s cur.link.hostname rules ws.world in
      let cached : WebScraper float s = record ws { world = w } in
      let P : CompletionState × WebScraper float s → Type 0 = λ r. Scraped cur ws r.1 in
      let (marked, same, only) = load_links-IsMarked cur cached in
      let (kept, children) = submit_links-children cur (float.of_nat 1) 0 links cached in
      if_both P (length links == 0)
        (submit_loaded-Scraped cur ws (load_links s cur cached) marked same only)
        (record { visited = inl kept; children = children })

  -- Whatever ScrapeWithContext finds, the map of the visited pages changes at most at the page of the token,
  -- where the depth is set to that of the token if the page was not visited before or only at a greater depth.
  -- What is submitted is added to what was, has the depth of the token plus one, and is of the same domain if
  -- only such links are to be followed.
  pub scrape_with_context-Scraped :
      (cur : LinkToken float) (ws : WebScraper float s)
      → Scraped cur ws (scrape_with_context s cur ws).1
  unfolding scrape_with_context
  scrape_with_context-Scraped cur ws =
      let w1 = (s.check_context ws.world).1 in
      let ((links, (rules, e)), w2) =
        fetch_page_rules_and_offers s ws.only_same_domain cur.link w1 in
      let w3 = (s.check_context w2).1 in
      let P : CompletionState × WebScraper float s → Type 0 = λ r. Scraped cur ws r.1 in
      let page = scrape_page-Scraped cur links rules (record ws { world = w3 }) in
      let late =
        if_both P (s.check_context w2).0 (Scraped-refl cur ws w3) (Scraped-world cur ws w3 page) in
      if_both P (s.check_context ws.world).0 (Scraped-refl cur ws w1)
        (elim e
          as (λ e. P (elim e [
            | base_xml_page ↦ (done, record ws { world = w2 })
            | no_sitemap ↦
                if (s.check_context w2).0
                then (done, record ws { world = w3 })
                else scrape_page s cur links rules (record ws { world = w3 })
          ])) [ base_xml_page ↦ Scraped-refl cur ws w2 | no_sitemap ↦ late ])
