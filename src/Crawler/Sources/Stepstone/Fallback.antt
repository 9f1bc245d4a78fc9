-- ===== src/Crawler/Sources/Stepstone/Fallback.antt =====
-- Which URLs internal/crawler/stepstone.go lists.
use mathlib.Core.List.{Memᴰ}
use jobcrawler.Base.{String, ◌≡◌, true, Option, some, List, contains}
use jobcrawler.Crawler.Sources.Page.{Page}
use jobcrawler.Crawler.Sources.Listing.Collected.{IsListing}
use jobcrawler.Crawler.Sources.Stepstone.{keep_stepstone, keep_fallback}

abbrev cards : Page → List (Option String)
cards page = page.attrs "article a[href]" "href"

abbrev links : Page → List (Option String)
links page = page.attrs "a[href*='/stellenangebote--']" "href"

-- The links of the cards to a posting, or without one every link to a posting.
pub record FromCards (page : Page) (urls : List String) : Type 0 where
  pub listing : IsListing keep_stepstone (cards page) urls
  pub postings : (u : String) → Memᴰ u urls → contains u "/stellenangebote--" ≡ true

pub record FromLinks (page : Page) (urls : List String) : Type 0 where
  pub no_card :
      (x : Option String) (u : String) → Memᴰ x (cards page) → keep_stepstone x ≡ some u → ⊥
  pub listing : IsListing keep_fallback (links page) urls
