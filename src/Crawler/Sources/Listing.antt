-- ===== src/Crawler/Sources/Listing.antt =====
-- The loop of every ParseListing of internal/crawler: links that the source keeps, each URL once.
pub mod Collected
use jobcrawler.Base.{String, Bool, true, false, Option, none, some, List, [], ◌∷◌, any, str_eq}

-- `seen` is the map, as the list of its keys; `keep` gives the URL of an element that is kept.
unfoldable pub collect :
    (Option String → Option String) → List String → List (Option String) → List String
collect keep seen [] = []
collect keep seen (x ∷ xs) = elim (keep x) [
  | none ↦ collect keep seen xs
  | some url ↦ elim (any (str_eq url) seen) [
    | true ↦ collect keep seen xs
    | false ↦ url ∷ collect keep (url ∷ seen) xs
  ]
]
