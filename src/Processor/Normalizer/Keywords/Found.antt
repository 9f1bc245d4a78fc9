-- ===== src/Processor/Normalizer/Keywords/Found.antt =====
-- Which tags ExtractTags of internal/processor/normalizer.go gives.
use mathlib.Core.List.{Memᴰ}
use Prim.Native.Char.{Char}
use jobcrawler.Base.{
  String, ◌≡◌, ◌↔◌, inl, inr, true, Option, some, List, [], ◌∷◌, map, contains, arith, refl, ap,
  subst, Bool-cases,
}
use jobcrawler.Crawler.Sources.Listing.Collected.{collect-IsListing}
use jobcrawler.Processor.Normalizer.Keywords.{
  tech_keywords, keep_found, found_keywords, combined_text, extract_tags,
}

some_mem :
    (x : Option String) (xs : List String)
    → Memᴰ x (map some xs)
    → (y : String) × (x ≡ some y) × Memᴰ y xs
some_mem x [] m = elim m [ ]
some_mem x (y ∷ xs) (Memᴰ.head e) = (y, e, Memᴰ.head refl)
some_mem x (y ∷ xs) (Memᴰ.tail m) = let (z, e, k) = some_mem x xs m in (z, e, Memᴰ.tail k)

mem-some : (y : String) (xs : List String) → Memᴰ y xs → Memᴰ (some y) (map some xs)
mem-some y [] m = elim m [ ]
mem-some y (x ∷ xs) (Memᴰ.head e) = Memᴰ.head (ap some e)
mem-some y (x ∷ xs) (Memᴰ.tail m) = Memᴰ.tail (mem-some y xs m)

kept_found :
    (combined kw t : String)
    → keep_found combined (some kw) ≡ some t
    → (kw ≡ t) × (contains combined kw ≡ true)
kept_found combined kw t h = elim (Bool-cases (contains combined kw)) [
  | inl found ↦ (ground arith, found)
  | inr missing ↦ absurd (ground arith)
]

-- A text is a keyword that stands in the searched text.
abbrev pub IsFound : String → String → Type 0
IsFound combined t = Memᴰ t tech_keywords × (contains combined t ≡ true)

found_keywords-IsFound :
    (combined t : String) → Memᴰ t (found_keywords combined) ↔ IsFound combined t
unfolding found_keywords
found_keywords-IsFound combined t =
    let listing = collect-IsListing (keep_found combined) (map some tech_keywords) in
    (
      λ m.
          let (x, k, h) = (listing.exact t).0 m in
          let (kw, e, known) = some_mem x tech_keywords k in
          let (same, found) =
            kept_found combined kw t (subst (λ o. keep_found combined o ≡ some t) e h) in
          subst (IsFound combined) same (known, found),
      λ (known, found). (listing.exact t).1 (some t, mem-some t tech_keywords known, rw found refl),
    )

-- However Go walks over the map, as long as it visits its keys and nothing else, the tags are exactly
-- the keywords that stand in the title, a blank and the description, in lower case.
pub extract_tags-IsFound :
    (lower : Char → Char) (map_order : List String → List String)
    → ((xs : List String) (t : String) → Memᴰ t (map_order xs) ↔ Memᴰ t xs)
    → (title description t : String)
    → Memᴰ t (extract_tags lower map_order title description)
      ↔ IsFound (combined_text lower title description) t
unfolding extract_tags
extract_tags-IsFound lower map_order visits title description t =
    let combined = combined_text lower title description in
    let order = visits (found_keywords combined) t in
    let found = found_keywords-IsFound combined t in
    (λ m. found.0 (order.0 m), λ f. order.1 (found.1 f))
