-- ===== src/Handler/Jobs/Filter.antt =====
-- What internal/handler/job_handler.go hands to the service, whatever the query.
use Prim.Native.Char.{Char}
use jobcrawler.Base.{
  ℕ, zero, suc, ℤ, pos, negsuc, ◌≤◌, String, ◌≡◌, inl, inr, false, Option, none, some, List, arith,
  All, str_eq, map_chars, str_eq-map_chars, trim_space, split, Bool-cases,
}
use jobcrawler.Repository.Search.{clamp_page, clamp_per_page}
use jobcrawler.Handler.Jobs.{parts, listed, number_of, at_least_one, parse_filter}

abbrev pub NotEmpty : String → Type 0
NotEmpty s = str_eq s "" ≡ false

parts-NotEmpty :
    (f : String → String)
    → ((s : String) → NotEmpty s → NotEmpty (f s))
    → (ts : List String) → All NotEmpty (parts f ts)
unfolding parts
parts-NotEmpty f k List.[] = tt
parts-NotEmpty f k (List.◌∷◌ t ts) = elim (Bool-cases (str_eq (trim_space t) "")) [
  | inl blank ↦ rw blank (parts-NotEmpty f k ts)
  | inr full ↦ rw full (k (trim_space t) full, parts-NotEmpty f k ts)
]

listed-NotEmpty : (f : Char → Char) (raw : String) → All NotEmpty (listed (map_chars f) raw)
unfolding listed
listed-NotEmpty f raw = elim (Bool-cases (str_eq raw "")) [
  | inl unset ↦ rw unset tt
  | inr set ↦ rw set (parts-NotEmpty (map_chars f) (str_eq-map_chars f) (split raw 44))
]

at_least_one_bound : (d : ℕ) (v : Option ℤ) → 1 ≤ d → 1 ≤ at_least_one d v
at_least_one_bound d none h = h
at_least_one_bound d (some (pos zero)) h = h
at_least_one_bound d (some (pos (suc n))) h = omega arith
at_least_one_bound d (some (negsuc n)) h = h

-- Whatever the query, the filter asks for a page from 1 on with 1 to 100 jobs, which the repository's
-- own limits leave as they are, and none of its tags and sources is empty.
pub parse_filter_bounds :
    (lower upper : Char → Char) (query : String → String)
    → let f = parse_filter lower upper query in
      (1 ≤ f.page)
      × (1 ≤ f.per_page)
      × (f.per_page ≤ 100)
      × (clamp_page f.page ≡ f.page)
      × (clamp_per_page f.per_page ≡ f.per_page)
      × All NotEmpty f.tags
      × All NotEmpty f.sources
unfolding parse_filter clamp_page clamp_per_page
parse_filter_bounds lower upper query =
    let page = at_least_one_bound 1 (number_of (query "page")) (omega arith) in
    let size = at_least_one_bound 25 (number_of (query "per_page")) (omega arith) in
    (
      page,
      ground arith,
      ground arith,
      ground arith,
      ground arith,
      listed-NotEmpty lower (query "tags"),
      listed-NotEmpty upper (query "source"),
    )
