-- ===== src/Handler/Jobs.antt =====
-- internal/handler/job_handler.go. The query of a request is a function from names to texts, with ""
-- for a parameter that is missing, as url.Values.Get has it.
pub mod Filter
use Prim.Native.Char.{Char}
use jobcrawler.Base.{
  ℕ, zero, suc, ℤ, pos, negsuc, String, Option, none, some, List, [], ◌∷◌, ltb, str_eq, map_chars,
  trim_space, split, if◌then◌else◌,
}
use jobcrawler.Domain.{Job, JobStats, SearchFilter, SearchResult}
use jobcrawler.World.Errors.{Err, sentinel, not_found, Result, ok, err}
use jobcrawler.World.{Io, Trace}
use jobcrawler.Handler.Numbers.{atoi}
use jobcrawler.Handler.Response.{Reply, respond, respond_error}

-- The parts of a list of texts that are not blank, changed by `f`.
unfoldable pub parts : (String → String) → List String → List String
parts f [] = []
parts f (t ∷ ts) =
    let rest = parts f ts in
    let trimmed = trim_space t in if str_eq trimmed "" then rest else f trimmed ∷ rest

unfoldable pub listed : (String → String) → String → List String
unfolding parts
listed f raw = if str_eq raw "" then [] else parts f (split raw 44)

abbrev pub number_of : String → Option ℤ
number_of v = if str_eq v "" then none else atoi v

-- `n >= 0`, or the value stays 0.
abbrev pub salary_of : Option ℤ → ℕ
salary_of none = 0
salary_of (some (pos n)) = n
salary_of (some (negsuc n)) = 0

-- `n >= 1`, or the value stays at its default.
abbrev pub at_least_one : ℕ → Option ℤ → ℕ
at_least_one d none = d
at_least_one d (some (pos zero)) = d
at_least_one d (some (pos (suc n))) = suc n
at_least_one d (some (negsuc n)) = d

-- The cap is for a value that was given; the default is below it.
abbrev pub capped : ℕ → ℕ
capped n = if ltb 100 n then 100 else n

module _ (lower upper : Char → Char) where
  -- The filter that Search makes of the query.
  unfoldable pub parse_filter : (String → String) → SearchFilter
  unfolding listed
  parse_filter query = record {
    query = trim_space (query "q");
    location = trim_space (query "location");
    remote = query "remote";
    tags = listed (map_chars lower) (query "tags");
    salary_min = salary_of (number_of (query "salary_min"));
    sources = listed (map_chars upper) (query "source");
    page = at_least_one 1 (number_of (query "page"));
    per_page = capped (at_least_one 25 (number_of (query "per_page")));
    sort = query "sort";
  }

  -- JobHandler.Search
  unfoldable pub search :
      (SearchFilter → Io (Result SearchResult)) → (String → String) → Io (Reply SearchResult)
  unfolding parse_filter
  search service query tr = let (r, tr') = service (parse_filter query) tr in (respond r, tr')

-- JobHandler.GetByID
unfoldable pub get_by_id : (String → Io (Result Job)) → String → Io (Reply Job)
get_by_id service id tr =
    if str_eq id ""
    then (respond_error (sentinel not_found), tr)
    else let (r, tr') = service id tr in (respond r, tr')

-- JobHandler.GetStats
unfoldable pub get_stats : Io (Result JobStats) → Io (Reply JobStats)
get_stats service tr = let (r, tr') = service tr in (respond r, tr')
