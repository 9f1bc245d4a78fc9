-- ===== src/Pipeline/Sources.antt =====
-- The invariant of Pipeline/Sound.antt for the three sources of internal/crawler.
use mathlib.Core.List.{Memᴰ}
use Prim.Native.Char.{Char}
use jobcrawler.Base.{
  ℤ, String, ◌≡◌, ◌≢◌, Bool, true, false, not, List, [], ◌∷◌, count, arith, refl, inl, inr, All,
  Bool-cases, str_eq, eq_iff, sym, subst,
}
use jobcrawler.Domain.{JobSource, Job, source_stepstone, source_xing, source_indeed}
use jobcrawler.World.Errors.{Result, ok, err, Result-cases}
use jobcrawler.World.{Env, Trace, upsert_job}
use jobcrawler.Crawler.Registry.{Source, SourceRegistry, register, new_registry, get_source}
use jobcrawler.Crawler.Sources.Page.{Html, Json}
use jobcrawler.Crawler.Sources.Stepstone.{stepstone}
use jobcrawler.Crawler.Sources.Xing.{xing}
use jobcrawler.Crawler.Sources.Xing.Identified.{IsDetailUrl}
use jobcrawler.Crawler.Sources.Indeed.{indeed}
use jobcrawler.Crawler.Sources.Indeed.Placeholder.{IsJobUrl}
use jobcrawler.Crawler.Interfaces.{RateLimiter, StatsUpdater}
use jobcrawler.Crawler.Worker.{new_crawler_worker}
use jobcrawler.Processor.Worker.{Normaliser}
use jobcrawler.Scheduler.Registered.{
  sources, generate_urls-IsRegistered, origin, of_stepstone, of_indeed, of_xing, unknown,
}
use jobcrawler.Pipeline.{KeepsFields, Reached, is_unsound, is_sound_page}
use jobcrawler.Pipeline.Delivered.{count-zero}
use jobcrawler.Pipeline.Crawled.{Covers, Lists}
use jobcrawler.Pipeline.Sound.{reached_sound}
use jobcrawler.Pipeline.Addresses.{
  is_job_url, xing_listed_url, indeed_listed_url, xing_located, indeed_located,
}

All-of_mem : (P : String → Type 0) (xs : List String) → ((x : String) → Memᴰ x xs → P x) → All P xs
All-of_mem P [] h = tt
All-of_mem P (x ∷ xs) h = (h x (Memᴰ.head refl), All-of_mem P xs (λ y m. h y (Memᴰ.tail m)))

str_eq_other : (s t : String) → s ≢ t → str_eq s t ≡ false
str_eq_other s t h = elim (Bool-cases (str_eq s t)) [
  | inl e ↦ absurd (h ((eq_iff s t).0 e))
  | inr e ↦ e
]

-- Everything that the parser lists for the source is a URL of its jobs.
abbrev ListsJobs : JobSource → Result (List String) → Type 0
ListsJobs source (err e) = Unit
ListsJobs source (ok urls) = All (λ u. is_job_url source u ≡ true) urls

module _ (query_value : String → String → Result String) (html : Html)
    (xing_json indeed_json : Json) where
  stepstone-ListsJobs :
      (text : String) → ListsJobs source_stepstone ((stepstone html).parse_listing text)
  unfolding stepstone
  stepstone-ListsJobs text = elim (Result-cases (html.parse text)) [
    | inl (page, parsed) ↦ rw parsed (All-of_mem _ _ (λ u m. refl))
    | inr (e, failed) ↦ rw failed tt
  ]

  xing-ListsJobs :
      (text : String) → ListsJobs source_xing ((xing html xing_json).parse_listing text)
  unfolding xing
  xing-ListsJobs text = elim (Result-cases (html.parse text)) [
    | inl (page, parsed) ↦ rw parsed (All-of_mem _ _ (λ u m. xing_listed_url page u m))
    | inr (e, failed) ↦ rw failed tt
  ]

  indeed-ListsJobs :
      (text : String)
      → ListsJobs source_indeed ((indeed query_value html indeed_json).parse_listing text)
  unfolding indeed
  indeed-ListsJobs text = elim (Result-cases (html.parse text)) [
    | inl (page, parsed) ↦ rw parsed (All-of_mem _ _ (λ u m. indeed_listed_url page u m))
    | inr (e, failed) ↦ rw failed tt
  ]

  -- The parser that the registry gave, if any, lists jobs of the source.
  abbrev ParsesJobs : String → JobSource → Result Source → Type 0
  ParsesJobs text source (err e) = Unit
  ParsesJobs text source (ok src) = ListsJobs source (src.parse_listing text)

  unknown_source :
      (text : String) (source : JobSource)
      → source ≢ source_stepstone
      → source ≢ source_indeed
      → source ≢ source_xing
      → ParsesJobs text source (get_source (sources query_value html xing_json indeed_json) source)
  unfolding new_registry register get_source stepstone xing indeed
  unknown_source text source s i x =
      rw
        (
          str_eq_other source_indeed source (λ e. i (sym e)),
          str_eq_other source_xing source (λ e. x (sym e)),
          str_eq_other source_stepstone source (λ e. s (sym e)),
        )
        tt

  sources-ParsesJobs :
      (text : String) (source : JobSource)
      → ParsesJobs text source (get_source (sources query_value html xing_json indeed_json) source)
  unfolding new_registry register get_source stepstone xing indeed
  sources-ParsesJobs text source = elim (origin source) [
    | of_stepstone e ↦
        subst
          (λ n. ParsesJobs text n (get_source (sources query_value html xing_json indeed_json) n)) e
          (stepstone-ListsJobs text)
    | of_indeed e ↦
        subst
          (λ n. ParsesJobs text n (get_source (sources query_value html xing_json indeed_json) n)) e
          (indeed-ListsJobs text)
    | of_xing e ↦
        subst
          (λ n. ParsesJobs text n (get_source (sources query_value html xing_json indeed_json) n)) e
          (xing-ListsJobs text)
    | unknown s i x ↦ unknown_source text source s i x
  ]

  pub sources-Lists :
      (env : Env) (keeps : KeepsFields env)
      → Lists env (sources query_value html xing_json indeed_json) is_job_url keeps
  sources-Lists env keeps source src text urls found parsed =
      let jobs : ParsesJobs text source (ok src) =
        subst (ParsesJobs text source) found (sources-ParsesJobs text source) in
      subst (ListsJobs source) parsed jobs

  pub sources-Covers :
      (env : Env) (keeps : KeepsFields env)
      → Covers env (sources query_value html xing_json indeed_json) is_job_url keeps
  sources-Covers env keeps source some_url =
      let (src, found, _) =
        (generate_urls-IsRegistered query_value html xing_json indeed_json source).0 some_url in
      rw found refl

-- A source of the registry; of Xing and of Indeed, the URL is that of a job's page.
pub record IsJobOf (registry : SourceRegistry) (source : JobSource) (url : String) : Type 0 where
  pub parsers : Source
  pub registered : get_source registry source ≡ ok parsers
  pub of_xing : source ≡ source_xing → IsDetailUrl url
  pub of_indeed : source ≡ source_indeed → IsJobUrl url

sound-IsJobOf :
    (env : Env) (registry : SourceRegistry) (source : JobSource) (url : String)
    → not (is_sound_page env registry is_job_url source url) ≡ false
    → IsJobOf registry source url
sound-IsJobOf env registry source url h = elim (Result-cases (get_source registry source)) [
  | inr (e, failed) ↦ absurd (ground arith)
  | inl (src, found) ↦
      let may : is_job_url source url ≡ true = ground arith in
      record {
        parsers = src;
        registered = found;
        of_xing = λ e. xing_located url (rw e at may);
        of_indeed = λ e. indeed_located url (rw e at may);
      }
]

module _ (env : Env) (query_value : String → String → Result String) (html : Html)
    (xing_json indeed_json : Json) (limiter : RateLimiter) (stats : StatsUpdater) (max_fanout : ℤ)
    (sha256_hex : String → String) (lower : Char → Char) (norm : Normaliser) (alerts_wired : Bool)
    (max_total_jobs : ℤ) (keeps : KeepsFields env) where
  abbrev registry : SourceRegistry
  registry = sources query_value html xing_json indeed_json

  sound_trace :
      (tr : Trace)
      → Reached env
          (new_crawler_worker registry limiter stats max_fanout)
          sha256_hex
          lower
          norm
          alerts_wired
          max_total_jobs
          tr
      → count (is_unsound env registry is_job_url) tr ≡ 0
  unfolding new_crawler_worker
  sound_trace =
      reached_sound env (new_crawler_worker registry limiter stats max_fanout) sha256_hex lower norm
        alerts_wired max_total_jobs is_job_url keeps
        (sources-Covers query_value html xing_json indeed_json env keeps)
        (sources-Lists query_value html xing_json indeed_json env keeps)

  -- With the three sources of internal/crawler, however the scheduler, the crawlers and the processors
  -- take turns, and whatever the sites, the broker, the database and Redis answer: every job that is
  -- stored has a source of the registry, and a job of Xing or of Indeed is stored at an address of a
  -- job's page on that site. The codec is to keep a task's source, kind and URL, and a page's source
  -- and URL, and nothing else than the three writes to the broker or stores jobs.
  pub stored_jobs_located :
      (tr : Trace) (j : Job)
      → Reached env
          (new_crawler_worker registry limiter stats max_fanout)
          sha256_hex
          lower
          norm
          alerts_wired
          max_total_jobs
          tr
      → Memᴰ (upsert_job j) tr
      → IsJobOf registry j.source j.url
  stored_jobs_located tr j reached stored = sound-IsJobOf env registry j.source j.url (
      count-zero (is_unsound env registry is_job_url) tr (upsert_job j) (sound_trace tr reached)
        stored)
