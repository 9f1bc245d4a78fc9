-- ===== src/Scheduler/Registered.antt =====
-- The scheduler (internal/scheduler/scheduler.go) beside the registry of the crawler
-- (internal/crawler/registry.go), over the three sources as they are.
use jobcrawler.Base.{
  ◌≤◌, String, ◌≡◌, ◌≢◌, ◌↔◌, subst, inl, inr, false, length, arith, refl, Bool-cases, str_eq,
  eq_iff, sym,
}
use jobcrawler.Domain.{JobSource, source_stepstone, source_indeed, source_xing}
use jobcrawler.World.Errors.{Result, ok}
use jobcrawler.Crawler.Registry.{Source, SourceRegistry, register, new_registry, get_source}
use jobcrawler.Crawler.Sources.Page.{Html, Json}
use jobcrawler.Crawler.Sources.Stepstone.{stepstone}
use jobcrawler.Crawler.Sources.Xing.{xing}
use jobcrawler.Crawler.Sources.Indeed.{indeed}
use jobcrawler.Scheduler.{generate_urls}

-- The three sources, and every other name.
pub data Origin (source : JobSource) : Type 0 where
  of_stepstone : source_stepstone ≡ source → Origin source
  of_indeed : source_indeed ≡ source → Origin source
  of_xing : source_xing ≡ source → Origin source
  unknown :
      source ≢ source_stepstone → source ≢ source_indeed → source ≢ source_xing → Origin source

other_name : (s t : String) → str_eq s t ≡ false → t ≢ s
other_name s t h e = ground (arith, (eq_iff s t).1 (sym e))

pub origin : (source : JobSource) → Origin source
origin source = elim (Bool-cases (str_eq source_stepstone source)) [
  | inl a ↦ of_stepstone ((eq_iff source_stepstone source).0 a)
  | inr a ↦ elim (Bool-cases (str_eq source_indeed source)) [
    | inl b ↦ of_indeed ((eq_iff source_indeed source).0 b)
    | inr b ↦ elim (Bool-cases (str_eq source_xing source)) [
      | inl c ↦ of_xing ((eq_iff source_xing source).0 c)
      | inr c ↦
          unknown (other_name source_stepstone source a) (other_name source_indeed source b)
            (other_name source_xing source c)
    ]
  ]
]

module _ (query_value : String → String → Result String) (html : Html)
    (xing_json indeed_json : Json) where
  abbrev pub sources : SourceRegistry
  sources =
      new_registry (stepstone html) (xing html xing_json) (indeed query_value html indeed_json)

  abbrev pub IsRegistered : JobSource → Type 0
  IsRegistered source = (s : Source) × (get_source sources source ≡ ok s) × (s.name ≡ source)

  unknown_unregistered :
      (source : JobSource)
      → source ≢ source_stepstone
      → source ≢ source_indeed
      → source ≢ source_xing
      → (1 ≤ length (generate_urls source)) ↔ IsRegistered source
  unfolding generate_urls new_registry register get_source stepstone xing indeed
  unknown_unregistered source s i x = ground (
    arith,
    eq_iff source source_stepstone,
    eq_iff source source_indeed,
    eq_iff source source_xing,
    eq_iff source_stepstone source,
    eq_iff source_indeed source,
    eq_iff source_xing source,
  )

  -- The scheduler has a URL to crawl for exactly the sources that the crawler has parsers for, and the
  -- parsers that the registry gives for a source carry its name.
  pub generate_urls-IsRegistered :
      (source : JobSource) → (1 ≤ length (generate_urls source)) ↔ IsRegistered source
  unfolding generate_urls new_registry register get_source stepstone xing indeed
  generate_urls-IsRegistered source = elim (origin source) [
    | of_stepstone e ↦
        subst (λ n. (1 ≤ length (generate_urls n)) ↔ IsRegistered n) e
          (λ _. (stepstone html, refl, refl), λ _. omega arith)
    | of_indeed e ↦
        subst (λ n. (1 ≤ length (generate_urls n)) ↔ IsRegistered n) e
          (λ _. (indeed query_value html indeed_json, refl, refl), λ _. omega arith)
    | of_xing e ↦
        subst (λ n. (1 ≤ length (generate_urls n)) ↔ IsRegistered n) e
          (λ _. (xing html xing_json, refl, refl), λ _. omega arith)
    | unknown s i x ↦ unknown_unregistered source s i x
  ]
