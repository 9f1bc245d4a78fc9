-- ===== src/Processor/Alerts/Matching.antt =====
-- The matching rules of internal/processor/alert_matcher.go, stated criterion by criterion.
use Prim.Native.Char.{Char}
use jobcrawler.Base.{
  ℤ, pos, negsuc, ℕ, ◌≤◌, String, ◌≡◌, ◌↔◌, ◌⊎◌, inl, inr, true, false, Option, none, some, List,
  [], arith, contains, eq_iff, refl, Bool-cases, any-true, any_of_mem, ltb, ◌&&◌,
}
use mathlib.Core.List.{Memᴰ}
use jobcrawler.Domain.{Job, JobSource, SearchFilter}
use jobcrawler.Processor.Alerts.{to_lower, has_tag_intersection, matches_filter, pays_less}

salary_enough :
    (offer : Option ℤ) (least : ℕ)
    → (ltb 0 least && pays_less offer least) ≡ false
    → (least ≡ 0) ⊎ ((n : ℕ) × (offer ≡ some (pos n)) × (least ≤ n))
salary_enough none least h = inl (ground arith)
salary_enough (some (negsuc n)) least h = inl (ground arith)
salary_enough (some (pos n)) least h = elim (Bool-cases (ltb 0 least)) [
  | inl set ↦ inr (n, refl, ground arith)
  | inr unset ↦ inl (ground arith)
]

module _ (lower : Char → Char) where
  -- A tag of each list, equal without regard to case.
  abbrev pub SharesTag : List String → List String → Type 0
  SharesTag job_tags filter_tags =
      (j : String) × (t : String) × Memᴰ j job_tags
      × Memᴰ t filter_tags
      × (to_lower lower j ≡ to_lower lower t)

  -- The four criteria that are looked at hold of the job, where they are set.
  pub record SatisfiesFour (job : Job) (filter : SearchFilter) : Type 0 where
    pub query :
        (filter.query ≡ "")
        ⊎ ((contains (to_lower lower job.title) (to_lower lower filter.query) ≡ true)
            ⊎ (contains (to_lower lower job.description) (to_lower lower filter.query) ≡ true))
    pub tags : (filter.tags ≡ []) ⊎ SharesTag job.tags filter.tags
    pub remote : (filter.remote ≡ "") ⊎ (job.remote ≡ filter.remote)
    pub salary :
        (filter.salary_min ≡ 0)
        ⊎ ((n : ℕ) × (job.salary_min ≡ some (pos n)) × (filter.salary_min ≤ n))

  has_tag_intersection_sound :
      (js ts : List String) → has_tag_intersection lower js ts ≡ true → SharesTag js ts
  unfolding has_tag_intersection
  has_tag_intersection_sound js ts h =
      let (t, in_filter, found) = any-true _ ts h in
      let (j, in_job, same) = any-true _ js found in (j, t, in_job, in_filter, (eq_iff _ _).0 same)

  has_tag_intersection_complete :
      (js ts : List String) → SharesTag js ts → has_tag_intersection lower js ts ≡ true
  unfolding has_tag_intersection
  has_tag_intersection_complete js ts (j, t, in_job, in_filter, same) =
      any_of_mem _ ts t in_filter (any_of_mem _ js j in_job ((eq_iff _ _).1 same))

  matches_filter_sound :
      (job : Job) (filter : SearchFilter)
      → matches_filter lower job filter ≡ true
      → SatisfiesFour job filter
  unfolding matches_filter
  matches_filter_sound job filter h = record {
    query = ground (arith, eq_iff filter.query "");
    tags = ground (arith, has_tag_intersection_sound job.tags filter.tags);
    remote = ground (arith, eq_iff filter.remote "", eq_iff job.remote filter.remote);
    salary = salary_enough job.salary_min filter.salary_min (ground arith);
  }

  matches_filter_complete :
      (job : Job) (filter : SearchFilter)
      → SatisfiesFour job filter
      → matches_filter lower job filter ≡ true
  unfolding matches_filter
  matches_filter_complete job filter s = ground (
    arith,
    eq_iff filter.query "",
    has_tag_intersection_complete job.tags filter.tags,
    eq_iff filter.remote "",
    eq_iff job.remote filter.remote,
  )

  -- A filter accepts a job exactly when its query, its tags (one in common), its remote type and its
  -- least salary hold of the job, as far as they are set; its location and its sources are not looked
  -- at, so that a filter accepts the same jobs whatever these are.
  pub matches_filter_iff :
      (job : Job) (filter : SearchFilter) (location : String) (sources : List JobSource)
      → ((matches_filter lower job filter ≡ true) ↔ SatisfiesFour job filter)
        × (matches_filter lower job (record filter { location = location; sources = sources })
            ≡ matches_filter lower job filter)
  unfolding matches_filter
  matches_filter_iff job filter location sources =
      ((matches_filter_sound job filter, matches_filter_complete job filter), refl)
