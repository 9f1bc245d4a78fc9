-- ===== src/Pipeline/Addresses.antt =====
-- The addresses of jobs that internal/crawler/xing.go and indeed.go list.
use mathlib.Core.List.{Memᴰ}
use jobcrawler.Base.{
  String, ◌≡◌, Bool, true, false, not, ◌&&◌, Option, none, some, arith, refl, inl, inr, ◌∙◌,
  Option-cases, str_eq, ◌⧺◌, if◌then◌else◌, sym, subst, ap,
}
use jobcrawler.Domain.{JobSource, source_xing, source_indeed}
use jobcrawler.Crawler.Sources.Page.{Page}
use jobcrawler.Crawler.Sources.Patterns.{strip_prefix}
use jobcrawler.Crawler.Sources.Patterns.Dashes.{strip_prefix-append, strip_prefix_self}
use jobcrawler.Crawler.Sources.Xing.{xing_base, is_detail_path, xing_urls, keep_xing}
use jobcrawler.Crawler.Sources.Xing.Identified.{IsDetailUrl, path-IsDetailUrl, keep_xing_path}
use jobcrawler.Crawler.Sources.Listing.Collected.{collect-IsListing}
use jobcrawler.Crawler.Sources.Indeed.{indeed_base, is_jk, is_placeholder, indeed_urls, keep_indeed}
use jobcrawler.Crawler.Sources.Indeed.Placeholder.{IsJobUrl, keep_indeed_id, viewjob-IsJobUrl}

abbrev pub is_job_path : Option String → Bool
is_job_path none = false
is_job_path (some path) = is_detail_path path

abbrev pub is_job_id : Option String → Bool
is_job_id none = false
is_job_id (some jk) = is_jk jk && not (is_placeholder jk)

abbrev pub is_job_query : Option String → Bool
is_job_query none = false
is_job_query (some path) = is_job_id (strip_prefix "/viewjob?jk=" path)

-- The addresses of jobs of Xing and of Indeed; those of StepStone are whatever its pages link.
abbrev pub is_job_url : JobSource → String → Bool
is_job_url source url =
    if str_eq source source_xing
    then is_job_path (strip_prefix xing_base url)
    else if str_eq source source_indeed
    then is_job_query (strip_prefix indeed_base url)
    else true

pub xing_listed_url :
    (page : Page) (url : String)
    → Memᴰ url (xing_urls page)
    → is_job_path (strip_prefix xing_base url) ≡ true
unfolding xing_urls
xing_listed_url page url m =
    let listing = collect-IsListing keep_xing (page.attrs "a[href]" "href") in
    let (href, _, kept) = (listing.exact url).0 m in
    let (path, found, located) = keep_xing_path href url kept in
    subst (λ u. is_job_path (strip_prefix xing_base u) ≡ true) located
      (rw (strip_prefix_self xing_base path) found)

pub indeed_listed_url :
    (page : Page) (url : String)
    → Memᴰ url (indeed_urls page)
    → is_job_query (strip_prefix indeed_base url) ≡ true
unfolding indeed_urls
indeed_listed_url page url m =
    let listing = collect-IsListing keep_indeed (page.attrs "[data-jk]" "data-jk") in
    let (attr, _, kept) = (listing.exact url).0 m in
    let (jk, shaped, genuine, located) = keep_indeed_id attr url kept in
    subst (λ u. is_job_query (strip_prefix indeed_base u) ≡ true) located
      (rw
        (
          strip_prefix_self indeed_base ("/viewjob?jk=" ⧺ jk),
          strip_prefix_self "/viewjob?jk=" jk,
          shaped,
          genuine,
        )
        refl)

pub xing_located :
    (url : String) → is_job_path (strip_prefix xing_base url) ≡ true → IsDetailUrl url
xing_located url h = elim (Option-cases (strip_prefix xing_base url)) [
  | inl e ↦ absurd (ground arith)
  | inr (path, e) ↦
      subst IsDetailUrl (sym (strip_prefix-append xing_base url path e))
        (path-IsDetailUrl path (ground arith))
]

pub indeed_located :
    (url : String) → is_job_query (strip_prefix indeed_base url) ≡ true → IsJobUrl url
indeed_located url h = elim (Option-cases (strip_prefix indeed_base url)) [
  | inl e ↦ absurd (ground arith)
  | inr (path, e) ↦ elim (Option-cases (strip_prefix "/viewjob?jk=" path)) [
    | inl f ↦ absurd (ground arith)
    | inr (jk, f) ↦
        subst IsJobUrl
          (sym (
            strip_prefix-append indeed_base url path e
            ∙ ap (λ t. indeed_base ⧺ t) (strip_prefix-append "/viewjob?jk=" path jk f)))
          (viewjob-IsJobUrl jk (ground arith) (ground arith))
  ]
]
