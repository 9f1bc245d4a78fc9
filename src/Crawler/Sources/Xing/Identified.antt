-- ===== src/Crawler/Sources/Xing/Identified.antt =====
-- Which URLs internal/crawler/xing.go lists, and the ids it reads from them.
use jobcrawler.Base.{
  String, ◌≡◌, inl, inr, true, Option, none, some, arith, refl, ap, subst, Bool-cases, Option-cases,
  str_eq, ◌⧺◌,
}
use jobcrawler.Crawler.Sources.Page.{Page}
use jobcrawler.Crawler.Sources.Patterns.{strip_prefix, is_number, last_dash, is_numbered_slug}
use jobcrawler.Crawler.Sources.Patterns.Dashes.{
  strip_prefix-append, last_dash-append, trim_suffix-last_dash,
}
use jobcrawler.Crawler.Sources.Xing.{xing_base, path_of, is_detail_path, keep_xing, extract_xing_id}

-- A URL of a job's page: the site, the path, a slug, and behind the slug's last dash a number.
pub record IsDetailUrl (url : String) : Type 0 where
  pub slug : String
  pub body : String
  pub number : String
  pub located : url ≡ xing_base ⧺ ("/jobs/" ⧺ slug)
  pub slugged : is_numbered_slug slug ≡ true
  pub cut : last_dash slug ≡ some (body, number)
  pub digits : is_number number ≡ true

is_numbered_slug-cut :
    (slug : String)
    → is_numbered_slug slug ≡ true
    → (b : String) × (n : String) × (last_dash slug ≡ some (b, n)) × (is_number n ≡ true)
unfolding is_numbered_slug
is_numbered_slug-cut slug h = elim (Option-cases (last_dash slug)) [
  | inl e ↦ absurd (ground arith)
  | inr ((b, n), e) ↦ (b, n, e, ground arith)
]

pub path-IsDetailUrl : (path : String) → is_detail_path path ≡ true → IsDetailUrl (xing_base ⧺ path)
path-IsDetailUrl path h = elim (Option-cases (strip_prefix "/jobs/" path)) [
  | inl e ↦ absurd (ground arith)
  | inr (slug, e) ↦
      let numbered : is_numbered_slug slug ≡ true = ground arith in
      let (b, n, cut, digits) = is_numbered_slug-cut slug numbered in
      record {
        slug = slug;
        body = b;
        number = n;
        located = ap (λ p. xing_base ⧺ p) (strip_prefix-append "/jobs/" path slug e);
        slugged = numbered;
        cut = cut;
        digits = digits;
      }
]

pub keep_xing_path :
    (href : Option String) (url : String)
    → keep_xing href ≡ some url
    → (path : String) × (is_detail_path path ≡ true) × (xing_base ⧺ path ≡ url)
unfolding keep_xing
keep_xing_path none url h = ground arith
keep_xing_path (some href) url h = elim (Bool-cases (is_detail_path (path_of href))) [
  | inr no_path ↦ absurd (ground (arith, Bool-cases (str_eq href "")))
  | inl found ↦ (path_of href, found, ground (arith, Bool-cases (str_eq href "")))
]

pub keep_xing-IsDetailUrl :
    (href : Option String) (url : String) → keep_xing href ≡ some url → IsDetailUrl url
keep_xing-IsDetailUrl href url h =
    let (path, found, located) = keep_xing_path href url h in
    subst IsDetailUrl located (path-IsDetailUrl path found)

-- The id of such a URL is the number.
pub extract_xing_id-IsDetailUrl :
    (url : String) (d : IsDetailUrl url) → extract_xing_id url ≡ d.number
unfolding extract_xing_id
extract_xing_id-IsDetailUrl url d =
    let cut =
      last_dash-append xing_base ("/jobs/" ⧺ d.slug) _ d.number
        (last_dash-append "/jobs/" d.slug d.body d.number d.cut) in
    rw (d.located, trim_suffix-last_dash _ _ d.number cut d.digits, cut, d.digits) refl
