-- ===== src/Repository/Search/Paging.antt =====
-- The page and the sort order of the search query (internal/repository/postgres/job_repo.go).
use Prim.Native.Char.{Char}
use jobcrawler.Base.{
  ℕ, pos, ◌-◌, ◌*◌, ◌^◌, ◌≤◌, ◌<◌, String, ◌≡◌, ◌⊎◌, inl, inr, true, arith, refl, str_eq, eq_iff,
  Bool-cases, ◌⧺◌, Option, none, some, if◌then◌else◌,
}
use jobcrawler.Base.Words.{wrap64}
use jobcrawler.Repository.Search.{
  clamp_page, clamp_per_page, page_offset, split_colon, is_allowed_column, order_by, direction,
}

-- A page holds at least one job and at most a hundred, and a size that is asked for within these
-- bounds is kept.
pub clamp_per_page_bounds :
    (n : ℕ)
    → (1 ≤ clamp_per_page n)
      × (clamp_per_page n ≤ 100)
      × ((1 ≤ n) × (n ≤ 100) → clamp_per_page n ≡ n)
unfolding clamp_per_page
clamp_per_page_bounds n = (ground arith, ground arith, λ h. ground arith)

wrap64_small : (n : ℕ) → n < 2 ^ 63 → wrap64 n ≡ pos n
unfolding wrap64
wrap64_small n h = ground arith

product_small : (a b : ℕ) → a ≤ 2 ^ 56 → b ≤ 100 → a * b < 2 ^ 63
product_small a b h k = grind arith

clamp_page_bound : (page : ℕ) → page ≤ 2 ^ 56 → clamp_page page - 1 ≤ 2 ^ 56
unfolding clamp_page
clamp_page_bound page h = ground arith

-- Up to a page number of 2^56 the offset is the number of jobs on the pages before, with no
-- wrap-around.
pub page_offset_exact :
    (page per_page : ℕ)
    → page ≤ 2 ^ 56
    → page_offset page per_page ≡ pos ((clamp_page page - 1) * clamp_per_page per_page)
unfolding page_offset
page_offset_exact page per_page h = wrap64_small _ (
    product_small (clamp_page page - 1) (clamp_per_page per_page) (clamp_page_bound page h)
      (clamp_per_page_bounds per_page).1)

-- The columns and directions that ORDER BY can name.
abbrev pub IsColumn : String → Type 0
IsColumn col =
    (col ≡ "published_at") ⊎ ((col ≡ "created_at") ⊎ ((col ≡ "salary_min") ⊎ (col ≡ "title")))

abbrev pub IsDirection : String → Type 0
IsDirection dir = (dir ≡ "ASC") ⊎ (dir ≡ "DESC")

is_allowed_column_sound : (col : String) → is_allowed_column col ≡ true → IsColumn col
unfolding is_allowed_column
is_allowed_column_sound col h = ground (
  arith,
  eq_iff col "published_at",
  eq_iff col "created_at",
  eq_iff col "salary_min",
  eq_iff col "title",
)

module _ (upper : Char → Char) where
  IsDirection-direction : (d : Option String) → IsDirection (direction upper d)
  IsDirection-direction none = inr refl
  IsDirection-direction (some d) = ground arith

  abbrev IsOrder : String → Type 0
  IsOrder order =
      (col : String) × (dir : String) × IsColumn col × IsDirection dir × (order ≡ col ⧺ (" " ⧺ dir))

  default-IsOrder : IsOrder "published_at DESC"
  default-IsOrder = ("published_at", "DESC", inl refl, inr refl, refl)

  IsOrder-of :
      (col : String) (dir : Option String)
      → IsOrder
          (if is_allowed_column col then col ⧺ (" " ⧺ direction upper dir) else "published_at DESC")
  IsOrder-of col dir = elim (Bool-cases (is_allowed_column col)) [
    | inl good ↦ rw good (
      col,
      direction upper dir,
      is_allowed_column_sound col good,
      IsDirection-direction dir,
      refl,
    )
    | inr bad ↦ rw bad default-IsOrder
  ]

  -- Whatever the request asks for, ORDER BY is one of four columns followed by ASC or DESC.
  pub order_by_safe :
      (sort : String)
      → (col : String) × (dir : String) × IsColumn col
        × IsDirection dir
        × (order_by upper sort ≡ col ⧺ (" " ⧺ dir))
  unfolding order_by
  order_by_safe sort = elim (Bool-cases (str_eq sort "")) [
    | inl unset ↦ rw unset default-IsOrder
    | inr set ↦ rw set (IsOrder-of (split_colon sort).0 (split_colon sort).1)
  ]
