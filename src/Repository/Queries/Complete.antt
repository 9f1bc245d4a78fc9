-- ===== src/Repository/Queries/Complete.antt =====
-- When the reads of internal/repository/postgres/job_repo.go are whole, and when they report an error.
use Prim.Native.Char.{Char}
use jobcrawler.Base.{
  ℕ, String, ◌≡◌, ◌↔◌, inl, inr, Option, none, List, [], ◌∷◌, map, refl, sym, ap, ◌∙◌, subst, arith,
}
use jobcrawler.Domain.{Job, SearchFilter}
use jobcrawler.World.Errors.{Err, Result, ok, err, Result-cases}
use jobcrawler.Repository.Search.{count_query, data_query}
use jobcrawler.Repository.Queries.{
  Row, Rows, Database, sources_query, remotes_query, tags_query, job_of, scan_all, scan_groups,
  search, get_stats, found_jobs,
}

scan_all-map : {A : Type 0} (xs : List A) → scan_all (map ok xs) ≡ ok xs
unfolding scan_all
scan_all-map [] = refl
scan_all-map (x ∷ xs) = rw (scan_all, scan_all-map xs) refl

scanned_more :
    {A : Type 0} (a : A) (rs : List (Result A)) (bs : List A)
    → scan_all rs ≡ ok bs
    → scan_all (ok a ∷ rs) ≡ ok (a ∷ bs)
unfolding scan_all
scanned_more a rs bs h = rw (scan_all, h) refl

ok_inj : {A : Type 0} (x y : A) → ok x ≡ ok y → x ≡ y
ok_inj x y h = ap (λ r. elim r [ ok z ↦ z | err e ↦ x ]) h

scan_all-ok :
    {A : Type 0} (rs : List (Result A)) (xs : List A) → scan_all rs ≡ ok xs → rs ≡ map ok xs
unfolding scan_all
scan_all-ok [] xs h = ap (map ok) (ok_inj [] xs h)
scan_all-ok (err e ∷ rs) xs h = ground arith
scan_all-ok (ok a ∷ rs) xs h = elim (Result-cases (scan_all rs)) [
  | inl (bs, e) ↦
      ap (λ r. ok a ∷ r) (scan_all-ok rs bs e)
      ∙ ap (map ok) (ok_inj (a ∷ bs) xs (sym (scanned_more a rs bs e) ∙ h))
  | inr (e, failed) ↦ absurd (ground arith)
]

-- The answers of a database that does not fail while it counts and reads the rows of a filter.
pub record IsWhole (db : Database) (upper : Char → Char) (f : SearchFilter) (jobs : List Job)
    (total : ℕ) : Type 0 where
  pub rows : List Row
  pub counted : db.count (count_query upper f) ≡ ok total
  pub read : db.job_rows (data_query upper f) ≡ ok (map ok rows, none)
  pub jobs_of : jobs ≡ map job_of rows

module _ (db : Database) (upper : Char → Char) (f : SearchFilter) where
  search_whole :
      (jobs : List Job) (total : ℕ)
      → IsWhole db upper f jobs total
      → search db upper f ≡ (jobs, total, none)
  unfolding search
  search_whole jobs total w = rw (search, w.counted, w.read, scan_all-map w.rows, w.jobs_of) refl

  search_rows :
      (n : ℕ) (rs : List (Result Row)) (after : Option Err) (jobs : List Job) (total : ℕ)
      → db.count (count_query upper f) ≡ ok n
      → db.job_rows (data_query upper f) ≡ ok (rs, after)
      → found_jobs n after (scan_all rs) ≡ (jobs, total, none)
      → IsWhole db upper f jobs total
  search_rows n rs after jobs total c d h = elim (Result-cases (scan_all rs)) [
    | inr (e, failed) ↦ absurd (ground arith)
    | inl (bs, e) ↦
        let found : found_jobs n after (ok bs) ≡ (jobs, total, none) =
          subst (λ r. found_jobs n after r ≡ (jobs, total, none)) e h in
        let after_is : after ≡ none = ap (λ r. r.2) found in
        record {
          rows = bs;
          counted = c ∙ ap ok (ap (λ r. r.1) found);
          read = d ∙ ap ok (rw (scan_all-ok rs bs e, after_is) refl);
          jobs_of = sym (ap (λ r. r.0) found);
        }
  ]

  search_cases :
      (jobs : List Job) (total : ℕ)
      → search db upper f ≡ (jobs, total, none)
      → IsWhole db upper f jobs total
  unfolding search
  search_cases jobs total h = elim (Result-cases (db.count (count_query upper f))) [
    | inr (e, failed) ↦ absurd (ground arith)
    | inl (n, c) ↦ elim (Result-cases (db.job_rows (data_query upper f))) [
      | inr (e, failed) ↦ absurd (ground arith)
      | inl ((rs, after), d) ↦ search_rows n rs after jobs total c d (ground arith)
    ]
  ]

  -- Search reports no error exactly when the count succeeded, every row was read and the rows did not
  -- break off; its jobs are then the rows' in their order, and its total is the count.
  pub search-IsWhole :
      (jobs : List Job) (total : ℕ)
      → (search db upper f ≡ (jobs, total, none)) ↔ IsWhole db upper f jobs total
  search-IsWhole jobs total = (search_cases jobs total, search_whole jobs total)

abbrev pub with_after : Option Err → Rows (String × ℕ) → Rows (String × ℕ)
with_after cut (ok (rs, after)) = ok (rs, cut)
with_after cut (err e) = err e

-- A database whose groups break off with an error, or with none, behind the same rows.
abbrev pub break_off : Option Err → Database → Database
break_off cut db = record db { groups = λ q. with_after cut (db.groups q) }

scan_groups-with_after :
    (prefix : String) (cut : Option Err) (r : Rows (String × ℕ))
    → scan_groups prefix (with_after cut r) ≡ scan_groups prefix r
unfolding scan_groups
scan_groups-with_after prefix cut (ok (rs, after)) = refl
scan_groups-with_after prefix cut (err e) = refl

-- GetStats gives the same whether the rows of a group query ended or broke off with an error: it then
-- counts the rows before the break and reports no error.
pub get_stats-break_off :
    (db : Database) (cut : Option Err) → get_stats (break_off cut db) ≡ get_stats db
unfolding get_stats
get_stats-break_off db cut =
    rw
      (
        get_stats,
        scan_groups-with_after "stats by source: " cut (db.groups sources_query),
        scan_groups-with_after "stats by remote: " cut (db.groups remotes_query),
        scan_groups-with_after "stats top tags: " cut (db.groups tags_query),
      )
      refl
