-- ===== src/Repository/Rows/Upsert/Written.antt =====
-- Writing jobs and reading them back (internal/repository/postgres/job_repo.go).
use mathlib.Core.Path.{fun_ext}
use jobcrawler.Base.{
  ℕ, ℤ, String, ◌≡◌, ◌∙◌, Option, none, some, List, [], ◌∷◌, map, refl, eq_iff, ap, subst, inl, inr,
  Bool-cases, str_eq, if◌then◌else◌,
}
use jobcrawler.Domain.{Job}
use jobcrawler.World.{Stored}
use jobcrawler.Repository.Rows.{truncate, scan_job}
use jobcrawler.Repository.Rows.RoundTrip.{string_or_empty-null_string, time_or_zero-null_time}
use jobcrawler.Repository.Rows.Upsert.{
  Value, varchar, Row, null_text, null_integer, null_or_time, text_or_null, integer_or_null,
  time_or_null, inserted, updated, upsert, read_job, ◌>>=◌,
}

-- The part of a job that the table keeps: long texts are cut, and what has no column is cleared.
abbrev pub kept : Job → Stored → Job
kept job s = record job {
  id = s.id;
  external_id = truncate job.external_id 255;
  title = truncate job.title 500;
  company = record {
    id = "";
    name = truncate job.company.name 255;
    website = truncate job.company.website 500;
    logo_url = "";
  };
  location = record {
    city = truncate job.location.city 255;
    state = "";
    country = truncate job.location.country 100;
    postal_code = "";
  };
  url = truncate job.url 1000;
  created_at = s.created_at;
  updated_at = s.updated_at;
}

scan_text : (o : Option String) (vs : List Value) → null_text (text_or_null o ∷ vs) ≡ some (o, vs)
unfolding null_text text_or_null
scan_text none vs = refl
scan_text (some s) vs = refl

scan_integer :
    (o : Option ℤ) (vs : List Value) → null_integer (integer_or_null o ∷ vs) ≡ some (o, vs)
unfolding null_integer integer_or_null
scan_integer none vs = refl
scan_integer (some n) vs = refl

scan_time : (o : Option ℕ) (vs : List Value) → null_or_time (time_or_null o ∷ vs) ≡ some (o, vs)
unfolding null_or_time time_or_null
scan_time none vs = refl
scan_time (some t) vs = refl

read_job-inserted : (job : Job) (s : Stored) → read_job (inserted job s) ≡ some (kept job s)
unfolding read_job inserted scan_job
read_job-inserted job s =
    simp (
      ◌>>=◌, scan_text, scan_integer, scan_time, string_or_empty-null_string,
      time_or_zero-null_time,
    )

-- What was written: the first job of each fingerprint, with the url of the last one and its time.
abbrev pub Saved : Type 0
Saved = Job × Stored

abbrev pub written : Job → Stored → List Saved → List Saved
written job fresh [] = (job, fresh) ∷ []
written job fresh ((j, s) ∷ entries) =
    if str_eq j.fingerprint job.fingerprint
    then (record j { url = job.url }, record s { updated_at = fresh.updated_at }) ∷ entries
    else (j, s) ∷ written job fresh entries

abbrev pub written_all : List Saved → List Saved → List Saved
written_all [] entries = entries
written_all ((job, fresh) ∷ more) entries = written_all more (written job fresh entries)

abbrev pub upsert_all : List Saved → List Row → List Row
upsert_all [] rows = rows
upsert_all ((job, fresh) ∷ more) rows = upsert_all more (upsert job fresh rows)

abbrev row_of : Saved → Row
row_of (job, s) = inserted job s

updated_column :
    (job : Job) (fresh : Stored) (j : Job) (s : Stored) (n : String)
    → updated job fresh (inserted j s) n
      ≡ inserted (record j { url = job.url }) (record s { updated_at = fresh.updated_at }) n
unfolding updated
updated_column job fresh j s n = elim (Bool-cases (str_eq "url" n)) [
  | inl url ↦
      subst
        (λ n.
          updated job fresh (inserted j s) n
          ≡ inserted (record j { url = job.url }) (record s { updated_at = fresh.updated_at }) n)
        ((eq_iff "url" n).0 url) refl
  | inr no_url ↦ elim (Bool-cases (str_eq "updated_at" n)) [
    | inl now ↦
        subst
          (λ n.
            updated job fresh (inserted j s) n
            ≡ inserted (record j { url = job.url }) (record s { updated_at = fresh.updated_at }) n)
          ((eq_iff "updated_at" n).0 now) refl
    | inr not_now ↦ rw (no_url, not_now) refl
  ]
]

updated-inserted :
    (job : Job) (fresh : Stored) (j : Job) (s : Stored)
    → updated job fresh (inserted j s)
      ≡ inserted (record j { url = job.url }) (record s { updated_at = fresh.updated_at })
updated-inserted job fresh j s = fun_ext (updated_column job fresh j s)

upsert_rows :
    (job : Job) (fresh : Stored) (entries : List Saved)
    → upsert job fresh (map row_of entries) ≡ map row_of (written job fresh entries)
unfolding upsert
upsert_rows job fresh [] = refl
upsert_rows job fresh ((j, s) ∷ entries) =
    let named : inserted j s "fingerprint" ≡ varchar j.fingerprint = unfold inserted in refl in
    elim (Bool-cases (str_eq j.fingerprint job.fingerprint)) [
      | inl same ↦ rw (named, same, updated-inserted job fresh j s) refl
      | inr other ↦
          rw (named, other) (ap (λ rows. row_of (j, s) ∷ rows) (upsert_rows job fresh entries))
    ]

upsert_all_rows :
    (jobs entries : List Saved)
    → upsert_all jobs (map row_of entries) ≡ map row_of (written_all jobs entries)
upsert_all_rows [] entries = refl
upsert_all_rows ((job, fresh) ∷ more) entries =
    ap (upsert_all more) (upsert_rows job fresh entries)
    ∙ upsert_all_rows more (written job fresh entries)

read_rows :
    (entries : List Saved)
    → map read_job (map row_of entries) ≡ map (λ e. some (kept e.0 e.1)) entries
read_rows [] = refl
read_rows ((job, s) ∷ entries) = rw (read_job-inserted job s, read_rows entries) refl

-- Whatever jobs are written to an empty table, in whatever order and with whatever fingerprints, the
-- rows that are read back are, for each fingerprint, the part that the table keeps of the first job that
-- was written with it, under that one's id and creation time, with the url of the last job that was
-- written with it and the time of that write.
pub read_job-upsert_all :
    (jobs : List Saved)
    → map read_job (upsert_all jobs []) ≡ map (λ e. some (kept e.0 e.1)) (written_all jobs [])
read_job-upsert_all jobs =
    ap (map read_job) (upsert_all_rows jobs []) ∙ read_rows (written_all jobs [])
