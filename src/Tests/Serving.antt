-- ===== src/Tests/Serving.antt =====
-- The theorems of the repository and of the services at sample data.
use jobcrawler.Base.{pos, some, List, map, ◌↔◌, none, String, ◌≡◌, [], ◌∷◌, refl}
use jobcrawler.World.{Stored, Trace, Io, redis_get, count_jobs}
use jobcrawler.World.Errors.{sentinel, redis_nil, not_found, is, Result, ok, err}
use jobcrawler.Redis.Cache.{cache_get}
use jobcrawler.Repository.Rows.{Columns, scan_job}
use jobcrawler.Repository.Rows.Upsert.{read_job}
use jobcrawler.Repository.Rows.Upsert.Written.{
  Saved, kept, upsert_all, written_all, read_job-upsert_all,
}
use jobcrawler.Domain.{source_stepstone, remote_full}
use jobcrawler.Repository.Search.{build_where}
use jobcrawler.Repository.Search.Placeholders.{IsNumbered, build_where-IsNumbered}
use jobcrawler.Repository.Queries.{Database, search}
use jobcrawler.Repository.Queries.Complete.{IsWhole, search-IsWhole}
use jobcrawler.Service.Cached.{cached}
use jobcrawler.Service.Cached.Transparency.{cached_again}
use jobcrawler.Tests.Samples.{
  sample_env, sample_job, sample_filter, same_char, text_codec, text_codec-IsFaithful,
  sample-KeepsValues,
}

abbrev row : Stored
row = record { id = "j1"; created_at = 1; updated_at = 2 }

abbrev again : Stored
again = record { id = "j2"; created_at = 7; updated_at = 7 }

-- The sample job, and the same found again at another address.
abbrev found_twice : List Saved
found_twice = (sample_job, row) ∷ (record sample_job { url = "https://s.de/2" }, again) ∷ []

read_job-upsert_all_example :
    map read_job (upsert_all found_twice [])
    ≡ map (λ e. some (kept e.0 e.1)) (written_all found_twice [])
read_job-upsert_all_example = read_job-upsert_all found_twice

-- What is scanned of the sample job's row.
abbrev sample_columns : Columns
sample_columns = record {
  external_id = some "1";
  source = source_stepstone;
  title = "Go developer";
  company_name = some "Qbert";
  company_website = none;
  location_city = some "Berlin";
  location_country = none;
  remote_type = remote_full;
  salary_min = some (pos 60000);
  salary_max = none;
  salary_currency = some "EUR";
  description = some "Kafka and Go";
  tags = "go" ∷ [];
  url = "https://s.de/1";
  fingerprint = "f";
  published_at = some 5;
  expires_at = none;
}

build_where-IsNumbered_example : IsNumbered (build_where sample_filter)
build_where-IsNumbered_example = build_where-IsNumbered sample_filter

-- Inner services that answer and that fail, each after one query.
abbrev answering : Io (Result String)
answering tr = (ok "stats", count_jobs ∷ tr)

abbrev refusing : Io (Result String)
refusing tr = (err (sentinel not_found), count_jobs ∷ tr)

empty_cache : (cache_get text_codec sample_env "k" []).0 ≡ err (sentinel redis_nil)
unfolding cache_get is
empty_cache = refl

cached_again_example :
    (later : Trace) × (cached text_codec sample_env "k" 60000 answering [] ≡ (ok "stats", later))
    × (cached text_codec sample_env "k" 60000 answering later ≡ (ok "stats", redis_get "k" ∷ later))
cached_again_example =
    cached_again text_codec sample_env "k" 60000 answering text_codec-IsFaithful sample-KeepsValues
      [] (sentinel redis_nil) "stats" "stats" empty_cache refl refl

-- A table of one job.
abbrev one_row : Database
one_row = record {
  job_row = λ id. ok (sample_columns, row);
  count = λ q. ok 1;
  job_rows = λ q. ok (ok (sample_columns, row) ∷ [], none);
  groups = λ q. ok ([], none);
  average = λ q. ok none;
  delete_before = λ t. ok (ok 0);
}

search-IsWhole_example :
    (search one_row same_char sample_filter ≡ (scan_job sample_columns row ∷ [], 1, none))
    ↔ IsWhole one_row same_char sample_filter (scan_job sample_columns row ∷ []) 1
search-IsWhole_example =
    search-IsWhole one_row same_char sample_filter (scan_job sample_columns row ∷ []) 1
