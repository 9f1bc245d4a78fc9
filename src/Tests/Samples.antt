-- ===== src/Tests/Samples.antt =====
-- A sample environment, whose Redis keeps what it is given and whose clock ticks with each call, and
-- sample data of the size of a small crawl.
use Prim.Native.Char.{Char}
use jobcrawler.Base.{
  pos, ℕ, ◌*◌, ◌≤◌, String, Bool, true, false, not, none, some, [], ◌∷◌, arith, any, count, length,
  str_eq, if◌then◌else◌, refl,
}
use text.Mathlib.TextPositions.{eq_refl}
use jobcrawler.Domain.{
  CrawlTask, RawCrawlResult, Job, SearchFilter, crawl_type_listing, source_stepstone, remote_full,
  remote_none,
}
use jobcrawler.World.Errors.{sentinel, redis_nil, Result, ok, err}
use jobcrawler.World.{
  KafkaMessage, Payload, Response, Call, Trace, Env, set_nx, pipeline, redis_set,
}
use jobcrawler.Redis.Cache.{Codec}
use jobcrawler.Redis.RateLimiter.Window.{recorded, KeepsEntries, ClockForward}
use jobcrawler.Service.Cached.Transparency.{IsFaithful, KeepsValues}
use jobcrawler.Crawler.Registry.{RawJob, Source, SourceRegistry}
use jobcrawler.Crawler.Worker.Polling.{KeepsPolling}
use jobcrawler.Processor.Worker.{Normaliser}

abbrev is_claim_of : String → Call → Bool
is_claim_of key (set_nx k _) = str_eq k key
is_claim_of key _ = false

abbrev is_pipeline : Call → Bool
is_pipeline (pipeline _) = true
is_pipeline _ = false

abbrev latest : String → Trace → Result String
latest key [] = err (sentinel redis_nil)
latest key (redis_set k value _ ∷ tr) = if str_eq k key then ok value else latest key tr
latest key (_ ∷ tr) = latest key tr

abbrev pub sample_task : String → CrawlTask
sample_task url = record {
  source = source_stepstone;
  url = url;
  crawl_type = crawl_type_listing;
  enqueued_at = 1;
}

abbrev pub sample_raw : String → RawCrawlResult
sample_raw url = record { source = source_stepstone; url = url; html = "<html>"; crawled_at = 1 }

abbrev pub payload_text : Payload → String
payload_text (Payload.crawl_task t) = t.url
payload_text (Payload.raw_result r) = r.url
payload_text _ = "{}"

abbrev site_answer : String → Response
site_answer url = record {
  status = if str_eq url "https://s.de/busy" then 429 else 200;
  body = ok "<html>";
}

abbrev pub sample_env : Env
sample_env = record {
  fetch_answer = λ tr. err (sentinel redis_nil);
  write_answer = λ tr ms. none;
  commit_answer = λ tr m. none;
  set_nx_answer = λ tr key ttl. ok (not (any (is_claim_of key) tr));
  pipeline_answer = λ tr cs. ok (0 ∷ count is_pipeline tr ∷ 1 ∷ 1 ∷ []);
  get_answer = λ tr key. latest key tr;
  set_answer = λ tr key value ttl. none;
  del_answer = λ tr keys. none;
  scan_answer = λ tr cursor pattern. ok ([], 0);
  incr_answer = λ tr key. none;
  h_set_answer = λ tr key. none;
  http_answer = λ tr url. ok (site_answer url);
  wait_answer = λ tr d. none;
  upsert_answer = λ tr job. ok (record { id = "j1"; created_at = 1; updated_at = 1 });
  refresher_ticks = λ tr. false;
  count_answer = λ tr. ok 0;
  delete_answer = λ tr cutoff. ok 0;
  alerts_answer = λ tr frequency. ok [];
  clock = λ tr. 500 * length tr;
  marshal = λ p. ok (payload_text p);
  unmarshal_task = λ s. ok (sample_task s);
  unmarshal_raw = λ s. ok (sample_raw s);
  url_origin = λ url. ok "https://s.de";
  build_request = λ url. none;
  rand = λ tr n. 0;
  rfc3339 = λ t. "1970-01-01T00:00:00Z";
  robots_group = λ s. ok none;
}

recorded-pipelines :
    (key : String) (start : ℕ) (tr : Trace)
    → recorded sample_env key start tr ≤ count is_pipeline tr
recorded-pipelines key start [] = omega arith
recorded-pipelines key start (c ∷ tr) = ground (arith, recorded-pipelines key start tr)

pub sample-KeepsEntries : KeepsEntries sample_env
sample-KeepsEntries = record {
  counted =
      λ tr key start at ttl member replies h e. ground (arith, recorded-pipelines key start tr);
}

pub sample-ClockForward : ClockForward sample_env
sample-ClockForward = record { later = λ c tr. omega arith }

pub sample-KeepsPolling : KeepsPolling sample_env
sample-KeepsPolling = record {
  replies = λ tr cs. 0 ∷ count is_pipeline tr ∷ 1 ∷ 1 ∷ [];
  answers = λ tr cs. refl;
  running = λ tr. refl;
  prompt = λ tr cs. omega arith;
}

pub sample-KeepsValues : KeepsValues sample_env
sample-KeepsValues = record { stored = λ tr key value ttl. rw (eq_refl key) refl }

abbrev pub text_codec : Codec String
text_codec = record { encode = λ s. ok s; decode = λ s. ok s }

pub text_codec-IsFaithful : IsFaithful text_codec
text_codec-IsFaithful = record { decode-encode = λ a text h. ground arith }

abbrev pub sample_message : KafkaMessage
sample_message = record {
  topic = "crawl.queue";
  key = source_stepstone;
  value = "https://s.de/jobs";
  headers = [];
  offset = 7;
}

abbrev pub sample_raw_job : RawJob
sample_raw_job = record {
  title = "Go developer";
  company = "Qbert";
  location = "Berlin";
  salary_text = "";
  description = "Kafka and Go";
  url = "https://s.de/1";
  external_id = "1";
  published_at = "";
}

abbrev pub sample_source : Source
sample_source = record {
  name = source_stepstone;
  parse_listing = λ html. ok ("https://s.de/1" ∷ "https://s.de/2" ∷ []);
  parse_detail = λ html. ok sample_raw_job;
}

abbrev pub sample_registry : SourceRegistry
sample_registry = (source_stepstone, sample_source) ∷ []

abbrev pub sample_normaliser : Normaliser
sample_normaliser = record {
  normalize_title = λ s. s;
  normalize_location = λ s. s;
  detect_remote = λ s. remote_none;
  extract_tags = λ s t. "go" ∷ [];
  parse_salary = λ s. (none, none, "EUR");
}

abbrev pub same_text : String → String
same_text s = s

abbrev pub same_char : Char → Char
same_char c = c

abbrev pub sample_job : Job
sample_job = record {
  id = "j1";
  external_id = "1";
  source = source_stepstone;
  title = "Go developer";
  company = record { id = ""; name = "Qbert"; website = ""; logo_url = "" };
  location = record { city = "Berlin"; state = ""; country = ""; postal_code = "" };
  remote = remote_full;
  salary_min = some (pos 60000);
  salary_max = none;
  salary_currency = "EUR";
  description = "Kafka and Go";
  tags = "go" ∷ [];
  published_at = 5;
  expires_at = none;
  url = "https://s.de/1";
  fingerprint = "f";
  created_at = 1;
  updated_at = 2;
}

abbrev pub sample_filter : SearchFilter
sample_filter = record {
  query = "Go";
  location = "Berlin";
  remote = remote_full;
  tags = "go" ∷ "rust" ∷ [];
  salary_min = 50000;
  sources = "STEPSTONE" ∷ "XING" ∷ [];
  page = 1;
  per_page = 25;
  sort = "title:asc";
}
