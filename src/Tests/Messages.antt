-- ===== src/Tests/Messages.antt =====
-- A codec, a site of one job of Xing, and the latest message and the latest job of a trace.
use mathlib.Core.List.{Memᴰ}
use jobcrawler.Base.{
  pos, String, ◌≡◌, Bool, true, false, ◌&&◌, Option, none, some, List, [], ◌∷◌, arith, refl, str_eq,
  eq_iff, if◌then◌else◌, ◌⧺◌, split, Bool-cases, sym, subst, ap, ◌∙◌, inl, inr, Option-cases,
}
use jobcrawler.Domain.{CrawlTask, RawCrawlResult, Job, source_xing, crawl_type_listing}
use jobcrawler.World.Errors.{failure, Result, ok, err}
use jobcrawler.World.{KafkaMessage, Payload, Trace, Env, Call, write_messages, upsert_job}
use jobcrawler.Crawler.Interfaces.{noop_stats_updater}
use jobcrawler.Crawler.Sources.Page.{Page, Html, Json}
use jobcrawler.Crawler.Worker.{CrawlerWorker, new_crawler_worker}
use jobcrawler.Crawler.Interfaces.{noop_rate_limiter}
use jobcrawler.Scheduler.Registered.{sources}
use jobcrawler.Pipeline.{IsDelivered, KeepsFields}
use jobcrawler.Tests.Samples.{sample_env, sample_job}

-- A codec for the tasks and the pages of Xing, which refuses what it would not read back.
abbrev pub task_text : CrawlTask → String
task_text t = t.crawl_type ⧺ (" " ⧺ t.url)

abbrev pub task_of_words : List String → CrawlTask
task_of_words (kind ∷ url ∷ []) = record {
  source = source_xing;
  url = url;
  crawl_type = kind;
  enqueued_at = 1;
}
task_of_words _ = record {
  source = source_xing;
  url = "";
  crawl_type = crawl_type_listing;
  enqueued_at = 1;
}

abbrev pub decode_task : String → CrawlTask
decode_task s = task_of_words (split s 32)

abbrev pub decode_page : String → RawCrawlResult
decode_page url = record { source = source_xing; url = url; html = "<html>"; crawled_at = 1 }

abbrev pub is_kept : CrawlTask → CrawlTask → Bool
is_kept t t' =
    str_eq t'.source t.source && (str_eq t'.crawl_type t.crawl_type && str_eq t'.url t.url)

abbrev pub encode : Payload → Result String
encode (Payload.crawl_task t) =
    if is_kept t (decode_task (task_text t)) then ok (task_text t) else err (failure "codec")
encode (Payload.raw_result r) =
    if str_eq source_xing r.source then ok r.url else err (failure "codec")
encode _ = ok "{}"

abbrev pub flow_env : Env
flow_env = record sample_env {
  marshal = encode;
  unmarshal_task = λ s. ok (decode_task s);
  unmarshal_raw = λ s. ok (decode_page s);
}

pub flow-KeepsFields : KeepsFields flow_env
flow-KeepsFields = record {
  task = λ t t' value coded decoded. elim (Bool-cases (is_kept t (decode_task (task_text t)))) [
    | inr other ↦ absurd (ground arith)
    | inl same ↦
        let text : task_text t ≡ value = ground arith in
        let back : decode_task (task_text t) ≡ t' = rw text (ground arith) in
        let kept : is_kept t t' ≡ true = subst (λ x. is_kept t x ≡ true) back same in
        (
          (eq_iff t'.source t.source).0 (ground arith),
          (eq_iff t'.crawl_type t.crawl_type).0 (ground arith),
          (eq_iff t'.url t.url).0 (ground arith),
        )
  ];
  raw = λ r r' value coded decoded. elim (Bool-cases (str_eq source_xing r.source)) [
    | inr other ↦ absurd (ground arith)
    | inl same ↦
        let text : r.url ≡ value = ground arith in
        let back : decode_page value ≡ r' = ground arith in
        (
          sym (ap (λ x. x.source) back) ∙ (eq_iff source_xing r.source).0 same,
          sym (ap (λ x. x.url) back) ∙ sym text,
        )
  ];
}

-- Every page links one job.
abbrev pub one_link : Page
one_link = record {
  first_text = λ s. "";
  first_attr = λ s name. none;
  attrs = λ s name. some "/jobs/backend-engineer-12" ∷ [];
  texts = λ s. [];
  text = "";
}

abbrev pub flow_html : Html
flow_html = record { parse = λ text. ok one_link; without = λ page s. page }

abbrev pub no_json : Json
no_json = record {
  posting = λ s. err (failure "json");
  postings = λ s. err (failure "json");
  place = λ s. err (failure "json");
  places = λ s. err (failure "json");
}

abbrev pub flow_worker : CrawlerWorker
flow_worker =
    new_crawler_worker (sources (λ url key. ok "") flow_html no_json no_json) noop_rate_limiter
      noop_stats_updater (pos 3)

-- The latest message of the topic, and whether there is any.
abbrev pub first_to : String → List KafkaMessage → Option KafkaMessage
first_to topic [] = none
first_to topic (m ∷ ms) = if str_eq m.topic topic then some m else first_to topic ms

abbrev pub latest_to : String → Trace → Option KafkaMessage
latest_to topic [] = none
latest_to topic (write_messages ms ∷ tr) = elim (first_to topic ms) [
  | some m ↦ some m
  | none ↦ latest_to topic tr
]
latest_to topic (c ∷ tr) = latest_to topic tr

first_to-Memᴰ :
    (topic : String) (ms : List KafkaMessage) (m : KafkaMessage)
    → first_to topic ms ≡ some m
    → Memᴰ m ms × (m.topic ≡ topic)
first_to-Memᴰ topic [] m h = absurd (ground arith)
first_to-Memᴰ topic (k ∷ ms) m h = elim (Bool-cases (str_eq k.topic topic)) [
  | inl here ↦
      let same : m ≡ k = ground arith in
      (Memᴰ.head same, subst (λ x. x.topic ≡ topic) (sym same) ((eq_iff k.topic topic).0 here))
  | inr later ↦ let (m_in, at) = first_to-Memᴰ topic ms m (ground arith) in (Memᴰ.tail m_in, at)
]

later-IsDelivered :
    (topic : String) (tr : Trace) (m : KafkaMessage) (c : Call)
    → IsDelivered topic m tr
    → IsDelivered topic m (c ∷ tr)
later-IsDelivered topic tr m c d = record {
  batch = d.batch;
  written = d.written;
  in_batch = d.in_batch;
  in_trace = Memᴰ.tail d.in_trace;
  same_topic = d.same_topic;
  same_value = d.same_value;
}

pub latest_to-IsDelivered :
    (topic : String) (tr : Trace) (m : KafkaMessage)
    → latest_to topic tr ≡ some m
    → IsDelivered topic m tr
latest_to-IsDelivered topic [] m h = absurd (ground arith)
latest_to-IsDelivered topic (write_messages ms ∷ tr) m h = elim (Option-cases (first_to topic ms)) [
  | inl e ↦ later-IsDelivered topic tr m _ (latest_to-IsDelivered topic tr m (ground arith))
  | inr (k, e) ↦
      let same : k ≡ m = ground arith in
      let (m_in, at) = first_to-Memᴰ topic ms k e in
      record {
        batch = ms;
        written = k;
        in_batch = m_in;
        in_trace = Memᴰ.head refl;
        same_topic = at;
        same_value = ap (λ x. x.value) same;
      }
]
latest_to-IsDelivered topic (c ∷ tr) m h =
    later-IsDelivered topic tr m c (latest_to-IsDelivered topic tr m h)

abbrev pub latest_job : Trace → Option Job
latest_job [] = none
latest_job (upsert_job j ∷ tr) = some j
latest_job (c ∷ tr) = latest_job tr

abbrev pub job_or_sample : Option Job → Job
job_or_sample none = sample_job
job_or_sample (some j) = j

abbrev pub is_some_job : Option Job → Bool
is_some_job none = false
is_some_job (some j) = true

pub latest_job-Memᴰ :
    (tr : Trace)
    → is_some_job (latest_job tr) ≡ true
    → Memᴰ (upsert_job (job_or_sample (latest_job tr))) tr
latest_job-Memᴰ [] h = absurd (ground arith)
latest_job-Memᴰ (upsert_job j ∷ tr) h = Memᴰ.head refl
latest_job-Memᴰ (c ∷ tr) h = Memᴰ.tail (latest_job-Memᴰ tr h)
