-- ===== src/Scheduler.antt =====
-- internal/scheduler/scheduler.go: the listing tasks of each source. Cron ticks run `enqueue_source`
-- at times that the schedule gives; the loop at start-up is `initial_enqueue`.
pub mod Enqueue
pub mod Registered
pub mod Cron
use jobcrawler.Base.{
  ℕ, Bool, String, ◌==◌, Option, none, some, List, [], ◌∷◌, map, str_eq, ◌⧺◌, trim_right,
  if◌then◌else◌,
}
use jobcrawler.Domain.{
  CrawlTask, JobSource, source_stepstone, source_indeed, source_xing, crawl_type_listing,
}
use jobcrawler.World.Errors.{Err, failure}
use jobcrawler.World.{crawl_task, Env, Io, Trace}
use jobcrawler.Kafka.{Message, topic_crawl_queue, publish_batch, wrap_error}

abbrev stepstone_base : String
stepstone_base = "https://www.stepstone.de"

abbrev indeed_base : String
indeed_base = "https://de.indeed.com"

abbrev xing_base : String
xing_base = "https://www.xing.com"

abbrev is_slash : ℕ → Bool
is_slash c = c == 47

unfoldable pub prefixed : String → List String → List String
prefixed base paths = map (λ p. trim_right is_slash base ⧺ p) paths

abbrev stepstone_paths : List String
stepstone_paths =
    "/jobs/it-software-entwicklung?page=1" ∷ "/jobs/it-software-entwicklung?page=2"
    ∷ "/jobs/it-software-entwicklung?page=3" ∷ "/jobs/it-software-entwicklung?page=4"
    ∷ "/jobs/it-software-entwicklung?page=5" ∷ []

abbrev xing_keywords : List String
xing_keywords = "softwareentwickler" ∷ "backend+developer" ∷ "golang+entwickler" ∷ []

unfoldable pub generate_urls : JobSource → List String
unfolding prefixed
generate_urls source =
    if str_eq source source_stepstone
    then prefixed stepstone_base stepstone_paths
    else if str_eq source source_indeed
    then (indeed_base ⧺ "/jobs?q=software+developer&l=Deutschland") ∷ []
    else if str_eq source source_xing
    then map (λ kw. xing_base ⧺ ("/jobs/search?keywords=" ⧺ kw)) xing_keywords
    else []

-- The item of a URL; EnqueuedAt stays the zero time.
abbrev pub listing_message : JobSource → String → Message
listing_message source url = record {
  key = source;
  payload =
      crawl_task
        (record { source = source; url = url; crawl_type = crawl_type_listing; enqueued_at = 0 });
  headers = [];
}

module _ (env : Env) where
  enqueue_urls : JobSource → List String → Io (Option Err)
  enqueue_urls source [] tr = (some (failure ("no URLs generated for source " ⧺ source)), tr)
  enqueue_urls source (u ∷ us) tr =
      let (e, tr') =
        publish_batch env "" topic_crawl_queue (map (listing_message source) (u ∷ us)) tr in
      (wrap_error ("enqueue " ⧺ (source ⧺ ": ")) e, tr')

  -- EnqueueSource
  unfoldable pub enqueue_source : JobSource → Io (Option Err)
  unfolding enqueue_urls
  enqueue_source source = enqueue_urls source (generate_urls source)

  -- The loop of Start before the first tick: an error of one source is only logged.
  unfoldable pub enqueue_all : List JobSource → Io (List (Option Err))
  unfolding enqueue_source
  enqueue_all [] tr = ([], tr)
  enqueue_all (s ∷ ss) tr =
      let (e, tr1) = enqueue_source s tr in let (es, tr2) = enqueue_all ss tr1 in (e ∷ es, tr2)

  unfoldable pub initial_enqueue : Io (List (Option Err))
  unfolding enqueue_all
  initial_enqueue = enqueue_all (source_stepstone ∷ source_xing ∷ source_indeed ∷ [])
