-- ===== src/Pipeline/Crawled.antt =====
-- What the scheduler and the crawler put on crawl.queue and jobs.raw is sound.
use jobcrawler.Base.{
  ℕ, zero, suc, String, ◌≡◌, Bool, true, false, not, List, [], ◌∷◌, any, map, take, All, count,
  length, ◌≤◌, refl, inl, inr,
}
use jobcrawler.Domain.{JobSource, CrawlTask, RawCrawlResult}
use jobcrawler.World.Errors.{ok, Result-cases}
use jobcrawler.World.{KafkaMessage, Env, Trace, Call, crawl_task, raw_result}
use jobcrawler.Kafka.{Message, topic_crawl_queue, topic_jobs_raw, publish_batch, encode_all}
use jobcrawler.Kafka.Batches.{Encodes, encode_all-Encodes}
use jobcrawler.Kafka.Silence.{message_of, count-publish_of}
use jobcrawler.Httputil.Robots.{Cache}
use jobcrawler.Crawler.Registry.{Source, SourceRegistry, get_source}
use jobcrawler.Crawler.Worker.{CrawlerWorker, detail_message, process_message}
use jobcrawler.Crawler.Worker.Silence.{IsSilent, count-process_message, count-undecoded}
use jobcrawler.Scheduler.Enqueue.{count-enqueue_source}
use jobcrawler.Scheduler.{listing_message, generate_urls, enqueue_source}
use jobcrawler.Pipeline.{is_ok, is_sound_page, is_sound_task, is_sound, is_unsound, KeepsFields}

All-take : (P : String → Type 0) (n : ℕ) (xs : List String) → All P xs → All P (take n xs)
All-take P zero xs h = tt
All-take P (suc n) [] h = tt
All-take P (suc n) (x ∷ xs) (k, h) = (k, All-take P n xs h)

All-map :
    (P : String → Type 0) (Q : Message → Type 0) (f : String → Message)
    → ((x : String) → P x → Q (f x))
    → (xs : List String) → All P xs
    → All Q (map f xs)
All-map P Q f k [] h = tt
All-map P Q f k (x ∷ xs) (g, h) = (k x g, All-map P Q f k xs h)

module _ (env : Env) (registry : SourceRegistry) (may_crawl : JobSource → String → Bool)
    (keeps : KeepsFields env) where
  abbrev sound : KafkaMessage → Bool
  sound = is_sound env registry may_crawl

  abbrev unsound : Call → Bool
  unsound = is_unsound env registry may_crawl

  -- However the payload is encoded, the message is sound.
  abbrev IsSafe : String → Message → Type 0
  IsSafe topic m =
      (k : KafkaMessage) → k.topic ≡ topic → env.marshal m.payload ≡ ok k.value → sound k ≡ true

  batch-sound :
      (topic : String) (ms : List Message) (ks : List KafkaMessage)
      → Encodes env "" topic ms ks
      → All (IsSafe topic) ms
      → any (λ k. not (sound k)) ks ≡ false
  batch-sound topic [] [] e h = refl
  batch-sound topic [] (k ∷ ks) e h = absurd e
  batch-sound topic (m ∷ ms) [] e h = absurd e
  batch-sound topic (m ∷ ms) (k ∷ ks) ((at, _, coded), e) (safe, h) =
      rw (safe k at coded) (batch-sound topic ms ks e h)

  pub sound-publish_batch :
      (topic : String) (ms : List Message) (tr : Trace)
      → All (IsSafe topic) ms
      → count unsound (publish_batch env "" topic ms tr).1 ≡ count unsound tr
  unfolding publish_batch
  sound-publish_batch topic ms tr safe = elim (Result-cases (encode_all env "" topic ms)) [
    | inr (e, failed) ↦ rw failed refl
    | inl (ks, coded) ↦
        rw coded
          (rw (batch-sound topic ms ks (encode_all-Encodes env "" topic ms ks coded) safe) refl)
  ]

  -- A task of a source with parsers, to be listed or at a URL that these list.
  task-IsSafe :
      (key : String) (t : CrawlTask)
      → is_sound_task env registry may_crawl (ok t) ≡ true
      → IsSafe topic_crawl_queue (record { key = key; payload = crawl_task t; headers = [] })
  unfolding is_sound
  task-IsSafe key t good k at coded = rw at (elim (Result-cases (env.unmarshal_task k.value)) [
    | inr (e, failed) ↦ rw failed refl
    | inl (t', decoded) ↦
        let (source, kind, url) = keeps.task t t' k.value coded decoded in
        rw (decoded, source, kind, url) good
  ])

  listing-IsSafe :
      (source : JobSource) (url : String)
      → is_ok (get_source registry source) ≡ true
      → IsSafe topic_crawl_queue (listing_message source url)
  listing-IsSafe source url known = task-IsSafe source _ (rw known refl)

  listings-IsSafe :
      (source : JobSource) (urls : List String)
      → is_ok (get_source registry source) ≡ true
      → All (IsSafe topic_crawl_queue) (map (listing_message source) urls)
  listings-IsSafe source [] known = tt
  listings-IsSafe source (u ∷ us) known =
      (listing-IsSafe source u known, listings-IsSafe source us known)

  -- There are parsers for every source that the scheduler has a URL for.
  abbrev pub Covers : Type 0
  Covers =
      (source : JobSource)
      → 1 ≤ length (generate_urls source)
      → is_ok (get_source registry source) ≡ true

  -- EnqueueSource, of any source.
  pub sound-enqueue_source :
      (source : JobSource) (tr : Trace)
      → Covers
      → count unsound (enqueue_source env source tr).1 ≡ count unsound tr
  sound-enqueue_source source tr covers = count-enqueue_source env unsound source tr (λ some_url.
      sound-publish_batch topic_crawl_queue (map (listing_message source) (generate_urls source)) tr
        (listings-IsSafe source (generate_urls source) (covers source some_url)))

  detail-IsSafe :
      (task : CrawlTask) (at : ℕ) (url : String)
      → is_ok (get_source registry task.source) ≡ true
      → may_crawl task.source url ≡ true
      → IsSafe topic_crawl_queue (detail_message task at url)
  detail-IsSafe task at url known may = task-IsSafe task.source _ (rw (known, may) refl)

  unsound-IsSilent : IsSilent unsound
  unfolding is_sound
  unsound-IsSilent = record {
    away = record {
      no_pipeline = λ cs. refl;
      no_set = λ key value ttl. refl;
      no_incr = λ key. refl;
      no_h_set = λ key field value. refl;
    };
    fetches = λ u. refl;
    waits = λ d. refl;
    commits = λ m. refl;
    failures = λ m e. rw e refl;
  }

  -- A page that the crawler publishes for a task of such a URL.
  page_safe :
      (r : RawCrawlResult) (value : String)
      → is_sound_page env registry may_crawl r.source r.url ≡ true
      → env.marshal (raw_result r) ≡ ok value
      → sound (message_of unsound env "" topic_jobs_raw r.source value) ≡ true
  unfolding is_sound
  page_safe r value good coded = elim (Result-cases (env.unmarshal_raw value)) [
    | inr (e, failed) ↦ rw failed refl
    | inl (r', decoded) ↦
        let (source, url) = keeps.raw r r' value coded decoded in rw (decoded, source, url) good
  ]

  -- The parsers of a source list only URLs that may be crawled for it.
  abbrev pub Lists : Type 0
  Lists =
      (source : JobSource) (src : Source) (html : String) (urls : List String)
      → get_source registry source ≡ ok src
      → src.parse_listing html ≡ ok urls
      → All (λ u. may_crawl source u ≡ true) urls

module _ (env : Env) (w : CrawlerWorker) (may_crawl : JobSource → String → Bool)
    (keeps : KeepsFields env) (lists : Lists env w.registry may_crawl keeps) where
  sound_details :
      (task : CrawlTask) (src : Source) (html : String) (urls : List String) (tr : Trace)
      → get_source w.registry task.source ≡ ok src
      → src.parse_listing html ≡ ok urls
      → count
          (is_unsound env w.registry may_crawl)
          (publish_batch env "" topic_crawl_queue
            (map (detail_message task (env.clock tr)) (take w.max_fanout urls))
            tr).1
        ≡ count (is_unsound env w.registry may_crawl) tr
  sound_details task src html urls tr found parsed =
      let known : is_ok (get_source w.registry task.source) ≡ true = rw found refl in
      sound-publish_batch env w.registry may_crawl keeps topic_crawl_queue _ tr (
        All-map (λ u. may_crawl task.source u ≡ true) _ (detail_message task (env.clock tr))
          (λ u may. detail-IsSafe env w.registry may_crawl keeps task (env.clock tr) u known may)
          (take w.max_fanout urls)
          (All-take _ w.max_fanout urls (lists task.source src html urls found parsed)))

  -- The crawler leaves nothing unsound behind, for a message whose task is sound.
  pub sound-process_message :
      (polls : ℕ) (cache : Cache) (msg : KafkaMessage) (tr : Trace)
      → is_sound_task env w.registry may_crawl (env.unmarshal_task msg.value) ≡ true
      → count (is_unsound env w.registry may_crawl) (process_message env w polls cache msg tr).1
        ≡ count (is_unsound env w.registry may_crawl) tr
  sound-process_message polls cache msg tr good =
      let p = is_unsound env w.registry may_crawl in
      let silent = unsound-IsSilent env w.registry may_crawl keeps in
      elim (Result-cases (env.unmarshal_task msg.value)) [
        | inr (e, bad) ↦ count-undecoded p silent env w polls cache msg e tr bad
        | inl (task, decoded) ↦
            let fine : is_sound_task env w.registry may_crawl (ok task) ≡ true =
              rw decoded at good in
            count-process_message p silent env w task (sound_details task)
              (λ html t detail.
                count-publish_of p env "" topic_jobs_raw task.source _ t (λ value coded.
                  rw (page_safe env w.registry may_crawl keeps _ value (rw detail at fine) coded)
                    refl))
              polls cache msg tr decoded
      ]
