-- ===== src/Tests/Flow.antt =====
-- The theorem of the pipeline at a trace of one job of Xing, from the scheduler to the database.
use jobcrawler.Base.{pos, ◌≡◌, true, some, [], refl, count, split, map_chars, trim_space}
use jobcrawler.Domain.{Job, source_xing}
use jobcrawler.World.Errors.{ok}
use jobcrawler.World.{KafkaMessage, Trace}
use jobcrawler.Kafka.{
  topic_crawl_queue, topic_jobs_raw, publish, publish_batch, encode_all, commit_message,
}
use jobcrawler.Crawler.Interfaces.{noop_stats_updater}
use jobcrawler.Crawler.Worker.{CrawlerWorker, new_crawler_worker}
use jobcrawler.Crawler.Worker as Crawler
use jobcrawler.Crawler.Interfaces.{noop_rate_limiter}
use jobcrawler.Processor.Dedup.{is_url_crawled, is_duplicate, fingerprint, normalise_field}
use jobcrawler.Processor.Alerts.{find_matching_alerts, notify_matches, select_alerts}
use jobcrawler.Processor.Worker as Processor
use jobcrawler.Scheduler.{generate_urls, enqueue_source}
use jobcrawler.Scheduler.Registered.{sources}
use jobcrawler.Httputil.Robots.{find, is_allowed}
use jobcrawler.Crawler.Sources.Indeed.{indeed}
use jobcrawler.Httputil.Client.{get}
use jobcrawler.Crawler.Registry.{new_registry, register, get_source}
use jobcrawler.Crawler.Sources.Xing.{xing, xing_urls, keep_xing}
use jobcrawler.Crawler.Sources.Listing.{collect}
use jobcrawler.Crawler.Sources.Patterns.{strip_prefix, is_numbered_slug}
use jobcrawler.Pipeline.{is_unsound, scheduled, crawled, processed, Reached, start, next}
use jobcrawler.Pipeline.Sound.{reached_sound}
use jobcrawler.Pipeline.Addresses.{is_job_url}
use jobcrawler.Pipeline.Sources.{IsJobOf, sources-Lists, sources-Covers, stored_jobs_located}
use jobcrawler.Tests.Samples.{sample_normaliser, same_text, same_char}
use jobcrawler.Tests.Messages.{
  flow_env, flow-KeepsFields, flow_html, no_json, flow_worker, latest_to, latest_to-IsDelivered,
  latest_job, job_or_sample, is_some_job, latest_job-Memᴰ,
}

abbrev listing_seen : Trace
listing_seen = (enqueue_source flow_env source_xing []).1

abbrev listing : KafkaMessage
listing = record {
  topic = topic_crawl_queue;
  key = source_xing;
  value = "LISTING https://www.xing.com/jobs/search?keywords=softwareentwickler";
  headers = [];
  offset = 0;
}

listing_seen_text : latest_to topic_crawl_queue listing_seen ≡ some listing
unfolding enqueue_source generate_urls publish_batch encode_all split
listing_seen_text = refl

abbrev listing_crawled : Trace
listing_crawled = (Crawler.process_message flow_env flow_worker 1 [] listing listing_seen).1

abbrev detail : KafkaMessage
detail = record {
  topic = topic_crawl_queue;
  key = source_xing;
  value = "DETAIL https://www.xing.com/jobs/backend-engineer-12";
  headers = [];
  offset = 0;
}

detail_listed : latest_to topic_crawl_queue listing_crawled ≡ some detail
unfolding enqueue_source generate_urls publish_batch encode_all split Crawler.process_message
    Crawler.dispatch Crawler.fanout_listing Crawler.respect_rate_limit Crawler.update_stats
    Crawler.commit is_allowed get new_registry register get_source xing xing_urls collect keep_xing
    publish commit_message strip_prefix is_numbered_slug new_crawler_worker find indeed
detail_listed = refl

abbrev page_crawled : Trace
page_crawled = (Crawler.process_message flow_env flow_worker 1 [] detail listing_crawled).1

abbrev page : KafkaMessage
page = record {
  topic = topic_jobs_raw;
  key = source_xing;
  value = "https://www.xing.com/jobs/backend-engineer-12";
  headers = [];
  offset = 0;
}

page_published : latest_to topic_jobs_raw page_crawled ≡ some page
unfolding enqueue_source generate_urls publish_batch encode_all split Crawler.process_message
    Crawler.dispatch Crawler.fanout_listing Crawler.respect_rate_limit Crawler.update_stats
    Crawler.commit is_allowed get new_registry register get_source xing xing_urls collect keep_xing
    publish commit_message strip_prefix is_numbered_slug new_crawler_worker find indeed
page_published = refl

abbrev page_processed : Trace
page_processed =
    (Processor.process_message flow_env same_text same_char sample_normaliser flow_worker.registry
      true (pos 3) 0 page page_crawled).1

abbrev job : Job
job = job_or_sample (latest_job page_processed)

job_stored : is_some_job (latest_job page_processed) ≡ true
unfolding Processor.process_message Processor.commit Processor.refresh_beside is_url_crawled
    is_duplicate fingerprint normalise_field map_chars trim_space Processor.at_cap
    find_matching_alerts notify_matches select_alerts enqueue_source generate_urls publish_batch
    encode_all split Crawler.process_message Crawler.dispatch Crawler.fanout_listing
    Crawler.respect_rate_limit Crawler.update_stats Crawler.commit is_allowed get new_registry
    register get_source xing xing_urls collect keep_xing publish commit_message strip_prefix
    is_numbered_slug new_crawler_worker find indeed
job_stored = refl

flow-Reached :
    Reached flow_env flow_worker same_text same_char sample_normaliser true (pos 3) page_processed
flow-Reached =
    next
      (next
        (next (next start (scheduled source_xing)) (
          crawled 1 [] listing
            (latest_to-IsDelivered topic_crawl_queue listing_seen listing listing_seen_text)))
        (crawled 1 [] detail
          (latest_to-IsDelivered topic_crawl_queue listing_crawled detail detail_listed)))
      (processed 0 page (latest_to-IsDelivered topic_jobs_raw page_crawled page page_published))

stored_jobs_located_example :
    IsJobOf (sources (λ url key. ok "") flow_html no_json no_json) job.source job.url
stored_jobs_located_example =
    stored_jobs_located flow_env (λ url key. ok "") flow_html no_json no_json noop_rate_limiter
      noop_stats_updater (pos 3) same_text same_char sample_normaliser true (pos 3) flow-KeepsFields
      page_processed job flow-Reached (latest_job-Memᴰ page_processed job_stored)

reached_sound_example :
    count (is_unsound flow_env flow_worker.registry is_job_url) page_processed ≡ 0
unfolding new_crawler_worker
reached_sound_example =
    reached_sound flow_env flow_worker same_text same_char sample_normaliser true (pos 3) is_job_url
      flow-KeepsFields
      (sources-Covers (λ url key. ok "") flow_html no_json no_json flow_env flow-KeepsFields)
      (sources-Lists (λ url key. ok "") flow_html no_json no_json flow_env flow-KeepsFields)
      page_processed flow-Reached
