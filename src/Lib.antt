-- ===== src/Lib.antt =====
-- The verification library of jobcrawler.
--
-- The program is four Go binaries around Kafka, Redis and Postgres. The scheduler puts listing tasks
-- on crawl.queue; the crawler fetches pages and puts the details of a listing back on crawl.queue and
-- the pages themselves on jobs.raw; the processor parses, deduplicates and stores jobs, and matches
-- alerts; the API searches the stored jobs through a cache.
--
-- How it is modelled. Code runs as an action of World.antt: a function from the trace of the calls
-- made so far, the latest first, to a value and the longer trace. What a broker, Redis, Postgres, a
-- site or the clock answers is given by `Env`, a record of functions of that trace, so a theorem for
-- every `Env` holds for every behaviour of the services, errors and cancelled contexts included.
-- Where a theorem needs what Redis documents, a record names it (KeepsEntries, KeepsKeys,
-- KeepsValues, ScanEnds), and KeepsFields names what the codec keeps. The JSON codec, net/url, the robots.txt parser, SHA-256 and the case
-- tables of Unicode are parameters too, and log lines, metrics and spans are left out. A Go error is an `Err`
-- of World/Errors.antt, wrapped as fmt.Errorf wraps it.
--
-- Which file models what:
--   Domain.antt: internal/domain; World/Errors.antt has internal/domain/errors.go.
--   Kafka.antt: pkg/kafka/producer.go (Publish, PublishBatch, buildHeaders, HeaderValue),
--     consumer.go (FetchMessage, CommitMessages) and topics.go. Kafka/Admin.antt: admin.go.
--     Tracing.antt: the header carrier of pkg/tracing/kafka.go.
--   Redis/Keys.antt: pkg/redis/keys.go and ttl.go. Redis/RateLimiter.antt: rate_limiter.go, Allow.
--     Redis/Cache.antt: cache.go.
--   Httputil/Client.antt: pkg/httputil/crawler_client.go, Get and doGet. Httputil/Retry.antt:
--     retry.go. Httputil/Robots.antt: robots.go. Httputil/Transport.antt: the dialer, the choice of a user
--     agent and the limit of redirects of crawler_client.go.
--   Crawler/Registry.antt: internal/crawler/registry.go and source.go. Crawler/Worker.antt:
--     internal/crawler/worker.go, processMessage and what it calls; Crawler/Worker/Consumer.antt: Start.
--   Crawler/Sources: stepstone.go (Sources/Stepstone.antt), xing.go (Sources/Xing.antt) and indeed.go
--     (Sources/Indeed.antt) of internal/crawler. The loop that each ParseListing has is `collect` of
--     Sources/Listing.antt, the JSON-LD block that two of them read Sources/Posting.antt.
--   Processor/Normalizer: internal/processor/normalizer.go, by what it reads: Titles, Locations,
--     Keywords and Salary; Processor/Worker/Normalised.antt puts it into the worker. A regular
--     expression is a matcher over the pieces of Matching.antt.
--   Processor/Worker.antt: internal/processor/worker.go, processMessage and the live count;
--     Processor/Worker/Consumer.antt: Start;
--     Processor/Dedup.antt: dedup.go; Processor/Dlq.antt: dlq.go; Processor/Alerts.antt:
--     alert_matcher.go.
--   Repository/Rows.antt and Repository/Search.antt: internal/repository/postgres/job_repo.go, the
--     scan of a row and the queries of Search; Repository/Rows/Upsert.antt: Upsert over the rows of a
--     table, with its conflict clause; Repository/Queries.antt: GetByID, Search, GetStats,
--     Count and DeleteOlderThan over the answers of a database.
--   Service/Postgres.antt, Service/Cached.antt and Service/Invalidation.antt: internal/service.
--   Scheduler.antt: internal/scheduler/scheduler.go; Scheduler/Cron.antt: its Start.
--     Janitor.antt: internal/janitor/janitor.go.
--   Handler/Response.antt, Handler/Jobs.antt and Handler/Health.antt: internal/handler/response.go,
--     job_handler.go and health_handler.go; Handler/Numbers.antt is strconv.Atoi.
--   Handler/Middleware.antt: internal/handler/middleware/rate_limit.go. Handler/Router.antt:
--     internal/handler/router.go and the other middlewares of that folder.
--   Cmd.antt: what the main functions share; Cmd/Crawler.antt, Cmd/Processor.antt, Cmd/Scheduler.antt and
--     Cmd/Api.antt: cmd/*/main.go. Cmd/Connections.antt: pkg/database and pkg/redis/client.go.
--     Crawler/Interfaces.antt: the limiter and the statistics of the crawler worker.
--   Pipeline.antt: the scheduler, the crawlers and the processors around Kafka, as steps of one trace in
--     any order, each on a message that was written to its topic before (a delivery may be repeated).
--   Config.antt: config/config.go and config/load.go. Startup.antt: connectWithRetry of
--     cmd/api/main.go. Shutdown.antt: pkg/shutdown/shutdown.go, as steps in any order.
--   Tests: sample data, and every theorem that has conditions applied to it.
--
-- Bounds and fuel. Times are whole milliseconds, those of the janitor nanoseconds.
-- respectRateLimit may poll for ever, so it takes the number of polls that are looked at, and
-- answers `none` when they are used up. The consumer loops take their rounds; a loop that has used
-- them up has not returned, and its main function then has no exit code. ScanAndDelete takes its
-- rounds: one more than the distance of the cursor from the end is enough. The three attempts of
-- Get and the attempts of RetryDo are recursion on what is left. `decimal` takes the number itself
-- as its fuel, which is enough since each round divides by ten. Numbers are unbounded except where
-- the source can overflow: the offset of a page and the retention of the janitor are wrapped to 64
-- bits.
--
-- An int of the normaliser has 64 bits; the removal of matches from a text is recursion on the text
-- that skips what a match took.
--
-- Not modelled: the cookies and headers of the client, goquery (a page is a record of what its
-- selectors find), logging, metrics, spans, the defaults that are handed to viper, the SQL of the
-- migrations, the drivers of Redis and Postgres, the matching of routes and the embedded web assets.
pub mod Base
pub mod Cmd
pub mod Domain
pub mod World
pub mod Kafka
pub mod Redis
pub mod Httputil
pub mod Crawler
pub mod Processor
pub mod Repository
pub mod Service
pub mod Shutdown
pub mod Startup
pub mod Config
pub mod Tracing
pub mod Scheduler
pub mod Pipeline
pub mod Janitor
pub mod Handler
pub mod Tests
