-- ===== src/Redis/Keys.antt =====
-- pkg/redis/keys.go and ttl.go: the key of each namespace, and how long it lives (in milliseconds).
use jobcrawler.Base.{ℕ, String, ◌*◌, ◌⧺◌}

abbrev pub key_dedup_job : String → String
key_dedup_job fingerprint = "dedup:job:" ⧺ fingerprint

abbrev pub key_dedup_url : String → String
key_dedup_url url_hash = "dedup:url:" ⧺ url_hash

abbrev pub key_cache_search : String → String
key_cache_search query_hash = "cache:search:" ⧺ query_hash

abbrev pub key_cache_job : String → String
key_cache_job id = "cache:job:" ⧺ id

abbrev pub key_cache_stats : String
key_cache_stats = "cache:stats:market"

abbrev pub key_rate_limit_crawler : String → String
key_rate_limit_crawler source = "ratelimit:crawler:" ⧺ source

abbrev pub key_rate_limit_api : String → String
key_rate_limit_api ip = "ratelimit:api:" ⧺ ip

abbrev pub key_crawler_last_run : String → String
key_crawler_last_run source = "crawler:last_run:" ⧺ source

abbrev pub key_crawler_job_count : String → String
key_crawler_job_count source = "crawler:job_count:" ⧺ source

abbrev pub key_crawler_status : String
key_crawler_status = "crawler:status"

abbrev pub ttl_dedup_job : ℕ
ttl_dedup_job = 7 * 24 * 3600000

abbrev pub ttl_dedup_url : ℕ
ttl_dedup_url = 24 * 3600000

abbrev pub ttl_cache_search : ℕ
ttl_cache_search = 60000

abbrev pub ttl_cache_job : ℕ
ttl_cache_job = 5 * 60000

abbrev pub ttl_cache_stats : ℕ
ttl_cache_stats = 3600000
