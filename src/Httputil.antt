-- ===== src/Httputil.antt =====
-- pkg/httputil: the crawler's HTTP client with its retries and its transport, RetryDo, and the robots.txt
-- check.
pub mod Client
pub mod Retry
pub mod Robots
pub mod Transport
