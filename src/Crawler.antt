-- ===== src/Crawler.antt =====
-- internal/crawler: the registry of sources and the worker that consumes crawl.queue.
pub mod Registry
pub mod Interfaces
pub mod Sources
pub mod Worker
