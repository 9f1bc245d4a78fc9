-- ===== src/Service.antt =====
-- internal/service: the search service over the repository, and its Redis decorator.
pub mod Postgres
pub mod Cached
pub mod Invalidation
