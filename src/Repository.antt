-- ===== src/Repository.antt =====
-- internal/repository/postgres/job_repo.go: the rows of the jobs table and the search query.
pub mod Rows
pub mod Search
pub mod Queries
