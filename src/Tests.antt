-- ===== src/Tests.antt =====
-- Concrete runs of the theorems, over sample data and a sample environment.
mod Samples
mod Crawling
mod Processing
mod Requests
mod Serving
mod Scheduling
mod Api
mod Parsing
mod Running
mod Launching
mod Messages
mod Flow
