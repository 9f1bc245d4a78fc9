-- ===== src/Crawler/Sources.antt =====
-- The sources of internal/crawler: what each makes of a listing page and of a detail page. goquery
-- and encoding/json are arguments: a page is what its selectors find.
pub mod Page
pub mod Patterns
pub mod Listing
pub mod Posting
pub mod Stepstone
pub mod Xing
pub mod Indeed
