-- ===== src/Handler.antt =====
-- internal/handler: the endpoints of the API.
pub mod Response
pub mod Numbers
pub mod Jobs
pub mod Health
pub mod Middleware
pub mod Router
