-- ===== src/Http.antt =====
-- internal/api/http: the answers of the API. What the handlers write is a value.
pub mod Dto
pub mod Handlers
pub mod Middleware
pub mod Answers
pub mod Router
