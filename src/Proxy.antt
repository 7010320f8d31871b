-- ===== src/Proxy.antt =====
-- internal/proxy/handler.go: the request handler.
pub mod Replies
pub mod Handler
pub mod Branches
pub mod Answers
pub mod Hits
pub mod Threads
pub mod Setup
pub mod Refusals
