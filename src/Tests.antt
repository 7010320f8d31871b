-- ===== src/Tests.antt =====
-- Runs of the models on concrete inputs, and instances of the theorems.
mod Samples
mod Cache
mod Normalize
mod Queries
mod Policy
mod Config
mod Waf
mod RateLimit
mod Proxy
mod Admin
mod Threads
mod Middleware
mod App
mod Observability
