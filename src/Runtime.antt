-- ===== src/Runtime.antt =====
-- pkg/runtime: controllers, their queues and caches. Each child follows one part of it.
pub mod Keys
pub mod Cached
pub mod Controller
pub mod SharedHandler
pub mod SharedController
mod Examples
mod CacheExamples
mod QueueExamples
pub mod Factory
