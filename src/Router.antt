-- ===== src/Router.antt =====
-- pkg/router: routing of change events to handlers. Each child follows one part of it.
pub mod Handler
pub mod Matcher
pub mod Filters
pub mod Finalizer
pub mod Registry
pub mod Save
mod Examples
mod EventExamples
pub mod Triggers
pub mod Limits
pub mod Handle
pub mod OnChange
pub mod RequestClient
mod ClientExamples
pub mod Start
pub mod Builder
pub mod Worker
