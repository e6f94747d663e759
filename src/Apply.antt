-- ===== src/Apply.antt =====
-- pkg/apply: declarative apply. Each child follows one part of it.
pub mod ObjectSet
pub mod Labels
pub mod Compare
pub mod Namespace
pub mod Takeover
pub mod Owning
pub mod Orphans
pub mod Patch
pub mod Style
pub mod Prepare
pub mod Update
pub mod Reconcilers
pub mod Process
pub mod Run
mod Examples
mod ProcessExamples
mod OrphanExamples
mod RunExamples
