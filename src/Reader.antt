-- ===== src/Reader.antt =====
-- docs/javascripts/prismplane.js, `initializeRfcReader`: the state of the RFC reader and its
-- handlers as functions on that state. Proofs are in the children.
pub mod Panels
pub mod Choices
pub mod Controls
pub mod Detail
pub mod Session
pub mod Events
pub mod Shown
pub mod Filters
pub mod Runs
pub mod Synced
pub mod Live
pub mod Back
pub mod Again
pub mod Rendered
pub mod Detailed
pub mod Offered
pub mod Counts
pub mod Json
pub mod Parsing
pub mod Excerpt
mod Examples
mod CatalogExamples
