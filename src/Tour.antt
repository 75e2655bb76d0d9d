-- ===== src/Tour.antt =====
-- docs/javascripts/crystalline.js: the tour through the layers of the architecture page, as a state
-- machine over the events that it listens to. Proofs are in the children.
pub mod Layers
pub mod Machine
pub mod Timer
pub mod Choice
pub mod Progress
mod Examples
