-- ===== src/Demo.antt =====
-- examples/semantic_memory_relational_spike/demo/app.js: the page that shows what a memory's focus
-- selects. Facts and Focus are its tables, Render its functions, Session its two rows of buttons.
pub mod Facts
pub mod Focus
pub mod Render
pub mod Session
pub mod Treatment
pub mod Marks
pub mod Choices
pub mod Pictures
mod Examples
