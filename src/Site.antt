-- ===== src/Site.antt =====
-- docs/javascripts/prismplane.js: the smaller parts of a documentation page, one to a child.
pub mod Navigation
pub mod Drawer
pub mod Tabs
pub mod Book
pub mod Rail
pub mod Sidebar
pub mod Lifecycle
pub mod Process
pub mod Convergence
mod Examples
