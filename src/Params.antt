-- ===== src/Params.antt =====
-- `URLSearchParams` of the URL standard, as far as the scripts use it.
mod Defs
mod Laws
unfoldable pub use Defs.*
pub use Laws.*
