-- ===== src/Base/Bits.antt =====
-- Laws of `&` and `|` on words, at every width.
mod Step
pub mod Fields
pub use Step.*
pub use Fields.*
