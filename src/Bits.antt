-- ===== src/Bits.antt =====
-- Laws of the bit operations at variables, which the libraries leave to their definitions.
mod Step
mod Fields
pub use Step.*
pub use Fields.*
