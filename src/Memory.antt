-- ===== src/Memory.antt =====
-- Byte-addressed physical memory, and the words that C and the platform lay out in it.
mod Defs
mod Laws
mod Fill
pub use Defs.{Memory, IsBytes, IsWithin, SameOn, SameOff}
unfoldable pub use Defs.{store_byte, word_at}
pub use Laws.*
pub use Fill.*
