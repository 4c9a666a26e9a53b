-- ===== src/Memory/Laws.antt =====
-- Stores and words.
use minimum_tests.Base.{ℕ, ◌+◌, ◌^◌, ◌≤◌, ◌<◌, ◌≡◌, ◌≢◌, arith, u8}
use minimum_tests.Memory.Defs.{Memory, IsBytes, SameOn, store_byte, word_at}

pub store_byte_here : (m : Memory) (a v : ℕ) → store_byte m a v a ≡ u8 v
unfolding store_byte
store_byte_here m a v = ground arith

pub store_byte_else : (m : Memory) (a v b : ℕ) → b ≢ a → store_byte m a v b ≡ m b
unfolding store_byte
store_byte_else m a v b ne = ground arith

pub store_byte-IsBytes : (m : Memory) (a v : ℕ) → IsBytes m → IsBytes (store_byte m a v)
unfolding store_byte
store_byte-IsBytes m a v h b = ground (arith, h b)

pub word_at-lt : (m : Memory) (a : ℕ) → IsBytes m → word_at m a < 2 ^ 32
unfolding word_at
word_at-lt m a h = omega (arith, h a, h (a + 1), h (a + 2), h (a + 3))

-- A word depends on its four bytes only.
pub word_at_same :
    (m m' : Memory) (base n a : ℕ)
    → SameOn base n m m'
    → base ≤ a
    → a + 4 ≤ base + n
    → word_at m' a ≡ word_at m a
unfolding word_at
word_at_same m m' base n a same lo hi = omega (
  arith,
  same a (omega arith),
  same (a + 1) (omega arith),
  same (a + 2) (omega arith),
  same (a + 3) (omega arith),
)
