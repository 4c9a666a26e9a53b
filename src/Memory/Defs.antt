-- ===== src/Memory/Defs.antt =====
-- Addresses and bytes are numbers. `word_at` is the little-endian word that four bytes hold.
use minimum_tests.Base.{ℕ, ◌+◌, ◌*◌, ◌^◌, ◌≤◌, ◌<◌, ◌≡◌, ◌⊎◌, u8, ◌==◌, if◌then◌else◌}

abbrev pub Memory : Type 0
Memory = ℕ → ℕ

abbrev pub IsBytes : Memory → Type 0
IsBytes m = (a : ℕ) → m a < 256

-- `*(volatile uint8_t *)a = (uint8_t)v`
unfoldable pub store_byte : Memory → ℕ → ℕ → Memory
store_byte m a v b = if b == a then u8 v else m b

unfoldable pub word_at : Memory → ℕ → ℕ
word_at m a = m a + m (a + 1) * 2 ^ 8 + m (a + 2) * 2 ^ 16 + m (a + 3) * 2 ^ 24

-- `a` is one of the `n` addresses from `base` on.
abbrev pub IsWithin : ℕ → ℕ → ℕ → Type 0
IsWithin base n a = (base ≤ a) × (a < base + n)

abbrev pub SameOn : ℕ → ℕ → Memory → Memory → Type 0
SameOn base n m m' = (a : ℕ) → IsWithin base n a → m' a ≡ m a

abbrev pub SameOff : ℕ → ℕ → Memory → Memory → Type 0
SameOff base n m m' = (a : ℕ) → (a < base) ⊎ (base + n ≤ a) → m' a ≡ m a
