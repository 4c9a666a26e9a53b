-- ===== src/Boot/Words.antt =====
-- The word and halfword accesses of boot.c against the word that four bytes hold.
use minimum_tests.Base.{ℕ, ◌+◌, ◌*◌, ◌^◌, ◌≤◌, ◌<◌, ◌≡◌, refl, bit_or, arith, ◌<<◌}
use minimum_tests.Bits.{bit_or_low}
use minimum_tests.Memory.{Memory, IsBytes, SameOff, store_byte, word_at}
use minimum_tests.Boot.{at, read_u32, write_u32}

pub at_no_wrap : (a i : ℕ) → a + i < 2 ^ 32 → at a i ≡ a + i
at_no_wrap a i h = omega arith

-- Four bytes put together without overlap.
join_bytes :
    (b0 b1 b2 b3 : ℕ)
    → b0 < 256
    → b1 < 256
    → b2 < 256
    → b3 < 256
    → bit_or (bit_or (bit_or b0 (b1 << 8)) (b2 << 16)) (b3 << 24)
      ≡ b0 + b1 * 2 ^ 8 + b2 * 2 ^ 16 + b3 * 2 ^ 24
join_bytes b0 b1 b2 b3 h0 h1 h2 h3 =
    rw
      (
        s1,
        s2,
        s3,
        bit_or_low 8 b1 b0 (omega arith),
        bit_or_low 16 b2 (b0 + b1 * 2 ^ 8) (omega arith),
        bit_or_low 24 b3 (b0 + b1 * 2 ^ 8 + b2 * 2 ^ 16) (omega arith),
      )
      refl
  where
    s1 : b1 << 8 ≡ b1 * 2 ^ 8
    s1 = omega arith

    s2 : b2 << 16 ≡ b2 * 2 ^ 16
    s2 = omega arith

    s3 : b3 << 24 ≡ b3 * 2 ^ 24
    s3 = omega arith

pub read_u32-word_at :
    (m : Memory) (a : ℕ) → IsBytes m → a + 4 ≤ 2 ^ 32 → read_u32 m a ≡ word_at m a
unfolding read_u32 word_at
read_u32-word_at m a h fits =
    rw
      (e0, at_no_wrap a 1 (omega arith), at_no_wrap a 2 (omega arith), at_no_wrap a 3 (omega arith))
      (join_bytes (m a) (m (a + 1)) (m (a + 2)) (m (a + 3)) (h a) (h (a + 1)) (h (a + 2))
        (h (a + 3)))
  where
    e0 : at a 0 ≡ a
    e0 = omega arith

module _ (a v : ℕ) (m : Memory) (fits : a + 4 ≤ 2 ^ 32) where
  pub word_at-write_u32 : v < 2 ^ 32 → word_at (write_u32 a v m) a ≡ v
  unfolding word_at write_u32 store_byte
  word_at-write_u32 h = ground arith

  pub write_u32-SameOff : SameOff a 4 m (write_u32 a v m)
  unfolding write_u32 store_byte
  write_u32-SameOff b out = ground arith

pub write_u32-IsBytes : (a v : ℕ) (m : Memory) → IsBytes m → IsBytes (write_u32 a v m)
unfolding write_u32 store_byte
write_u32-IsBytes a v m h b = ground (arith, h b)
