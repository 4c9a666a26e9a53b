-- ===== src/Runtime/Mem.antt =====
-- kernel/src/runtime/memory.c, and with the same text user/lib/src/memory.c. A function of C that
-- returns its destination returns it here beside the memory. Pointers wrap at 32 bits.
pub mod Move
pub mod Compare
use minimum_tests.Base.{
  ℕ, zero, suc, ◌+◌, ℤ, pos, negsuc, u8, u32, ltb, ◌!=◌, if◌then◌else◌, for_loop,
}
use minimum_tests.Memory.{Memory, store_byte}

abbrev pub at : ℕ → ℕ → ℕ
at pointer index = u32 (pointer + index)

abbrev pub copy_at : (out input index : ℕ) → Memory → Memory
copy_at out input index m = store_byte m (at out index) (m (at input index))

pub memcpy : (destination source length : ℕ) → Memory → ℕ × Memory
memcpy destination source length m = (destination, for_loop (copy_at destination source) length 0 m)

abbrev pub set_at : (out value index : ℕ) → Memory → Memory
set_at out value index m = store_byte m (at out index) (u8 value)

-- `value` is the bit pattern of the `int`.
pub memset : (destination value length : ℕ) → Memory → ℕ × Memory
memset destination value length m = (destination, for_loop (set_at destination value) length 0 m)

-- `for (index = length; index != 0; --index)`, at `index`.
pub copy_down : (out input index : ℕ) → Memory → Memory
copy_down out input zero m = m
copy_down out input (suc index) m = copy_down out input index (copy_at out input index m)

pub memmove : (destination source length : ℕ) → Memory → ℕ × Memory
unfolding copy_down
memmove destination source length m =
    if ltb destination source
    then (destination, for_loop (copy_at destination source) length 0 m)
    else (destination, copy_down destination source length m)

-- The loop of `memcmp` at `index`, with `rounds` left.
pub compare_from : (a b rounds index : ℕ) → Memory → ℤ
compare_from a b zero index m = pos 0
compare_from a b (suc rounds) index m =
    let rest = compare_from a b rounds (suc index) m in
    if m (at a index) != m (at b index)
    then (if ltb (m (at a index)) (m (at b index)) then negsuc 0 else pos 1)
    else rest

pub memcmp : (left right length : ℕ) → Memory → ℤ
unfolding compare_from
memcmp left right length m = compare_from left right length 0 m
