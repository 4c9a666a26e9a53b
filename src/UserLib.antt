-- ===== src/UserLib.antt =====
-- user/lib/src/memory.c: the memory functions of the user library. Their text is that of
-- kernel/src/runtime/memory.c, so that each is the runtime's function of its name.
use minimum_tests.Base.{ℕ, ℤ}
use minimum_tests.Memory.{Memory}
use minimum_tests.Runtime.Mem

pub memcpy : (destination source length : ℕ) → Memory → ℕ × Memory
memcpy = Mem.memcpy

pub memset : (destination value length : ℕ) → Memory → ℕ × Memory
memset = Mem.memset

pub memmove : (destination source length : ℕ) → Memory → ℕ × Memory
memmove = Mem.memmove

pub memcmp : (left right length : ℕ) → Memory → ℤ
memcmp = Mem.memcmp
