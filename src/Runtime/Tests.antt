-- ===== src/Runtime/Tests.antt =====
-- The runtime at small inputs.
use minimum_tests.Base.{◌%◌, ◌≡◌, ◌≢◌, refl, bit_and, arith, u8}
use minimum_tests.Memory.{Memory, IsBytes, IsFilled}
use minimum_tests.Machine.Sample.{quiet, prompt, ready}
use minimum_tests.Runtime.Mem.{memset, memmove, memcmp}
use minimum_tests.Runtime.Mem.Move.{IsMoved, memmove-IsMoved, memset-IsFilled}
use minimum_tests.Runtime.Mem.Compare.{Compared, memcmp-Compared}
use minimum_tests.Runtime.Block.{block_read, block_write}
use minimum_tests.Runtime.Block.Transfer.{IsTransferred, block_calls-IsTransferred}

-- Each byte holds its address.
abbrev counting : Memory
counting a = a % 256

counting-IsBytes : IsBytes counting
counting-IsBytes a = omega arith

memmove-IsMoved_example :
    ((memmove 0x1002 0x1000 8 counting).0 ≡ 0x1002)
    × IsMoved 0x1002 0x1000 8 counting (memmove 0x1002 0x1000 8 counting).1
memmove-IsMoved_example =
    memmove-IsMoved 0x1002 0x1000 8 counting counting-IsBytes (omega arith) (omega arith)

memset-IsFilled_example :
    ((memset 0x1000 0x1ff 5 counting).0 ≡ 0x1000)
    × IsFilled (λ _. u8 0x1ff) 0x1000 5 counting (memset 0x1000 0x1ff 5 counting).1
memset-IsFilled_example = memset-IsFilled 0x1000 0x1ff 5 counting counting-IsBytes (omega arith)

memcmp-Compared_example : Compared counting 0x1000 0x2001 0 4 (memcmp 0x1000 0x2001 4 counting)
memcmp-Compared_example = memcmp-Compared counting 0x1000 0x2001 4 (omega arith) (omega arith)

done_at_once : bit_and 2 2 ≢ 0
done_at_once e = absurd (omega (arith, e))

block_calls-IsTransferred_example :
    IsTransferred 1 0 7 1 0x40020000 ready 5 (block_read 1 0 7 1 0x40020000 ready)
    × IsTransferred 2 0 7 1 0x40020000 ready 5 (block_write 1 0 7 1 0x40020000 ready)
block_calls-IsTransferred_example =
    block_calls-IsTransferred 0 1 0 7 1 0x40020000 5 5 ready (omega arith) (done_at_once, refl)
      (done_at_once, refl)
