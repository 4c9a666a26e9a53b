-- ===== src/Hello/Module/Flags.antt =====
-- The flags of a segment and of its pages.
use minimum_tests.Base.{ℕ, ◌+◌, ◌*◌, ◌/◌, ◌%◌, ◌≡◌, arith}
use minimum_tests.Bits.{bit_and_bit}
use minimum_tests.Hello.Module.{pte_flags_from_segment}

-- The three bits of a segment become the three permission bits of a page entry, each on its own,
-- and no other bit of the entry is ever set: neither Valid nor User comes from a segment.
pub pte_flags_from_segment-bits :
    (flags : ℕ)
    → pte_flags_from_segment flags ≡ flags % 2 * 16 + flags / 2 % 2 * 2 + flags / 4 % 2 * 8
unfolding pte_flags_from_segment
pte_flags_from_segment-bits flags =
    ground (arith, bit_and_bit 0 flags, bit_and_bit 1 flags, bit_and_bit 2 flags)
