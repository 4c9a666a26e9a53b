-- ===== src/Hello/Module/InPlace.antt =====
-- A segment that passes the checks, and what it looks like in the pages.
use minimum_tests.Base.{
  ℕ, ◌+◌, ◌-◌, ◌*◌, ◌/◌, ◌%◌, ◌^◌, ◌≤◌, ◌<◌, ◌≡◌, ◌⊎◌, true, false, bit_and, u32, ltb,
  if◌then◌else◌, arith,
}
use minimum_tests.Memory.{Memory}
use minimum_tests.Platform.BootInfo.{BootInfo}
use minimum_tests.Bits.{bit_and_bit, bit_and_aligned, bit_and_mask}
use minimum_tests.Hello.Image.{ModuleSegment, image_range_valid}
use minimum_tests.Hello.Image.Ranges.{image_ranges_iff}
use minimum_tests.Hello.Pages.{UserPages}
use minimum_tests.Hello.Pages.Valid.{IsValid}
use minimum_tests.Hello.Pages.Prepare.{IsMapped, AreAdded}
use minimum_tests.Hello.Module.{pte_flags_from_segment, segment_is_bad}

-- What the checks of a segment let through.
pub record IsLoadable (info : BootInfo) (s : ModuleSegment) : Type 0 where
  pub nonempty : 0 < s.memory_size
  pub sizes : s.file_size ≤ s.memory_size
  pub from_base : 0x00400000 ≤ s.virtual_address
  pub below_stack : s.virtual_address + s.memory_size ≤ 0x007ff000
  pub in_image : s.data_offset + s.file_size ≤ info.image_size
  pub known_flags : s.flags < 8
  -- An executable segment is readable.
  pub readable : s.flags / 4 % 2 ≡ 1 → s.flags % 2 ≡ 1

-- The fields of a segment are words.
pub record AreWords (info : BootInfo) (s : ModuleSegment) : Type 0 where
  pub data_offset : s.data_offset < 2 ^ 32
  pub memory_size : s.memory_size < 2 ^ 32
  pub image_size : info.image_size < 2 ^ 32
  pub flags : s.flags < 2 ^ 32

-- The bits of a word above its lowest three.
other_flags : (flags : ℕ) → flags < 2 ^ 32 → bit_and flags 0xfffffff8 ≡ flags / 8 * 8
other_flags flags lt =
    omega (arith, bit_and_aligned 3 flags (2 ^ 29 - 1), bit_and_mask 29 (flags / 8))

pub segment_is_bad-false :
    (info : BootInfo) (s : ModuleSegment)
    → AreWords info s
    → segment_is_bad info s ≡ false
    → IsLoadable info s
unfolding segment_is_bad
segment_is_bad-false info s w e = record {
  nonempty = ground arith;
  sizes = ground arith;
  from_base = ground arith;
  below_stack = ground arith;
  in_image =
      (image_ranges_iff s.data_offset s.file_size 0 info.image_size w.data_offset w.image_size).0.0
        (ground arith);
  known_flags = ground (arith, other_flags s.flags w.flags);
  readable = ground (arith, bit_and_bit 0 s.flags, bit_and_bit 2 s.flags);
}

pub IsLoadable-segment_is_bad :
    (info : BootInfo) (s : ModuleSegment)
    → AreWords info s
    → IsLoadable info s
    → segment_is_bad info s ≡ false
unfolding segment_is_bad
IsLoadable-segment_is_bad info s w ok =
    let file : image_range_valid s.data_offset s.file_size info.image_size ≡ true =
      (image_ranges_iff s.data_offset s.file_size 0 info.image_size w.data_offset w.image_size).0.1
        ok.in_image in
    let low : bit_and s.flags 0xfffffff8 ≡ 0 =
      omega (arith, other_flags s.flags w.flags, ok.known_flags) in
    ground (arith, bit_and_bit 0 s.flags, bit_and_bit 2 s.flags, file, low)

-- Byte `j` of a segment in user memory: the file's bytes, then zeros.
abbrev pub user_content : Memory → BootInfo → ModuleSegment → ℕ → ℕ
user_content m info s j =
    if ltb j s.file_size then m (u32 (info.system_rom_base + s.data_offset + j)) else 0

pub record IsInPlace (m : Memory) (info : BootInfo) (s : ModuleSegment) (p p' : UserPages)
    : Type 0 where
  pub valid : IsValid p'
  pub vaddrs_kept : (i : ℕ) → i < p.count → p'.vaddrs i ≡ p.vaddrs i
  pub flags_kept : (i : ℕ) → i < p.count → p'.flags i ≡ p.flags i
  pub grows : p.count ≤ p'.count
  pub mapped :
      (j : ℕ)
      → j < s.memory_size
      → IsMapped p'
          (s.virtual_address + j - (s.virtual_address + j) % 4096)
          (pte_flags_from_segment s.flags)
  pub content :
      (i b j : ℕ)
      → i < p'.count
      → b < 4096
      → j < s.memory_size
      → p'.vaddrs i + b ≡ s.virtual_address + j
      → p'.bytes i b ≡ user_content m info s j
  pub others :
      (i b : ℕ)
      → i < p.count
      → b < 4096
      → (p.vaddrs i + b < s.virtual_address) ⊎ (s.virtual_address + s.memory_size ≤ p.vaddrs i + b)
      → p'.bytes i b ≡ p.bytes i b
  pub added :
      AreAdded p p'
        (s.virtual_address - s.virtual_address % 4096)
        (s.virtual_address + s.memory_size)
        (pte_flags_from_segment s.flags)

-- Each address of the segment has a page in `plan`, with the segment's permissions.
abbrev pub IsPlanned : (plan : UserPages) → ModuleSegment → Type 0
IsPlanned plan s =
    (j : ℕ)
    → j < s.memory_size
    → IsMapped plan (s.virtual_address + j - (s.virtual_address + j) % 4096)
        (pte_flags_from_segment s.flags)
