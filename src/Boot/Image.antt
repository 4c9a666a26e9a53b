-- ===== src/Boot/Image.antt =====
-- The packed image in system ROM as the image packer promises it: the comment at the head of
-- `boot_main` names the checks, of table bounds, segment sizes and physical destinations.
use minimum_tests.Base.{ℕ, ◌+◌, ◌*◌, ◌≤◌, ◌<◌, ◌≢◌, ◌⊎◌, ltb, if◌then◌else◌}
use minimum_tests.Memory.{Memory, IsBytes, word_at}
use minimum_tests.Platform.{system_rom_base, system_rom_size, ram_base, ram_size}
use minimum_tests.Boot.{Segment, boot_info_paddr, boot_info_size}

-- A word of the image's header.
abbrev pub header : Memory → ℕ → ℕ
header m offset = word_at m (system_rom_base + offset)

abbrev pub segment_count : Memory → ℕ
segment_count m = header m 0x10

abbrev pub record_address : Memory → ℕ → ℕ
record_address m i = system_rom_base + header m 0x0c + i * 32

abbrev pub packed_segment : Memory → ℕ → Segment
packed_segment m i = record {
  source = system_rom_base + word_at m (record_address m i);
  destination = word_at m (record_address m i + 4);
  file_size = word_at m (record_address m i + 12);
  memory_size = word_at m (record_address m i + 16);
}

abbrev pub AreApart : (base n base' n' : ℕ) → Type 0
AreApart base n base' n' = (base + n ≤ base') ⊎ (base' + n' ≤ base)

-- A segment's data lies in the image, and its destination in RAM beside the boot information.
pub record IsPlaced (s : Segment) : Type 0 where
  pub in_rom : s.source + s.file_size ≤ system_rom_base + system_rom_size
  pub from_rom : system_rom_base ≤ s.source
  pub sizes : s.file_size ≤ s.memory_size
  pub from_ram : ram_base ≤ s.destination
  pub in_ram : s.destination + s.memory_size ≤ ram_base + ram_size
  pub spares_info : AreApart s.destination s.memory_size boot_info_paddr boot_info_size

pub record IsPacked (m : Memory) : Type 0 where
  pub bytes : IsBytes m
  pub table : header m 0x0c + segment_count m * 32 ≤ system_rom_size
  pub placed : (i : ℕ) → i < segment_count m → IsPlaced (packed_segment m i)
  pub apart :
      (i j : ℕ)
      → i < segment_count m
      → j < segment_count m
      → i ≢ j
      → AreApart
          (packed_segment m i).destination
          (packed_segment m i).memory_size
          (packed_segment m j).destination
          (packed_segment m j).memory_size

-- Byte `j` of a segment once it is in RAM: the file's bytes, then zeros.
abbrev pub content : Memory → Segment → ℕ → ℕ
content m s j = if ltb j s.file_size then m (s.source + j) else 0
