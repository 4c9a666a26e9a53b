-- ===== src/Boot/Tests.antt =====
-- A small packed image: one kernel segment of four file bytes and 132 bytes of memory, and one
-- module record.
use minimum_tests.Base.{ℕ, ◌-◌, ◌≡◌, inr, refl, ◌==◌, if◌then◌else◌, arith}
use minimum_tests.Memory.{Memory, IsBytes, word_at}
use minimum_tests.Boot.{boot_main, write_boot_info, boot_info_paddr, Segment}
use minimum_tests.Boot.Info.{published_info, boot_info_at-write_boot_info}
use minimum_tests.Platform.BootInfo.{boot_info_at}
use minimum_tests.Boot.Image.{header, segment_count, packed_segment, IsPlaced, IsPacked}
use minimum_tests.Boot.Main.{IsBooted, boot_main-IsBooted}

-- The bytes of the image that are not zero, by their offset.
abbrev pub byte_at : ℕ → ℕ
byte_at offset =
    if offset == 0x09
    then 2
    else if offset == 0x0c
    then 0x40
    else if offset == 0x10
    then 1
    else if offset == 0x14
    then 0x80
    else if offset == 0x18
    then 1
    else if offset == 0x1e
    then 1
    else if offset == 0x1f
    then 0xc0
    else if offset == 0x40
    then 0x60
    else if offset == 0x46
    then 1
    else if offset == 0x47
    then 0x40
    else if offset == 0x4c
    then 4
    else if offset == 0x50
    then 132
    else if offset == 0x60
    then 0xdf
    else if offset == 0x61
    then 0x9b
    else if offset == 0x62
    then 0x57
    else if offset == 0x63
    then 0x13
    else 0

abbrev pub image : Memory
image a = byte_at (a - 0x08000000)

image-IsBytes : IsBytes image
image-IsBytes a = ground arith

abbrev pub only_segment : Segment
only_segment = record {
  source = 0x08000060;
  destination = 0x40010000;
  file_size = 4;
  memory_size = 132;
}

pub one_segment : segment_count image ≡ 1
unfolding word_at
one_segment = refl

pub first_segment : packed_segment image 0 ≡ only_segment
unfolding word_at
first_segment = refl

pub only_segment-IsPlaced : IsPlaced only_segment
only_segment-IsPlaced = record {
  in_rom = omega arith;
  from_rom = omega arith;
  sizes = omega arith;
  from_ram = omega arith;
  in_ram = omega arith;
  spares_info = inr (omega arith);
}

table_fits : header image 0x0c ≡ 0x40
unfolding word_at
table_fits = refl

pub image-IsPacked : IsPacked image
image-IsPacked = record {
  bytes = image-IsBytes;
  table = omega (arith, table_fits, one_segment);
  placed = λ i lt.
      let e : i ≡ 0 = omega (arith, one_segment) in rw (e, first_segment) only_segment-IsPlaced;
  apart = λ i j li lj ne. absurd (ne (omega (arith, one_segment)));
}

boot_main-IsBooted_example : IsBooted image (boot_main image)
boot_main-IsBooted_example = boot_main-IsBooted image image-IsPacked

boot_info_at-write_boot_info_example :
    boot_info_at (write_boot_info 0x40000 0x80 2 image) boot_info_paddr
    ≡ published_info 0x40000 0x80 2
boot_info_at-write_boot_info_example =
    boot_info_at-write_boot_info 0x40000 0x80 2 image image-IsBytes (omega arith) (omega arith)
      (omega arith)
