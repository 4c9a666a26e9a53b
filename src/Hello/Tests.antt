-- ===== src/Hello/Tests.antt =====
-- A packed image with one module, "user-hello", of one segment: four file bytes of code, and eight
-- bytes of memory at the base of the user's image.
use minimum_tests.Base.{
  ℕ, ◌+◌, ◌-◌, ◌*◌, ◌%◌, ◌≤◌, ◌≡◌, ◌⊎◌, ◌↔◌, refl, true, false, none, some, ◌==◌, if◌then◌else◌,
  arith, u32,
}
use minimum_tests.Memory.{Memory, IsBytes}
use minimum_tests.Machine.Sample.{quiet, idle}
use minimum_tests.Platform.BootInfo.{BootInfo}
use minimum_tests.Boot.Info.{published_info}
use minimum_tests.Hello.Image.{
  ModuleRecord, ModuleSegment, image_range_valid, image_records_valid, find_module,
}
use minimum_tests.Hello.Image.Ranges.{image_ranges_iff}
use minimum_tests.Hello.Image.Find.{Search, find_module-first}
use minimum_tests.Hello.Pages.{
  UserPages, done, refused, user_page_index, prepare_user_range, write_user_range,
}
use minimum_tests.Hello.Pages.Valid.{IsValid}
use minimum_tests.Hello.Pages.Index.{IsIndexed, IsRefused, user_page_index-IsIndexed}
use minimum_tests.Hello.Pages.Prepare.{IsPrepared, prepare_user_range-IsPrepared}
use minimum_tests.Hello.Pages.Written.{IsWritten}
use minimum_tests.Hello.Pages.Write.{write_user_range-IsWritten}
use minimum_tests.Hello.Tables.{Layout, Tables, map_system_rom}
use minimum_tests.Hello.Tables.Rom.{IsMappable, IsRomMapped, map_system_rom-IsRomMapped}
use minimum_tests.Hello.Module.{Loader, load_segment, load_user_module, map_user, segment_is_bad}
use minimum_tests.Hello.Module.InPlace.{AreWords}
use minimum_tests.Hello.Module.Segment.{IsSegmentLoaded, load_segment-IsSegmentLoaded}
use minimum_tests.Hello.Module.Table.{IsUser, IsUserMapped, map_user-IsUserMapped}
use minimum_tests.Hello.Module.Accept.{IsModuleLoaded, load_user_module-IsModuleLoaded}
use minimum_tests.Hello.Start.{module_name, kernel_main}
use minimum_tests.Hello.Start.Enter.{IsLaidOut, AreInRange, IsEnding, kernel_main-IsEnding}

abbrev pub byte_at : ℕ → ℕ
byte_at offset =
    if offset == 0x80
    then 0xa0
    else if offset == 0x84
    then 10
    else if offset == 0x88
    then 0xb0
    else if offset == 0x8c
    then 1
    else if offset == 0x92
    then 0x40
    else if offset == 0xb0
    then 0xd0
    else if offset == 0xb6
    then 0x40
    else if offset == 0xb8
    then 4
    else if offset == 0xbc
    then 8
    else if offset == 0xc0
    then 5
    else if offset == 0xd3
    then 0xef
    else if offset == 0xa0
    then 117
    else if offset == 0xa1
    then 115
    else if offset == 0xa2
    then 101
    else if offset == 0xa3
    then 114
    else if offset == 0xa4
    then 45
    else if offset == 0xa5
    then 104
    else if offset == 0xa6
    then 101
    else if offset == 0xa7
    then 108
    else if offset == 0xa8
    then 108
    else if offset == 0xa9
    then 111
    else 0

abbrev image : Memory
image a = byte_at (a - 0x08000000)

image-IsBytes : IsBytes image
image-IsBytes a = ground arith

abbrev info : BootInfo
info = published_info 0x100 0x80 1

abbrev hello : ModuleRecord
hello = record {
  name_offset = 0xa0;
  name_length = 10;
  segment_table_offset = 0xb0;
  segment_count = 1;
  entry_vaddr = 0x00400000;
  flags = 0;
}

abbrev pub code : ModuleSegment
code = record {
  data_offset = 0xd0;
  virtual_address = 0x00400000;
  file_size = 4;
  memory_size = 8;
  flags = 5;
}

abbrev pub layout : Layout
layout = record {
  system_rom_tables = 0xc0020000;
  user_page_table = 0xc0024000;
  user_image_pages = 0xc0025000;
  user_stack = 0xc0035000;
}

pub layout-IsLaidOut : IsLaidOut layout
layout-IsLaidOut = record {
  rom_tables = record { aligned = omega arith; low = omega arith; high = omega arith };
  page_table = record { aligned = omega arith; low = omega arith; high = omega arith };
  image_pages = record { aligned = omega arith; low = omega arith; high = omega arith };
  stack = record { aligned = omega arith; low = omega arith; high = omega arith };
}

abbrev pub tables : Tables
tables = record {
  directory = λ d. 0;
  system_rom = λ table index. 0;
  user = λ index. 0;
  flushes = 0;
}

-- A table of one page, at the base of the image.
abbrev pub one_page : UserPages
one_page = record { vaddrs = λ i. 0x00400000; flags = λ i. 24; bytes = λ i b. 0; count = 1 }

pub one_page-IsValid : IsValid one_page
one_page-IsValid = record {
  few = omega arith;
  distinct = λ i j li lj e. omega arith;
  aligned = λ i lt. omega arith;
  bytes = λ i b. omega arith;
}

one_page-IsUser : IsUser one_page
one_page-IsUser = record {
  valid = one_page-IsValid;
  lower = λ i lt. omega arith;
  upper = λ i lt. omega arith;
  permissions = λ i lt. (omega arith, omega arith, omega arith);
}

abbrev pub loader : Loader
loader = record { tables = tables; pages = one_page; stack = λ b. 0 }

pub zeros-IsBytes : IsBytes (λ a. 0)
zeros-IsBytes a = omega arith

in_range : AreInRange image info loader
in_range = record {
  memory = image-IsBytes;
  image_size = omega arith;
  table_offset = omega arith;
  pages = λ i. zeros-IsBytes;
  stack = zeros-IsBytes;
}

kernel_main-IsEnding_example :
    IsEnding layout image info loader 0xc0007000 idle
      (kernel_main layout image 0xc0007000 info loader idle)
kernel_main-IsEnding_example =
    kernel_main-IsEnding layout image info loader layout-IsLaidOut in_range 0xc0007000 idle

load_user_module-IsModuleLoaded_example :
    IsModuleLoaded layout image info hello loader (load_user_module layout image info hello loader)
load_user_module-IsModuleLoaded_example =
    load_user_module-IsModuleLoaded layout image info hello loader image-IsBytes
      (λ i. zeros-IsBytes) zeros-IsBytes (omega arith) (omega arith) (omega arith)
      layout-IsLaidOut.image_pages layout-IsLaidOut.stack layout-IsLaidOut.page_table

code-AreWords : AreWords info code
code-AreWords = record {
  data_offset = omega arith;
  memory_size = omega arith;
  image_size = omega arith;
  flags = omega arith;
}

load_segment-IsSegmentLoaded_example :
    ((segment_is_bad info code ≡ true) × (load_segment image info code one_page ≡ refused one_page))
    ⊎ ((segment_is_bad info code ≡ false)
        × IsSegmentLoaded image info code one_page image-IsBytes one_page-IsValid code-AreWords
            (load_segment image info code one_page))
load_segment-IsSegmentLoaded_example =
    load_segment-IsSegmentLoaded image info code one_page image-IsBytes one_page-IsValid
      code-AreWords

map_user-IsUserMapped_example : IsUserMapped layout loader (map_user layout loader)
map_user-IsUserMapped_example =
    map_user-IsUserMapped layout loader one_page-IsUser layout-IsLaidOut.image_pages
      layout-IsLaidOut.stack layout-IsLaidOut.page_table (λ x. refl)

map_system_rom-IsRomMapped_example :
    (IsMappable info
      × ((t' : Tables) × (map_system_rom layout info tables ≡ some t')
          × IsRomMapped layout info tables t'))
    ⊎ ((¬ IsMappable info) × (map_system_rom layout info tables ≡ none))
map_system_rom-IsRomMapped_example =
    map_system_rom-IsRomMapped layout info tables layout-IsLaidOut.rom_tables

find_module-first_example :
    let table = u32 (info.system_rom_base + info.module_table_offset) in
    let fits = info.module_table_offset + info.module_count * 32 ≤ info.image_size in
    (fits
      × Search info module_name 10 image table 0 info.module_count
          (find_module info module_name 10 image))
    ⊎ ((¬ fits) × (find_module info module_name 10 image ≡ none))
find_module-first_example =
    find_module-first info module_name 10 image image-IsBytes (omega arith) (omega arith)

image_ranges_iff_example :
    ((image_range_valid 0xd0 4 0x100 ≡ true) ↔ (0xd0 + 4 ≤ 0x100))
    × ((image_records_valid 0xd0 1 0x100 ≡ true) ↔ (0xd0 + 1 * 32 ≤ 0x100))
image_ranges_iff_example = image_ranges_iff 0xd0 4 1 0x100 (omega arith) (omega arith)

user_page_index-IsIndexed_example :
    ((i : ℕ) × (p' : UserPages) × (user_page_index 0x00401000 24 true one_page ≡ done i p')
      × IsIndexed 0x00401000 24 true one_page i p')
    ⊎ ((user_page_index 0x00401000 24 true one_page ≡ refused one_page)
        × IsRefused 0x00401000 24 true one_page)
user_page_index-IsIndexed_example =
    user_page_index-IsIndexed 0x00401000 24 true one_page one_page-IsValid (omega arith)

prepare_user_range-IsPrepared_example :
    IsPrepared one_page
      (0x00400ffe - 0x00400ffe % 4096)
      (0x00400ffe + 4)
      24
      (prepare_user_range 0x00400ffe 4 24 one_page)
prepare_user_range-IsPrepared_example =
    prepare_user_range-IsPrepared 0x00400ffe 4 24 one_page one_page-IsValid (omega arith)

write_user_range-IsWritten_example :
    (p' : UserPages) × (write_user_range image 0x00400ffe (some 0x080000a0) 2 one_page ≡ done tt p')
    × IsWritten image 0x00400ffe (some 0x080000a0) 2 one_page p'
write_user_range-IsWritten_example =
    write_user_range-IsWritten image 0x00400ffe (some 0x080000a0) 2 one_page image-IsBytes
      one_page-IsValid (omega arith) (λ j lt. (0, omega arith, omega arith))
