-- ===== src/Hello/User/Hosted/Sample.antt =====
-- An image with a kernel segment and the module "user-hello", which is one page with an `svc #0`.
use minimum_tests.Base.{ℕ, ◌+◌, ◌*◌, ◌-◌, ◌≤◌, ◌<◌, ◌≡◌, refl, true, ltb, if◌then◌else◌, arith}
use minimum_tests.Memory.{Memory, IsBytes, word_at}
use minimum_tests.Machine.Sample.{quiet}
use minimum_tests.Platform.BootInfo.{BootInfo}
use minimum_tests.Boot
use minimum_tests.Hello
use minimum_tests.Boot.Info.{published_info}
use minimum_tests.Boot.Image.{header, segment_count, packed_segment, IsPacked}
use minimum_tests.Boot.Tests.{only_segment, only_segment-IsPlaced}
use minimum_tests.Hello.Image.{
  ModuleRecord, module_at, segment_at, module_matches, equal_from, bytes_equal, image_range_valid,
}
use minimum_tests.Hello.Image.Find.{module_matches_iff}
use minimum_tests.Hello.Module.Flags.{pte_flags_from_segment-bits}
use minimum_tests.Hello.Module.InPlace.{IsLoadable, IsPlanned}
use minimum_tests.Hello.Module.Segments.{segment}
use minimum_tests.Hello.Module.Exact.{segment_table, IsGood}
use minimum_tests.Hello.Start.{module_name}
use minimum_tests.Hello.Start.Exact.{record_at, IsUserHello, IsStartable}
use minimum_tests.Hello.Start.Booted.{packed_info}
use minimum_tests.Hello.Tables.Rom.{IsMappable}
use minimum_tests.Hello.Tests.{
  code, layout, loader, one_page, layout-IsLaidOut, one_page-IsValid, zeros-IsBytes,
}

abbrev pub image : Memory
image a =
    let offset : ℕ = a - 0x08000000 in
    if ltb offset 0x80 then Boot.Tests.byte_at offset else Hello.Tests.byte_at offset

pub image-IsBytes : IsBytes image
image-IsBytes a = ground arith

pub one_segment : segment_count image ≡ 1
unfolding word_at
one_segment = refl

pub first_segment : packed_segment image 0 ≡ only_segment
unfolding word_at
first_segment = refl

pub segment_table_at : header image 0x0c ≡ 0x40
unfolding word_at
segment_table_at = refl

pub image-IsPacked : IsPacked image
image-IsPacked = record {
  bytes = image-IsBytes;
  table = omega (arith, segment_table_at, one_segment);
  placed = λ i lt.
      let e : i ≡ 0 = omega (arith, one_segment) in rw (e, first_segment) only_segment-IsPlaced;
  apart = λ i j li lj ne. absurd (ne (omega (arith, one_segment)));
}

abbrev pub info : BootInfo
info = published_info 0x200 0x80 1

abbrev pub hello : ModuleRecord
hello = record {
  name_offset = 0xa0;
  name_length = 10;
  segment_table_offset = 0xb0;
  segment_count = 1;
  entry_vaddr = 0x00400000;
  flags = 0;
}

pub hello_here : module_at image 0x08000080 ≡ hello
unfolding module_at word_at
hello_here = refl

pub code_here : segment image info (segment_table image info hello) 0 ≡ code
unfolding segment_at word_at
code_here = refl

pub matches : module_matches info module_name 10 hello image ≡ true
unfolding module_matches image_range_valid bytes_equal equal_from
matches = refl

pub code-IsLoadable : IsLoadable info code
code-IsLoadable = record {
  nonempty = omega arith;
  sizes = omega arith;
  from_base = omega arith;
  below_stack = omega arith;
  in_image = omega arith;
  known_flags = omega arith;
  readable = λ e. omega arith;
}

pub code-IsPlanned : IsPlanned one_page code
code-IsPlanned j lt = (0, omega arith, omega arith, omega (arith, pte_flags_from_segment-bits 5))

pub hello-IsGood : IsGood image info hello
hello-IsGood = record {
  records = omega arith;
  loadable = λ k lt. let e : k ≡ 0 = omega arith in rw (e, code_here) code-IsLoadable;
  plan = one_page;
  plan_ok = one_page-IsValid;
  planned = λ k lt. let e : k ≡ 0 = omega arith in rw (e, code_here) code-IsPlanned;
  entry = (
    0,
    omega arith,
    omega arith,
    rw code_here (record { executable = refl; low = omega arith; high = omega arith }),
  );
  aligned = refl;
}

pub info-IsMappable : IsMappable info
info-IsMappable = record { base = refl; nonempty = omega arith; fits = omega arith }

pub named : IsUserHello image info 0
named =
    rw hello_here
      ((module_matches_iff info module_name 10 image hello (omega arith) (omega arith)).0 matches)

pub nothing_first : (j : ℕ) → j < 0 → ¬ IsUserHello image info j
nothing_first j lt = absurd (omega arith)

pub good : IsGood image info (module_at image (record_at image info 0))
good = rw hello_here hello-IsGood

-- The same for what the firmware passes on.
pub passed-IsMappable : IsMappable (packed_info image image-IsPacked)
unfolding word_at
passed-IsMappable = info-IsMappable

pub passed_fits :
    let passed = packed_info image image-IsPacked in
    passed.module_table_offset + passed.module_count * 32 ≤ passed.image_size
unfolding word_at
passed_fits = omega arith

pub passed_within : 0 < (packed_info image image-IsPacked).module_count
unfolding word_at
passed_within = omega arith

pub passed_named : IsUserHello image (packed_info image image-IsPacked) 0
unfolding word_at
passed_named = named

pub passed_first : (j : ℕ) → j < 0 → ¬ IsUserHello image (packed_info image image-IsPacked) j
passed_first j lt = absurd (omega arith)

pub passed_good :
    let passed = packed_info image image-IsPacked in
    IsGood image passed (module_at image (record_at image passed 0))
unfolding word_at
passed_good = good

abbrev pub startable : IsStartable image (packed_info image image-IsPacked)
startable = record {
  mappable = passed-IsMappable;
  table_fits = passed_fits;
  index = 0;
  within = passed_within;
  named = passed_named;
  first = passed_first;
  good = passed_good;
}
