-- ===== src/Headless/TtbrSwitch/Tests.antt =====
-- The case on a processor whose TLB keeps what it has seen until it is flushed.
use minimum_tests.Base.{ℕ, ◌≡◌, refl, List, ◌∷◌, [], ◌==◌, if◌then◌else◌}
use minimum_tests.Machine.{Bus, Machine, Event, store, ttbr0, tlbiall}
use minimum_tests.Machine.Sample.{last_report}
use minimum_tests.Runtime.{
  trace_base, require, conformance_fail, trace_event, fail_stop, test_paddr,
}
use minimum_tests.Platform.Mmu.{mmu_tlbiall, mmu_set_ttbr0}
use minimum_tests.Headless.{check, for_each}
use minimum_tests.Headless.Ensures.{Ensures}
use minimum_tests.Headless.TtbrSwitch.{
  Image, test_vaddr, ttbr_switch_main, checks, build_tables, switch_roots, copy_root,
}
use minimum_tests.Headless.TtbrSwitch.Watched.{watched, switched, ttbr_switch_main-IsSwitched}

-- The directory in the register, and the one whose translation is cached.
abbrev controlled_by : ℕ × ℕ → Event → ℕ × ℕ
controlled_by (root, cached) (ttbr0 address) = (address, cached)
controlled_by (root, cached) tlbiall = (root, root)
controlled_by d _ = d

instance abbrev caching : Bus (ℕ × ℕ)
caching = record {
  read = λ d address. (
    if address == test_vaddr then (if d.1 == 0x40010000 then 0xaaaaaaaa else 0xbbbbbbbb) else 0,
    d,
  );
  write = λ d address value. d;
  control = controlled_by;
  dfsr = λ d. 0;
  dfar = λ d. 0;
}

abbrev start : Machine (ℕ × ℕ)
start = record { devices = (0x40010000, 0x40010000); cpsr = 0xd3; log = [] }

abbrev image : Image
image = record {
  root_b = 0x80010000;
  table_a = 0x80011000;
  table_b = 0x80012000;
  page_a = 0x80013000;
  page_b = 0x80014000;
}

ttbr_switch_main-IsSwitched_example :
    Ensures ⊥
      (λ t.
        (watched t.log ≡ switched image (watched []))
        × (log : List Event) × (t.log ≡ store trace_base 0x20040001 ∷ log))
      (λ done t. ⊥)
      (ttbr_switch_main image start)
ttbr_switch_main-IsSwitched_example = ttbr_switch_main-IsSwitched image start

-- On this processor the case succeeds.
succeeds : last_report (ttbr_switch_main image start) ≡ 0x20040001
unfolding ttbr_switch_main checks build_tables switch_roots copy_root check for_each mmu_tlbiall
    mmu_set_ttbr0 require conformance_fail trace_event fail_stop test_paddr
succeeds = refl
