-- ===== src/Kernel.antt =====
-- kernel/src/core/main.c: the baseline kernel, which checks how it was handed the machine.
pub mod Accept
pub mod Baseline
mod Tests
use minimum_tests.Base.{ℕ, List, [], ◌∷◌, Bool, ◌||◌, ◌==◌, ◌!=◌, if◌then◌else◌}
use minimum_tests.Machine.{Bus, Run, ◌>>=◌, ◌>>◌, pure}
use minimum_tests.Runtime.{trace_event, fail_stop}
use minimum_tests.Platform.BootInfo.{
  BootInfo, boot_info_vaddr, boot_info_magic, abi_version, sizeof_boot_info,
}

abbrev pub expected_data : ℕ
expected_data = 0x13579bdf

pub handoff_is_bad : (boot_info : ℕ) → BootInfo → (initialized_data : ℕ) → Bool
handoff_is_bad boot_info info initialized_data =
    boot_info != boot_info_vaddr
    || info.magic != boot_info_magic
    || info.version != abi_version
    || info.size != sizeof_boot_info
    || info.system_rom_base != 0x08000000
    || info.image_size == 0
    || info.module_count != 1
    || info.module_table_offset == 0
    || info.direct_map_vaddr != 0xc0000000
    || info.direct_map_paddr != 0x40000000
    || info.direct_map_size != 0x04000000
    || initialized_data != expected_data

module _ {D : Type 0} ⦃bus : Bus D⦄ where
  -- The loop over `zeroed_bss`.
  pub check_bss : List ℕ → Run D (Unit {0})
  unfolding trace_event fail_stop
  check_bss [] = pure tt
  check_bss (word ∷ words) =
      let rest = check_bss words in
      if word != 0 then (do trace_event 0xb007bad1; fail_stop) else rest

  -- `info` is what `boot_info` points to; the statics are what they hold when the kernel starts.
  pub kernel_main :
      (boot_info : ℕ) → BootInfo → (initialized_data : ℕ) → (zeroed_bss : List ℕ) → Run D (Unit {0})
  unfolding trace_event fail_stop check_bss handoff_is_bad
  kernel_main boot_info info initialized_data zeroed_bss = do
    if handoff_is_bad boot_info info initialized_data
        then (do trace_event 0xb007bad0; fail_stop)
        else pure tt
    check_bss zeroed_bss
    trace_event 0x20000001
    fail_stop
