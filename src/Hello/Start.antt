-- ===== src/Hello/Start.antt =====
-- `minemu_kernel_main` of examples/user-mode-hello/kernel/main.c.
pub mod Enter
pub mod Exact
pub mod SameRom
pub mod Booted
use minimum_tests.Base.{
  ℕ, ◌-◌, List, [], ◌∷◌, Bool, ◌||◌, Option, none, some, ◌==◌, ◌!=◌, if◌then◌else◌,
}
use minimum_tests.Memory.{Memory}
use minimum_tests.Platform.{kernel_direct_base, kernel_direct_size, ram_base}
use minimum_tests.Platform.BootInfo.{
  BootInfo, boot_info_vaddr, boot_info_magic, abi_version, sizeof_boot_info,
}
use minimum_tests.Machine.{Bus, Result, spinning, Run, ◌>>◌, pure}
use minimum_tests.Runtime.{trace_event, fail_stop}
use minimum_tests.Hello.Image.{ModuleRecord, module_at, find_module}
use minimum_tests.Hello.Tables.{Layout, Tables, map_system_rom}
use minimum_tests.Hello.Module.{
  Loader, Loaded, accepted, rejected, endless, load_user_module, user_stack_top,
}

-- `minemu_enter_user(entry_vaddr, stack_top)`, with what the loader has left behind.
pub record UserEntry : Type 0 where
  pub entry_vaddr : ℕ
  pub stack_top : ℕ
  pub loader : Loader

-- The characters of "user-hello".
abbrev char_at : List ℕ → ℕ → ℕ
char_at [] index = 0
char_at (c ∷ cs) index = if index == 0 then c else char_at cs (index - 1)

abbrev pub module_name : ℕ → ℕ
module_name = char_at (117 ∷ 115 ∷ 101 ∷ 114 ∷ 45 ∷ 104 ∷ 101 ∷ 108 ∷ 108 ∷ 111 ∷ [])

-- `sizeof(module_name) - 1U`
abbrev pub module_name_length : ℕ
module_name_length = 10

pub handoff_is_bad : (boot_info : ℕ) → BootInfo → Bool
handoff_is_bad boot_info info =
    boot_info != boot_info_vaddr
    || info.magic != boot_info_magic
    || info.version != abi_version
    || info.size != sizeof_boot_info
    || info.direct_map_vaddr != kernel_direct_base
    || info.direct_map_paddr != ram_base
    || info.direct_map_size != kernel_direct_size

-- The first condition as a whole: its last operand maps system ROM.
pub checked_rom : Layout → (boot_info : ℕ) → BootInfo → Tables → Option Tables
checked_rom layout boot_info info tables =
    if handoff_is_bad boot_info info then none else map_system_rom layout info tables

module _ {D : Type 0} ⦃bus : Bus D⦄ where
  pub enter_user : ModuleRecord → Loaded → Run D UserEntry
  unfolding trace_event fail_stop
  enter_user user_module (accepted l) =
      pure
        (record { entry_vaddr = user_module.entry_vaddr; stack_top = user_stack_top; loader = l })
  enter_user user_module (rejected l) = (do trace_event 0x48454c02; fail_stop)
  enter_user user_module endless = spinning

  pub start_module : Layout → Memory → BootInfo → Loader → Option ℕ → Run D UserEntry
  unfolding trace_event fail_stop
  start_module layout m info l none = (do trace_event 0x48454c02; fail_stop)
  start_module layout m info l (some address) =
      enter_user (module_at m address) (load_user_module layout m info (module_at m address) l)

  pub run_module : Layout → Memory → BootInfo → Loader → Option Tables → Run D UserEntry
  unfolding trace_event fail_stop
  run_module layout m info l none = (do trace_event 0x48454c01; fail_stop)
  run_module layout m info l (some tables) =
      start_module layout m info (record l { tables = tables })
        (find_module info module_name module_name_length m)

  -- `m` is memory as the kernel reads it, and `info` what `boot_info` points to.
  pub kernel_main : Layout → Memory → (boot_info : ℕ) → BootInfo → Loader → Run D UserEntry
  kernel_main layout m boot_info info l =
      run_module layout m info l (checked_rom layout boot_info info l.tables)
