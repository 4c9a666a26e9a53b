-- ===== src/Hello/Start/Enter.antt =====
-- How the example's kernel ends.
use minimum_tests.Base.{
  ℕ, ◌+◌, ◌*◌, ◌^◌, ◌≤◌, ◌<◌, ◌≡◌, inl, inr, refl, true, false, Option, none, some, u32, arith,
  Bool-cases,
}
use minimum_tests.Memory.{Memory, IsBytes, word_at-lt}
use minimum_tests.Platform.BootInfo.{BootInfo}
use minimum_tests.Machine.{Bus, Machine, Result, ret, stopped, stored}
use minimum_tests.Runtime.{trace_base}
use minimum_tests.Hello.Image.{module_at, find_module}
use minimum_tests.Hello.Image.Find.{Search, find_module-first}
use minimum_tests.Hello.Tables.{Layout, Tables}
use minimum_tests.Hello.Tables.Filled.{IsLinked}
use minimum_tests.Hello.Tables.Rom.{IsMappable, IsRomMapped, map_system_rom-IsRomMapped}
use minimum_tests.Hello.Module.{Loader, Loaded}
use minimum_tests.Hello.Module.Accept.{
  IsAccepted, IsModuleLoaded, is_accepted, is_rejected, load_user_module-IsModuleLoaded,
}
use minimum_tests.Hello.Start.{
  UserEntry, module_name, handoff_is_bad, checked_rom, enter_user, start_module, run_module,
  kernel_main,
}

-- The fields of the boot information that the kernel checks itself.
pub record IsHandedOver (boot_info : ℕ) (info : BootInfo) : Type 0 where
  pub pointer : boot_info ≡ 0xc0007000
  pub magic : info.magic ≡ 0x4d424f4f
  pub version : info.version ≡ 1
  pub size : info.size ≡ 64
  pub vaddr : info.direct_map_vaddr ≡ 0xc0000000
  pub paddr : info.direct_map_paddr ≡ 0x40000000
  pub map_size : info.direct_map_size ≡ 0x04000000

-- The statics are where a linker can put them: page aligned and in the direct map.
pub record IsLaidOut (layout : Layout) : Type 0 where
  pub rom_tables : IsLinked layout.system_rom_tables 4
  pub page_table : IsLinked layout.user_page_table 1
  pub image_pages : IsLinked layout.user_image_pages 16
  pub stack : IsLinked layout.user_stack 1

-- The machine's words and bytes are in range.
pub record AreInRange (m : Memory) (info : BootInfo) (l : Loader) : Type 0 where
  pub memory : IsBytes m
  pub image_size : info.image_size < 2 ^ 32
  pub table_offset : info.module_table_offset < 2 ^ 32
  pub pages : (i : ℕ) → IsBytes (l.pages.bytes i)
  pub stack : IsBytes l.stack

handoff_is_bad-false :
    (boot_info : ℕ) (info : BootInfo)
    → handoff_is_bad boot_info info ≡ false
    → IsHandedOver boot_info info
unfolding handoff_is_bad
handoff_is_bad-false boot_info info e = ground arith

pub handoff_is_bad-true :
    (boot_info : ℕ) (info : BootInfo)
    → handoff_is_bad boot_info info ≡ true
    → ¬ IsHandedOver boot_info info
unfolding handoff_is_bad
handoff_is_bad-true boot_info info e over = ground arith

module _ (layout : Layout) (m : Memory) (info : BootInfo) (l : Loader) where
  abbrev pub module_table : ℕ
  module_table = u32 (info.system_rom_base + info.module_table_offset)

  -- The module table lies in the image, and its first record of that name is there.
  abbrev pub IsFirst : (address : ℕ) → Type 0
  IsFirst address =
      (info.module_table_offset + info.module_count * 32 ≤ info.image_size)
      × Search info module_name 10 m module_table 0 info.module_count (some address)

  -- The user is entered at the entry of the first module of that name, which is in place under the
  -- tables that map system ROM.
  pub record IsUserEntry (e : UserEntry) : Type 0 where
    pub tables : Tables
    pub address : ℕ
    pub rom : IsRomMapped layout info l.tables tables
    pub table_fits : info.module_table_offset + info.module_count * 32 ≤ info.image_size
    pub first : Search info module_name 10 m module_table 0 info.module_count (some address)
    pub in_place :
        IsAccepted layout m info (module_at m address) (record l { tables = tables }) e.loader
    pub at_entry : e.entry_vaddr ≡ (module_at m address).entry_vaddr
    pub at_stack : e.stack_top ≡ 0x00800000

  module _ {D : Type 0} ⦃bus : Bus D⦄ where
    pub data IsEnding (boot_info : ℕ) (s : Machine D) : Result D UserEntry → Type 0 where
      refused_handoff :
          ¬ (IsHandedOver boot_info info × IsMappable info)
          → IsEnding boot_info s (stopped (stored trace_base 0x48454c01 s))
      refused_module :
          IsHandedOver boot_info info
          → IsMappable info
          → IsEnding boot_info s (stopped (stored trace_base 0x48454c02 s))
      entered :
          (e : UserEntry)
          → IsHandedOver boot_info info
          → IsMappable info
          → IsUserEntry e
          → IsEnding boot_info s (ret e s)

    module _ (ok : IsLaidOut layout) (range : AreInRange m info l) (boot_info : ℕ) (s : Machine D)
        (over : IsHandedOver boot_info info) (mappable : IsMappable info) (tables : Tables)
        (rom : IsRomMapped layout info l.tables tables) where
      enter_user-IsEnding :
          (address : ℕ) {o : Loaded}
          → IsFirst address
          → IsModuleLoaded layout m info (module_at m address) (record l { tables = tables }) o
          → IsEnding boot_info s (enter_user (module_at m address) o s)
      unfolding enter_user
      enter_user-IsEnding address (fits, first) (is_rejected l' same quiet) =
          refused_module over mappable
      enter_user-IsEnding address (fits, first) (is_accepted l' at) =
          entered _ over mappable (record {
            tables = tables;
            address = address;
            rom = rom;
            table_fits = fits;
            first = first;
            in_place = at;
            at_entry = refl;
            at_stack = refl;
          })

      start_module-IsEnding :
          (o : Option ℕ)
          → ((address : ℕ) → o ≡ some address → IsFirst address)
          → IsEnding boot_info s (start_module layout m info (record l { tables = tables }) o s)
      unfolding start_module
      start_module-IsEnding none first = refused_module over mappable
      start_module-IsEnding (some address) first =
          enter_user-IsEnding address (first address refl) (
            load_user_module-IsModuleLoaded layout m info (module_at m address)
              (record l { tables = tables }) range.memory range.pages range.stack range.image_size
              (unfold module_at in word_at-lt m (address + 8) range.memory)
              (unfold module_at in word_at-lt m (address + 16) range.memory) ok.image_pages ok.stack
              ok.page_table)

      found-IsFirst :
          (address : ℕ) → find_module info module_name 10 m ≡ some address → IsFirst address
      found-IsFirst address e =
          elim (find_module-first info module_name 10 m range.memory range.image_size
            range.table_offset) [
              | inl (fits, result) ↦ (fits, rw (← e) result)
              | inr (no_fit, missing) ↦ absurd (ground arith)
            ]

      run_module-IsEnding : IsEnding boot_info s (run_module layout m info l (some tables) s)
      unfolding run_module
      run_module-IsEnding = start_module-IsEnding (find_module info module_name 10 m) found-IsFirst

    -- With memory of bytes, words in range, and statics that are page aligned in the direct map,
    -- the kernel of the example always ends in one of three ways. It reports 0x48454c01 and stops
    -- exactly if the handoff or the image is not as promised. Otherwise it reports 0x48454c02 and
    -- stops, or it enters user mode, without a word on the trace port: at the aligned entry of the
    -- first module named "user-hello", with the stack pointer at the top of the stack page, system
    -- ROM mapped, and the module in place in the user's pages.
    pub kernel_main-IsEnding :
        IsLaidOut layout
        → AreInRange m info l
        → (boot_info : ℕ) (s : Machine D)
        → IsEnding boot_info s (kernel_main layout m boot_info info l s)
    unfolding kernel_main checked_rom
    kernel_main-IsEnding ok range boot_info s = elim (Bool-cases (handoff_is_bad boot_info info)) [
      | inl bad ↦
          rw bad
            (unfold run_module in refused_handoff (λ h. handoff_is_bad-true boot_info info bad h.0))
      | inr fine ↦
          let over = handoff_is_bad-false boot_info info fine in
          elim (map_system_rom-IsRomMapped layout info l.tables ok.rom_tables) [
            | inl (mappable, (tables, e, rom)) ↦
                rw (fine, e) (run_module-IsEnding ok range boot_info s over mappable tables rom)
            | inr (unmappable, e) ↦
                rw (fine, e) (unfold run_module in refused_handoff (λ h. unmappable h.1))
          ]
    ]
