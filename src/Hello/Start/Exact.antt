-- ===== src/Hello/Start/Exact.antt =====
-- When the example's kernel enters user mode.
use minimum_tests.Base.{
  ℕ, ◌+◌, ◌*◌, ◌≤◌, ◌<◌, ◌≡◌, ◌↔◌, inl, inr, refl, ap, subst, false, Option, some, u32, arith,
  dec_lt, Bool-cases,
}
use minimum_tests.Memory.{Memory, word_at-lt}
use minimum_tests.Platform.BootInfo.{BootInfo}
use minimum_tests.Machine.{Bus, Machine, Result, ret}
use minimum_tests.Hello.Image.{module_at, find_module}
use minimum_tests.Hello.Image.Find.{IsNamed, Search, found, absent, find_module-first}
use minimum_tests.Hello.Tables.{Layout, Tables}
use minimum_tests.Hello.Tables.Rom.{IsMappable, map_system_rom-IsRomMapped}
use minimum_tests.Hello.Module.{Loader, accepted, load_user_module, user_stack_top}
use minimum_tests.Hello.Module.Exact.{IsGood, IsAccepted-IsGood, load_user_module-IsGood}
use minimum_tests.Hello.Start.{
  UserEntry, module_name, handoff_is_bad, checked_rom, enter_user, start_module, run_module,
  kernel_main,
}
use minimum_tests.Hello.Start.Enter.{
  IsHandedOver, IsLaidOut, AreInRange, IsEnding, refused_handoff, refused_module, entered,
  module_table, handoff_is_bad-true, kernel_main-IsEnding,
}

module _ (m : Memory) (info : BootInfo) where
  abbrev pub record_at : ℕ → ℕ
  record_at i = u32 (u32 (info.system_rom_base + info.module_table_offset) + i * 32)

  abbrev pub IsUserHello : ℕ → Type 0
  IsUserHello i = IsNamed info module_name 10 m (module_at m (record_at i))

  -- What the image must be: not too large, at the base of system ROM, its module table inside, and
  -- the first record of that table named "user-hello" a good module.
  pub record IsStartable : Type 0 where
    pub mappable : IsMappable info
    pub table_fits : info.module_table_offset + info.module_count * 32 ≤ info.image_size
    pub index : ℕ
    pub within : index < info.module_count
    pub named : IsUserHello index
    pub first : (j : ℕ) → j < index → ¬ IsUserHello j
    pub good : IsGood m info (module_at m (record_at index))

  -- A search that ends at the first record ends nowhere else.
  pub Search-unique :
      (i : ℕ) {o : Option ℕ}
      → i < info.module_count
      → IsUserHello i
      → ((j : ℕ) → j < i → ¬ IsUserHello j)
      → Search info module_name 10 m
          (u32 (info.system_rom_base + info.module_table_offset))
          0
          info.module_count
          o
      → o ≡ some (record_at i)
  Search-unique i lt named first (absent none_named) = absurd (none_named i (omega arith) lt named)
  Search-unique i lt named first (found i' lo hi named' first') = elim (dec_lt i i') [
    | yes before ↦ absurd (first' i (omega arith) before named)
    | no not_before ↦ elim (dec_lt i' i) [
      | yes behind ↦ absurd (first i' behind named')
      | no not_behind ↦ ap (λ (n : ℕ). some (record_at n)) (omega arith)
    ]
  ]

  module _ (layout : Layout) (l : Loader) (laid : IsLaidOut layout)
      (range : AreInRange m info l) where
    found_module :
        (ok : IsStartable) → find_module info module_name 10 m ≡ some (record_at ok.index)
    found_module ok =
        elim (find_module-first info module_name 10 m range.memory range.image_size
          range.table_offset) [
            | inl (fits, result) ↦ Search-unique ok.index ok.within ok.named ok.first result
            | inr (no_fit, missing) ↦ absurd (no_fit ok.table_fits)
          ]

    good_loads :
        (address : ℕ) (tables : Tables)
        → IsGood m info (module_at m address)
        → (l' : Loader) × (load_user_module layout m info
              (module_at m address)
              (record l { tables = tables })
            ≡ accepted l')
    good_loads address tables =
        (load_user_module-IsGood m info (module_at m address) layout (record l { tables = tables })
          range.memory range.pages range.stack range.image_size
          (unfold module_at in word_at-lt m (address + 8) range.memory)
          (unfold module_at in word_at-lt m (address + 16) range.memory) laid.image_pages laid.stack
          laid.page_table).0

    module _ {D : Type 0} ⦃bus : Bus D⦄ (boot_info : ℕ) (s : Machine D) where
      starts :
          IsHandedOver boot_info info
          → IsStartable
          → (e : UserEntry) × (kernel_main layout m boot_info info l s ≡ ret e s)
      unfolding kernel_main checked_rom run_module start_module enter_user
      starts over ok = elim (map_system_rom-IsRomMapped layout info l.tables laid.rom_tables) [
        | inl (mappable, (tables, e, rom)) ↦
            let (l', loads) = good_loads (record_at ok.index) tables ok.good in
            (
              record {
                entry_vaddr = (module_at m (record_at ok.index)).entry_vaddr;
                stack_top = user_stack_top;
                loader = l';
              },
              rw (fine, e, found_module ok, loads) refl,
            )
        | inr (unmappable, e) ↦ absurd (unmappable ok.mappable)
      ]
        where
          fine : handoff_is_bad boot_info info ≡ false
          fine = elim (Bool-cases (handoff_is_bad boot_info info)) [
            | inl bad ↦ absurd (handoff_is_bad-true boot_info info bad over)
            | inr passes ↦ passes
          ]

      IsFirst-IsStartable :
          {o : Option ℕ} (address : ℕ)
          → IsMappable info
          → info.module_table_offset + info.module_count * 32 ≤ info.image_size
          → Search info module_name 10 m (module_table layout m info l) 0 info.module_count o
          → o ≡ some address
          → IsGood m info (module_at m address)
          → IsStartable
      IsFirst-IsStartable address mappable fits (absent none_named) e good = cc
      IsFirst-IsStartable address mappable fits (found i lo hi named first) e good = record {
        mappable = mappable;
        table_fits = fits;
        index = i;
        within = hi;
        named = named;
        first = λ j lt. first j (omega arith) lt;
        good = subst (λ (a : ℕ). IsGood m info (module_at m a)) (ground (arith, e)) good;
      }

      entered-IsStartable :
          {o : Result D UserEntry} (e : UserEntry)
          → IsEnding layout m info l boot_info s o
          → o ≡ ret e s
          → IsHandedOver boot_info info × IsStartable
      entered-IsStartable e (refused_handoff why) same = cc
      entered-IsStartable e (refused_module over mappable) same = cc
      entered-IsStartable e (entered e' over mappable at) same = (
        over,
        IsFirst-IsStartable at.address mappable at.table_fits at.first refl (
            IsAccepted-IsGood m info (module_at m at.address) layout
              (record l { tables = at.tables }) e'.loader at.in_place),
      )

      -- With memory of bytes, words in range, and statics that are page aligned in the direct map,
      -- the kernel of the example enters user mode exactly if the handoff is as promised, the image
      -- lies at the base of system ROM and is neither empty nor too large, its module table lies
      -- inside, and the table has a record named "user-hello" the first of which is a good module.
      pub kernel_main-IsStartable :
          (IsHandedOver boot_info info × IsStartable)
          ↔ ((e : UserEntry) × (kernel_main layout m boot_info info l s ≡ ret e s))
      kernel_main-IsStartable = (
        λ (over, ok). starts over ok,
        λ (e, run).
            entered-IsStartable e (kernel_main-IsEnding layout m info l laid range boot_info s) run,
      )
