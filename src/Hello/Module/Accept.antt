-- ===== src/Hello/Module/Accept.antt =====
-- `load_user_module` as a whole.
use minimum_tests.Base.{
  ℕ, ◌+◌, ◌*◌, ◌%◌, ◌^◌, ◌≤◌, ◌<◌, ◌≡◌, inl, inr, refl, ◌∙◌, ap, Bool, true, false, not, ◌||◌,
  bit_and, u32, ◌==◌, ◌!=◌, arith, Bool-cases,
}
use minimum_tests.Bits.{bit_and_mask}
use minimum_tests.Memory.{Memory, IsBytes}
use minimum_tests.Platform.BootInfo.{BootInfo}
use minimum_tests.Hello.Image.{ModuleRecord, image_records_valid}
use minimum_tests.Hello.Pages.{UserPages, zero_bytes, Outcome}
use minimum_tests.Hello.Pages.Valid.{zero_bytes-IsFilled}
use minimum_tests.Hello.Image.Ranges.{image_ranges_iff}
use minimum_tests.Hello.Tables.{Layout}
use minimum_tests.Hello.Tables.Filled.{IsLinked}
use minimum_tests.Hello.Module.{
  Loader, Loaded, accepted, rejected, cleared, finish, load_user_module, map_user,
}
use minimum_tests.Hello.Module.Table.{IsUser, IsUserMapped, map_user-IsUserMapped}
use minimum_tests.Hello.Module.Segments.{AreInPlace, IsTouched}
use minimum_tests.Hello.Module.Sequence.{
  HasEntry, AreLoaded, all_loaded, one_refused, load_segments-AreLoaded,
}

module _ (layout : Layout) (m : Memory) (info : BootInfo) (user_module : ModuleRecord)
    (l : Loader) where
  -- A module that is in user memory, and the user's page table for it.
  pub record IsAccepted (l' : Loader) : Type 0 where
    pub records :
        user_module.segment_table_offset + user_module.segment_count * 32 ≤ info.image_size
    pub segments :
        AreInPlace m info
          (u32 (info.system_rom_base + user_module.segment_table_offset))
          0
          user_module.segment_count
          (cleared l).pages
          l'.pages
    -- There is no page but those that a segment touches, with that segment's permissions.
    pub only :
        (i : ℕ)
        → i < l'.pages.count
        → (k : ℕ) × (k < user_module.segment_count)
          × IsTouched m info
              (u32 (info.system_rom_base + user_module.segment_table_offset))
              k
              (l'.pages.vaddrs i)
              (l'.pages.flags i)
    pub entry :
        HasEntry m info
          (u32 (info.system_rom_base + user_module.segment_table_offset))
          user_module.entry_vaddr
          0
          user_module.segment_count
    pub aligned : user_module.entry_vaddr % 4 ≡ 0
    pub tables : IsUserMapped layout (record (cleared l) { pages = l'.pages }) l'
    pub stack : (b : ℕ) → b < 4096 → l'.stack b ≡ 0

  -- How the loader ends: it accepts the module, or it leaves the directory and the TLB alone.
  pub data IsModuleLoaded : Loaded → Type 0 where
    is_accepted : (l' : Loader) → IsAccepted l' → IsModuleLoaded (accepted l')
    is_rejected :
        (l' : Loader)
        → l'.tables.directory ≡ l.tables.directory
        → l'.tables.flushes ≡ l.tables.flushes
        → IsModuleLoaded (rejected l')

  module _ (h : IsBytes m) (pages : (i : ℕ) → IsBytes (l.pages.bytes i)) (stack : IsBytes l.stack)
      (image : info.image_size < 2 ^ 32) (offset : user_module.segment_table_offset < 2 ^ 32)
      (word : user_module.entry_vaddr < 2 ^ 32) (frames : IsLinked layout.user_image_pages 16)
      (stack_frame : IsLinked layout.user_stack 1) (table : IsLinked layout.user_page_table 1) where
    cleared-IsUser : IsUser (cleared l).pages
    cleared-IsUser = record {
      valid = record {
        few = omega arith;
        distinct = λ i j li lj e. absurd (omega arith);
        aligned = λ i li. absurd (omega arith);
        bytes = pages;
      };
      lower = λ i li. absurd (omega arith);
      upper = λ i li. absurd (omega arith);
      permissions = λ i li. absurd (omega arith);
    }

    abbrev bad : Bool
    bad =
        user_module.segment_count == 0
        || not (
            image_records_valid user_module.segment_table_offset user_module.segment_count
              info.image_size)
        || bit_and user_module.entry_vaddr 3 != 0

    user_mapped :
        bad ≡ false
        → (q : UserPages)
        → AreInPlace m info
            (u32 (info.system_rom_base + user_module.segment_table_offset))
            0
            user_module.segment_count
            (cleared l).pages
            q
        → HasEntry m info
            (u32 (info.system_rom_base + user_module.segment_table_offset))
            user_module.entry_vaddr
            0
            user_module.segment_count
        → IsAccepted (map_user layout (record (cleared l) { pages = q }))
    unfolding map_user
    user_mapped fine q at entry = record {
      records =
          (image_ranges_iff user_module.segment_table_offset 0 user_module.segment_count
              info.image_size offset image).1.0
            (ground arith);
      segments = at;
      only = λ i li. elim (at.added i li) [
        | inl old ↦ absurd (omega arith)
        | inr (k, lo, hi, touched) ↦ (k, hi, touched)
      ];
      entry = entry;
      aligned = ground (arith, bit_and_mask 2 user_module.entry_vaddr);
      tables =
          map_user-IsUserMapped layout (record (cleared l) { pages = q }) at.user frames stack_frame
            table (λ x. refl);
      stack = λ b lt.
          let same : b ≡ 0 + b = omega arith in
          ap (zero_bytes 0 4096 l.stack) same
          ∙ (zero_bytes-IsFilled 0 4096 l.stack stack).inside b lt;
    }

    finish-IsModuleLoaded :
        {o : Outcome Bool}
        → bad ≡ false
        → AreLoaded m info
            (u32 (info.system_rom_base + user_module.segment_table_offset))
            user_module.entry_vaddr
            0
            user_module.segment_count
            false
            (cleared l).pages
            o
        → IsModuleLoaded (finish layout (cleared l) o)
    finish-IsModuleLoaded fine (one_refused q) =
        is_rejected (record (cleared l) { pages = q }) refl refl
    finish-IsModuleLoaded fine (all_loaded false q at entry) =
        is_rejected (record (cleared l) { pages = q }) refl refl
    finish-IsModuleLoaded fine (all_loaded true q at entry) =
        is_accepted (map_user layout (record (cleared l) { pages = q }))
          (user_mapped fine q at (elim (entry refl) [ inl e ↦ absurd (ground arith) | inr k ↦ k ]))

    -- With memory of bytes, words in range, and statics that are page aligned in the direct map,
    -- `load_user_module` always ends, and in one of two ways. It accepts the module only if its
    -- segment table lies in the image, every segment is loadable and in place (with the page flags
    -- of its own permissions, its file's bytes, and zeros behind them, save where a later segment
    -- lies on top), and its entry is aligned and lies in the file's bytes of an executable segment;
    -- then the pages are exactly those that a segment touches, and the user's page table maps
    -- exactly these and a zeroed stack page.
    -- Otherwise it rejects the module, with the page directory unchanged and no TLB flush.
    pub load_user_module-IsModuleLoaded :
        IsModuleLoaded (load_user_module layout m info user_module l)
    unfolding load_user_module
    load_user_module-IsModuleLoaded = elim (Bool-cases bad) [
      | inl wrong ↦ rw wrong (is_rejected l refl refl)
      | inr fine ↦ rw fine (
          finish-IsModuleLoaded fine (
            load_segments-AreLoaded m info
              (u32 (info.system_rom_base + user_module.segment_table_offset))
              user_module.entry_vaddr h image word user_module.segment_count 0
              user_module.segment_count false (cleared l).pages (omega arith) cleared-IsUser))
    ]
