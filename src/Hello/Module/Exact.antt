-- ===== src/Hello/Module/Exact.antt =====
-- Which modules `load_user_module` accepts.
use minimum_tests.Base.{
  ℕ, ◌+◌, ◌*◌, ◌%◌, ◌^◌, ◌≤◌, ◌<◌, ◌≡◌, ◌↔◌, inr, refl, true, false, not, ◌||◌, bit_and, u32, ◌==◌,
  ◌!=◌, arith,
}
use minimum_tests.Bits.{bit_and_mask}
use minimum_tests.Memory.{Memory, IsBytes}
use minimum_tests.Platform.BootInfo.{BootInfo}
use minimum_tests.Hello.Image.{ModuleRecord, image_records_valid}
use minimum_tests.Hello.Image.Ranges.{image_ranges_iff}
use minimum_tests.Hello.Pages.{UserPages}
use minimum_tests.Hello.Pages.Valid.{IsValid}
use minimum_tests.Hello.Tables.{Layout}
use minimum_tests.Hello.Tables.Filled.{IsLinked}
use minimum_tests.Hello.Module.{Loader, Loaded, accepted, load_user_module, map_user, cleared}
use minimum_tests.Hello.Module.InPlace.{IsLoadable, IsPlanned}
use minimum_tests.Hello.Module.Segments.{segment}
use minimum_tests.Hello.Module.Sequence.{HasEntry}
use minimum_tests.Hello.Module.Accept.{
  IsAccepted, IsModuleLoaded, is_accepted, is_rejected, load_user_module-IsModuleLoaded,
}
use minimum_tests.Hello.Module.Fits.{load_segments-succeeds}

module _ (m : Memory) (info : BootInfo) (user_module : ModuleRecord) where
  abbrev pub segment_table : ℕ
  segment_table = u32 (info.system_rom_base + user_module.segment_table_offset)

  -- What a module must be, in terms of the image alone: its segment table lies in the image, each
  -- segment is loadable, some table of at most 16 pages of distinct addresses gives every segment
  -- its pages with its permissions, and the entry is an aligned instruction among the file's bytes
  -- of an executable segment.
  pub record IsGood : Type 0 where
    pub records :
        user_module.segment_table_offset + user_module.segment_count * 32 ≤ info.image_size
    pub loadable :
        (k : ℕ) → k < user_module.segment_count → IsLoadable info (segment m info segment_table k)
    pub plan : UserPages
    pub plan_ok : IsValid plan
    pub planned :
        (k : ℕ) → k < user_module.segment_count → IsPlanned plan (segment m info segment_table k)
    pub entry : HasEntry m info segment_table user_module.entry_vaddr 0 user_module.segment_count
    pub aligned : user_module.entry_vaddr % 4 ≡ 0

  pub IsAccepted-IsGood :
      (layout : Layout) (l l' : Loader) → IsAccepted layout m info user_module l l' → IsGood
  IsAccepted-IsGood layout l l' at = record {
    records = at.records;
    loadable = λ k lt. at.segments.loadable k (omega arith) lt;
    plan = l'.pages;
    plan_ok = at.segments.user.valid;
    planned = λ k lt j lj. at.segments.mapped k j (omega arith) lt lj;
    entry = at.entry;
    aligned = at.aligned;
  }

  module _ (layout : Layout) (l : Loader) (h : IsBytes m)
      (pages : (i : ℕ) → IsBytes (l.pages.bytes i)) (stack : IsBytes l.stack)
      (image : info.image_size < 2 ^ 32) (offset : user_module.segment_table_offset < 2 ^ 32)
      (word : user_module.entry_vaddr < 2 ^ 32) (frames : IsLinked layout.user_image_pages 16)
      (stack_frame : IsLinked layout.user_stack 1) (table : IsLinked layout.user_page_table 1) where
    good-accepted :
        IsGood → (l' : Loader) × (load_user_module layout m info user_module l ≡ accepted l')
    unfolding load_user_module
    good-accepted good =
        let (found, q, e, entry) =
          load_segments-succeeds m info good.plan good.plan_ok h image segment_table
            user_module.entry_vaddr word user_module.segment_count 0 user_module.segment_count false
            (cleared l).pages (omega arith) nothing_yet (λ i lt. absurd (omega arith))
            (λ k lo hi. good.loadable k hi) (λ k lo hi. good.planned k hi) in
        (
          map_user layout (record (cleared l) { pages = q }),
          rw (passes, e, entry (inr good.entry)) refl,
        )
      where
        nothing_yet : IsValid (cleared l).pages
        nothing_yet = record {
          few = omega arith;
          distinct = λ i j li lj e. absurd (omega arith);
          aligned = λ i li. absurd (omega arith);
          bytes = pages;
        }

        table_fits :
            image_records_valid user_module.segment_table_offset user_module.segment_count
              info.image_size
            ≡ true
        table_fits =
            (image_ranges_iff user_module.segment_table_offset 0 user_module.segment_count
                info.image_size offset image).1.1
              good.records

        nonempty : (user_module.segment_count == 0) ≡ false
        nonempty = let (k, lo, hi, at) = good.entry in ground arith

        passes :
            (user_module.segment_count == 0
              || not (
                  image_records_valid user_module.segment_table_offset user_module.segment_count
                    info.image_size)
              || bit_and user_module.entry_vaddr 3 != 0)
            ≡ false
        passes =
            rw (nonempty, table_fits)
              (ground (arith, bit_and_mask 2 user_module.entry_vaddr, good.aligned))

    accepted-good :
        (l' : Loader) {o : Loaded}
        → IsModuleLoaded layout m info user_module l o
        → o ≡ accepted l'
        → IsGood
    accepted-good l' (is_accepted l'' at) e = IsAccepted-IsGood layout l l'' at
    accepted-good l' (is_rejected l'' same quiet) e = cc

    -- With memory of bytes, words in range, and statics that are page aligned in the direct map,
    -- `load_user_module` accepts a module exactly if it is good: its segment table lies in the
    -- image; each segment is loadable; there is a table of at most 16 pages, of distinct addresses,
    -- that has for each address of each segment its page with the segment's permissions; and the
    -- entry is aligned and lies in the file's bytes of an executable segment.
    pub load_user_module-IsGood :
        IsGood ↔ ((l' : Loader) × (load_user_module layout m info user_module l ≡ accepted l'))
    load_user_module-IsGood = (
      good-accepted,
      λ (l', e).
          accepted-good l'
            (load_user_module-IsModuleLoaded layout m info user_module l h pages stack image offset
              word frames stack_frame table)
            e,
    )
