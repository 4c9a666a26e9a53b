-- ===== src/Hello/Module/Segment.antt =====
-- One segment.
use minimum_tests.Base.{
  ℕ, ◌+◌, ◌-◌, ◌*◌, ◌%◌, ◌<◌, ◌≡◌, ◌⊎◌, inl, inr, refl, ◌∙◌, ap, true, false, some, none, u32,
  arith, Bool-cases,
}
use minimum_tests.Memory.{Memory, IsBytes}
use minimum_tests.Platform.BootInfo.{BootInfo}
use minimum_tests.Hello.Image.{ModuleSegment}
use minimum_tests.Hello.Pages.{
  UserPages, Outcome, done, refused, prepare_user_range, write_user_range,
}
use minimum_tests.Hello.Pages.Valid.{IsValid, Extends}
use minimum_tests.Hello.Pages.Prepare.{
  IsMapped, AreAdded, IsPrepared, ready, failed, prepare_user_range-IsPrepared,
}
use minimum_tests.Hello.Pages.Plan.{AreWithin, prepare_user_range-succeeds}
use minimum_tests.Hello.Pages.Write.{write_user_range-IsWritten}
use minimum_tests.Hello.Module.{pte_flags_from_segment, segment_is_bad, load_segment}
use minimum_tests.Hello.Module.InPlace.{
  IsLoadable, AreWords, IsInPlace, IsPlanned, segment_is_bad-false, IsLoadable-segment_is_bad,
}
use minimum_tests.Hello.Module.Rewritten.{prepared-IsInPlace, has_pages}

module _ (m : Memory) (info : BootInfo) (s : ModuleSegment) (p : UserPages) (h : IsBytes m)
    (v : IsValid p) (w : AreWords info s) where
  -- No table of at most 16 pages of distinct addresses holds the pages that there are, with their
  -- flags, and those of the segment, with its own.
  abbrev pub HasNoRoom : Type 0
  HasNoRoom = (plan : UserPages) → IsValid plan → AreWithin p plan → IsPlanned plan s → ⊥

  -- How `load_segment` ends.
  pub data IsSegmentLoaded : Outcome (Unit {0}) → Type 0 where
    in_place :
        (p' : UserPages)
        → IsLoadable info s
        → IsInPlace m info s p p'
        → IsSegmentLoaded (done tt p')
    not_loaded :
        (p' : UserPages)
        → IsValid p'
        → Extends p p'
        → AreAdded p p'
            (s.virtual_address - s.virtual_address % 4096)
            (s.virtual_address + s.memory_size)
            (pte_flags_from_segment s.flags)
        → HasNoRoom
        → IsSegmentLoaded (refused p')

  three_steps :
      (q q' r : UserPages)
      → segment_is_bad info s ≡ false
      → prepare_user_range s.virtual_address s.memory_size (pte_flags_from_segment s.flags) p
        ≡ done tt q
      → write_user_range m s.virtual_address none s.memory_size q ≡ done tt q'
      → write_user_range m s.virtual_address
          (some (u32 (info.system_rom_base + s.data_offset)))
          s.file_size
          q'
        ≡ done tt r
      → load_segment m info s p ≡ done tt r
  unfolding load_segment
  three_steps q q' r fine e e1 e2 = rw (fine, e, e1, e2) refl

  -- Once its pages are prepared, nothing stops a segment.
  prepared_loads :
      IsLoadable info s
      → segment_is_bad info s ≡ false
      → (q : UserPages)
      → prepare_user_range s.virtual_address s.memory_size (pte_flags_from_segment s.flags) p
        ≡ done tt q
      → IsValid q
      → Extends p q
      → AreAdded p q
          (s.virtual_address - s.virtual_address % 4096)
          (s.virtual_address + s.memory_size)
          (pte_flags_from_segment s.flags)
      → ((k : ℕ)
          → s.virtual_address - s.virtual_address % 4096 + k * 4096
            < s.virtual_address + s.memory_size
          → IsMapped q
              (s.virtual_address - s.virtual_address % 4096 + k * 4096)
              (pte_flags_from_segment s.flags))
      → (r : UserPages) × (load_segment m info s p ≡ done tt r) × IsInPlace m info s p r
  prepared_loads ok fine q e vq ext new mapped =
      let (q', e1, zeroed) =
        write_user_range-IsWritten m s.virtual_address none s.memory_size q h vq
          (omega (arith, ok.below_stack)) (has_pages m info s p q mapped) in
      let (r, e2, copied) =
        write_user_range-IsWritten m s.virtual_address
          (some (u32 (info.system_rom_base + s.data_offset))) s.file_size q' h zeroed.valid
          (omega (arith, ok.below_stack, ok.sizes))
          (λ j lt.
            let (i, li, at) = has_pages m info s p q mapped j (omega (arith, ok.sizes)) in
            (i, omega (arith, zeroed.count), ap (λ (f : ℕ → ℕ). f i) zeroed.vaddrs ∙ at)) in
      (
        r,
        three_steps q q' r fine e e1 e2,
        prepared-IsInPlace m info s p ok q vq ext new mapped q' r zeroed copied,
      )

  after_prepare :
      {r : Outcome (Unit {0})}
      → IsLoadable info s
      → segment_is_bad info s ≡ false
      → prepare_user_range s.virtual_address s.memory_size (pte_flags_from_segment s.flags) p ≡ r
      → IsPrepared p
          (s.virtual_address - s.virtual_address % 4096)
          (s.virtual_address + s.memory_size)
          (pte_flags_from_segment s.flags)
          r
      → IsSegmentLoaded (load_segment m info s p)
  unfolding load_segment
  after_prepare ok fine e (failed q vq ext new) =
      rw (fine, e)
        (not_loaded q vq ext new (λ plan valid within planned.
          let (q', e') =
            prepare_user_range-succeeds plan valid s.virtual_address s.memory_size
              (pte_flags_from_segment s.flags) p v within ok.nonempty
              (omega (arith, ok.below_stack)) planned in
          cc))
  after_prepare ok fine e (ready q vq ext new mapped) =
      let (r, e', at) = prepared_loads ok fine q e vq ext new mapped in rw e' (in_place r ok at)

  prepared-IsLoaded :
      IsLoadable info s
      → (q : UserPages) {o : Outcome (Unit {0})}
      → prepare_user_range s.virtual_address s.memory_size (pte_flags_from_segment s.flags) p ≡ o
      → IsPrepared p
          (s.virtual_address - s.virtual_address % 4096)
          (s.virtual_address + s.memory_size)
          (pte_flags_from_segment s.flags)
          o
      → o ≡ done tt q
      → (r : UserPages) × (load_segment m info s p ≡ done tt r) × IsInPlace m info s p r
  prepared-IsLoaded ok q e (failed q' vq ext new) e' = cc
  prepared-IsLoaded ok q e (ready q' vq ext new mapped) e' =
      prepared_loads ok (IsLoadable-segment_is_bad info s w ok) q' e vq ext new mapped

  -- The same from the outside: a loadable segment whose pages can be prepared is put in place.
  pub load_segment-succeeds :
      IsLoadable info s
      → (q : UserPages)
      → prepare_user_range s.virtual_address s.memory_size (pte_flags_from_segment s.flags) p
        ≡ done tt q
      → (r : UserPages) × (load_segment m info s p ≡ done tt r) × IsInPlace m info s p r
  load_segment-succeeds ok q e =
      prepared-IsLoaded ok q refl
        (prepare_user_range-IsPrepared s.virtual_address s.memory_size
          (pte_flags_from_segment s.flags) p v (omega (arith, ok.below_stack)))
        e

  -- For a segment of words, memory of bytes and a valid table of pages: a segment that fails a
  -- check is refused and nothing is written. One that passes them is loadable, and there are two
  -- cases. It is refused, and then no table of at most 16 pages of distinct addresses could hold
  -- the pages that there were and those of the segment, each with its flags; what is left is valid,
  -- keeps the old pages with all their bytes, and gains at most pages of the segment. Or it is in
  -- place: every address of it has a page with its flags, each of its bytes in each page that holds
  -- it is the file's byte or, behind the file's bytes, zero, every other byte of the pages that
  -- there were is as before, and the pages added are those that it touches.
  pub load_segment-IsSegmentLoaded :
      ((segment_is_bad info s ≡ true) × (load_segment m info s p ≡ refused p))
      ⊎ ((segment_is_bad info s ≡ false) × IsSegmentLoaded (load_segment m info s p))
  load_segment-IsSegmentLoaded = elim (Bool-cases (segment_is_bad info s)) [
    | inl bad ↦ inl (bad, unfold load_segment in rw bad refl)
    | inr fine ↦
        let ok = segment_is_bad-false info s w fine in
        inr (
          fine,
          after_prepare ok fine refl (
              prepare_user_range-IsPrepared s.virtual_address s.memory_size
                (pte_flags_from_segment s.flags) p v (omega (arith, ok.below_stack))),
        )
  ]
