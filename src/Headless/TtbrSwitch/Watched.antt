-- ===== src/Headless/TtbrSwitch/Watched.antt =====
-- headless/ttbr-switch: the switches and the loads of the test page in a success.
use minimum_tests.Base.{
  ℕ, ◌+◌, ◌*◌, ◌<◌, ◌≡◌, refl, arith, false, List, [], ◌∷◌, ◌==◌, ==_iff, u32, if◌then◌else◌,
}
use minimum_tests.Machine.{Bus, Event, load, store, ttbr0, tlbiall, Machine, mmio_read, mmio_write}
use minimum_tests.Runtime.{trace_base, trace_event, fail_stop, test_paddr}
use minimum_tests.Platform.Mmu.{mmu_tlbiall, mmu_set_ttbr0}
use minimum_tests.Headless.{check, root_table}
use minimum_tests.Headless.Ensures.{Ensures, returns, passes, bind-Ensures, require_last-Ensures}
use minimum_tests.Headless.Tells.{Tells, seq-Tells, bind-Tells, for_each-Tells}
use minimum_tests.Headless.TtbrSwitch.{
  Image, test_vaddr, copy_root, build_tables, switch_roots, checks, ttbr_switch_main,
}

-- Loads of the test page, and what is written to the coprocessor.
abbrev pub watched : List Event → List Event
watched [] = []
watched (load address value ∷ log) =
    let rest = watched log in if address == test_vaddr then load address value ∷ rest else rest
watched (ttbr0 address ∷ log) = ttbr0 address ∷ watched log
watched (tlbiall ∷ log) = tlbiall ∷ watched log
watched (_ ∷ log) = watched log

-- Newest first: the second directory is seen only behind the flush, and the first again behind the
-- next flush.
abbrev pub switched : Image → List Event → List Event
switched image log =
    load test_vaddr 0xaaaaaaaa
    ∷ tlbiall
    ∷ ttbr0 0x40010000
    ∷ load test_vaddr 0xbbbbbbbb
    ∷ tlbiall
    ∷ load test_vaddr 0xaaaaaaaa
    ∷ ttbr0 (test_paddr image.root_b)
    ∷ load test_vaddr 0xaaaaaaaa
    ∷ tlbiall
    ∷ log

module _ {D : Type 0} ⦃bus : Bus D⦄ where
  mmio_write-Tells :
      (address value : ℕ) → Tells {D = D} ⊥ watched (mmio_write address value) (λ log. log)
  mmio_write-Tells address value = record { tells = λ s. returns _ _ refl }

  mmu_tlbiall-Tells : Tells {D = D} ⊥ watched mmu_tlbiall (λ log. tlbiall ∷ log)
  unfolding mmu_tlbiall
  mmu_tlbiall-Tells = record { tells = λ s. returns _ _ refl }

  mmu_set_ttbr0-Tells :
      (address : ℕ) → Tells {D = D} ⊥ watched (mmu_set_ttbr0 address) (λ log. ttbr0 address ∷ log)
  unfolding mmu_set_ttbr0
  mmu_set_ttbr0-Tells address = record { tells = λ s. returns _ _ refl }

  read_elsewhere-Tells :
      (address : ℕ)
      → (address == test_vaddr) ≡ false
      → Tells {D = D} ⊥ watched (mmio_read address) (λ log. log)
  read_elsewhere-Tells address e = record { tells = λ s. returns _ _ (rw e refl) }

  check-Tells :
      (expected code : ℕ)
      → Tells {D = D} ⊥ watched
          (check test_vaddr expected code)
          (λ log. load test_vaddr expected ∷ log)
  unfolding check
  check-Tells expected code = record {
    tells = λ s.
        require_last-Ensures _ _ _ ((bus.read s.devices test_vaddr).0 == expected) code _
          (λ e. rw ((==_iff (bus.read s.devices test_vaddr).0 expected).0 e) refl);
  }

module _ {D : Type 0} ⦃bus : Bus D⦄ (image : Image) where
  copy_root-Tells :
      (index : ℕ) → index < 1024 → Tells {D = D} ⊥ watched (copy_root image index) (λ log. log)
  unfolding copy_root
  copy_root-Tells index lt =
      bind-Tells (read_elsewhere-Tells (root_table + index * 4) (ground arith)) (λ entry.
        seq-Tells (mmio_write-Tells (u32 (image.root_b + index * 4)) entry) (
          seq-Tells (mmio_write-Tells (u32 (image.table_a + index * 4)) 0)
            (mmio_write-Tells (u32 (image.table_b + index * 4)) 0)))

  checks-Tells : Tells {D = D} ⊥ watched (checks image) (switched image)
  unfolding checks build_tables switch_roots
  checks-Tells =
      seq-Tells
        (seq-Tells
          (for_each-Tells watched (copy_root image) 1024 (copy_root-Tells) 1024 0 (omega arith))
          (seq-Tells (mmio_write-Tells image.page_a 0xaaaaaaaa) (
            seq-Tells (mmio_write-Tells image.page_b 0xbbbbbbbb) (
              seq-Tells (mmio_write-Tells image.table_a _) (
                seq-Tells (mmio_write-Tells image.table_b _) (
                  seq-Tells (mmio_write-Tells _ _)
                    (seq-Tells (mmio_write-Tells _ _) mmu_tlbiall-Tells)))))))
        (seq-Tells (check-Tells 0xaaaaaaaa 1) (
          seq-Tells (mmu_set_ttbr0-Tells (test_paddr image.root_b)) (
            seq-Tells (check-Tells 0xaaaaaaaa 2) (
              seq-Tells mmu_tlbiall-Tells (
                seq-Tells (check-Tells 0xbbbbbbbb 3) (
                  seq-Tells (mmu_set_ttbr0-Tells 0x40010000)
                    (seq-Tells mmu_tlbiall-Tells (check-Tells 0xaaaaaaaa 4))))))))

  -- On any devices and memory, the case stops behind the report of a failed assertion, or behind its
  -- success value, and then the test page was read four times: with the first directory, with the
  -- second before the TLB was flushed, which still gave the first page's word, with the second
  -- behind the flush, which gave the second's, and with the first again behind another flush.
  pub ttbr_switch_main-IsSwitched :
      (s : Machine D)
      → Ensures ⊥
          (λ t.
            (watched t.log ≡ switched image (watched s.log))
            × (log : List Event) × (t.log ≡ store trace_base 0x20040001 ∷ log))
          (λ done t. ⊥)
          (ttbr_switch_main image s)
  unfolding ttbr_switch_main trace_event fail_stop
  ttbr_switch_main-IsSwitched s =
      bind-Ensures _ _ _ _ _ _ (λ w. w) (checks-Tells.tells s)
        (λ done t e. passes _ (e, t.log, refl))
