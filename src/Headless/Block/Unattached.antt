-- ===== src/Headless/Block/Unattached.antt =====
-- headless/block-unattached: everything that a successful run does.
use minimum_tests.Base.{ℕ, ◌≡◌, ◌≢◌, refl, arith, true, List, ◌∷◌, ◌==◌, ◌!=◌, bit_and, u32, ==_iff}
use minimum_tests.Machine.{Bus, Event, load, store, Machine}
use minimum_tests.Runtime.{trace_base, trace_event, fail_stop, test_paddr}
use minimum_tests.Runtime.Block.{
  block_command, block_lba, block_sector_count, block_dma_paddr, block_status, block_error,
  block_ack, block_unit, command_read, status_complete,
}
use minimum_tests.Platform.Registers.{status_busy, error_no_media, unit_swap}
use minimum_tests.Headless.{check}
use minimum_tests.Headless.Ensures.{Ensures, passes, require-Ensures}
use minimum_tests.Headless.Block.{set_parameters, block_exact_32, unattached_main}

-- The log of a success, newest first; `late` is the status at the completion.
abbrev pub unattached_transcript : (dma late : ℕ) → List Event → List Event
unattached_transcript dma late log =
    store trace_base 0x20030002
    ∷ store block_ack 1
    ∷ load block_error error_no_media
    ∷ load block_status late
    ∷ load block_status status_busy
    ∷ store block_command command_read
    ∷ store block_dma_paddr (u32 (test_paddr dma))
    ∷ store block_sector_count 1
    ∷ store block_lba 0
    ∷ store block_unit unit_swap
    ∷ log

-- The assertions turn the log of the loads into the transcript.
transcript_of :
    (dma early late error : ℕ) (log after : List Event)
    → after
      ≡ store trace_base 0x20030002
        ∷ store block_ack 1
        ∷ load block_error error
        ∷ load block_status late
        ∷ load block_status early
        ∷ store block_command command_read
        ∷ store block_dma_paddr (u32 (test_paddr dma))
        ∷ store block_sector_count 1
        ∷ store block_lba 0
        ∷ store block_unit unit_swap
        ∷ log
    → (early == status_busy) ≡ true
    → (bit_and late status_complete != 0) ≡ true
    → (error == error_no_media) ≡ true
    → (value : ℕ) × (bit_and value status_complete ≢ 0)
      × (after ≡ unattached_transcript dma value log)
transcript_of dma early late error log after e busy complete missing = (
  late,
  ground arith,
  rw (e, (==_iff early status_busy).0 busy, (==_iff error error_no_media).0 missing) refl,
)

-- On any devices, the case stops behind the report of a failed assertion, or having read a sector
-- from the second unit, found the controller busy at first and complete in time, with the error for
-- a missing medium, acknowledged that, and reported success; and it has done nothing else.
pub unattached_main-IsTranscript :
    {D : Type 0} ⦃bus : Bus D⦄ (dma : ℕ) (s : Machine D)
    → Ensures ⊥
        (λ t.
          (late : ℕ) × (bit_and late status_complete ≢ 0)
          × (t.log ≡ unattached_transcript dma late s.log))
        (λ done t. ⊥)
        (unattached_main dma s)
unfolding unattached_main set_parameters block_exact_32 trace_event fail_stop check
unattached_main-IsTranscript dma s = require-Ensures _ _ _ _ 1 _ _ (λ busy.
    require-Ensures _ _ _ _ 2 _ _ (λ complete.
      require-Ensures _ _ _ _ 3 _ _
        (λ missing. passes _ (transcript_of dma _ _ _ s.log _ refl busy complete missing))))
