-- ===== src/Runtime/Block/Transfer.antt =====
-- One transfer, whatever the controller does behind its registers.
use minimum_tests.Base.{
  ℕ, zero, suc, ◌<◌, ◌≡◌, ◌≢◌, refl, sym, List, [], ◌∷◌, Bool, true, false, bit_and, u32, ◌!=◌,
  if◌then◌else◌, arith,
}
use minimum_tests.Bits.{bit_and_bit}
use minimum_tests.Machine.{
  Bus, Event, load, store, irq_off, irq_on, Machine, Result, ret, spinning, stored, irq_masked,
  masked, unmasked,
}
use minimum_tests.Runtime.Block.{
  block_command, block_lba, block_sector_count, block_dma_paddr, block_status, block_error,
  block_ack, block_unit, status_complete, status_error, wait_complete, transfer, block_read,
  block_write,
}

-- What a log says apart from its loads.
abbrev pub effects : List Event → List Event
effects [] = []
effects (load address value ∷ log) = effects log
effects (event ∷ log) = event ∷ effects log

module _ {D : Type 0} ⦃bus : Bus D⦄ where
  abbrev status_of : D → ℕ
  status_of d = (bus.read d block_status).0

  abbrev after_status : D → D
  after_status d = (bus.read d block_status).1

  -- From `d` on, the controller reports completion after `n` loads of its status that do not, and
  -- is `d'` after the load that does.
  abbrev pub CompletesAfter : ℕ → D → D → Type 0
  CompletesAfter zero d d' = (bit_and (status_of d) status_complete ≢ 0) × (d' ≡ after_status d)
  CompletesAfter (suc n) d d' =
      (bit_and (status_of d) status_complete ≡ 0) × CompletesAfter n (after_status d) d'

  -- No load of the status among the next `n` reports completion.
  abbrev pub StaysBusy : ℕ → D → Type 0
  StaysBusy zero d = Unit
  StaysBusy (suc n) d = (bit_and (status_of d) status_complete ≡ 0) × StaysBusy n (after_status d)

  -- The machine after one load of the status.
  abbrev polled : Machine D → Machine D
  polled s = record s {
    devices = after_status s.devices;
    log = load block_status (status_of s.devices) ∷ s.log;
  }

  -- A wait that ends has only loaded.
  record Waited (s : Machine D) (d' : D) (r : Result D (Unit {0})) : Type 0 where
    machine : Machine D
    returns : r ≡ ret tt machine
    devices : machine.devices ≡ d'
    cpsr : machine.cpsr ≡ s.cpsr
    effects_same : effects machine.log ≡ effects s.log

  wait_complete-Waited :
      (n rounds : ℕ) (s : Machine D) (d' : D)
      → n < rounds
      → CompletesAfter n s.devices d'
      → Waited s d' (wait_complete rounds s)
  unfolding wait_complete
  wait_complete-Waited n zero s d' lt c = absurd (omega arith)
  wait_complete-Waited zero (suc rounds) s d' lt (complete, e) = record {
    machine = polled s;
    returns = ground arith;
    devices = sym e;
    cpsr = refl;
    effects_same = refl;
  }
  wait_complete-Waited (suc n) (suc rounds) s d' lt (busy, c) =
      let rest = wait_complete-Waited n rounds (polled s) d' (omega arith) c in
      record {
        machine = rest.machine;
        returns = ground (arith, rest.returns);
        devices = rest.devices;
        cpsr = rest.cpsr;
        effects_same = rest.effects_same;
      }

  wait_complete-spinning :
      (rounds : ℕ) (s : Machine D)
      → StaysBusy rounds s.devices
      → (t : Machine D) × (wait_complete rounds s ≡ spinning t) × (t.cpsr ≡ s.cpsr)
  unfolding wait_complete
  wait_complete-spinning zero s b = (s, refl, refl)
  wait_complete-spinning (suc rounds) s (busy, b) =
      let (t, e, c) = wait_complete-spinning rounds (polled s) b in (t, ground arith, c)

module _ {D : Type 0} ⦃bus : Bus D⦄ (command unit lba sector_count dma_paddr : ℕ)
    (s : Machine D) where
  -- The machine that the wait begins with.
  abbrev pub issued : Machine D
  issued = stored block_command command (
      stored block_dma_paddr dma_paddr (
        stored block_sector_count sector_count
          (stored block_lba lba (stored block_unit unit (masked s)))))

  -- The request as the controller receives it, newest first: IRQ is masked, and the command comes
  -- behind its four parameters.
  abbrev pub requested : List Event
  requested =
      store block_command (u32 command)
      ∷ store block_dma_paddr (u32 dma_paddr)
      ∷ store block_sector_count (u32 sector_count)
      ∷ store block_lba (u32 lba)
      ∷ store block_unit (u32 unit)
      ∷ irq_off
      ∷ effects s.log

  -- What a transfer that ends has done: `final` is the controller's status after the wait.
  pub record IsTransferred (final : D) (r : Result D ℕ) : Type 0 where
    pub error : ℕ
    pub machine : Machine D
    pub returns : r ≡ ret error machine
    pub no_error : bit_and (status_of final) status_error ≡ 0 → error ≡ 0
    pub reported :
        bit_and (status_of final) status_error ≢ 0
        → error ≡ (bus.read (after_status final) block_error).0
    pub cpsr_restored : machine.cpsr ≡ s.cpsr
    pub still_masked :
        irq_masked s.cpsr ≡ true → effects machine.log ≡ store block_ack 1 ∷ requested
    pub enabled_again :
        irq_masked s.cpsr ≡ false → effects machine.log ≡ irq_on ∷ store block_ack 1 ∷ requested

  module _ (rounds : ℕ) (t : Machine D) (waited : wait_complete rounds issued ≡ ret tt t)
      (same_cpsr : t.cpsr ≡ issued.cpsr) (same_effects : effects t.log ≡ effects issued.log) where
    abbrev failed : Bool
    failed = bit_and (status_of t.devices) status_error != 0

    -- After the second load of the status, and the load of the error code if there is one.
    abbrev examined : Machine D
    examined =
        if failed
        then record (polled t) {
          devices = (bus.read (after_status t.devices) block_error).1;
          log = load block_error (bus.read (after_status t.devices) block_error).0 ∷ (polled t).log;
        }
        else polled t

    abbrev acknowledged : Machine D
    acknowledged = stored block_ack 1 examined

    finishes : IsTransferred t.devices (transfer rounds command unit lba sector_count dma_paddr s)
    unfolding transfer
    finishes = record {
      error = if failed then (bus.read (after_status t.devices) block_error).0 else 0;
      machine = if irq_masked s.cpsr then acknowledged else unmasked acknowledged;
      returns = ground (arith, waited, bit_and_bit 7 s.cpsr);
      no_error = λ e. ground arith;
      reported = λ e. ground arith;
      cpsr_restored = ground arith;
      still_masked = λ e. ground arith;
      enabled_again = λ e. ground arith;
    }

  transfer-IsTransferred :
      (n rounds : ℕ) (final : D)
      → n < rounds
      → CompletesAfter n issued.devices final
      → IsTransferred final (transfer rounds command unit lba sector_count dma_paddr s)
  transfer-IsTransferred n rounds final lt c =
      let w = wait_complete-Waited n rounds issued final lt c in
      rw w.devices at (finishes rounds w.machine w.returns w.cpsr w.effects_same)

-- If the controller completes within the rounds given, both calls of the driver return: with the
-- controller's error code if its final status has the error bit and with 0 if not, with the
-- request issued under masked IRQ and acknowledged once, and with the interrupt mask as it was.
pub block_calls-IsTransferred :
    {D : Type 0} ⦃bus : Bus D⦄ (n rounds unit lba sector_count dma_paddr : ℕ) (final final' : D)
    (s : Machine D)
    → n < rounds
    → CompletesAfter n (issued 1 unit lba sector_count dma_paddr s).devices final
    → CompletesAfter n (issued 2 unit lba sector_count dma_paddr s).devices final'
    → IsTransferred 1 unit lba sector_count dma_paddr s final
        (block_read rounds unit lba sector_count dma_paddr s)
      × IsTransferred 2 unit lba sector_count dma_paddr s final'
          (block_write rounds unit lba sector_count dma_paddr s)
unfolding block_read block_write
block_calls-IsTransferred n rounds unit lba sector_count dma_paddr final final' s lt r w = (
  transfer-IsTransferred 1 unit lba sector_count dma_paddr s n rounds final lt r,
  transfer-IsTransferred 2 unit lba sector_count dma_paddr s n rounds final' lt w,
)

-- While the controller stays busy the driver stays in its wait, with IRQ masked: it has no timeout.
pub transfer-spinning :
    {D : Type 0} ⦃bus : Bus D⦄ (command unit lba sector_count dma_paddr rounds : ℕ) (s : Machine D)
    → StaysBusy rounds (issued command unit lba sector_count dma_paddr s).devices
    → (t : Machine D) × (transfer rounds command unit lba sector_count dma_paddr s ≡ spinning t)
      × (irq_masked t.cpsr ≡ true)
unfolding transfer
transfer-spinning command unit lba sector_count dma_paddr rounds s busy =
    let (t, e, c) =
      wait_complete-spinning rounds (issued command unit lba sector_count dma_paddr s) busy in
    (t, rw e refl, ground (arith, c))
