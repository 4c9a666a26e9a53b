-- ===== src/Runtime.antt =====
-- kernel/src/runtime: trace.c and exception.c, and the assertions of conformance.h that the guest
pub mod Mem
pub mod Block
pub mod Conformance
mod Tests
-- programs make. The block driver and the memory functions are children.
use minimum_tests.Base.{ℕ, ◌+◌, ◌-◌, ◌^◌, bit_and, bit_or, Bool, not, u32, sub_u32, if◌then◌else◌}
use minimum_tests.Machine.{Bus, Machine, Run, stopped, stored, pure, mmio_write, ◌>>=◌, ◌>>◌}

abbrev pub trace_base : ℕ
trace_base = 0x1000f000

-- An endless loop: nothing after it runs.
unfoldable pub fail_stop : {D A : Type 0} → Run D A
fail_stop s = stopped s

pub panic : {D A Message : Type 0} → Message → Run D A
unfolding fail_stop
panic message = fail_stop

-- The weak definitions that a program may replace.
pub svc_trampoline : {D A : Type 0} → Run D A
unfolding fail_stop
svc_trampoline = fail_stop

pub irq_trampoline : {D A : Type 0} → Run D A
unfolding fail_stop
irq_trampoline = fail_stop

pub svc_dispatch : {D A Frame : Type 0} → Frame → Run D A
unfolding fail_stop
svc_dispatch frame = fail_stop

pub irq_dispatch : {D A Frame : Type 0} → Frame → Run D A
unfolding fail_stop
irq_dispatch frame = fail_stop

pub undefined_dispatch : {D A Frame : Type 0} → Frame → Run D A
unfolding fail_stop
undefined_dispatch frame = fail_stop

pub abort_dispatch : {D A Frame : Type 0} → Frame → Run D A
unfolding fail_stop
abort_dispatch frame = fail_stop

module _ {D : Type 0} ⦃bus : Bus D⦄ where
  unfoldable pub trace_event : ℕ → Run D (Unit {0})
  trace_event value = mmio_write trace_base value

  unfoldable pub conformance_fail : {A : Type 0} → ℕ → Run D A
  unfolding trace_event fail_stop
  conformance_fail code = do trace_event (bit_or 0xf0000000 (bit_and code 0x0fffffff)); fail_stop

  -- `MINEMU_REQUIRE`
  unfoldable pub require : Bool → ℕ → Run D (Unit {0})
  unfolding conformance_fail
  require condition code = if not condition then conformance_fail code else pure tt

unfoldable pub test_paddr : ℕ → ℕ
test_paddr address = sub_u32 address 0x80000000
