-- ===== src/Hello/Syscall.antt =====
-- The dispatchers of examples/user-mode-hello/kernel/main.c.
pub mod Cases
pub mod Session
pub mod Faults
mod Tests
use minimum_tests.Base.{
  ℕ, List, [], ◌∷◌, Bool, true, false, not, ◌||◌, bit_and, ltb, ◌==◌, ◌!=◌, if◌then◌else◌,
}
use minimum_tests.Machine.{Bus, Run, ◌>>=◌, ◌>>◌, pure, mmio_write}
use minimum_tests.Runtime.{trace_event, fail_stop}
use minimum_tests.Platform.TrapFrame.{TrapFrame, answered, exception_svc}

abbrev pub uart0_tx_data : ℕ
uart0_tx_data = 0x10004004

abbrev pub trace_user_syscall : ℕ
trace_user_syscall = 0x48454c10

abbrev pub a32_svc_zero : ℕ
a32_svc_zero = 0xef000000

abbrev pub hello_syscall_uart_putchar : ℕ
hello_syscall_uart_putchar = 1

-- `(uint32_t)-1`
abbrev pub hello_syscall_error : ℕ
hello_syscall_error = 0xffffffff

-- The first check: an SVC of user mode, from A32 code.
pub is_foreign : TrapFrame → Bool
is_foreign frame =
    frame.exception_id != exception_svc
    || bit_and frame.spsr 0x1f != 0x10
    || bit_and frame.spsr 0x20 != 0

-- The second check, of the instruction and its arguments.
pub is_unknown : (instruction : ℕ) → TrapFrame → Bool
is_unknown instruction frame =
    instruction != a32_svc_zero || frame.r 7 != hello_syscall_uart_putchar || ltb 255 (frame.r 0)

module _ {D : Type 0} ⦃bus : Bus D⦄ where
  -- `fetch` is the user's memory, as words. The static `user_syscall_observed` is passed in and
  -- returned beside the frame.
  pub svc_dispatch :
      (fetch : ℕ → ℕ) → TrapFrame → (user_syscall_observed : Bool) → Run D (TrapFrame × Bool)
  unfolding trace_event
  svc_dispatch fetch frame user_syscall_observed =
      if is_foreign frame
      then pure (answered hello_syscall_error frame, user_syscall_observed)
      else (if is_unknown (fetch frame.fault_pc) frame
          then pure (answered hello_syscall_error frame, user_syscall_observed)
          else do
            if not user_syscall_observed then trace_event trace_user_syscall else pure tt
            mmio_write uart0_tx_data (frame.r 0)
            pure (answered 0 frame, true))

  pub undefined_dispatch : TrapFrame → Run D (Unit {0})
  unfolding trace_event fail_stop
  undefined_dispatch frame = do trace_event 0x48454c03; fail_stop

  pub abort_dispatch : TrapFrame → Run D (Unit {0})
  unfolding trace_event fail_stop
  abort_dispatch frame = do trace_event 0x48454c04; fail_stop

  -- A list of traps, served one after the other.
  pub serve : (fetch : ℕ → ℕ) → List TrapFrame → (user_syscall_observed : Bool) → Run D Bool
  serve fetch [] user_syscall_observed = pure user_syscall_observed
  serve fetch (frame ∷ frames) user_syscall_observed =
      svc_dispatch fetch frame user_syscall_observed >>= λ answer. serve fetch frames answer.1
