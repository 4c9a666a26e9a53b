-- ===== src/Platform/TrapFrame.antt =====
-- kernel/include/minemu/trap.h: the registers that a trampoline saves.
use minimum_tests.Base.{ℕ, ◌+◌, u32, ◌==◌, if◌then◌else◌}

-- `int32_t` values are given as the words that hold them.
abbrev pub exception_undefined : ℕ
exception_undefined = 0xfffffffc

abbrev pub exception_svc : ℕ
exception_svc = 0xfffffffd

abbrev pub exception_prefetch_abort : ℕ
exception_prefetch_abort = 0xfffffffe

abbrev pub exception_data_abort : ℕ
exception_data_abort = 0xffffffff

pub record TrapFrame : Type 0 where
  pub r : ℕ → ℕ
  pub return_lr : ℕ
  pub spsr : ℕ
  pub exception_id : ℕ
  pub fault_pc : ℕ
  pub dfsr : ℕ
  pub dfar : ℕ
  pub user_sp : ℕ
  pub user_lr : ℕ
  pub reserved : ℕ

-- `frame->r[0] = value`
abbrev pub answered : ℕ → TrapFrame → TrapFrame
answered value frame = record frame { r = λ index. if index == 0 then value else frame.r index }

-- `frame->return_lr += 4`
abbrev pub skipped : TrapFrame → TrapFrame
skipped frame = record frame { return_lr = u32 (frame.return_lr + 4) }
