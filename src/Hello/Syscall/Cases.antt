-- ===== src/Hello/Syscall/Cases.antt =====
-- One system call.
use minimum_tests.Base.{
  ℕ, ◌/◌, ◌%◌, ◌<◌, ◌≡◌, ◌⊎◌, inl, inr, refl, Bool, true, false, arith, Bool-cases,
}
use minimum_tests.Bits.{bit_and_mask, bit_and_bit}
use minimum_tests.Machine.{Bus, Machine, ret, stored}
use minimum_tests.Runtime.{trace_base}
use minimum_tests.Platform.TrapFrame.{TrapFrame, answered}
use minimum_tests.Hello.Syscall.{is_foreign, is_unknown, svc_dispatch, uart0_tx_data}

-- The one call that the kernel serves: `svc #0` from A32 code in user mode, with 1 in r7 and a byte
-- in r0.
pub record IsPutchar (fetch : ℕ → ℕ) (frame : TrapFrame) : Type 0 where
  pub svc : frame.exception_id ≡ 0xfffffffd
  pub user_mode : frame.spsr % 32 ≡ 16
  pub arm_state : frame.spsr / 32 % 2 ≡ 0
  pub instruction : fetch frame.fault_pc ≡ 0xef000000
  pub number : frame.r 7 ≡ 1
  pub byte : frame.r 0 < 256

-- The machine when a byte is sent: the first call of all is reported.
abbrev pub reported : {D : Type 0} → ⦃bus : Bus D⦄ → (observed : Bool) → Machine D → Machine D
reported true s = s
reported false s = stored trace_base 0x48454c10 s

module _ (fetch : ℕ → ℕ) (frame : TrapFrame) where
  checks_pass :
      is_foreign frame ≡ false
      → is_unknown (fetch frame.fault_pc) frame ≡ false
      → IsPutchar fetch frame
  unfolding is_foreign is_unknown
  checks_pass e f = record {
    svc = ground arith;
    user_mode = ground (arith, bit_and_mask 5 frame.spsr);
    arm_state = ground (arith, bit_and_bit 5 frame.spsr);
    instruction = ground arith;
    number = ground arith;
    byte = ground arith;
  }

  foreign_fails : is_foreign frame ≡ true → ¬ IsPutchar fetch frame
  unfolding is_foreign
  foreign_fails e p =
      ground (
        arith,
        bit_and_mask 5 frame.spsr,
        bit_and_bit 5 frame.spsr,
        p.svc,
        p.user_mode,
        p.arm_state,
      )

  unknown_fails : is_unknown (fetch frame.fault_pc) frame ≡ true → ¬ IsPutchar fetch frame
  unfolding is_unknown
  unknown_fails e p = ground (arith, p.instruction, p.number, p.byte)

  module _ {D : Type 0} ⦃bus : Bus D⦄ where
    byte_sent :
        (observed : Bool) (s : Machine D)
        → is_foreign frame ≡ false
        → is_unknown (fetch frame.fault_pc) frame ≡ false
        → svc_dispatch fetch frame observed s
          ≡ ret (answered 0 frame, true) (stored uart0_tx_data (frame.r 0) (reported observed s))
    unfolding svc_dispatch
    byte_sent true s e f = rw (e, f) refl
    byte_sent false s e f = rw (e, f) refl

    -- A call that is not the one served gets -1 in r0, and nothing else changes: no device, no
    -- register, no static. The call served sends its byte to UART 0, after a report on the trace
    -- port if it is the first; it gets 0 in r0, and no other register changes.
    pub svc_dispatch-cases :
        (observed : Bool) (s : Machine D)
        → (IsPutchar fetch frame
            × (svc_dispatch fetch frame observed s
                ≡ ret
                    (answered 0 frame, true)
                    (stored 0x10004004 (frame.r 0) (reported observed s))))
          ⊎ ((¬ IsPutchar fetch frame)
              × (svc_dispatch fetch frame observed s ≡ ret (answered 0xffffffff frame, observed) s))
    svc_dispatch-cases observed s = elim (Bool-cases (is_foreign frame)) [
      | inl e ↦ inr (foreign_fails e, unfold svc_dispatch in rw e refl)
      | inr e ↦ elim (Bool-cases (is_unknown (fetch frame.fault_pc) frame)) [
        | inl f ↦ inr (unknown_fails f, unfold svc_dispatch in rw (e, f) refl)
        | inr f ↦ inl (checks_pass e f, byte_sent observed s e f)
      ]
    ]
