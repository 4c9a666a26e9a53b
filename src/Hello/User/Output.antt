-- ===== src/Hello/User/Output.antt =====
-- The program under the kernel that serves its calls.
use minimum_tests.Base.{ℕ, ◌+◌, ◌/◌, ◌%◌, ◌≡◌, refl, arith, subst, List, [], ◌∷◌, true, false, u8}
use minimum_tests.Machine.{Bus, Machine, ret}
use minimum_tests.Platform.TrapFrame.{TrapFrame}
use minimum_tests.Hello.Syscall.{serve}
use minimum_tests.Hello.Syscall.Cases.{IsPutchar}
use minimum_tests.Hello.Syscall.Session.{
  Sends, sends_nothing, sends_byte, sends_no_byte, transcript, is_nonempty, serve-transcript,
}
use minimum_tests.Hello.User.{message, uart_putchar, put_from, user_main}

-- The bytes in the order in which they go out, newest first.
abbrev pub sent_after : List ℕ → List ℕ → List ℕ
sent_after [] sent = sent
sent_after (byte ∷ bytes) sent = sent_after bytes (u8 byte ∷ sent)

-- The program runs in user mode, in A32 code, and traps at an `svc #0`.
pub record IsUserCall (fetch : ℕ → ℕ) (context : TrapFrame) : Type 0 where
  pub svc : context.exception_id ≡ 0xfffffffd
  pub user_mode : context.spsr % 32 ≡ 16
  pub arm_state : context.spsr / 32 % 2 ≡ 0
  pub instruction : fetch context.fault_pc ≡ 0xef000000

module _ (fetch : ℕ → ℕ) (context : ℕ → TrapFrame)
    (call : (index : ℕ) → IsUserCall fetch (context index)) where
  uart_putchar-IsPutchar :
      (index byte : ℕ) → IsPutchar fetch (uart_putchar (context index) (u8 byte))
  uart_putchar-IsPutchar index byte = record {
    svc = (call index).svc;
    user_mode = (call index).user_mode;
    arm_state = (call index).arm_state;
    instruction = (call index).instruction;
    number = refl;
    byte = omega arith;
  }

  put_from-sent :
      (index : ℕ) (bytes sent all : List ℕ)
      → Sends fetch (put_from context index bytes) sent all
      → all ≡ sent_after bytes sent
  unfolding put_from
  put_from-sent index [] _ _ (sends_nothing sent) = refl
  put_from-sent index (byte ∷ bytes) _ _ (sends_byte _ _ sent all ok rest) =
      put_from-sent (index + 1) bytes (u8 byte ∷ sent) all rest
  put_from-sent index (byte ∷ bytes) _ _ (sends_no_byte _ _ sent all foreign rest) =
      absurd (foreign (uart_putchar-IsPutchar index byte))

  -- The program runs in user mode, in A32 code, with an `svc #0` at each call. The kernel serves all
  -- its calls, and what goes out to the devices is one report and then "hello world" and a newline
  -- on UART 0, byte by byte, whatever the other registers hold.
  pub user_main-served :
      {D : Type 0} ⦃bus : Bus D⦄ (s : Machine D)
      → (s' : Machine D) × (serve fetch (user_main context) false s ≡ ret true s')
        × (s'.log ≡ transcript (sent_after message []) s.log)
  unfolding user_main
  user_main-served s =
      let (all, s', run, sends, log) = serve-transcript fetch s.log (user_main context) s refl in
      let same : all ≡ sent_after message [] = put_from-sent 0 message [] all sends in
      (
        s',
        subst (λ bytes. serve fetch (user_main context) false s ≡ ret (is_nonempty bytes) s') same
            run,
        subst (λ bytes. s'.log ≡ transcript bytes s.log) same log,
      )
