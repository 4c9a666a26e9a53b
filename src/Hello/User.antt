-- ===== src/Hello/User.antt =====
-- examples/user-mode-hello/user: the program that the kernel loads, as the traps that it makes.
pub mod Output
pub mod Walk
pub mod Instruction
pub mod Hosted
mod Tests
use minimum_tests.Base.{ℕ, ◌+◌, List, [], ◌∷◌, u8, ◌==◌, if◌then◌else◌}
use minimum_tests.Platform.TrapFrame.{TrapFrame}
use minimum_tests.Hello.Syscall.{hello_syscall_uart_putchar}

-- "hello world\n"
abbrev pub message : List ℕ
message = 104 ∷ 101 ∷ 108 ∷ 108 ∷ 111 ∷ 32 ∷ 119 ∷ 111 ∷ 114 ∷ 108 ∷ 100 ∷ 10 ∷ []

-- syscall.S: the byte in r0, the number of the call in r7, and then `svc #0`. `context` is the
-- frame that the trampoline saves there, but for these two registers.
abbrev pub uart_putchar : (context : TrapFrame) → (byte : ℕ) → TrapFrame
uart_putchar context byte = record context {
  r = λ index.
      if index == 0
      then byte
      else if index == 7
      then hello_syscall_uart_putchar
      else context.r index;
}

-- The loop of `minemu_user_main`, from some index of its message on. The other registers may be
-- different at each call: `context` gives them by the index. The answers are not looked at.
pub put_from : (context : ℕ → TrapFrame) → (index : ℕ) → List ℕ → List TrapFrame
put_from context index [] = []
put_from context index (byte ∷ bytes) =
    uart_putchar (context index) (u8 byte) ∷ put_from context (index + 1) bytes

pub user_main : (context : ℕ → TrapFrame) → List TrapFrame
unfolding put_from
user_main context = put_from context 0 message
