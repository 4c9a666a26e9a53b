-- ===== src/Hello/User/Tests.antt =====
-- The user program with one frame for all its calls.
use minimum_tests.Base.{ℕ, ◌≡◌, refl, [], true, false}
use minimum_tests.Machine.{Machine, ret}
use minimum_tests.Machine.Sample.{quiet, idle}
use minimum_tests.Platform.TrapFrame.{TrapFrame}
use minimum_tests.Hello.Syscall.{serve}
use minimum_tests.Hello.Syscall.Session.{transcript}
use minimum_tests.Hello.User.{message, user_main}
use minimum_tests.Hello.User.Output.{sent_after, user_main-served}

abbrev context : ℕ → TrapFrame
context index = record {
  r = λ register. 0;
  return_lr = 0x00400004;
  spsr = 0x10;
  exception_id = 0xfffffffd;
  fault_pc = 0x00400000;
  dfsr = 0;
  dfar = 0;
  user_sp = 0x00800000;
  user_lr = 0;
  reserved = 0;
}

user_main-served_example :
    (s' : Machine (Unit {0})) × (serve (λ a. 0xef000000) (user_main context) false idle
      ≡ ret true s')
    × (s'.log ≡ transcript (sent_after message []) [])
user_main-served_example =
    user_main-served (λ a. 0xef000000) context
      (λ index. record { svc = refl; user_mode = refl; arm_state = refl; instruction = refl }) idle
