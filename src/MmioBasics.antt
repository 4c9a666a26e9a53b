-- ===== src/MmioBasics.antt =====
-- examples/mmio-basics/main.c: one access to each device.
use minimum_tests.Base.{ℕ, ◌≡◌, refl, List, [], ◌∷◌, u8, u32}
use minimum_tests.Machine.{
  Bus, Event, load, store, Machine, Run, stopped, ◌>>=◌, ◌>>◌, pure, mmio_read, mmio_write,
}
use minimum_tests.Runtime.{trace_base, fail_stop}
use minimum_tests.Platform.Registers.{
  systick_period, systick_control, systick_control_enable, block_control,
}
use minimum_tests.Headless.{uart0, tx_data, rng_seed, rng_data}

-- "minemu raw MMIO example\n"
abbrev pub message : List ℕ
message =
    109 ∷ 105 ∷ 110 ∷ 101 ∷ 109 ∷ 117 ∷ 32 ∷ 114 ∷ 97 ∷ 119 ∷ 32 ∷ 77 ∷ 77 ∷ 73 ∷ 79 ∷ 32 ∷ 101
    ∷ 120 ∷ 97 ∷ 109 ∷ 112 ∷ 108 ∷ 101 ∷ 10 ∷ []

-- The bytes of the message, newest first.
abbrev sent : List ℕ → List Event → List Event
sent [] log = log
sent (byte ∷ bytes) log = sent bytes (store (tx_data uart0) (u8 byte) ∷ log)

module _ {D : Type 0} ⦃bus : Bus D⦄ where
  -- The loop over the message, from some byte on.
  pub send_from : List ℕ → Run D (Unit {0})
  send_from [] = pure tt
  send_from (byte ∷ bytes) = do mmio_write (tx_data uart0) (u8 byte); send_from bytes

  pub kernel_main : Run D (Unit {0})
  unfolding send_from fail_stop
  kernel_main = do
    send_from message
    mmio_write rng_seed 0x12345678
    value ← mmio_read rng_data
    mmio_write trace_base value
    mmio_write systick_period 100
    mmio_write systick_control systick_control_enable
    mmio_write block_control 1
    fail_stop

  -- The program sends its message, seeds the generator, reports the word that it gives, starts the
  -- timer, lets the block controller interrupt, and stops, on any devices.
  kernel_main-log :
      (s : Machine D)
      → (word : ℕ) × (t : Machine D) × (kernel_main s ≡ stopped t)
        × (t.log
            ≡ store block_control 1
              ∷ store systick_control systick_control_enable
              ∷ store systick_period 100
              ∷ store trace_base (u32 word)
              ∷ load rng_data word
              ∷ store rng_seed 0x12345678
              ∷ sent message s.log)
  unfolding kernel_main send_from fail_stop
  kernel_main-log s = (_, _, refl, refl)
