-- ===== src/Headless/Uart.antt =====
-- headless/uart: when it reports success.
use minimum_tests.Base.{
  ℕ, zero, suc, ◌≡◌, inl, inr, refl, List, ◌∷◌, Bool-cases, bit_and, ◌==◌, ==_iff,
}
use minimum_tests.Machine.{Bus, Event, load, store, Machine, Result, stored, Run, ◌>>=◌, ◌>>◌}
use minimum_tests.Runtime.Block.Transfer.{effects}
use minimum_tests.Headless.{uart_main, wait_rx, receive, check_set, check_clear, status, rx_ready}
use minimum_tests.Headless.Ensures.{Ends, waits, passes, require-Ensures}

module _ {D : Type 0} ⦃bus : Bus D⦄ (good : List Event) where
  abbrev IsEnd : Result D (Unit {0}) → Type 0
  IsEnd r = Ends effects good Unit r

  -- A register that has to pass a test, where only the effects of the log are followed.
  check_set-Ends :
      (address mask code : ℕ) (k : Run D (Unit {0})) (s : Machine D) (log : List Event)
      → effects s.log ≡ log
      → ((t : Machine D) → effects t.log ≡ log → IsEnd (k t))
      → IsEnd ((check_set address mask code >> k) s)
  unfolding check_set
  check_set-Ends address mask code k s log e rest =
      require-Ensures _ _ _ _ code k _ (λ holds. rest _ e)

  check_clear-Ends :
      (address mask code : ℕ) (k : Run D (Unit {0})) (s : Machine D) (log : List Event)
      → effects s.log ≡ log
      → ((t : Machine D) → effects t.log ≡ log → IsEnd (k t))
      → IsEnd ((check_clear address mask code >> k) s)
  unfolding check_clear
  check_clear-Ends address mask code k s log e rest =
      require-Ensures _ _ _ _ code k _ (λ holds. rest _ e)

  -- A receive has no effect but its loads; it may be left in its poll.
  receive-Ends :
      (rounds uart : ℕ) (k : ℕ → Run D (Unit {0})) (s : Machine D) (log : List Event)
      → effects s.log ≡ log
      → ((value : ℕ) (t : Machine D) → effects t.log ≡ log → IsEnd (k value t))
      → IsEnd ((receive rounds uart >>= k) s)
  unfolding receive wait_rx
  receive-Ends zero uart k s log e rest = waits tt s
  receive-Ends (suc rounds) uart k s log e rest = elim (Bool-cases (bit_and value rx_ready == 0)) [
    | inl empty ↦ rw empty (receive-Ends rounds uart k polled log e rest)
    | inr there ↦ rw there (rest _ _ e)
  ]
    where
      value : ℕ
      value = (bus.read s.devices (status uart)).0

      polled : Machine D
      polled = record s {
        devices = (bus.read s.devices (status uart)).1;
        log = load (status uart) value ∷ s.log;
      }

-- What the case does to the devices, newest first: the echo of "A" and "B", and the report.
abbrev pub uart_effects : List Event → List Event
uart_effects before =
    store 0x1000f000 0x20010001 ∷ store 0x10005004 66 ∷ store 0x10004004 65 ∷ before

-- On any devices, and with any number of rounds for its polls, the program is left in a poll, or
-- stops behind the report of a failed assertion, or stops having sent back exactly "A" on UART 0 and
-- "B" on UART 1 before the success value.
pub uart_main-Ends :
    {D : Type 0} ⦃bus : Bus D⦄ (rounds : ℕ) (s : Machine D)
    → Ends effects (uart_effects (effects s.log)) Unit (uart_main rounds s)
unfolding uart_main
uart_main-Ends {D} rounds s = check_set-Ends good _ _ _ _ s _ refl (λ s1 e1.
    check_set-Ends good _ _ _ _ s1 _ e1 (λ s2 e2. receive-Ends good _ _ _ s2 _ e2 (λ first s3 e3.
      receive-Ends good _ _ _ s3 _ e3 (λ second s4 e4. require-Ensures _ _ _ _ _ _ s4 (λ is_a.
        require-Ensures _ _ _ _ _ _ s4 (λ is_b. check_clear-Ends good _ _ _ _ s4 _ e4 (λ s5 e5.
          check_clear-Ends good _ _ _ _ s5 _ e5 (λ s6 e6. passes _ (
            echoed first second ((==_iff first 65).0 is_a) ((==_iff second 66).0 is_b) s6
              e6)))))))))
  where
    good : List Event
    good = uart_effects (effects s.log)

    echoed :
        (first second : ℕ)
        → first ≡ 65
        → second ≡ 66
        → (t : Machine D) → effects t.log ≡ effects s.log
        → effects
            (stored 0x1000f000 0x20010001
              (stored 0x10005004 second (stored 0x10004004 first t))).log
          ≡ good
    echoed first second a b t e = rw (a, b, e) refl
