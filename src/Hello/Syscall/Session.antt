-- ===== src/Hello/Syscall/Session.antt =====
-- Sequences of system calls.
use minimum_tests.Base.{
  ℕ, ◌%◌, ◌^◌, ◌<◌, ◌≡◌, inl, inr, refl, List, [], ◌∷◌, Bool, true, false, arith,
}
use minimum_tests.Machine.{Bus, Event, store, Machine, ret, stored}
use minimum_tests.Platform.TrapFrame.{TrapFrame}
use minimum_tests.Hello.Syscall.{serve}
use minimum_tests.Hello.Syscall.Cases.{IsPutchar, reported, svc_dispatch-cases}

-- The bytes that a list of traps sends, last one first, before those in `sent`.
pub data Sends (fetch : ℕ → ℕ) : List TrapFrame → List ℕ → List ℕ → Type 0 where
  sends_nothing : (sent : List ℕ) → Sends fetch [] sent sent
  sends_byte :
      (frame : TrapFrame) (frames : List TrapFrame) (sent all : List ℕ)
      → IsPutchar fetch frame
      → Sends fetch frames (frame.r 0 ∷ sent) all
      → Sends fetch (frame ∷ frames) sent all
  sends_no_byte :
      (frame : TrapFrame) (frames : List TrapFrame) (sent all : List ℕ)
      → ¬ IsPutchar fetch frame
      → Sends fetch frames sent all
      → Sends fetch (frame ∷ frames) sent all

-- What has gone out: bytes, behind one report if there are any.
abbrev pub transcript : List ℕ → List Event → List Event
transcript [] log = log
transcript (byte ∷ []) log = store 0x10004004 byte ∷ store 0x1000f000 0x48454c10 ∷ log
transcript (byte ∷ byte' ∷ sent) log = store 0x10004004 byte ∷ transcript (byte' ∷ sent) log

abbrev pub is_nonempty : List ℕ → Bool
is_nonempty [] = false
is_nonempty (byte ∷ sent) = true

module _ {D : Type 0} ⦃bus : Bus D⦄ (fetch : ℕ → ℕ) (before : List Event) where
  logged :
      (value : ℕ) (sent : List ℕ) (s : Machine D)
      → value < 256
      → s.log ≡ transcript sent before
      → (stored 0x10004004 value (reported (is_nonempty sent) s)).log
        ≡ transcript (value ∷ sent) before
  logged value [] s lt e = let word : value % 2 ^ 32 ≡ value = omega arith in rw (word, e) refl
  logged value (byte ∷ sent) s lt e =
      let word : value % 2 ^ 32 ≡ value = omega arith in rw (word, e) refl

  serve_from :
      (frames : List TrapFrame) (sent : List ℕ) (s : Machine D)
      → s.log ≡ transcript sent before
      → (all : List ℕ) × (s' : Machine D) × (serve fetch frames (is_nonempty sent) s
          ≡ ret (is_nonempty all) s')
        × Sends fetch frames sent all
        × (s'.log ≡ transcript all before)
  unfolding serve
  serve_from [] sent s e = (sent, s, refl, sends_nothing sent, e)
  serve_from (frame ∷ frames) sent s e =
      elim (svc_dispatch-cases fetch frame (is_nonempty sent) s) [
        | inl (ok, answer) ↦
            let after : Machine D = stored 0x10004004 (frame.r 0) (reported (is_nonempty sent) s) in
            let (all, s', run, sends, log) =
              serve_from frames (frame.r 0 ∷ sent) after (logged (frame.r 0) sent s ok.byte e) in
            (all, s', rw answer run, sends_byte frame frames sent all ok sends, log)
        | inr (foreign, answer) ↦
            let (all, s', run, sends, log) = serve_from frames sent s e in
            (all, s', rw answer run, sends_no_byte frame frames sent all foreign sends, log)
      ]

  -- Any list of traps, from the start on, is served to its end: what has gone out is exactly the
  -- bytes of its well-formed calls, in their order, behind one single report on the trace port if
  -- there is any such call.
  pub serve-transcript :
      (frames : List TrapFrame) (s : Machine D)
      → s.log ≡ before
      → (all : List ℕ) × (s' : Machine D) × (serve fetch frames false s ≡ ret (is_nonempty all) s')
        × Sends fetch frames [] all
        × (s'.log ≡ transcript all before)
  serve-transcript frames s e = serve_from frames [] s e
