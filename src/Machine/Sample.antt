-- ===== src/Machine/Sample.antt =====
-- Devices for the tests.
use minimum_tests.Base.{ℕ, ◌+◌, List, [], ◌∷◌}
use minimum_tests.Machine.{Bus, Event, store, Machine, Result, stopped}

-- Devices that answer 0 and ignore stores.
instance abbrev pub quiet : Bus (Unit {0})
quiet = record {
  read = λ d address. (0, d);
  write = λ d address value. d;
  control = λ d event. d;
  dfsr = λ d. 0;
  dfar = λ d. 0;
}

abbrev pub idle : Machine (Unit {0})
idle = record { devices = tt; cpsr = 0xd3; log = [] }

-- Devices that answer 2 to every load, as a block controller does that is done, and that count
-- the stores.
instance abbrev pub prompt : Bus ℕ
prompt = record {
  read = λ d address. (2, d);
  write = λ d address value. d + 1;
  control = λ d event. d;
  dfsr = λ d. 0;
  dfar = λ d. 0;
}

abbrev pub ready : Machine ℕ
ready = record { devices = 0; cpsr = 0x13; log = [] }

-- Devices that answer loads from a list, whatever the register.
abbrev pub next_answer : List ℕ → ℕ → ℕ × List ℕ
next_answer [] address = (0, [])
next_answer (answer ∷ answers) address = (answer, answers)

instance abbrev pub scripted : Bus (List ℕ)
scripted = record {
  read = next_answer;
  write = λ d address value. d;
  control = λ d event. d;
  dfsr = λ d. 0;
  dfar = λ d. 0;
}

abbrev pub answering : List ℕ → Machine (List ℕ)
answering answers = record { devices = answers; cpsr = 0x13; log = [] }

-- The word that a stopped program has stored last, on whatever register; 0 for another end.
abbrev last_store : List Event → ℕ
last_store (store address value ∷ log) = value
last_store _ = 0

abbrev pub last_report : {D A : Type 0} → Result D A → ℕ
last_report (stopped s) = last_store s.log
last_report _ = 0
