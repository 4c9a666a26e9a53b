-- ===== src/Memory/Fill.antt =====
-- A run of consecutive bytes that a loop has written, one after the other.
use minimum_tests.Base.{ℕ, suc, ◌+◌, ◌<◌, ◌≡◌, refl, arith, u8, ltb, ◌-◌, if◌then◌else◌}
use minimum_tests.Memory.Defs.{Memory, IsBytes, SameOff, store_byte}

-- From `base` on, `n` bytes of `m'` are those of `content`, and no other byte of `m` has changed.
pub record IsFilled (content : ℕ → ℕ) (base n : ℕ) (m m' : Memory) : Type 0 where
  pub bytes : IsBytes m'
  pub inside : (j : ℕ) → j < n → m' (base + j) ≡ content j
  pub outside : SameOff base n m m'

pub IsFilled-zero :
    (content : ℕ → ℕ) (base : ℕ) {m : Memory} → IsBytes m → IsFilled content base 0 m m
IsFilled-zero content base h = record {
  bytes = h;
  inside = λ j lt. absurd (omega arith);
  outside = λ a o. refl;
}

pub IsFilled-suc :
    (content : ℕ → ℕ) (base n v : ℕ) {m m' : Memory}
    → IsFilled content base n m m'
    → u8 v ≡ content n
    → IsFilled content base (suc n) m (store_byte m' (base + n) v)
unfolding store_byte
IsFilled-suc content base n v f e = record {
  bytes = λ b. ground (arith, f.bytes b);
  inside = λ j lt. ground (arith, f.inside j);
  outside = λ a o. ground (arith, f.outside a);
}

-- Two runs, one behind the other.
abbrev pub join_runs : (ℕ → ℕ) → ℕ → (ℕ → ℕ) → ℕ → ℕ
join_runs front n back j = if ltb j n then front j else back (j - n)

pub IsFilled-append :
    (front back : ℕ → ℕ) (base n k : ℕ) {m m' m'' : Memory}
    → IsFilled front base n m m'
    → IsFilled back (base + n) k m' m''
    → IsFilled (join_runs front n back) base (n + k) m m''
IsFilled-append front back base n k f g = record {
  bytes = g.bytes;
  inside = λ j lt. ground (arith, f.inside j, g.inside (j - n), g.outside (base + j));
  outside = λ a o. ground (arith, f.outside a, g.outside a);
}
