-- ===== src/Bits/Step.antt =====
-- The bit operations one binary digit at a time. The native operations stand for `bitwise`, a
-- recursion over the digits whose fuel is its first operand; the fuel is dropped here.
use Prim.Native.Nat.{min, max, digits, bitwise, bit_and-bitwise, bit_or-bitwise}
use minimum_tests.Base.{
  arith, refl, sym, ◌∙◌, ◌≡◌, ℕ, zero, suc, ◌≤◌, ◌+◌, ◌*◌, ◌/◌, ◌%◌, bit_and, bit_or,
}

module _ (last : ℕ → ℕ) (digit : ℕ → ℕ → ℕ) where
  -- Fuel beyond the first operand changes nothing.
  exhausted : (fuel y : ℕ) → digits last digit fuel zero y ≡ last y
  exhausted zero y = refl
  exhausted (suc fuel) y = refl

  spare_fuel :
      (x fuel y : ℕ) (more : ℕ)
      → x ≤ fuel
      → fuel ≤ more
      → digits last digit more x y ≡ digits last digit fuel x y
  spare_fuel zero fuel y more enough wider = exhausted more y ∙ sym (exhausted fuel y)
  spare_fuel (suc x) (suc fuel) y (suc more) enough wider =
      rw (spare_fuel (suc x / 2) fuel (y / 2) more (omega arith) (omega arith)) refl
  spare_fuel (suc x) zero y more enough wider = absurd (omega arith)
  spare_fuel (suc x) (suc fuel) y zero enough wider = absurd (omega arith)

  one_digit :
      (x y : ℕ)
      → bitwise last digit (suc x) y
        ≡ digit (suc x % 2) (y % 2) + 2 * bitwise last digit (suc x / 2) (y / 2)
  one_digit x y =
      let fewer = spare_fuel (suc x / 2) (suc x / 2) (y / 2) x (omega arith) (omega arith) in
      omega (arith, fewer)

pub bit_or_step : (x y : ℕ) → bit_or x y ≡ max (x % 2) (y % 2) + 2 * bit_or (x / 2) (y / 2)
bit_or_step (suc x) y = simp bit_or-bitwise (one_digit (λ rest. rest) max x y)
bit_or_step zero y = simp bit_or-bitwise (omega arith)

pub bit_and_step : (x y : ℕ) → bit_and x y ≡ min (x % 2) (y % 2) + 2 * bit_and (x / 2) (y / 2)
bit_and_step (suc x) y = simp bit_and-bitwise (one_digit (λ rest. zero) min x y)
bit_and_step zero y = simp bit_and-bitwise (omega arith)
