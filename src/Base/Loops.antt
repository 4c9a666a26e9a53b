-- ===== src/Base/Loops.antt =====
-- A counted loop, and the rule that carries an invariant through it.
use Prim.Native.Nat.{ℕ, zero, suc, ◌+◌, ◌<◌}
use mathlib.Core.Path.{◌≡◌}
use native.Mathlib.Omega.{arith}

-- `for (index = start; rounds are left; ++index) body`
unfoldable pub for_loop {ℓ} : {S : Type ℓ} → (ℕ → S → S) → (rounds start : ℕ) → S → S
for_loop body zero start s = s
for_loop body (suc rounds) start s = for_loop body rounds (suc start) (body start s)

-- What each round takes from its index to the next holds at the end; `P` may speak of the index.
pub for_loop_rule {ℓ κ} :
    {S : Type ℓ} (body : ℕ → S → S) (P : ℕ → S → Type κ) (rounds start stop : ℕ) {s : S}
    → start + rounds ≡ stop
    → ((i : ℕ) (t : S) → i < stop → P i t → P (suc i) (body i t))
    → P start s
    → P stop (for_loop body rounds start s)
unfolding for_loop
for_loop_rule body P zero start stop e step h =
    let same : start ≡ stop = omega arith in rw (← same) h
for_loop_rule body P (suc rounds) start stop {s} e step h =
    for_loop_rule body P rounds (suc start) stop (omega arith) step (step start s (omega arith) h)
