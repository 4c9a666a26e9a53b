-- ===== src/Bits/Fields.antt =====
-- `|` and `&` on words whose fields are aligned to a power of two, as arithmetic.
use native.Mathlib.Nat.{pow-suc, one-le-pow}
use minimum_tests.Base.{
  ℕ, zero, suc, ◌+◌, ◌-◌, ◌*◌, ◌/◌, ◌%◌, ◌^◌, ◌≤◌, ◌<◌, bit_and, bit_or, ◌≡◌, refl, ap, arith,
}
use minimum_tests.Bits.Step.{bit_or_step, bit_and_step}

bit_or-zero_below : (limit word : ℕ) → word ≤ limit → bit_or word 0 ≡ word
bit_or-zero_below limit zero below = refl
bit_or-zero_below zero (suc word) below = absurd (omega arith)
bit_or-zero_below (suc limit) (suc word) below =
    let half = bit_or-zero_below limit (suc word / 2) (omega arith) in
    omega (arith, half, bit_or_step (suc word) 0)

pub bit_or-zero : (word : ℕ) → bit_or word 0 ≡ word
bit_or-zero word = bit_or-zero_below word word (omega arith)

bit_and-zero_below : (limit word : ℕ) → word ≤ limit → bit_and word 0 ≡ 0
bit_and-zero_below limit zero below = refl
bit_and-zero_below zero (suc word) below = absurd (omega arith)
bit_and-zero_below (suc limit) (suc word) below =
    let half = bit_and-zero_below limit (suc word / 2) (omega arith) in
    omega (arith, half, bit_and_step (suc word) 0)

pub bit_and-zero : (word : ℕ) → bit_and word 0 ≡ 0
bit_and-zero word = bit_and-zero_below word word (omega arith)

pub zero-bit_or : (b : ℕ) → bit_or 0 b ≡ b
zero-bit_or b = Prim.Native.Nat.bit_or-bitwise 0 b

-- one more bit of alignment
double_field : (k q : ℕ) → q * 2 ^ suc k ≡ 2 * (q * 2 ^ k)
double_field k q = omega (arith, ap (λ (p : ℕ). q * p) (pow-suc 2 k))

-- The low field first: `r | (q << k)`.
pub bit_or_low : (k q r : ℕ) → r < 2 ^ k → bit_or r (q * 2 ^ k) ≡ r + q * 2 ^ k
bit_or_low zero q zero fits = omega (arith, zero-bit_or (q * 2 ^ 0))
bit_or_low zero q (suc r) fits = absurd (omega arith)
bit_or_low (suc k) q r fits = omega (
  arith,
  bit_or_step r (q * 2 ^ suc k),
  double_field k q,
  pow-suc 2 k,
  ap (λ (w : ℕ). bit_or (r / 2) w) half,
  bit_or_low k q (r / 2) (omega (arith, pow-suc 2 k)),
)
  where
    half : q * 2 ^ suc k / 2 ≡ q * 2 ^ k
    half = omega (arith, double_field k q)

-- The high field first: `(q << k) | r`.
pub bit_or_high : (k q r : ℕ) → r < 2 ^ k → bit_or (q * 2 ^ k) r ≡ q * 2 ^ k + r
bit_or_high zero q zero fits = omega (arith, bit_or-zero (q * 2 ^ 0))
bit_or_high zero q (suc r) fits = absurd (omega arith)
bit_or_high (suc k) q r fits = omega (
  arith,
  bit_or_step (q * 2 ^ suc k) r,
  double_field k q,
  pow-suc 2 k,
  ap (λ (w : ℕ). bit_or w (r / 2)) half,
  bit_or_high k q (r / 2) (omega (arith, pow-suc 2 k)),
)
  where
    half : q * 2 ^ suc k / 2 ≡ q * 2 ^ k
    half = omega (arith, double_field k q)

-- A mask aligned to `k` bits sees only what stands above them.
bit_and_split :
    (k h r q : ℕ) → r < 2 ^ k → bit_and (h * 2 ^ k + r) (q * 2 ^ k) ≡ bit_and h q * 2 ^ k
bit_and_split zero h r q fits =
    omega (arith, ap (λ (w : ℕ). bit_and w (q * 2 ^ 0)) e, ap (λ (w : ℕ). bit_and h w) d)
  where
    e : h * 2 ^ 0 + r ≡ h
    e = omega arith

    d : q * 2 ^ 0 ≡ q
    d = omega arith
bit_and_split (suc k) h r q fits = omega (
  arith,
  bit_and_step (h * 2 ^ suc k + r) (q * 2 ^ suc k),
  double_field k (bit_and h q),
  double_field k q,
  double_field k h,
  ap (λ (w : ℕ). bit_and w (q * 2 ^ suc k / 2)) e,
  ap (λ (w : ℕ). bit_and (h * 2 ^ k + r / 2) w) d,
  bit_and_split k h (r / 2) q (omega (arith, pow-suc 2 k)),
)
  where
    e : (h * 2 ^ suc k + r) / 2 ≡ h * 2 ^ k + r / 2
    e = omega (arith, double_field k h)

    d : q * 2 ^ suc k / 2 ≡ q * 2 ^ k
    d = omega (arith, double_field k q)

pub bit_and_aligned : (k a q : ℕ) → bit_and a (q * 2 ^ k) ≡ bit_and (a / 2 ^ k) q * 2 ^ k
bit_and_aligned k a q = ground (arith, one-le-pow k 2, bit_and_split k (a / 2 ^ k) (a % 2 ^ k) q)

mask_split : (k h r : ℕ) → r < 2 ^ k → bit_and (h * 2 ^ k + r) (2 ^ k - 1) ≡ r
mask_split zero h r fits = omega (arith, bit_and-zero (h * 2 ^ 0 + r))
mask_split (suc k) h r fits = omega (
  arith,
  bit_and_step (h * 2 ^ suc k + r) (2 ^ suc k - 1),
  one-le-pow k 2,
  pow-suc 2 k,
  double_field k h,
  ap (λ (w : ℕ). bit_and w ((2 ^ suc k - 1) / 2)) e,
  ap (λ (w : ℕ). bit_and (h * 2 ^ k + r / 2) w) d,
  mask_split k h (r / 2) (omega (arith, pow-suc 2 k)),
)
  where
    e : (h * 2 ^ suc k + r) / 2 ≡ h * 2 ^ k + r / 2
    e = omega (arith, double_field k h)

    d : (2 ^ suc k - 1) / 2 ≡ 2 ^ k - 1
    d = omega (arith, one-le-pow k 2, pow-suc 2 k)

-- A mask of `k` low bits is the remainder by `2 ^ k`.
pub bit_and_mask : (k a : ℕ) → bit_and a (2 ^ k - 1) ≡ a % 2 ^ k
bit_and_mask k a = ground (arith, one-le-pow k 2, mask_split k (a / 2 ^ k) (a % 2 ^ k))

-- A mask of the one bit `k`.
pub bit_and_bit : (k a : ℕ) → bit_and a (2 ^ k) ≡ a / 2 ^ k % 2 * 2 ^ k
bit_and_bit k a = omega (
  arith,
  ap (λ (w : ℕ). bit_and a w) e,
  bit_and_aligned k a 1,
  ap (λ (w : ℕ). w * 2 ^ k) (bit_and_mask 1 (a / 2 ^ k)),
)
  where
    e : 1 * 2 ^ k ≡ 2 ^ k
    e = omega arith

-- Flags below an aligned field stay below it.
pub bit_or_flags :
    (k h r g : ℕ) → r < 2 ^ k → g < 2 ^ k → bit_or (h * 2 ^ k + r) g ≡ h * 2 ^ k + bit_or r g
bit_or_flags zero h zero zero fits small = omega (arith, bit_or-zero (h * 2 ^ 0 + 0), bit_or-zero 0)
bit_or_flags zero h (suc r) g fits small = absurd (omega arith)
bit_or_flags zero h zero (suc g) fits small = absurd (omega arith)
bit_or_flags (suc k) h r g fits small = omega (
  arith,
  bit_or_step (h * 2 ^ suc k + r) g,
  bit_or_step r g,
  double_field k h,
  ap (λ (w : ℕ). bit_or w (g / 2)) e,
  bit_or_flags k h (r / 2) (g / 2) (omega (arith, pow-suc 2 k)) (omega (arith, pow-suc 2 k)),
)
  where
    e : (h * 2 ^ suc k + r) / 2 ≡ h * 2 ^ k + r / 2
    e = omega (arith, double_field k h)
