-- ===== src/Hello/Pages/Valid.antt =====
-- The well-formed tables of pages, and what the loops over the bytes of a page store.
use minimum_tests.Base.{ℕ, ◌+◌, ◌%◌, ◌≤◌, ◌<◌, ◌≡◌, refl, ◌∙◌, arith, u32, for_loop_rule}
use minimum_tests.Memory.{Memory, IsBytes, IsFilled, IsFilled-zero, IsFilled-suc, store_byte}
use minimum_tests.Hello.Pages.{UserPages, zero_bytes, copy_bytes}

pub record IsValid (p : UserPages) : Type 0 where
  pub few : p.count ≤ 16
  pub distinct : (i j : ℕ) → i < p.count → j < p.count → p.vaddrs i ≡ p.vaddrs j → i ≡ j
  pub aligned : (i : ℕ) → i < p.count → p.vaddrs i % 4096 ≡ 0
  pub bytes : (i : ℕ) → IsBytes (p.bytes i)

-- The pages of `p` are still there, with the same contents.
pub record Extends (p p' : UserPages) : Type 0 where
  pub grows : p.count ≤ p'.count
  pub vaddrs : (i : ℕ) → i < p.count → p'.vaddrs i ≡ p.vaddrs i
  pub flags : (i : ℕ) → i < p.count → p'.flags i ≡ p.flags i
  pub bytes : (i b : ℕ) → i < p.count → p'.bytes i b ≡ p.bytes i b

pub Extends-refl : (p : UserPages) → Extends p p
Extends-refl p = record {
  grows = omega arith;
  vaddrs = λ i lt. refl;
  flags = λ i lt. refl;
  bytes = λ i b lt. refl;
}

pub Extends-trans : {p q r : UserPages} → Extends p q → Extends q r → Extends p r
Extends-trans e f = record {
  grows = omega arith;
  vaddrs = λ i lt. f.vaddrs i (omega arith) ∙ e.vaddrs i lt;
  flags = λ i lt. f.flags i (omega arith) ∙ e.flags i lt;
  bytes = λ i b lt. f.bytes i b (omega arith) ∙ e.bytes i b lt;
}

pub zero_bytes-IsFilled :
    (offset length : ℕ) (b : Memory)
    → IsBytes b
    → IsFilled (λ _. 0) offset length b (zero_bytes offset length b)
unfolding zero_bytes
zero_bytes-IsFilled offset length b h =
    for_loop_rule (λ index t. store_byte t (offset + index) 0)
      (λ i t. IsFilled (λ _. 0) offset i b t) length 0 length (omega arith)
      (λ i t lt f. IsFilled-suc (λ _. 0) offset i 0 f refl) (IsFilled-zero _ offset h)

pub copy_bytes-IsFilled :
    (offset : ℕ) (from : Memory) (source length : ℕ) (b : Memory)
    → IsBytes b
    → IsBytes from
    → IsFilled
        (λ j. from (u32 (source + j)))
        offset
        length
        b
        (copy_bytes offset from source length b)
unfolding copy_bytes
copy_bytes-IsFilled offset from source length b h hf =
    for_loop_rule (λ index t. store_byte t (offset + index) (from (u32 (source + index))))
      (λ i t. IsFilled (λ j. from (u32 (source + j))) offset i b t) length 0 length (omega arith)
      (λ i t lt f.
        IsFilled-suc (λ j. from (u32 (source + j))) offset i (from (u32 (source + i))) f
          (omega (arith, hf (u32 (source + i)))))
      (IsFilled-zero _ offset h)
