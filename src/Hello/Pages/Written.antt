-- ===== src/Hello/Pages/Written.antt =====
-- What a write to a range of user memory leaves in the pages.
use minimum_tests.Base.{
  ℕ, ◌+◌, ◌-◌, ◌%◌, ◌≤◌, ◌<◌, ◌≡◌, ◌∙◌, ◌⊎◌, refl, ap, Option, none, some, u32, arith, dec_lt,
  ℕ_discrete,
}
use minimum_tests.Memory.{Memory, IsFilled}
use minimum_tests.Hello.Pages.{UserPages, put, advance}
use minimum_tests.Hello.Pages.Valid.{IsValid}

-- Some page of the table holds address `a`.
abbrev pub HasPage : UserPages → ℕ → Type 0
HasPage p a = (i : ℕ) × (i < p.count) × (p.vaddrs i ≡ a - a % 4096)

-- Byte `j` of what is written.
abbrev pub source_byte : Memory → Option ℕ → ℕ → ℕ
source_byte from none j = 0
source_byte from (some source) j = from (u32 (source + j))

-- `p'` is `p` with the `length` addresses from `vaddr` on rewritten: each of their bytes, in the
-- page that holds it, and no other byte of a page.
pub record IsWritten (from : Memory) (vaddr : ℕ) (source : Option ℕ) (length : ℕ) (p p' : UserPages)
    : Type 0 where
  pub valid : IsValid p'
  pub count : p'.count ≡ p.count
  pub vaddrs : p'.vaddrs ≡ p.vaddrs
  pub flags : p'.flags ≡ p.flags
  pub inside :
      (i b j : ℕ)
      → i < p.count
      → b < 4096
      → j < length
      → p.vaddrs i + b ≡ vaddr + j
      → p'.bytes i b ≡ source_byte from source j
  pub outside :
      (i b : ℕ)
      → i < p.count
      → b < 4096
      → (p.vaddrs i + b < vaddr) ⊎ (vaddr + length ≤ p.vaddrs i + b)
      → p'.bytes i b ≡ p.bytes i b

pub chunk-IsWritten :
    (from : Memory) (vaddr : ℕ) (source : Option ℕ) (chunk i : ℕ) (p : UserPages) (b : Memory)
    → IsValid p
    → i < p.count
    → p.vaddrs i ≡ vaddr - vaddr % 4096
    → vaddr % 4096 + chunk ≤ 4096
    → IsFilled (source_byte from source) (vaddr % 4096) chunk (p.bytes i) b
    → IsWritten from vaddr source chunk p (record p { bytes = put p.bytes i b })
chunk-IsWritten from vaddr source chunk i p b v lt here fits f = record {
  valid = record {
    few = v.few;
    distinct = v.distinct;
    aligned = v.aligned;
    bytes = λ k a. ground (arith, v.bytes k a, f.bytes a);
  };
  count = refl;
  vaddrs = refl;
  flags = refl;
  inside = λ k c j lk lc lj e.
      let same : p.vaddrs k ≡ p.vaddrs i = omega (arith, v.aligned k lk, v.aligned i lt) in
      let position : c ≡ vaddr % 4096 + j = omega arith in
      ground (arith, v.distinct k i lk lt same, ap b position, f.inside j lj);
  outside = λ k c lk lc off. elim (ℕ_discrete k i) [
    | yes same ↦
        let at_i : p.vaddrs k ≡ p.vaddrs i = ap p.vaddrs same in
        ground (arith, ap (λ (n : ℕ). p.bytes n c) same, f.outside c (omega arith))
    | no other ↦ ground arith
  ];
}

-- A chunk, and then the rest of the range from the next page on.
pub IsWritten-append :
    (from : Memory) (vaddr : ℕ) (source : Option ℕ) (chunk length : ℕ) {p q r : UserPages}
    → chunk ≤ length
    → IsWritten from vaddr source chunk p q
    → IsWritten from (vaddr + chunk) (advance source chunk) (length - chunk) q r
    → IsWritten from vaddr source length p r
IsWritten-append from vaddr source chunk length {p} {q} {r} le w w' = record {
  valid = w'.valid;
  count = w'.count ∙ w.count;
  vaddrs = w'.vaddrs ∙ w.vaddrs;
  flags = w'.flags ∙ w.flags;
  inside = λ i b j li lb lj e. elim (dec_lt j chunk) [
    | yes early ↦
        w'.outside i b (omega (arith, w.count)) lb (omega (arith, place i))
        ∙ w.inside i b j li lb early e
    | no late ↦
        w'.inside i b (j - chunk) (omega (arith, w.count)) lb (omega arith) (omega (arith, place i))
        ∙ (shifted source (j - chunk) ∙ ap (source_byte from source) (omega arith))
  ];
  outside = λ i b li lb off.
      w'.outside i b (omega (arith, w.count)) lb (omega (arith, place i))
      ∙ w.outside i b li lb (omega arith);
}
  where
    place : (i : ℕ) → q.vaddrs i ≡ p.vaddrs i
    place i = ap (λ (f : ℕ → ℕ). f i) w.vaddrs

    shifted :
        (source : Option ℕ) (j : ℕ)
        → source_byte from (advance source chunk) j ≡ source_byte from source (chunk + j)
    shifted none j = refl
    shifted (some s) j = ap from (omega arith)

pub IsWritten-nothing :
    (from : Memory) (vaddr : ℕ) (source : Option ℕ) (p : UserPages)
    → IsValid p
    → IsWritten from vaddr source 0 p p
IsWritten-nothing from vaddr source p v = record {
  valid = v;
  count = refl;
  vaddrs = refl;
  flags = refl;
  inside = λ i b j li lb lj. absurd (omega arith);
  outside = λ i b li lb off. refl;
}
