-- ===== src/Boot/Load.antt =====
-- The loop over the kernel's segments.
use minimum_tests.Base.{
  ℕ, suc, ◌+◌, ◌-◌, ◌≤◌, ◌<◌, ◌≡◌, refl, inr, arith, u32, sub_u32, for_loop, for_loop_rule,
}
use minimum_tests.Memory.{Memory, IsBytes, SameOn, word_at, word_at_same, IsFilled, IsFilled-append}
use minimum_tests.Platform.{system_rom_base, system_rom_size}
use minimum_tests.Boot.{Segment, read_u32, read_segment, load_segment, load_round, copy_bytes}
use minimum_tests.Boot.Words.{read_u32-word_at}
use minimum_tests.Boot.Bytes.{copy_bytes-IsFilled, zero_bytes-IsFilled}
use minimum_tests.Boot.Image.{
  header, segment_count, record_address, packed_segment, AreApart, IsPlaced, IsPacked, content,
}

abbrev SameRom : Memory → Memory → Type 0
SameRom m t = SameOn system_rom_base system_rom_size m t

-- In any memory that holds the image, reading a word of ROM gives the image's word.
pub read_rom :
    (m t : Memory) (a : ℕ)
    → IsBytes t
    → SameRom m t
    → system_rom_base ≤ a
    → a + 4 ≤ system_rom_base + system_rom_size
    → read_u32 t a ≡ word_at m a
read_rom m t a h same lo hi = omega (
  arith,
  read_u32-word_at t a h (omega arith),
  word_at_same m t system_rom_base system_rom_size a same lo hi,
)

read_segment-packed :
    (m t : Memory) (i : ℕ)
    → IsPacked m
    → IsBytes t
    → SameRom m t
    → i < segment_count m
    → read_segment (header m 0x0c) i t ≡ packed_segment m i
unfolding read_segment
read_segment-packed m t i p h same lt = ground (
  arith,
  p.table,
  p.placed i lt,
  read_rom m t (record_address m i) h same,
  read_rom m t (record_address m i + 4) h same,
  read_rom m t (record_address m i + 12) h same,
  read_rom m t (record_address m i + 16) h same,
)

-- A placed segment is copied and its rest cleared, and nothing else is written.
pub load_segment-IsFilled :
    (s : Segment) (m : Memory)
    → IsBytes m
    → IsPlaced s
    → IsFilled (content m s) s.destination s.memory_size m (load_segment s m)
unfolding load_segment
load_segment-IsFilled s m h p =
    rw (start, rest)
      (rw whole at (
        IsFilled-append (λ j. m (s.source + j)) (λ _. 0) s.destination s.file_size
          (s.memory_size - s.file_size) copied
          (zero_bytes-IsFilled (s.destination + s.file_size) (s.memory_size - s.file_size)
            (copy_bytes s.destination s.source s.file_size m) copied.bytes (omega arith))))
  where
    open p use {in_rom, from_ram, sizes, in_ram}

    start : u32 (s.destination + s.file_size) ≡ s.destination + s.file_size
    start = omega arith

    rest : sub_u32 s.memory_size s.file_size ≡ s.memory_size - s.file_size
    rest = omega arith

    whole : s.file_size + (s.memory_size - s.file_size) ≡ s.memory_size
    whole = omega arith

    copied :
        IsFilled
          (λ j. m (s.source + j))
          s.destination
          s.file_size
          m
          (copy_bytes s.destination s.source s.file_size m)
    copied =
        copy_bytes-IsFilled s.destination s.source s.file_size m h (omega arith) (omega arith)
          (inr (omega arith))

-- After `n` rounds the first `n` segments are in RAM; their regions apart, memory is as before.
pub record IsLoaded (m : Memory) (n : ℕ) (t : Memory) : Type 0 where
  pub bytes : IsBytes t
  pub loaded :
      (i j : ℕ)
      → i < n
      → j < (packed_segment m i).memory_size
      → t ((packed_segment m i).destination + j) ≡ content m (packed_segment m i) j
  pub outside :
      (a : ℕ)
      → ((i : ℕ)
          → i < n
          → AreApart (packed_segment m i).destination (packed_segment m i).memory_size a 1)
      → t a ≡ m a

pub IsLoaded-SameRom :
    (m t : Memory) (n : ℕ) → IsPacked m → n ≤ segment_count m → IsLoaded m n t → SameRom m t
IsLoaded-SameRom m t n p le l a inside =
    l.outside a (λ i lt. ground (arith, p.placed i (omega arith)))

load_round-IsLoaded :
    (m : Memory) (i : ℕ) (t : Memory)
    → IsPacked m
    → i < segment_count m
    → IsLoaded m i t
    → IsLoaded m (suc i) (load_round (header m 0x0c) i t)
load_round-IsLoaded m i t p lt l = rw (read_segment-packed m t i p l.bytes rom lt) (record {
  bytes = f.bytes;
  loaded = λ k j below inside. ground (
    arith,
    l.loaded k j,
    f.inside j,
    f.outside ((packed_segment m k).destination + j),
    p.apart k i,
    p.placed i lt,
    rom ((packed_segment m i).source + j),
  );
  outside =
      λ a off. ground (arith, f.outside a, off i, l.outside a (λ k below. off k (omega arith)));
})
  where
    rom : SameRom m t
    rom = IsLoaded-SameRom m t i p (omega arith) l

    f :
        IsFilled
          (content t (packed_segment m i))
          (packed_segment m i).destination
          (packed_segment m i).memory_size
          t
          (load_segment (packed_segment m i) t)
    f = load_segment-IsFilled (packed_segment m i) t l.bytes (p.placed i lt)

pub segments-IsLoaded :
    (m : Memory)
    → IsPacked m
    → IsLoaded m (segment_count m) (for_loop (load_round (header m 0x0c)) (segment_count m) 0 m)
segments-IsLoaded m p =
    for_loop_rule (load_round (header m 0x0c)) (IsLoaded m) (segment_count m) 0 (segment_count m)
      (omega arith) (λ i t lt l. load_round-IsLoaded m i t p lt l)
      (record { bytes = p.bytes; loaded = λ i j lt. absurd (omega arith); outside = λ a off. refl })
