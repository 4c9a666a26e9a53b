-- ===== src/Hello/User/Instruction.antt =====
-- The system call instruction of a loaded module, as the user's mapping reads it.
use minimum_tests.Base.{ℕ, ◌+◌, ◌/◌, ◌%◌, ◌≤◌, ◌<◌, ◌≡◌, ◌⊎◌, ◌∙◌, sym, ap, u32, arith}
use minimum_tests.Memory.{Memory, SameOn, word_at, word_at_same}
use minimum_tests.Platform.{system_rom_base, system_rom_size}
use minimum_tests.Platform.BootInfo.{BootInfo}
use minimum_tests.Hello.Image.{ModuleRecord, ModuleSegment}
use minimum_tests.Hello.Pages.{UserPages}
use minimum_tests.Hello.Module.InPlace.{user_content}
use minimum_tests.Hello.Tables.Rom.{IsMappable}
use minimum_tests.Hello.Module.Exact.{IsGood, segment_table}
use minimum_tests.Hello.Module.Flags.{pte_flags_from_segment-bits}
use minimum_tests.Hello.User.Walk.{Reads}
use minimum_tests.Hello.Start.SameRom.{segment_same}
use minimum_tests.Hello.Module.Segments.{segment, AreInPlace}

-- Segment `k` is executable and holds the instruction `svc #0` at `offset`, among its file bytes,
-- and no segment behind it lies on top.
pub record IsSvcAt (m : Memory) (info : BootInfo) (segments count k offset : ℕ) : Type 0 where
  pub within : k < count
  pub executable : (segment m info segments k).flags / 4 % 2 ≡ 1
  pub in_file : offset + 4 ≤ (segment m info segments k).file_size
  pub aligned : ((segment m info segments k).virtual_address + offset) % 4 ≡ 0
  pub word :
      word_at m (info.system_rom_base + (segment m info segments k).data_offset + offset)
      ≡ 0xef000000
  pub on_top :
      (n : ℕ)
      → k < n
      → n < count
      → ((segment m info segments k).virtual_address + offset + 4
          ≤ (segment m info segments n).virtual_address)
        ⊎ ((segment m info segments n).virtual_address + (segment m info segments n).memory_size
            ≤ (segment m info segments k).virtual_address + offset)

module _ (m : Memory) (info : BootInfo) (segments count : ℕ) (p q : UserPages)
    (base : info.system_rom_base ≡ 0x08000000) (small : info.image_size ≤ 0x01000000)
    (at : AreInPlace m info segments 0 count p q) (k offset : ℕ)
    (svc : IsSvcAt m info segments count k offset) where
  abbrev s : ModuleSegment
  s = segment m info segments k

  file_byte :
      (j : ℕ)
      → j < 4
      → user_content m info s (offset + j) ≡ m (info.system_rom_base + s.data_offset + offset + j)
  file_byte j lj =
      let fits = (at.loadable k (omega arith) svc.within).in_image in
      let inside : offset + j < s.file_size = omega (arith, svc.in_file) in
      let place : u32 (info.system_rom_base + s.data_offset + (offset + j))
          ≡ info.system_rom_base + s.data_offset + offset + j =
        omega (arith, fits, inside) in
      ground (arith, inside, ap m place)

  same_word :
      (i b : ℕ)
      → ((j : ℕ)
          → j < 4
          → q.bytes i (b + j) ≡ m (info.system_rom_base + s.data_offset + offset + j))
      → word_at (q.bytes i) b ≡ word_at m (info.system_rom_base + s.data_offset + offset)
  unfolding word_at
  same_word i b bytes = ground (
    arith,
    bytes 0 (omega arith),
    bytes 1 (omega arith),
    bytes 2 (omega arith),
    bytes 3 (omega arith),
  )

  svc_byte :
      (i b j : ℕ)
      → i < q.count
      → q.vaddrs i + b ≡ s.virtual_address + offset
      → b + 4 ≤ 4096
      → j < 4
      → q.bytes i (b + j) ≡ m (info.system_rom_base + s.data_offset + offset + j)
  svc_byte i b j li here room lj =
      at.content k i (b + j) (offset + j) (omega arith) svc.within li (omega arith)
        (omega (arith, svc.in_file, (at.loadable k (omega arith) svc.within).sizes)) (omega arith)
        (λ n lo hi. omega (arith, svc.on_top n lo hi))
      ∙ file_byte j lj

  pub fetches_svc :
      (fetch : ℕ → ℕ) → Reads fetch q → fetch (s.virtual_address + offset) ≡ 0xef000000
  fetches_svc fetch reads =
      let (i, li, page, flags) =
        at.mapped k offset (omega arith) svc.within
          (omega (arith, svc.in_file, (at.loadable k (omega arith) svc.within).sizes)) in
      let b : ℕ = (s.virtual_address + offset) % 4096 in
      let here : q.vaddrs i + b ≡ s.virtual_address + offset = omega (arith, page) in
      let room : b + 4 ≤ 4096 = omega (arith, svc.aligned) in
      let readable : q.flags i / 16 % 2 ≡ 1 = omega (
        arith,
        flags,
        pte_flags_from_segment-bits s.flags,
        (at.loadable k (omega arith) svc.within).readable svc.executable,
      ) in
      ap fetch (sym here)
      ∙ (reads i b li room (omega (arith, svc.aligned)) readable
          ∙ (same_word i b (λ j lj. svc_byte i b j li here room lj) ∙ svc.word))

-- The same instruction in a memory with the same ROM.
pub IsSvcAt-same :
    (m m' : Memory) (info : BootInfo) (r : ModuleRecord) (k offset : ℕ)
    → SameOn system_rom_base system_rom_size m m'
    → IsMappable info
    → IsGood m info r
    → IsSvcAt m info (segment_table m info r) r.segment_count k offset
    → IsSvcAt m' info (segment_table m' info r) r.segment_count k offset
IsSvcAt-same m m' info r k offset same mappable good svc = record {
  within = svc.within;
  executable = rw here svc.executable;
  in_file = rw here svc.in_file;
  aligned = rw here svc.aligned;
  word = rw here (
      word_at_same m m' system_rom_base system_rom_size
        (info.system_rom_base + (segment m info (segment_table m info r) k).data_offset + offset)
        same (omega (arith, mappable.base))
        (omega (arith, mappable.base, mappable.fits, in_image, svc.in_file))
      ∙ svc.word);
  on_top = λ n lo hi. rw (here, each n hi) (svc.on_top n lo hi);
}
  where
    each :
        (n : ℕ)
        → n < r.segment_count
        → segment m' info (segment_table m' info r) n ≡ segment m info (segment_table m info r) n
    each n lt = segment_same m m' same info mappable r n good.records lt

    here : segment m' info (segment_table m' info r) k ≡ segment m info (segment_table m info r) k
    here = each k svc.within

    in_image :
        (segment m info (segment_table m info r) k).data_offset
          + (segment m info (segment_table m info r) k).file_size
        ≤ info.image_size
    in_image = (good.loadable k svc.within).in_image
