-- ===== src/Hello/Tables/Filled.antt =====
-- `map_system_rom`: the loop over the tables of system ROM.
use minimum_tests.Base.{
  ℕ, suc, ◌+◌, ◌-◌, ◌*◌, ◌/◌, ◌%◌, ◌^◌, ◌≤◌, ◌<◌, ◌≡◌, ◌⊎◌, refl, bit_or, u32, sub_u32, ltb,
  if◌then◌else◌, arith, for_loop, for_loop_rule,
}
use minimum_tests.Bits.{bit_or_high, bit_or_flags}
use minimum_tests.Platform.BootInfo.{BootInfo}
use minimum_tests.Runtime.{test_paddr}
use minimum_tests.Hello.Tables.{
  Layout, Tables, kernel_vaddr_to_paddr, rom_entry, rom_table_entry, rom_table, zeroed_table,
}

rom_entry-sum :
    (info : BootInfo) (page : ℕ)
    → info.system_rom_base ≡ 0x08000000
    → page < 4096
    → rom_entry info page ≡ 0x08000000 + page * 4096 + 17
rom_entry-sum info page base lt =
    rw (base, word, bit_or_high 12 (0x8000 + page) 1 (omega arith))
      (omega (arith, bit_or_flags 12 (0x8000 + page) 1 16 (omega arith) (omega arith)))
  where
    word : u32 (0x08000000 + page * 4096) ≡ (0x8000 + page) * 2 ^ 12
    word = omega arith

-- The statics are page aligned and lie in the direct map.
pub record IsLinked (base pages : ℕ) : Type 0 where
  pub aligned : base % 4096 ≡ 0
  pub low : 0xc0000000 ≤ base
  pub high : base + pages * 4096 ≤ 0xc4000000

pub kernel_vaddr_to_paddr_lem :
    (a : ℕ) → 0xc0000000 ≤ a → a < 0xc4000000 → kernel_vaddr_to_paddr a ≡ a - 0x80000000
unfolding kernel_vaddr_to_paddr
kernel_vaddr_to_paddr_lem a lo hi = omega arith

pde_sum :
    (base k : ℕ)
    → IsLinked base 4
    → k < 4
    → bit_or (kernel_vaddr_to_paddr (base + k * 4096)) 1 ≡ base + k * 4096 - 0x80000000 + 1
pde_sum base k l lt =
    rw
      (
        kernel_vaddr_to_paddr_lem (base + k * 4096) (omega (arith, l.low)) (omega (arith, l.high)),
        pages,
      )
      (bit_or_high 12 ((base + k * 4096 - 0x80000000) / 4096) 1 (omega arith))
  where
    pages : base + k * 4096 - 0x80000000 ≡ (base + k * 4096 - 0x80000000) / 4096 * 2 ^ 12
    pages = omega (arith, l.low, l.aligned)

module _ (layout : Layout) (info : BootInfo) (base : info.system_rom_base ≡ 0x08000000)
    (linked : IsLinked layout.system_rom_tables 4) where
  -- A table once `entries` of its words are written.
  record IsFilledTable (table entries : ℕ) (words : ℕ → ℕ) : Type 0 where
    mapped : (j : ℕ) → j < entries → words j ≡ 0x08000000 + (table * 1024 + j) * 4096 + 17
    unmapped : (j : ℕ) → entries ≤ j → words j ≡ 0

  fill-IsFilledTable :
      (table entries : ℕ)
      → table < 4
      → entries ≤ 1024
      → IsFilledTable table entries (for_loop (rom_table_entry info table) entries 0 zeroed_table)
  fill-IsFilledTable table entries lt le =
      for_loop_rule (rom_table_entry info table) (IsFilledTable table) entries 0 entries
        (omega arith)
        (λ i w below f. record {
          mapped = λ j lj.
              ground (arith, f.mapped j, rom_entry-sum info (table * 1024 + i) base (omega arith));
          unmapped = λ j ge. ground (arith, f.unmapped j);
        })
        (record { mapped = λ j lj. absurd (omega arith); unmapped = λ j ge. refl })

  -- After `n` tables of an image of `pages` pages.
  pub record IsMappedTo (pages : ℕ) (before : Tables) (n : ℕ) (t : Tables) : Type 0 where
    pub mapped :
        (k j : ℕ)
        → k < n
        → j < 1024
        → k * 1024 + j < pages
        → t.system_rom k j ≡ 0x08000000 + (k * 1024 + j) * 4096 + 17
    pub unmapped : (k j : ℕ) → k < n → j < 1024 → pages ≤ k * 1024 + j → t.system_rom k j ≡ 0
    pub linked_in :
        (k : ℕ)
        → k < n
        → t.directory (32 + k) ≡ layout.system_rom_tables + k * 4096 - 0x80000000 + 1
    pub others : (d : ℕ) → (d < 32) ⊎ (32 + n ≤ d) → t.directory d ≡ before.directory d
    pub user : t.user ≡ before.user
    pub flushes : t.flushes ≡ before.flushes

  pub rom_table-IsMappedTo :
      (pages n : ℕ) (before t : Tables)
      → n < 4
      → pages ≤ 4096
      → n * 1024 < pages
      → IsMappedTo pages before n t
      → IsMappedTo pages before (suc n) (rom_table layout info pages n t)
  rom_table-IsMappedTo pages n before t lt le more m = record {
    mapped = λ k j lk lj inside. ground (arith, m.mapped k j, filled.mapped j);
    unmapped = λ k j lk lj past. ground (arith, m.unmapped k j, filled.unmapped j);
    linked_in = λ k lk. ground (arith, m.linked_in k, pde_sum layout.system_rom_tables n linked lt);
    others = λ d off. ground (arith, m.others d);
    user = m.user;
    flushes = m.flushes;
  }
    where
      entries : ℕ
      entries = if ltb (sub_u32 pages (n * 1024)) 1024 then sub_u32 pages (n * 1024) else 1024

      filled : IsFilledTable n entries (for_loop (rom_table_entry info n) entries 0 zeroed_table)
      filled = fill-IsFilledTable n entries lt (ground arith)

-- The address translation of the conformance programs and that of the example's kernel agree on
-- every word, in the direct map and outside it.
pub kernel_vaddr_to_paddr-test_paddr : (a : ℕ) → a < 2 ^ 32 → kernel_vaddr_to_paddr a ≡ test_paddr a
unfolding kernel_vaddr_to_paddr test_paddr
kernel_vaddr_to_paddr-test_paddr a lt = omega arith
