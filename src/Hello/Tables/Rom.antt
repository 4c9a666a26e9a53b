-- ===== src/Hello/Tables/Rom.antt =====
-- `map_system_rom`: a walk of the tables finds every page of the image.
use minimum_tests.Base.{
  ℕ, ◌+◌, ◌-◌, ◌*◌, ◌/◌, ◌%◌, ◌^◌, ◌≤◌, ◌<◌, ◌≡◌, ◌⊎◌, inl, inr, refl, ap, ◌∙◌, Bool, false, ◌||◌,
  ◌!=◌, Bool-cases, none, some, u32, ltb, ◌==◌, arith, for_loop, for_loop_rule,
}
use minimum_tests.Platform.BootInfo.{BootInfo}
use minimum_tests.Hello.Tables.{Layout, Tables, rom_table, tlbiall, map_system_rom}
use minimum_tests.Hello.Tables.Filled.{IsLinked, IsMappedTo, rom_table-IsMappedTo}

-- The walk of an address of the image: its directory entry names one of the tables of system ROM,
-- and the entry there maps the page to itself, readable, and neither writable, executable nor open
-- to the user.
pub record IsRomMapped (layout : Layout) (info : BootInfo) (before t : Tables) : Type 0 where
  pub walk :
      (a : ℕ)
      → 0x08000000 ≤ a
      → a < 0x08000000 + info.image_size
      → (t.directory (a / 2 ^ 22)
          ≡ layout.system_rom_tables + (a / 2 ^ 22 - 32) * 4096 - 0x80000000 + 1)
        × (t.system_rom (a / 2 ^ 22 - 32) (a / 2 ^ 12 % 1024) ≡ a - a % 4096 + 17)
  -- Behind the image, the rest of its last table is empty.
  pub past :
      (a : ℕ)
      → 0x08000000 + info.image_size ≤ a - a % 4096
      → a - a % 2 ^ 22 < 0x08000000 + info.image_size
      → t.system_rom (a / 2 ^ 22 - 32) (a / 2 ^ 12 % 1024) ≡ 0
  -- A directory entry that serves no address of the image is as before.
  pub others :
      (d : ℕ)
      → (d < 32) ⊎ (0x08000000 + info.image_size ≤ d * 2 ^ 22)
      → t.directory d ≡ before.directory d
  pub user : t.user ≡ before.user
  pub flushed : t.flushes ≡ before.flushes + 1

-- The image that `map_system_rom` accepts.
pub record IsMappable (info : BootInfo) : Type 0 where
  pub base : info.system_rom_base ≡ 0x08000000
  pub nonempty : 0 < info.image_size
  pub fits : info.image_size ≤ 0x01000000

module _ (layout : Layout) (info : BootInfo) (t : Tables)
    (linked : IsLinked layout.system_rom_tables 4) where
  abbrev pages_of : ℕ
  pages_of = u32 (info.image_size + 4096 - 1) / 4096

  abbrev tables_of : ℕ
  tables_of = u32 (pages_of + 1023) / 1024

  abbrev mapped_tables : Tables
  mapped_tables = for_loop (rom_table layout info pages_of) tables_of 0 t

  loop-IsMappedTo :
      (ok : IsMappable info)
      → IsMappedTo layout info ok.base linked pages_of t tables_of mapped_tables
  loop-IsMappedTo ok =
      for_loop_rule (rom_table layout info pages_of)
        (IsMappedTo layout info ok.base linked pages_of t) tables_of 0 tables_of (omega arith)
        (λ i s lt m.
          rom_table-IsMappedTo layout info ok.base linked pages_of i t s (omega (arith, ok.fits))
            (omega (arith, ok.fits)) (omega (arith, ok.fits)) m)
        (record {
          mapped = λ k j lk. absurd (omega arith);
          unmapped = λ k j lk. absurd (omega arith);
          linked_in = λ k lk. absurd (omega arith);
          others = λ d off. refl;
          user = refl;
          flushes = refl;
        })

  tlbiall-IsRomMapped : IsMappable info → IsRomMapped layout info t (tlbiall mapped_tables)
  tlbiall-IsRomMapped ok = record {
    walk = λ a lo hi.
        let k : ℕ = a / 2 ^ 22 - 32 in
        let j : ℕ = a / 2 ^ 12 % 1024 in
        let place : a / 2 ^ 22 ≡ 32 + k = omega arith in
        let within : k < tables_of = omega (arith, ok.fits) in
        (
          ap mapped_tables.directory place ∙ m.linked_in k within,
          m.mapped k j within (omega arith) (omega (arith, ok.fits)) ∙ omega arith,
        );
    past = λ a behind near.
        m.unmapped (a / 2 ^ 22 - 32) (a / 2 ^ 12 % 1024) (omega (arith, ok.fits)) (omega arith)
          (omega (arith, ok.fits));
    others = λ d off.
        m.others d (elim off [ inl low ↦ inl low | inr high ↦ inr (omega (arith, ok.fits)) ]);
    user = m.user;
    flushed = omega (arith, m.flushes);
  }
    where
      m : IsMappedTo layout info ok.base linked pages_of t tables_of mapped_tables
      m = loop-IsMappedTo ok

  -- With tables that are page aligned in the direct map, `map_system_rom` accepts exactly an image
  -- at the base of system ROM that is not empty and not larger than system ROM. It then maps every
  -- page of the image to itself, readable only, and none behind it in its last table; changes no
  -- directory entry but those that serve an address of the image; leaves the user's table alone;
  -- and flushes the TLB once. Its check of the number of tables never refuses such an image.
  pub map_system_rom-IsRomMapped :
      (IsMappable info
        × ((t' : Tables) × (map_system_rom layout info t ≡ some t') × IsRomMapped layout info t t'))
      ⊎ ((¬ IsMappable info) × (map_system_rom layout info t ≡ none))
  unfolding map_system_rom
  map_system_rom-IsRomMapped = elim (Bool-cases bad) [
    | inl wrong ↦ inr (λ ok. ground (arith, ok.base, ok.nonempty, ok.fits), rw wrong refl)
    | inr fine ↦
        let ok : IsMappable info = record {
          base = ground arith;
          nonempty = ground arith;
          fits = ground arith;
        } in
        inl (ok, (tlbiall mapped_tables, rw (fine, few_tables ok) refl, tlbiall-IsRomMapped ok))
  ]
    where
      bad : Bool
      bad =
          info.system_rom_base != 0x08000000
          || info.image_size == 0
          || ltb 0x01000000 info.image_size

      few_tables : IsMappable info → ltb 4 tables_of ≡ false
      few_tables ok = ground (arith, ok.fits)
