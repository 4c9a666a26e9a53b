-- ===== src/Hello/Image/Find.antt =====
-- What `find_module` finds.
use minimum_tests.Base.{
  ℕ, zero, suc, ◌+◌, ◌*◌, ◌%◌, ◌^◌, ◌≤◌, ◌<◌, ◌≡◌, ◌↔◌, ◌⊎◌, inl, inr, refl, Bool, true, false,
  Option, none, some, u8, u32, Bool-cases, arith, ap, dec_lt,
}
use minimum_tests.Memory.{Memory, IsBytes, word_at-lt}
use minimum_tests.Platform.BootInfo.{BootInfo}
use minimum_tests.Hello.Image.{
  ModuleRecord, module_at, image_range_valid, image_records_valid, equal_from, bytes_equal,
  module_matches, find_from, find_module,
}
use minimum_tests.Hello.Image.Ranges.{image_ranges_iff}

equal_from_iff :
    (left : ℕ) (right : ℕ → ℕ) (rounds index stop : ℕ) (m : Memory)
    → index + rounds ≡ stop
    → (equal_from left right rounds index m ≡ true)
      ↔ ((j : ℕ) → index ≤ j → j < stop → m (u32 (left + j)) ≡ u8 (right j))
unfolding equal_from
equal_from_iff left right zero index stop m e = (λ _ j ge lt. absurd (omega arith), λ _. refl)
equal_from_iff left right (suc rounds) index stop m e =
    let ih = equal_from_iff left right rounds (suc index) stop m (omega arith) in
    (
      λ h j ge lt.
          let first : (m (u32 (left + index)) ≡ u8 (right index))
              × (equal_from left right rounds (suc index) m ≡ true) =
            ground arith in
          ground (arith, ih.0 first.1 j),
      λ h. ground (arith, h index, ih.1 (λ j ge lt. h j (omega arith) lt)),
    )

-- A record whose name lies in the image and is, byte for byte, the one wanted.
pub record IsNamed (info : BootInfo) (name : ℕ → ℕ) (name_length : ℕ) (m : Memory)
    (module_record : ModuleRecord) : Type 0 where
  pub same_length : module_record.name_length ≡ name_length
  pub in_image : module_record.name_offset + name_length ≤ info.image_size
  pub same_bytes :
      (j : ℕ)
      → j < name_length
      → m ((info.system_rom_base + module_record.name_offset + j) % 2 ^ 32) ≡ u8 (name j)

module _ (info : BootInfo) (name : ℕ → ℕ) (name_length : ℕ) (m : Memory) where
  abbrev Matches : ℕ → Type 0
  Matches address = IsNamed info name name_length m (module_at m address)

  bytes_equal_iff :
      (left : ℕ)
      → (bytes_equal (u32 left) name name_length m ≡ true)
        ↔ ((j : ℕ) → j < name_length → m ((left + j) % 2 ^ 32) ≡ u8 (name j))
  unfolding bytes_equal
  bytes_equal_iff left =
      let h = equal_from_iff (u32 left) name name_length 0 name_length m (omega arith) in
      (
        λ e j lt. rw (← same j) (h.0 e j (omega arith) lt),
        λ f. h.1 (λ j ge lt. rw (same j) (f j lt)),
      )
    where
      same : (j : ℕ) → m (u32 (u32 left + j)) ≡ m ((left + j) % 2 ^ 32)
      same j = ap m (omega arith)

  pub module_matches_iff :
      (r : ModuleRecord)
      → r.name_offset < 2 ^ 32
      → info.image_size < 2 ^ 32
      → (module_matches info name name_length r m ≡ true) ↔ IsNamed info name name_length m r
  unfolding module_matches
  module_matches_iff r ho hi =
      let ranges = image_ranges_iff r.name_offset r.name_length 0 info.image_size ho hi in
      let bytes = bytes_equal_iff (info.system_rom_base + r.name_offset) in
      (
        λ e.
            let (n, v, b) = parts e in
            record {
              same_length = n;
              in_image = omega (arith, ranges.0.0 v);
              same_bytes = bytes.0 b;
            },
        λ named. ground (
          arith,
          named.same_length,
          ranges.0.1 (omega (arith, named.same_length, named.in_image)),
          bytes.1 named.same_bytes,
        ),
      )
    where
      parts :
          module_matches info name name_length r m ≡ true
          → (r.name_length ≡ name_length)
            × (image_range_valid r.name_offset r.name_length info.image_size ≡ true)
            × (bytes_equal (u32 (info.system_rom_base + r.name_offset)) name name_length m ≡ true)
      parts e = ground arith

  -- The first of the records from `index` on that matches, or that none does.
  pub data Search (modules index stop : ℕ) : Option ℕ → Type 0 where
    found :
        (i : ℕ)
        → index ≤ i
        → i < stop
        → IsNamed info name name_length m (module_at m (u32 (modules + i * 32)))
        → ((j : ℕ)
            → index ≤ j
            → j < i
            → ¬ IsNamed info name name_length m (module_at m (u32 (modules + j * 32))))
        → Search modules index stop (some (u32 (modules + i * 32)))
    absent :
        ((j : ℕ)
          → index ≤ j
          → j < stop
          → ¬ IsNamed info name name_length m (module_at m (u32 (modules + j * 32))))
        → Search modules index stop none

  -- One record that does not match, in front of others that do not.
  none-suc :
      (modules index stop : ℕ)
      → (¬ IsNamed info name name_length m (module_at m (u32 (modules + index * 32))))
      → ((j : ℕ)
          → suc index ≤ j
          → j < stop
          → ¬ IsNamed info name name_length m (module_at m (u32 (modules + j * 32))))
      → (j : ℕ) → index ≤ j
      → j < stop
      → ¬ IsNamed info name name_length m (module_at m (u32 (modules + j * 32)))
  none-suc modules index stop not_here later j ge lt = elim (dec_lt index j) [
    | yes above ↦ later j above lt
    | no here ↦ let e : index ≡ j = omega arith in rw (← e) not_here
  ]

  Search-suc :
      (modules index stop : ℕ) {r : Option ℕ}
      → (¬ IsNamed info name name_length m (module_at m (u32 (modules + index * 32))))
      → Search modules (suc index) stop r
      → Search modules index stop r
  Search-suc modules index stop not_here (found i ge lt here before) =
      found i (omega arith) lt here (none-suc modules index i not_here before)
  Search-suc modules index stop not_here (absent before) =
      absent (none-suc modules index stop not_here before)

  find_from-Search :
      (modules rounds index stop : ℕ)
      → IsBytes m
      → info.image_size < 2 ^ 32
      → index + rounds ≡ stop
      → Search modules index stop (find_from info name name_length modules rounds index m)
  unfolding find_from
  find_from-Search modules zero index stop h hi e = absent (λ j ge lt. absurd (omega arith))
  find_from-Search modules (suc rounds) index stop h hi e =
      elim (Bool-cases (module_matches info name name_length here m)) [
        | inl yes_here ↦ rw yes_here (
            found index (omega arith) (omega arith) (iff.0 yes_here)
              (λ j ge lt. absurd (omega arith)))
        | inr not_here ↦ rw not_here (
            Search-suc modules index stop (λ named. true≢ not_here (iff.1 named))
              (find_from-Search modules rounds (suc index) stop h hi (omega arith)))
      ]
    where
      here : ModuleRecord
      here = module_at m (u32 (modules + index * 32))

      iff :
          (module_matches info name name_length here m ≡ true)
          ↔ IsNamed info name name_length m here
      iff = module_matches_iff here (unfold module_at in word_at-lt m _ h) hi

      true≢ : {b : Bool} → b ≡ false → b ≡ true → ⊥
      true≢ p q = cc

  -- With memory of bytes and words in range, `find_module` returns the address of the first record
  -- of the module table whose name lies in the image and is the one wanted; it returns NULL only if
  -- the table leaves the image or no record of it has that name.
  pub find_module-first :
      IsBytes m
      → info.image_size < 2 ^ 32
      → info.module_table_offset < 2 ^ 32
      → let table = u32 (info.system_rom_base + info.module_table_offset) in
        let fits = info.module_table_offset + info.module_count * 32 ≤ info.image_size in
        (fits × Search table 0 info.module_count (find_module info name name_length m))
        ⊎ ((¬ fits) × (find_module info name name_length m ≡ none))
  unfolding find_module
  find_module-first h hi ht =
      elim (Bool-cases
        (image_records_valid info.module_table_offset info.module_count info.image_size)) [
          | inl fits ↦ rw fits (inl (iff.0 fits, find_from-Search _ _ 0 _ h hi (omega arith)))
          | inr not_fits ↦ rw not_fits (inr (λ fits. true≢ not_fits (iff.1 fits), refl))
        ]
    where
      iff :
          (image_records_valid info.module_table_offset info.module_count info.image_size ≡ true)
          ↔ (info.module_table_offset + info.module_count * 32 ≤ info.image_size)
      iff = (image_ranges_iff info.module_table_offset 0 info.module_count info.image_size ht hi).1

      true≢ : {b : Bool} → b ≡ false → b ≡ true → ⊥
      true≢ p q = cc
