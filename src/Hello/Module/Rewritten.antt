-- ===== src/Hello/Module/Rewritten.antt =====
-- A segment whose pages are prepared and then written is in place.
use minimum_tests.Base.{
  ℕ, ◌+◌, ◌-◌, ◌*◌, ◌/◌, ◌%◌, ◌<◌, ◌≡◌, sym, ◌∙◌, ap, dec_lt, some, none, u32, arith,
}
use minimum_tests.Memory.{Memory}
use minimum_tests.Platform.BootInfo.{BootInfo}
use minimum_tests.Hello.Image.{ModuleSegment}
use minimum_tests.Hello.Pages.{UserPages}
use minimum_tests.Hello.Pages.Valid.{IsValid, Extends}
use minimum_tests.Hello.Pages.Prepare.{IsMapped, AreAdded}
use minimum_tests.Hello.Pages.Written.{HasPage, IsWritten}
use minimum_tests.Hello.Module.{pte_flags_from_segment}
use minimum_tests.Hello.Module.InPlace.{IsLoadable, IsInPlace, user_content}

module _ (m : Memory) (info : BootInfo) (s : ModuleSegment) (p : UserPages) where
  -- Zeroed, and then copied to.
  pub prepared-IsInPlace :
      IsLoadable info s
      → (q : UserPages) → IsValid q
      → Extends p q
      → AreAdded p q
          (s.virtual_address - s.virtual_address % 4096)
          (s.virtual_address + s.memory_size)
          (pte_flags_from_segment s.flags)
      → ((k : ℕ)
          → s.virtual_address - s.virtual_address % 4096 + k * 4096
            < s.virtual_address + s.memory_size
          → IsMapped q
              (s.virtual_address - s.virtual_address % 4096 + k * 4096)
              (pte_flags_from_segment s.flags))
      → (q' r : UserPages) → IsWritten m s.virtual_address none s.memory_size q q'
      → IsWritten m s.virtual_address
          (some (u32 (info.system_rom_base + s.data_offset)))
          s.file_size
          q'
          r
      → IsInPlace m info s p r
  prepared-IsInPlace ok q vq e new mapped q' r zeroed copied = record {
    valid = copied.valid;
    vaddrs_kept = λ i lt. place i ∙ e.vaddrs i lt;
    flags_kept = λ i lt. marks i ∙ e.flags i lt;
    grows = omega (arith, count, e.grows);
    mapped = λ j lt.
        let k : ℕ = (s.virtual_address % 4096 + j) / 4096 in
        let page : s.virtual_address - s.virtual_address % 4096 + k * 4096
            ≡ s.virtual_address + j - (s.virtual_address + j) % 4096 =
          omega arith in
        let (i, li, at_page, with_flags) = mapped k (omega arith) in
        (i, omega (arith, count), place i ∙ (at_page ∙ page), marks i ∙ with_flags);
    content = λ i b j li lb lj at. elim (dec_lt j s.file_size) [
      | yes file ↦
          copied.inside i b j (omega (arith, copied.count)) lb file (omega (arith, place' i))
          ∙ (ap m (omega arith) ∙ sym (if_file j file))
      | no tail ↦
          copied.outside i b (omega (arith, copied.count)) lb (omega (arith, place' i))
          ∙ (zeroed.inside i b j (omega (arith, count)) lb lj (omega (arith, place i))
              ∙ sym (if_tail j tail))
    ];
    others = λ i b li lb off.
        copied.outside i b (omega (arith, zeroed.count, e.grows)) lb
          (omega (arith, kept' i, e.vaddrs i li, ok.sizes))
        ∙ (zeroed.outside i b (omega (arith, e.grows)) lb (omega (arith, e.vaddrs i li))
            ∙ e.bytes i b li);
    added = λ j lj. ground (arith, new j, place j, marks j, count);
  }
    where
      count : r.count ≡ q.count
      count = copied.count ∙ zeroed.count

      kept' : (i : ℕ) → q'.vaddrs i ≡ q.vaddrs i
      kept' i = ap (λ (f : ℕ → ℕ). f i) zeroed.vaddrs

      place' : (i : ℕ) → r.vaddrs i ≡ q'.vaddrs i
      place' i = ap (λ (f : ℕ → ℕ). f i) copied.vaddrs

      place : (i : ℕ) → r.vaddrs i ≡ q.vaddrs i
      place i = place' i ∙ kept' i

      marks : (i : ℕ) → r.flags i ≡ q.flags i
      marks i = ap (λ (f : ℕ → ℕ). f i) copied.flags ∙ ap (λ (f : ℕ → ℕ). f i) zeroed.flags

      if_file :
          (j : ℕ)
          → j < s.file_size
          → user_content m info s j ≡ m (u32 (info.system_rom_base + s.data_offset + j))
      if_file j lt = ground arith

      if_tail : (j : ℕ) → ¬ (j < s.file_size) → user_content m info s j ≡ 0
      if_tail j nlt = ground arith

  pub has_pages :
      (q : UserPages)
      → ((k : ℕ)
          → s.virtual_address - s.virtual_address % 4096 + k * 4096
            < s.virtual_address + s.memory_size
          → IsMapped q
              (s.virtual_address - s.virtual_address % 4096 + k * 4096)
              (pte_flags_from_segment s.flags))
      → (j : ℕ) → j < s.memory_size
      → HasPage q (s.virtual_address + j)
  has_pages q mapped j lt =
      let k : ℕ = (s.virtual_address % 4096 + j) / 4096 in
      let (i, li, at_page, with_flags) = mapped k (omega arith) in (i, li, omega arith)
