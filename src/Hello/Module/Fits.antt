-- ===== src/Hello/Module/Fits.antt =====
-- Modules that fit: the loop over the segments cannot fail if their pages are among those of a plan.
use minimum_tests.Base.{
  ℕ, zero, suc, ◌+◌, ◌-◌, ◌*◌, ◌%◌, ◌^◌, ◌≤◌, ◌<◌, ◌≡◌, ◌∙◌, ◌⊎◌, refl, sym, inl, inr, Bool, true,
  u32, if◌then◌else◌, arith, dec_lt,
}
use minimum_tests.Bits.{bit_and_bit}
use minimum_tests.Memory.{Memory, IsBytes}
use minimum_tests.Platform.BootInfo.{BootInfo}
use minimum_tests.Hello.Image.{ModuleSegment}
use minimum_tests.Hello.Pages.{UserPages, done}
use minimum_tests.Hello.Pages.Valid.{IsValid}
use minimum_tests.Hello.Pages.Plan.{AreWithin, prepare_user_range-succeeds}
use minimum_tests.Hello.Module.{load_segment, load_segments, holds_entry, pte_flags_from_segment}
use minimum_tests.Hello.Module.InPlace.{IsLoadable, AreWords, IsInPlace, IsPlanned}
use minimum_tests.Hello.Module.Segment.{load_segment-succeeds}
use minimum_tests.Hello.Module.Segments.{segment}
use minimum_tests.Hello.Module.Sequence.{IsEntry, HasEntry, segment_at-AreWords}

IsEntry-holds_entry :
    (s : ModuleSegment) (entry_vaddr : ℕ)
    → entry_vaddr < 2 ^ 32
    → IsEntry s entry_vaddr
    → holds_entry entry_vaddr s ≡ true
unfolding holds_entry
IsEntry-holds_entry s entry_vaddr lt at = ground (arith, bit_and_bit 2 s.flags)

module _ (m : Memory) (info : BootInfo) (plan : UserPages) (ok : IsValid plan) where
  -- The pages that a planned segment adds are planned.
  IsInPlace-AreWithin :
      (s : ModuleSegment) (p r : UserPages)
      → IsLoadable info s
      → IsInPlace m info s p r
      → IsPlanned plan s
      → AreWithin p plan
      → AreWithin r plan
  IsInPlace-AreWithin s p r fine at planned within i lt = elim (at.added i lt) [
    | inl old ↦
        let (n, ln, here, f) = within i old in
        (n, ln, here ∙ sym (at.vaddrs_kept i old), f ∙ sym (at.flags_kept i old))
    | inr (low, high, with_flags) ↦
        let j : ℕ = r.vaddrs i - s.virtual_address in
        let page : s.virtual_address + j - (s.virtual_address + j) % 4096 ≡ r.vaddrs i =
          omega (arith, at.valid.aligned i lt) in
        let (n, ln, here, f) = planned j (omega (arith, fine.nonempty)) in
        (n, ln, here ∙ page, f ∙ sym with_flags)
  ]

  module _ (h : IsBytes m) (image : info.image_size < 2 ^ 32) (segments entry_vaddr : ℕ)
      (word : entry_vaddr < 2 ^ 32) where
    -- One segment of the loop.
    segment_succeeds :
        (n : ℕ) (p : UserPages)
        → IsValid p
        → AreWithin p plan
        → IsLoadable info (segment m info segments n)
        → IsPlanned plan (segment m info segments n)
        → (r : UserPages) × (load_segment m info (segment m info segments n) p ≡ done tt r)
          × IsValid r
          × AreWithin r plan
    segment_succeeds n p v within fine planned =
        let s : ModuleSegment = segment m info segments n in
        let words : AreWords info s =
          segment_at-AreWords m info (u32 (segments + n * 32)) h image in
        let (q, e) =
          prepare_user_range-succeeds plan ok s.virtual_address s.memory_size
            (pte_flags_from_segment s.flags) p v within fine.nonempty
            (omega (arith, fine.below_stack)) planned in
        let (r, e', at) = load_segment-succeeds m info s p h v words fine q e in
        (r, e', at.valid, IsInPlace-AreWithin s p r fine at planned within)

    pub load_segments-succeeds :
        (rounds n to : ℕ) (known : Bool) (p : UserPages)
        → n + rounds ≡ to
        → IsValid p
        → AreWithin p plan
        → ((k : ℕ) → n ≤ k → k < to → IsLoadable info (segment m info segments k))
        → ((k : ℕ) → n ≤ k → k < to → IsPlanned plan (segment m info segments k))
        → (found : Bool) × (q : UserPages) × (load_segments m info segments entry_vaddr rounds n
              known p
            ≡ done found q)
          × ((known ≡ true) ⊎ HasEntry m info segments entry_vaddr n to → found ≡ true)
    unfolding load_segments
    load_segments-succeeds zero n to known p e v within fine planned = (
      known,
      p,
      refl,
      λ why. elim why [ inl now ↦ now | inr (k, lo, hi, at) ↦ absurd (omega arith) ],
    )
    load_segments-succeeds (suc rounds) n to known p e v within fine planned =
        let (r, done_one, v', within') =
          segment_succeeds n p v within (fine n (omega arith) (omega arith))
            (planned n (omega arith) (omega arith)) in
        let next : Bool =
          if holds_entry entry_vaddr (segment m info segments n) then true else known in
        let (found, q, rest, entry) =
          load_segments-succeeds rounds (suc n) to next r (omega arith) v' within'
            (λ k lo hi. fine k (omega arith) hi) (λ k lo hi. planned k (omega arith) hi) in
        (
          found,
          q,
          rw done_one rest,
          λ why. entry (elim why [
            | inl now ↦ inl (ground arith)
            | inr (k, lo, hi, at) ↦ elim (dec_lt n k) [
              | yes later ↦ inr (k, omega arith, hi, at)
              | no here ↦
                  let same : k ≡ n = omega arith in
                  let at_n : IsEntry (segment m info segments n) entry_vaddr = rw (← same) at in
                  inl (
                    ground (
                      arith,
                      IsEntry-holds_entry (segment m info segments n) entry_vaddr word at_n,
                    ))
            ]
          ]),
        )
