-- ===== src/Hello/Module/Sequence.antt =====
-- The loop over the segments of a module.
use minimum_tests.Base.{
  ℕ, zero, suc, ◌+◌, ◌*◌, ◌/◌, ◌%◌, ◌^◌, ◌≤◌, ◌<◌, ◌≡◌, ◌⊎◌, inl, inr, refl, Bool, true, u32,
  if◌then◌else◌, arith, Bool-cases,
}
use minimum_tests.Bits.{bit_and_bit}
use minimum_tests.Memory.{Memory, IsBytes, word_at-lt}
use minimum_tests.Platform.BootInfo.{BootInfo}
use minimum_tests.Hello.Image.{ModuleSegment, segment_at}
use minimum_tests.Hello.Pages.{UserPages, Outcome, done, refused}
use minimum_tests.Hello.Module.{load_segment, load_segments, holds_entry}
use minimum_tests.Hello.Module.InPlace.{IsLoadable, AreWords, IsInPlace}
use minimum_tests.Hello.Module.Segment.{
  IsSegmentLoaded, in_place, not_loaded, load_segment-IsSegmentLoaded,
}
use minimum_tests.Hello.Module.Table.{IsUser}
use minimum_tests.Hello.Module.Segments.{
  segment, in_place-IsUser, AreInPlace, AreInPlace-none, AreInPlace-next,
}

-- The instruction at `entry_vaddr` is among the file's bytes of an executable segment.
pub record IsEntry (s : ModuleSegment) (entry_vaddr : ℕ) : Type 0 where
  pub executable : s.flags / 4 % 2 ≡ 1
  pub low : s.virtual_address ≤ entry_vaddr
  pub high : entry_vaddr + 4 ≤ s.virtual_address + s.file_size

holds_entry-IsEntry :
    (s : ModuleSegment) (entry_vaddr : ℕ)
    → entry_vaddr < 2 ^ 32
    → holds_entry entry_vaddr s ≡ true
    → IsEntry s entry_vaddr
unfolding holds_entry
holds_entry-IsEntry s entry_vaddr lt e = record {
  executable = ground (arith, bit_and_bit 2 s.flags);
  low = ground arith;
  high = ground arith;
}

pub segment_at-AreWords :
    (m : Memory) (info : BootInfo) (a : ℕ)
    → IsBytes m
    → info.image_size < 2 ^ 32
    → AreWords info (segment_at m a)
unfolding segment_at
segment_at-AreWords m info a h lt = record {
  data_offset = word_at-lt m a h;
  memory_size = word_at-lt m (a + 12) h;
  image_size = lt;
  flags = word_at-lt m (a + 16) h;
}

module _ (m : Memory) (info : BootInfo) (segments entry_vaddr : ℕ) where
  -- One of the segments holds the entry.
  abbrev pub HasEntry : (from to : ℕ) → Type 0
  HasEntry from to =
      (k : ℕ) × (from ≤ k) × (k < to) × IsEntry (segment m info segments k) entry_vaddr

  -- How the loop ends, where `known` says that it has found the entry before.
  pub data AreLoaded (from to : ℕ) (known : Bool) (p : UserPages) : Outcome Bool → Type 0 where
    all_loaded :
        (found : Bool) (q : UserPages)
        → AreInPlace m info segments from to p q
        → (found ≡ true → (known ≡ true) ⊎ HasEntry from to)
        → AreLoaded from to known p (done found q)
    one_refused : (q : UserPages) → AreLoaded from to known p (refused q)

  module _ (h : IsBytes m) (image : info.image_size < 2 ^ 32) (word : entry_vaddr < 2 ^ 32) where
    AreLoaded-next :
        (n to : ℕ) (known : Bool) (p q : UserPages) {r : Outcome Bool}
        → n < to
        → IsLoadable info (segment m info segments n)
        → IsInPlace m info (segment m info segments n) p q
        → AreLoaded
            (suc n)
            to
            (if holds_entry entry_vaddr (segment m info segments n) then true else known)
            q
            r
        → AreLoaded n to known p r
    AreLoaded-next n to known p q lt ok first (one_refused r) = one_refused r
    AreLoaded-next n to known p q lt ok first (all_loaded found r rest entry) =
        all_loaded found r (AreInPlace-next m info segments n to p q r lt ok first rest) (λ e.
          elim (entry e) [
            | inr (k, lo, hi, at) ↦ inr (k, omega arith, hi, at)
            | inl now ↦ elim (Bool-cases (holds_entry entry_vaddr (segment m info segments n))) [
              | inl holds ↦ inr (
                n,
                omega arith,
                lt,
                holds_entry-IsEntry (segment m info segments n) entry_vaddr word holds,
              )
              | inr misses ↦ inl (rw misses at now)
            ]
          ])

    after_segment :
        (rounds n to : ℕ) (known : Bool) (p : UserPages) {o : Outcome (Unit {0})}
        → n < to
        → (u : IsUser p) → load_segment m info (segment m info segments n) p ≡ o
        → IsSegmentLoaded m info
            (segment m info segments n)
            p
            h
            u.valid
            (segment_at-AreWords m info (u32 (segments + n * 32)) h image)
            o
        → ((q : UserPages)
            → IsUser q
            → AreLoaded
                (suc n)
                to
                (if holds_entry entry_vaddr (segment m info segments n) then true else known)
                q
                (load_segments m info segments entry_vaddr rounds
                  (suc n)
                  (if holds_entry entry_vaddr (segment m info segments n) then true else known)
                  q))
        → AreLoaded n to known p (load_segments m info segments entry_vaddr (suc rounds) n known p)
    unfolding load_segments
    after_segment rounds n to known p lt u e (not_loaded q v ext new no_room) rest =
        rw e (one_refused q)
    after_segment rounds n to known p lt u e (in_place q ok first) rest = rw e (
        AreLoaded-next n to known p q lt ok first
          (rest q (in_place-IsUser m info (segment m info segments n) ok first u)))

    pub load_segments-AreLoaded :
        (rounds n to : ℕ) (known : Bool) (p : UserPages)
        → n + rounds ≡ to
        → IsUser p
        → AreLoaded n to known p (load_segments m info segments entry_vaddr rounds n known p)
    load_segments-AreLoaded zero n to known p e u =
        let same : n ≡ to = omega arith in
        unfold load_segments in
        rw (← same)
          (all_loaded known p (AreInPlace-none m info segments n p u) (λ found. inl found))
    load_segments-AreLoaded (suc rounds) n to known p e u =
        elim (load_segment-IsSegmentLoaded m info (segment m info segments n) p h u.valid words) [
          | inl (bad, e') ↦ unfold load_segments in rw e' (one_refused p)
          | inr (fine, at) ↦ after_segment rounds n to known p (omega arith) u refl at (λ q u'.
              load_segments-AreLoaded rounds (suc n) to
                (if holds_entry entry_vaddr (segment m info segments n) then true else known) q
                (omega arith) u')
        ]
      where
        words : AreWords info (segment m info segments n)
        words = segment_at-AreWords m info (u32 (segments + n * 32)) h image
