-- ===== src/Hello/Module/Segments.antt =====
-- What several segments look like in the pages.
use minimum_tests.Base.{
  ℕ, suc, ◌+◌, ◌-◌, ◌*◌, ◌%◌, ◌≤◌, ◌<◌, ◌≡◌, ◌⊎◌, inl, inr, refl, ◌∙◌, dec_lt, u32, arith,
}
use minimum_tests.Memory.{Memory}
use minimum_tests.Platform.BootInfo.{BootInfo}
use minimum_tests.Hello.Image.{ModuleSegment, segment_at}
use minimum_tests.Hello.Pages.{UserPages}
use minimum_tests.Hello.Pages.Prepare.{IsMapped}
use minimum_tests.Hello.Module.{pte_flags_from_segment}
use minimum_tests.Hello.Module.Flags.{pte_flags_from_segment-bits}
use minimum_tests.Hello.Module.InPlace.{IsLoadable, IsInPlace, user_content}
use minimum_tests.Hello.Module.Table.{IsUser, ArePermissions}

pte_flags-ArePermissions : (flags : ℕ) → ArePermissions (pte_flags_from_segment flags)
pte_flags-ArePermissions flags =
    rw (pte_flags_from_segment-bits flags) (omega arith, omega arith, omega arith)

-- The pages that a loadable segment adds lie in the user's image and have its permissions.
pub in_place-IsUser :
    (m : Memory) (info : BootInfo) (s : ModuleSegment) {p q : UserPages}
    → IsLoadable info s
    → IsInPlace m info s p q
    → IsUser p
    → IsUser q
in_place-IsUser m info s {p} {q} ok at u = record {
  valid = at.valid;
  lower = λ i lt. elim (at.added i lt) [
    | inl old ↦ omega (arith, u.lower i old, at.vaddrs_kept i old)
    | inr (lo, hi, f) ↦ omega (arith, ok.from_base)
  ];
  upper = λ i lt. elim (at.added i lt) [
    | inl old ↦ omega (arith, u.upper i old, at.vaddrs_kept i old)
    | inr (lo, hi, f) ↦ omega (arith, ok.below_stack)
  ];
  permissions = λ i lt. elim (at.added i lt) [
    | inl old ↦ rw (at.flags_kept i old) (u.permissions i old)
    | inr (lo, hi, f) ↦ rw f (pte_flags-ArePermissions s.flags)
  ];
}

abbrev pub IsOutside : ModuleSegment → (address : ℕ) → Type 0
IsOutside s address = (address < s.virtual_address) ⊎ (s.virtual_address + s.memory_size ≤ address)

module _ (m : Memory) (info : BootInfo) (segments : ℕ) where
  abbrev pub segment : ℕ → ModuleSegment
  segment k = segment_at m (u32 (segments + k * 32))

  -- A page that the segment touches, with the segment's permissions.
  abbrev pub IsTouched : (k page flags : ℕ) → Type 0
  IsTouched k page flags =
      ((segment k).virtual_address - (segment k).virtual_address % 4096 ≤ page)
      × (page < (segment k).virtual_address + (segment k).memory_size)
      × (flags ≡ pte_flags_from_segment (segment k).flags)

  -- From the pages `p` to the pages `q`, once the segments from `from` up to `to` are in place.
  pub record AreInPlace (from to : ℕ) (p q : UserPages) : Type 0 where
    pub user : IsUser q
    pub grows : p.count ≤ q.count
    pub vaddrs_kept : (i : ℕ) → i < p.count → q.vaddrs i ≡ p.vaddrs i
    pub flags_kept : (i : ℕ) → i < p.count → q.flags i ≡ p.flags i
    pub loadable : (k : ℕ) → from ≤ k → k < to → IsLoadable info (segment k)
    pub mapped :
        (k j : ℕ)
        → from ≤ k
        → k < to
        → j < (segment k).memory_size
        → IsMapped q
            ((segment k).virtual_address + j - ((segment k).virtual_address + j) % 4096)
            (pte_flags_from_segment (segment k).flags)
    pub content :
        (k i b j : ℕ)
        → from ≤ k
        → k < to
        → i < q.count
        → b < 4096
        → j < (segment k).memory_size
        → q.vaddrs i + b ≡ (segment k).virtual_address + j
        → ((n : ℕ) → k < n → n < to → IsOutside (segment n) (q.vaddrs i + b))
        → q.bytes i b ≡ user_content m info (segment k) j
    pub others :
        (i b : ℕ)
        → i < p.count
        → b < 4096
        → ((n : ℕ) → from ≤ n → n < to → IsOutside (segment n) (p.vaddrs i + b))
        → q.bytes i b ≡ p.bytes i b
    -- Each page is one of `p`, or one of the segments touches it.
    pub added :
        (i : ℕ)
        → i < q.count
        → (i < p.count) ⊎ ((k : ℕ) × (from ≤ k) × (k < to) × IsTouched k (q.vaddrs i) (q.flags i))

  pub AreInPlace-none : (n : ℕ) (p : UserPages) → IsUser p → AreInPlace n n p p
  AreInPlace-none n p u = record {
    user = u;
    grows = omega arith;
    vaddrs_kept = λ i lt. refl;
    flags_kept = λ i lt. refl;
    loadable = λ k lo hi. absurd (omega arith);
    mapped = λ k j lo hi. absurd (omega arith);
    content = λ k i b j lo hi. absurd (omega arith);
    others = λ i b li lb off. refl;
    added = λ i li. inl li;
  }

  -- A page of `q` that holds an address of the segment was there before what follows.
  mapped_before :
      (n to : ℕ) (q r : UserPages) (i b j : ℕ)
      → AreInPlace (suc n) to q r
      → j < (segment n).memory_size
      → IsMapped q
          ((segment n).virtual_address + j - ((segment n).virtual_address + j) % 4096)
          (pte_flags_from_segment (segment n).flags)
      → i < r.count
      → b < 4096
      → r.vaddrs i + b ≡ (segment n).virtual_address + j
      → i < q.count
  mapped_before n to q r i b j rest lj (i', li', here, f) li lb at =
      let same : i ≡ i' =
        rest.user.valid.distinct i i' li (omega (arith, rest.grows))
          (omega (arith, rest.vaddrs_kept i' li', rest.user.valid.aligned i li)) in
      omega arith

  pub AreInPlace-next :
      (n to : ℕ) (p q r : UserPages)
      → n < to
      → IsLoadable info (segment n)
      → IsInPlace m info (segment n) p q
      → AreInPlace (suc n) to q r
      → AreInPlace n to p r
  AreInPlace-next n to p q r lt ok first rest = record {
    user = rest.user;
    grows = omega (arith, first.grows, rest.grows);
    vaddrs_kept = λ i li. rest.vaddrs_kept i (omega (arith, first.grows)) ∙ first.vaddrs_kept i li;
    flags_kept = λ i li. rest.flags_kept i (omega (arith, first.grows)) ∙ first.flags_kept i li;
    loadable = λ k lo hi. elim (dec_lt n k) [
      | yes later ↦ rest.loadable k (omega arith) hi
      | no now ↦ let e : k ≡ n = omega arith in rw e ok
    ];
    mapped = λ k j lo hi. elim (dec_lt n k) [
      | yes later ↦ rest.mapped k j (omega arith) hi
      | no now ↦ let e : k ≡ n = omega arith in rw e (λ lj. still_mapped (first.mapped j lj))
    ];
    content = λ k i b j lo hi li lb. elim (dec_lt n k) [
      | yes later ↦ rest.content k i b j (omega arith) hi li lb
      | no now ↦
          let e : k ≡ n = omega arith in
          rw e (λ lj at off.
            let old : i < q.count =
              mapped_before n to q r i b j rest lj (first.mapped j lj) li lb at in
            let same : r.vaddrs i ≡ q.vaddrs i = rest.vaddrs_kept i old in
            rest.others i b old lb (λ x lo' hi'. rw (← same) (off x lo' hi'))
            ∙ first.content i b j old lb lj (omega (arith, same)))
    ];
    others = λ i b li lb off.
        rest.others i b (omega (arith, first.grows)) lb
          (λ x lo hi. rw (first.vaddrs_kept i li) (off x (omega arith) hi))
        ∙ first.others i b li lb (off n (omega arith) lt);
    added = λ i li. elim (rest.added i li) [
      | inr (k, lo, hi, touched) ↦ inr (k, omega arith, hi, touched)
      | inl old ↦ elim (first.added i old) [
        | inl older ↦ inl older
        | inr now ↦ inr (n, omega arith, lt, rw (rest.vaddrs_kept i old, rest.flags_kept i old) now)
      ]
    ];
  }
    where
      still_mapped : {page flags : ℕ} → IsMapped q page flags → IsMapped r page flags
      still_mapped (i, li, at, f) =
          (i, omega (arith, rest.grows), rest.vaddrs_kept i li ∙ at, rest.flags_kept i li ∙ f)
