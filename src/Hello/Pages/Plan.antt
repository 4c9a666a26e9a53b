-- ===== src/Hello/Pages/Plan.antt =====
-- When the table of user pages has room: its pages, and the one wanted, are among those of a plan.
use minimum_tests.Base.{
  ℕ, zero, suc, ◌+◌, ◌-◌, ◌*◌, ◌%◌, ◌^◌, ◌≤◌, ◌<◌, ◌≡◌, ◌∙◌, refl, sym, ap, inl, inr, true, u32,
  ltb, if◌then◌else◌, arith, dec_lt, Bool-cases, pigeonhole,
}
use minimum_tests.Hello.Pages.{
  UserPages, done, user_page_index, prepare_from, prepare_user_range, page_size, prepare_rounds,
}
use minimum_tests.Hello.Pages.Valid.{IsValid}
use minimum_tests.Hello.Pages.Index.{
  IsMissing, IsIndexed, IsRefused, other_flags, not_there, full, user_page_index-IsIndexed,
}
use minimum_tests.Hello.Pages.Prepare.{IsMapped, page_mask}

-- The pages of `p` are pages of `plan`, with the same flags.
abbrev pub AreWithin : (p plan : UserPages) → Type 0
AreWithin p plan = (i : ℕ) → i < p.count → IsMapped plan (p.vaddrs i) (p.flags i)

module _ (plan : UserPages) (ok : IsValid plan) where
  module _ (p : UserPages) (v : IsValid p) (within : AreWithin p plan) (page flags : ℕ)
      (planned : IsMapped plan page flags) where
    -- The pages of the table, and behind them the one wanted.
    abbrev wanted : ℕ → ℕ
    wanted i = if ltb i p.count then p.vaddrs i else page

    slot : (i : ℕ) → (n : ℕ) × (n < plan.count) × (plan.vaddrs n ≡ wanted i)
    slot i = elim (dec_lt i p.count) [
      | yes lt ↦ let (n, ln, at, f) = within i lt in (n, ln, ground arith)
      | no nlt ↦ let (n, ln, at, f) = planned in (n, ln, ground arith)
    ]

    room : IsMissing p page 0 p.count → p.count < plan.count
    room none_here =
        pigeonhole plan.count (suc p.count) (λ i lt. (slot i).0) (λ i lt. (slot i).1) apart
      where
        apart :
            (i j : ℕ) (li : i < suc p.count) (lj : j < suc p.count)
            → (slot i).0 ≡ (slot j).0
            → i ≡ j
        apart i j li lj e = ground (
          arith,
          ap plan.vaddrs e,
          (slot i).2,
          (slot j).2,
          v.distinct i j,
          none_here i,
          none_here j,
        )

    not_refused : IsRefused page flags true p → ⊥
    not_refused (other_flags i lt here c bad) =
        let (n, ln, at, f) = within i lt in
        let (k, lk, at_page, with_flags) = planned in
        let same : n ≡ k = ok.distinct n k ln lk (at ∙ (here ∙ sym at_page)) in
        bad (sym f ∙ (ap plan.flags same ∙ with_flags))
    not_refused (not_there none_here c) = cc
    not_refused (full none_here n) = omega (arith, room none_here, ok.few)

    -- A page of the plan is found or added.
    pub user_page_index-finds :
        page % 4096 ≡ 0
        → (i : ℕ) × (q : UserPages) × (user_page_index page flags true p ≡ done i q)
          × IsIndexed page flags true p i q
    user_page_index-finds aligned = elim (user_page_index-IsIndexed page flags true p v aligned) [
      | inl found ↦ found
      | inr (r, why) ↦ absurd (not_refused why)
    ]

    pub IsIndexed-AreWithin :
        (i : ℕ) (q : UserPages) → IsIndexed page flags true p i q → AreWithin q plan
    IsIndexed-AreWithin i q ix j lj = elim (ix.added j lj) [
      | inl old ↦
          let (n, ln, at, f) = within j old in
          (n, ln, at ∙ sym (ix.extends.vaddrs j old), f ∙ sym (ix.extends.flags j old))
      | inr (at, f) ↦
          let (n, ln, at_page, with_flags) = planned in
          (n, ln, at_page ∙ sym at, with_flags ∙ sym f)
    ]

  prepare_from-succeeds :
      (rounds page stop flags : ℕ) (p : UserPages)
      → IsValid p
      → AreWithin p plan
      → page % 4096 ≡ 0
      → stop + 4096 ≤ 2 ^ 32
      → page < stop + 4096
      → stop + 4096 ≤ page + rounds * 4096
      → ((k : ℕ) → page + k * 4096 < stop → IsMapped plan (page + k * 4096) flags)
      → (q : UserPages) × (prepare_from rounds page stop flags p ≡ done tt q)
  unfolding prepare_from
  prepare_from-succeeds zero page stop flags p v w aligned low near enough all =
      absurd (omega arith)
  prepare_from-succeeds (suc rounds) page stop flags p v w aligned low near enough all =
      elim (Bool-cases (ltb page stop)) [
        | inr over ↦ (p, rw over refl)
        | inl below ↦
            let first : page + 0 * 4096 ≡ page = omega arith in
            let planned : IsMapped plan page flags = rw (← first) (all 0 (ground arith)) in
            let (i, q, r, ix) = user_page_index-finds p v w page flags planned aligned in
            let (q', e) =
              prepare_from-succeeds rounds (page + 4096) stop flags q ix.valid
                (IsIndexed-AreWithin p v w page flags planned i q ix) (omega arith) low
                (ground arith) (omega arith)
                (λ k lt.
                  let later : page + 4096 + k * 4096 ≡ page + suc k * 4096 = omega arith in
                  rw later (all (suc k) (omega arith))) in
            let step : u32 (page + page_size) ≡ page + 4096 = ground arith in
            (q', rw (below, r, step) e)
      ]

  -- A range whose pages are all planned is prepared. An empty one would need its page too.
  pub prepare_user_range-succeeds :
      (vaddr length flags : ℕ) (p : UserPages)
      → IsValid p
      → AreWithin p plan
      → 0 < length
      → vaddr + length + 4096 ≤ 2 ^ 32
      → ((j : ℕ) → j < length → IsMapped plan (vaddr + j - (vaddr + j) % 4096) flags)
      → (q : UserPages) × (prepare_user_range vaddr length flags p ≡ done tt q)
  unfolding prepare_user_range
  prepare_user_range-succeeds vaddr length flags p v w pos fits all =
      rw (page_mask vaddr (omega arith), stop)
        (prepare_from-succeeds prepare_rounds (vaddr - vaddr % 4096) (vaddr + length) flags p v w
          (omega arith) fits (omega arith) (omega arith) pages)
    where
      stop : u32 (vaddr + length) ≡ vaddr + length
      stop = omega arith

      pages :
          (k : ℕ)
          → vaddr - vaddr % 4096 + k * 4096 < vaddr + length
          → IsMapped plan (vaddr - vaddr % 4096 + k * 4096) flags
      pages k lt =
          let j : ℕ = vaddr - vaddr % 4096 + k * 4096 - vaddr in
          let page : vaddr + j - (vaddr + j) % 4096 ≡ vaddr - vaddr % 4096 + k * 4096 =
            omega arith in
          rw (← page) (all j (omega arith))
