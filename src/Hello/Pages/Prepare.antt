-- ===== src/Hello/Pages/Prepare.antt =====
-- `prepare_user_range`: every page that a range touches is there afterwards.
use minimum_tests.Base.{
  ℕ, zero, suc, ◌+◌, ◌-◌, ◌*◌, ◌/◌, ◌%◌, ◌^◌, ◌≤◌, ◌<◌, ◌≡◌, ◌∙◌, ◌⊎◌, refl, inl, inr, true,
  bit_and, u32, ltb, arith, Bool-cases,
}
use minimum_tests.Bits.{bit_and_aligned, bit_and_mask}
use minimum_tests.Hello.Pages.{
  UserPages, Outcome, done, refused, prepare_from, prepare_user_range, page_size, pte_page_mask,
  prepare_rounds,
}
use minimum_tests.Hello.Pages.Valid.{IsValid, Extends, Extends-refl, Extends-trans}
use minimum_tests.Hello.Pages.Index.{user_page_index-IsIndexed}

-- The mask cuts an address down to its page.
pub page_mask : (a : ℕ) → a < 2 ^ 32 → bit_and a pte_page_mask ≡ a - a % 4096
page_mask a h = omega (arith, bit_and_aligned 12 a (2 ^ 20 - 1), bit_and_mask 20 (a / 4096))

-- `p` has a page at that address, with those flags.
abbrev pub IsMapped : UserPages → (page_vaddr flags : ℕ) → Type 0
IsMapped p page_vaddr flags =
    (i : ℕ) × (i < p.count) × (p.vaddrs i ≡ page_vaddr) × (p.flags i ≡ flags)

pub IsMapped-Extends :
    {p p' : UserPages} (page_vaddr flags : ℕ)
    → Extends p p'
    → IsMapped p page_vaddr flags
    → IsMapped p' page_vaddr flags
IsMapped-Extends page_vaddr flags e (i, lt, v, f) =
    (i, omega (arith, e.grows), e.vaddrs i lt ∙ v, e.flags i lt ∙ f)

-- The pages of `p'` that `p` did not have lie in a range and have those flags.
abbrev pub AreAdded : (p p' : UserPages) (page stop flags : ℕ) → Type 0
AreAdded p p' page stop flags =
    (j : ℕ)
    → j < p'.count
    → (j < p.count) ⊎ ((page ≤ p'.vaddrs j) × (p'.vaddrs j < stop) × (p'.flags j ≡ flags))

-- How the loop ends from `page` on: all pages up to `stop` are mapped, or it returns false.
pub data IsPrepared (p : UserPages) (page stop flags : ℕ) : Outcome (Unit {0}) → Type 0 where
  ready :
      (p' : UserPages)
      → IsValid p'
      → Extends p p'
      → AreAdded p p' page stop flags
      → ((k : ℕ) → page + k * 4096 < stop → IsMapped p' (page + k * 4096) flags)
      → IsPrepared p page stop flags (done tt p')
  failed :
      (p' : UserPages)
      → IsValid p'
      → Extends p p'
      → AreAdded p p' page stop flags
      → IsPrepared p page stop flags (refused p')

IsPrepared-next :
    {p q : UserPages} (page next stop flags : ℕ) {r : Outcome (Unit {0})}
    → next ≡ page + 4096
    → Extends p q
    → IsMapped q page flags
    → AreAdded p q page stop flags
    → IsPrepared q next stop flags r
    → IsPrepared p page stop flags r
IsPrepared-next {p} {q} page next stop flags step e here new (ready p' v e' new' mapped) =
    ready p' v (Extends-trans e e')
      (λ j lj. ground (arith, new' j lj, new j, e'.vaddrs j, e'.flags j)) all
  where
    all : (k : ℕ) → page + k * 4096 < stop → IsMapped p' (page + k * 4096) flags
    all zero lt =
        let same : page + 0 * 4096 ≡ page = omega arith in
        rw same (IsMapped-Extends page flags e' here)
    all (suc k) lt =
        let same : page + suc k * 4096 ≡ next + k * 4096 = omega arith in
        rw same (mapped k (omega arith))
IsPrepared-next page next stop flags step e here new (failed p' v e' new') =
    failed p' v (Extends-trans e e')
      (λ j lj. ground (arith, new' j lj, new j, e'.vaddrs j, e'.flags j))

prepare_from-IsPrepared :
    (rounds page stop flags : ℕ) (p : UserPages)
    → IsValid p
    → page % 4096 ≡ 0
    → stop + 4096 ≤ 2 ^ 32
    → page < stop + 4096
    → stop + 4096 ≤ page + rounds * 4096
    → IsPrepared p page stop flags (prepare_from rounds page stop flags p)
unfolding prepare_from
prepare_from-IsPrepared zero page stop flags p v aligned low near enough = absurd (omega arith)
prepare_from-IsPrepared (suc rounds) page stop flags p v aligned low near enough =
    elim (Bool-cases (ltb page stop)) [
      | inr over ↦
          rw over (ready p v (Extends-refl p) (λ j lj. inl lj) (λ k lt. absurd (ground arith)))
      | inl below ↦
          let small : page < stop = ground arith in
          rw below (elim (user_page_index-IsIndexed page flags true p v aligned) [
            | inr (r, why) ↦ rw r (failed p v (Extends-refl p) (λ j lj. inl lj))
            | inl (i, q, r, ix) ↦ rw r (
                IsPrepared-next page (u32 (page + page_size)) stop flags (omega arith) ix.extends
                  (i, ix.within, ix.vaddr, ix.flags_ok refl) (λ j lj. ground (arith, ix.added j lj))
                  (prepare_from-IsPrepared rounds (u32 (page + page_size)) stop flags q ix.valid
                    (omega arith) low (omega arith) (omega arith)))
          ])
    ]

-- With a valid table, and for a range that ends a page below 4 GiB, `prepare_user_range` ends. It
-- returns true only when every page that the range touches is in the table with the flags asked
-- for; either way the table stays valid, keeps the pages that it had, and gains only pages that the
-- range touches, with those flags.
pub prepare_user_range-IsPrepared :
    (vaddr length flags : ℕ) (p : UserPages)
    → IsValid p
    → vaddr + length + 4096 ≤ 2 ^ 32
    → IsPrepared p
        (vaddr - vaddr % 4096)
        (vaddr + length)
        flags
        (prepare_user_range vaddr length flags p)
unfolding prepare_user_range
prepare_user_range-IsPrepared vaddr length flags p v fits =
    rw (page_mask vaddr (omega arith), stop)
      (prepare_from-IsPrepared prepare_rounds (vaddr - vaddr % 4096) (vaddr + length) flags p v
        (omega arith) fits (omega arith) (omega arith))
  where
    stop : u32 (vaddr + length) ≡ vaddr + length
    stop = omega arith
