-- ===== src/Hello/Pages/Index.antt =====
-- The table of user pages: what `user_page_index` finds, adds and refuses.
use minimum_tests.Base.{
  ℕ, zero, suc, ◌+◌, ◌%◌, ◌≤◌, ◌<◌, ◌≡◌, ◌≢◌, ◌⊎◌, inl, inr, refl, Bool, true, false, not, ◌&&◌,
  ◌||◌, Option, none, some, ◌==◌, ◌!=◌, if◌then◌else◌, arith, Bool-cases,
}
use minimum_tests.Memory.{IsFilled}
use minimum_tests.Hello.Pages.{
  UserPages, Outcome, done, refused, add_page, find_page, user_page_index, zero_bytes,
  max_user_image_pages,
}
use minimum_tests.Hello.Pages.Valid.{IsValid, Extends, Extends-refl, zero_bytes-IsFilled}

abbrev pub IsMissing : UserPages → (page_vaddr from to : ℕ) → Type 0
IsMissing p page_vaddr from to = (j : ℕ) → from ≤ j → j < to → p.vaddrs j ≢ page_vaddr

module _ (page_vaddr flags : ℕ) (create : Bool) (p : UserPages) where
  -- How the search of the table ends, from one index to another.
  data Lookup (from to : ℕ) : Option (Option ℕ) → Type 0 where
    found :
        (i : ℕ)
        → i < to
        → p.vaddrs i ≡ page_vaddr
        → (create ≡ true → p.flags i ≡ flags)
        → Lookup from to (some (some i))
    clash :
        (i : ℕ)
        → i < to
        → p.vaddrs i ≡ page_vaddr
        → create ≡ true
        → p.flags i ≢ flags
        → Lookup from to (some none)
    missing : IsMissing p page_vaddr from to → Lookup from to none

  Lookup-suc :
      (from to : ℕ) {r : Option (Option ℕ)}
      → p.vaddrs from ≢ page_vaddr
      → Lookup (suc from) to r
      → Lookup from to r
  Lookup-suc from to ne (found i lt here ok) = found i lt here ok
  Lookup-suc from to ne (clash i lt here c bad) = clash i lt here c bad
  Lookup-suc from to ne (missing later) = missing (λ j ge lt. ground (arith, later j))

  -- One round of the search.
  abbrev tested : (index : ℕ) → Option (Option ℕ) → Option (Option ℕ)
  tested index rest =
      if p.vaddrs index == page_vaddr
      then (if create && (p.flags index != flags) then some none else some (some index))
      else rest

  tested-cases :
      (index : ℕ) (rest : Option (Option ℕ))
      → ((p.vaddrs index ≡ page_vaddr)
          × (create ≡ true)
          × (p.flags index ≢ flags)
          × (tested index rest ≡ some none))
        ⊎ (((p.vaddrs index ≡ page_vaddr)
              × (create ≡ true → p.flags index ≡ flags)
              × (tested index rest ≡ some (some index)))
            ⊎ ((p.vaddrs index ≢ page_vaddr) × (tested index rest ≡ rest)))
  tested-cases index rest = ground arith

  find_page-Lookup :
      (rounds index to : ℕ)
      → index + rounds ≡ to
      → Lookup index to (find_page page_vaddr flags create rounds index p)
  unfolding find_page
  find_page-Lookup zero index to e = missing (λ j ge lt. absurd (omega arith))
  find_page-Lookup (suc rounds) index to e =
      elim (tested-cases index (find_page page_vaddr flags create rounds (suc index) p)) [
        | inl (here, c, bad, r) ↦ rw r (clash index (omega arith) here c bad)
        | inr (inl (here, ok, r)) ↦ rw r (found index (omega arith) here ok)
        | inr (inr (ne, r)) ↦
            rw r (Lookup-suc index to ne (find_page-Lookup rounds (suc index) to (omega arith)))
      ]

  -- Why `user_page_index` returns -1.
  pub data IsRefused : Type 0 where
    other_flags :
        (i : ℕ)
        → i < p.count
        → p.vaddrs i ≡ page_vaddr
        → create ≡ true
        → p.flags i ≢ flags
        → IsRefused
    not_there : IsMissing p page_vaddr 0 p.count → create ≡ false → IsRefused
    full : IsMissing p page_vaddr 0 p.count → p.count ≡ 16 → IsRefused

  pub data Indexed : Outcome ℕ → Type 0 where
    existing :
        (i : ℕ)
        → i < p.count
        → p.vaddrs i ≡ page_vaddr
        → (create ≡ true → p.flags i ≡ flags)
        → Indexed (done i p)
    created :
        IsMissing p page_vaddr 0 p.count
        → create ≡ true
        → p.count ≢ 16
        → Indexed (done p.count (add_page page_vaddr flags p))
    minus_one : IsRefused → Indexed (refused p)

  after_search :
      {r : Option (Option ℕ)}
      → Lookup 0 p.count r
      → find_page page_vaddr flags create p.count 0 p ≡ r
      → Indexed (user_page_index page_vaddr flags create p)
  unfolding user_page_index
  after_search (found i lt here ok) e = rw (e, user_page_index) (existing i lt here ok)
  after_search (clash i lt here c bad) e =
      rw (e, user_page_index) (minus_one (other_flags i lt here c bad))
  after_search (missing none_here) e =
      elim (Bool-cases (not create || p.count == max_user_image_pages)) [
        | inl stop ↦
            rw (e, user_page_index, stop)
              (minus_one
                (elim (why stop) [ inl c ↦ not_there none_here c | inr n ↦ full none_here n ]))
        | inr go ↦ rw (e, user_page_index, go) (created none_here (ground arith) (ground arith))
      ]
    where
      why :
          (not create || p.count == max_user_image_pages) ≡ true → (create ≡ false) ⊎ (p.count ≡ 16)
      why stop = ground arith

  user_page_index-Indexed : Indexed (user_page_index page_vaddr flags create p)
  user_page_index-Indexed = after_search (find_page-Lookup p.count 0 p.count (omega arith)) refl

  add_page-IsValid :
      IsValid p
      → page_vaddr % 4096 ≡ 0
      → IsMissing p page_vaddr 0 p.count
      → p.count ≢ 16
      → IsValid (add_page page_vaddr flags p)
  add_page-IsValid v aligned none_here room = record {
    few = omega (arith, v.few);
    distinct = λ i j li lj. ground (arith, v.distinct i j, none_here i, none_here j);
    aligned = λ i li. ground (arith, v.aligned i);
    bytes = λ i b. ground (arith, v.bytes i b, cleared.bytes b);
  }
    where
      cleared : IsFilled (λ _. 0) 0 4096 (p.bytes p.count) (zero_bytes 0 4096 (p.bytes p.count))
      cleared = zero_bytes-IsFilled 0 4096 (p.bytes p.count) (v.bytes p.count)

  add_page-Extends : Extends p (add_page page_vaddr flags p)
  add_page-Extends = record {
    grows = omega arith;
    vaddrs = λ i lt. ground arith;
    flags = λ i lt. ground arith;
    bytes = λ i b lt. ground arith;
  }

  -- The page that a call names, and what else it keeps.
  pub record IsIndexed (i : ℕ) (p' : UserPages) : Type 0 where
    pub valid : IsValid p'
    pub extends : Extends p p'
    pub within : i < p'.count
    pub vaddr : p'.vaddrs i ≡ page_vaddr
    pub flags_ok : create ≡ true → p'.flags i ≡ flags
    pub unchanged : create ≡ false → p' ≡ p
    pub added :
        (j : ℕ) → j < p'.count → (j < p.count) ⊎ ((p'.vaddrs j ≡ page_vaddr) × (p'.flags j ≡ flags))

  -- For an aligned address, and a table of at most 16 distinct aligned pages of bytes,
  -- `user_page_index` returns the index, inside the table, of the page at that address, and the
  -- page's flags are those asked for when it may create; the table stays such a table, keeps its
  -- pages and gains none but that one, and is left alone if it may not create. It returns -1, with
  -- the table left alone, only for a page that is there with other flags, for one that is not there
  -- and may not be created, and for a full table.
  pub user_page_index-IsIndexed :
      IsValid p
      → page_vaddr % 4096 ≡ 0
      → ((i : ℕ) × (p' : UserPages) × (user_page_index page_vaddr flags create p ≡ done i p')
          × IsIndexed i p')
        ⊎ ((user_page_index page_vaddr flags create p ≡ refused p) × IsRefused)
  user_page_index-IsIndexed v aligned = known user_page_index-Indexed refl
    where
      known :
          {r : Outcome ℕ}
          → Indexed r
          → user_page_index page_vaddr flags create p ≡ r
          → ((i : ℕ) × (p' : UserPages) × (user_page_index page_vaddr flags create p ≡ done i p')
              × IsIndexed i p')
            ⊎ ((user_page_index page_vaddr flags create p ≡ refused p) × IsRefused)
      known (existing i lt here ok) e = inl (
        i,
        p,
        e,
        record {
          valid = v;
          extends = Extends-refl p;
          within = lt;
          vaddr = here;
          flags_ok = ok;
          unchanged = λ c. refl;
          added = λ j lj. inl lj;
        },
      )
      known (created none_here c room) e = inl (
        p.count,
        add_page page_vaddr flags p,
        e,
        record {
          valid = add_page-IsValid v aligned none_here room;
          extends = add_page-Extends;
          within = omega arith;
          vaddr = ground arith;
          flags_ok = λ _. ground arith;
          unchanged = λ c'. cc;
          added = λ j lj. ground arith;
        },
      )
      known (minus_one why) e = inr (e, why)
