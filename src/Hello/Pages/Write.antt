-- ===== src/Hello/Pages/Write.antt =====
-- `write_user_range`: the bytes of a range that may cross pages.
use minimum_tests.Base.{
  ℕ, zero, suc, ◌+◌, ◌-◌, ◌%◌, ◌^◌, ◌≤◌, ◌<◌, ◌≡◌, ◌∙◌, inl, inr, refl, ap, subst, false, Option,
  none, some, bit_and, u32, sub_u32, ◌==◌, arith,
}
use minimum_tests.Memory.{Memory, IsBytes, IsFilled}
use minimum_tests.Hello.Pages.{
  UserPages, done, put, user_page_index, write_chunk, advance, chunk_of, write_from,
  write_user_range, zero_bytes, copy_bytes, pte_page_mask,
}
use minimum_tests.Hello.Pages.Valid.{IsValid, zero_bytes-IsFilled, copy_bytes-IsFilled}
use minimum_tests.Hello.Pages.Index.{
  user_page_index-IsIndexed, IsRefused, not_there, other_flags, full,
}
use minimum_tests.Hello.Pages.Prepare.{page_mask}
use minimum_tests.Hello.Pages.Written.{
  HasPage, source_byte, IsWritten, chunk-IsWritten, IsWritten-append, IsWritten-nothing,
}

chunk_bounds :
    (vaddr length : ℕ)
    → vaddr < 2 ^ 32
    → 0 < length
    → (chunk_of vaddr length ≤ length)
      × (0 < chunk_of vaddr length)
      × (vaddr % 4096 + chunk_of vaddr length ≤ 4096)
unfolding chunk_of
chunk_bounds vaddr length h pos = rw (page_mask vaddr h) (ground arith)

offset_eq :
    (vaddr : ℕ) → vaddr < 2 ^ 32 → sub_u32 vaddr (bit_and vaddr pte_page_mask) ≡ vaddr % 4096
offset_eq vaddr h = rw (page_mask vaddr h) (omega arith)

-- What one round stores into the page that it found.
chunk-IsFilled :
    (from : Memory) (source : Option ℕ) (i offset chunk : ℕ) (p : UserPages)
    → IsBytes from
    → IsBytes (p.bytes i)
    → (b : Memory) × (write_chunk from source i offset chunk p
        ≡ done tt (record p { bytes = put p.bytes i b }))
      × IsFilled (source_byte from source) offset chunk (p.bytes i) b
chunk-IsFilled from none i offset chunk p hf hb =
    (zero_bytes offset chunk (p.bytes i), refl, zero_bytes-IsFilled offset chunk (p.bytes i) hb)
chunk-IsFilled from (some source) i offset chunk p hf hb = (
  copy_bytes offset from source chunk (p.bytes i),
  refl,
  copy_bytes-IsFilled offset from source chunk (p.bytes i) hb hf,
)

-- The page that a round looks up is there.
finds_page :
    (page_vaddr : ℕ) (p : UserPages)
    → IsValid p
    → page_vaddr % 4096 ≡ 0
    → (i : ℕ) × (i < p.count) × (p.vaddrs i ≡ page_vaddr)
    → (i : ℕ) × (user_page_index page_vaddr 0 false p ≡ done i p)
      × (i < p.count)
      × (p.vaddrs i ≡ page_vaddr)
finds_page page_vaddr p v aligned (k, lk, here) =
    elim (user_page_index-IsIndexed page_vaddr 0 false p v aligned) [
      | inl (i, q, r, ix) ↦
          let same = ix.unchanged refl in
          (
            i,
            r ∙ ap (done i) same,
            subst (λ (t : UserPages). i < t.count) same ix.within,
            subst (λ (t : UserPages). t.vaddrs i ≡ page_vaddr) same ix.vaddr,
          )
      | inr (r, why) ↦ absurd (not_refused why)
    ]
  where
    not_refused : IsRefused page_vaddr 0 false p → ⊥
    not_refused (other_flags i lt h c bad) = cc
    not_refused (not_there missing c) = missing k (omega arith) lk here
    not_refused (full missing n) = missing k (omega arith) lk here

-- A round of the loop that finds its page, and leaves `q`.
one_round :
    (rounds : ℕ) (from : Memory) (vaddr : ℕ) (source : Option ℕ) (length i : ℕ) (p q p' : UserPages)
    → 0 < length
    → sub_u32 vaddr (bit_and vaddr pte_page_mask) ≡ vaddr % 4096
    → u32 (vaddr + chunk_of vaddr length) ≡ vaddr + chunk_of vaddr length
    → sub_u32 length (chunk_of vaddr length) ≡ length - chunk_of vaddr length
    → user_page_index (bit_and vaddr pte_page_mask) 0 false p ≡ done i p
    → write_chunk from source i (vaddr % 4096) (chunk_of vaddr length) p ≡ done tt q
    → write_from rounds from
        (vaddr + chunk_of vaddr length)
        (advance source (chunk_of vaddr length))
        (length - chunk_of vaddr length)
        q
      ≡ done tt p'
    → write_from (suc rounds) from vaddr source length p ≡ done tt p'
unfolding write_from
one_round rounds from vaddr source length i p q p' pos offset low left found stores rest =
    rw (nonzero, found, offset, stores, low, left) rest
  where
    nonzero : (length == 0) ≡ false
    nonzero = ground arith

write_from-IsWritten :
    (rounds : ℕ) (from : Memory) (vaddr : ℕ) (source : Option ℕ) (length : ℕ) (p : UserPages)
    → IsBytes from
    → IsValid p
    → length < rounds
    → vaddr + length < 2 ^ 32
    → ((j : ℕ) → j < length → HasPage p (vaddr + j))
    → (p' : UserPages) × (write_from rounds from vaddr source length p ≡ done tt p')
      × IsWritten from vaddr source length p p'
unfolding write_from
write_from-IsWritten zero from vaddr source length p hf v enough fits pages = absurd (omega arith)
write_from-IsWritten (suc rounds) from vaddr source zero p hf v enough fits pages =
    (p, refl, IsWritten-nothing from vaddr source p v)
write_from-IsWritten (suc rounds) from vaddr source (suc l) p hf v enough fits pages =
    let (i, r, lt, here) =
      finds_page page p v (omega (arith, mask)) (i0, lt0, omega (arith, mask, here0)) in
    let (b, stores, filled) = chunk-IsFilled from source i (vaddr % 4096) chunk p hf (v.bytes i) in
    let first =
      chunk-IsWritten from vaddr source chunk i p b v lt (omega (arith, mask, here)) bounds.2
        filled in
    let (p', e, rest) =
      write_from-IsWritten rounds from (vaddr + chunk) (advance source chunk) (suc l - chunk)
        (record p { bytes = put p.bytes i b }) hf first.valid (omega (arith, bounds.1))
        (omega (arith, bounds.0))
        (λ j lj.
          let there : vaddr + chunk + j ≡ vaddr + (chunk + j) = omega arith in
          rw there (pages (chunk + j) (omega (arith, bounds.0)))) in
    (
      p',
      one_round rounds from vaddr source (suc l) i p _ p' (omega arith) offset low left r stores e,
      IsWritten-append from vaddr source chunk (suc l) bounds.0 first rest,
    )
  where
    page : ℕ
    page = bit_and vaddr pte_page_mask

    chunk : ℕ
    chunk = chunk_of vaddr (suc l)

    mask : page ≡ vaddr - vaddr % 4096
    mask = page_mask vaddr (omega arith)

    offset : sub_u32 vaddr page ≡ vaddr % 4096
    offset = offset_eq vaddr (omega arith)

    bounds : (chunk ≤ suc l) × (0 < chunk) × (vaddr % 4096 + chunk ≤ 4096)
    bounds = chunk_bounds vaddr (suc l) (omega arith) (omega arith)

    low : u32 (vaddr + chunk) ≡ vaddr + chunk
    low = omega (arith, bounds.0)

    left : sub_u32 (suc l) chunk ≡ suc l - chunk
    left = omega (arith, bounds.0)

    first_page : HasPage p (vaddr + 0)
    first_page = pages 0 (omega arith)

    i0 : ℕ
    i0 = first_page.0

    lt0 : i0 < p.count
    lt0 = first_page.1

    here0 : p.vaddrs i0 ≡ vaddr - vaddr % 4096
    here0 = omega (arith, first_page.2)

-- With source memory of bytes, a range that ends below 4 GiB, and a valid table that has a page for
-- every address of the range, `write_user_range` returns true, and has stored the source's bytes,
-- or zeros for a NULL source, at exactly those addresses.
pub write_user_range-IsWritten :
    (from : Memory) (vaddr : ℕ) (source : Option ℕ) (length : ℕ) (p : UserPages)
    → IsBytes from
    → IsValid p
    → vaddr + length < 2 ^ 32
    → ((j : ℕ) → j < length → HasPage p (vaddr + j))
    → (p' : UserPages) × (write_user_range from vaddr source length p ≡ done tt p')
      × IsWritten from vaddr source length p p'
unfolding write_user_range
write_user_range-IsWritten from vaddr source length p hf v fits pages =
    write_from-IsWritten (suc length) from vaddr source length p hf v (omega arith) fits pages
