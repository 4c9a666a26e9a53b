-- ===== src/Hello/Pages.antt =====
-- The user pages: their index by virtual address, and reads and writes of ranges that cross them.
pub mod Valid
pub mod Index
pub mod Prepare
pub mod Plan
pub mod Written
pub mod Write
use minimum_tests.Base.{
  ℕ, zero, suc, ◌+◌, ◌-◌, Bool, true, false, not, ◌&&◌, ◌||◌, Option, none, some, bit_and, u32,
  sub_u32, ltb, ◌==◌, ◌!=◌, if◌then◌else◌, for_loop,
}
use minimum_tests.Memory.{Memory, store_byte}

abbrev pub page_size : ℕ
page_size = 4096

abbrev pub pte_page_mask : ℕ
pte_page_mask = 0xfffff000

abbrev pub max_user_image_pages : ℕ
max_user_image_pages = 16

-- The statics of the loader that describe the pages. An array is a function of its index.
pub record UserPages : Type 0 where
  pub vaddrs : ℕ → ℕ
  pub flags : ℕ → ℕ
  pub bytes : ℕ → Memory
  pub count : ℕ

-- How a function that can return false, or -1, ends: with a value, with that failure, or not
-- within the rounds that the model gives a loop.
pub data Outcome (A : Type 0) : Type 0 where
  done : A → UserPages → Outcome A
  refused : UserPages → Outcome A
  unfinished : Outcome A

abbrev pub Load : Type 0 → Type 0
Load A = UserPages → Outcome A

abbrev pub pure : {A : Type 0} → A → Load A
pure a p = done a p

abbrev pub fail : {A : Type 0} → Load A
fail p = refused p

abbrev pub and_then : {A B : Type 0} → Outcome A → (A → Load B) → Outcome B
and_then (done a p) k = k a p
and_then (refused p) k = refused p
and_then unfinished k = unfinished

infixl 5 ◌>>=◌ ◌>>◌
abbrev pub ◌>>=◌ : {A B : Type 0} → Load A → (A → Load B) → Load B
◌>>=◌ m k p = and_then (m p) k

abbrev pub ◌>>◌ : {B : Type 0} → Load (Unit {0}) → Load B → Load B
m >> k = m >>= λ _. k

-- `array[index] = value`
abbrev pub put {ℓ} : {A : Type ℓ} → (ℕ → A) → ℕ → A → ℕ → A
put array index value i = if i == index then value else array i

-- `zero_bytes` and `copy_bytes`, where the destination lies at `offset` in a page.
pub zero_bytes : (offset length : ℕ) → Memory → Memory
zero_bytes offset length = for_loop (λ index b. store_byte b (offset + index) 0) length 0

pub copy_bytes : (offset : ℕ) (from : Memory) (source length : ℕ) → Memory → Memory
copy_bytes offset from source length =
    for_loop (λ index b. store_byte b (offset + index) (from (u32 (source + index)))) length 0

-- The loop of `user_page_index` at `index`, with `rounds` left: `none` if it ends without a
-- return, `some none` for the -1 that it returns on other flags.
pub find_page :
    (page_vaddr flags : ℕ) (create : Bool) (rounds index : ℕ) → UserPages → Option (Option ℕ)
find_page page_vaddr flags create zero index p = none
find_page page_vaddr flags create (suc rounds) index p =
    let rest = find_page page_vaddr flags create rounds (suc index) p in
    if p.vaddrs index == page_vaddr
    then (if create && (p.flags index != flags) then some none else some (some index))
    else rest

abbrev pub add_page : (page_vaddr flags : ℕ) → UserPages → UserPages
add_page page_vaddr flags p = record {
  vaddrs = put p.vaddrs p.count page_vaddr;
  flags = put p.flags p.count flags;
  bytes = put p.bytes p.count (zero_bytes 0 page_size (p.bytes p.count));
  count = p.count + 1;
}

pub user_page_index : (page_vaddr flags : ℕ) (create : Bool) → Load ℕ
user_page_index page_vaddr flags create p = elim (find_page page_vaddr flags create p.count 0 p) [
  | some (some index) ↦ done index p
  | some none ↦ refused p
  | none ↦
      if not create || p.count == max_user_image_pages
      then refused p
      else done p.count (add_page page_vaddr flags p)
]

-- The loop of `prepare_user_range` at `page`.
pub prepare_from : (rounds page stop flags : ℕ) → Load (Unit {0})
prepare_from zero page stop flags = λ p. unfinished
prepare_from (suc rounds) page stop flags =
    let rest = prepare_from rounds (u32 (page + page_size)) stop flags in
    if ltb page stop then (do _ ← user_page_index page flags true; rest) else pure tt

-- 2 ^ 20 pages are the whole address space.
abbrev pub prepare_rounds : ℕ
prepare_rounds = 1_048_577

pub prepare_user_range : (vaddr length flags : ℕ) → Load (Unit {0})
prepare_user_range vaddr length flags =
    prepare_from prepare_rounds (bit_and vaddr pte_page_mask) (u32 (vaddr + length)) flags

-- `source` is NULL (`none`) or a pointer into the image.
abbrev pub write_chunk :
    (from : Memory) (source : Option ℕ) (index offset chunk : ℕ) → Load (Unit {0})
write_chunk from none index offset chunk p =
    done tt (record p { bytes = put p.bytes index (zero_bytes offset chunk (p.bytes index)) })
write_chunk from (some source) index offset chunk p =
    done tt
      (record p { bytes = put p.bytes index (copy_bytes offset from source chunk (p.bytes index)) })

abbrev pub advance : Option ℕ → ℕ → Option ℕ
advance none chunk = none
advance (some source) chunk = some (u32 (source + chunk))

-- The part of the range that lies in its first page.
pub chunk_of : (vaddr length : ℕ) → ℕ
chunk_of vaddr length =
    let offset = sub_u32 vaddr (bit_and vaddr pte_page_mask) in
    let chunk = sub_u32 page_size offset in if ltb length chunk then length else chunk

-- The loop of `write_user_range`; each round writes at least one byte.
pub write_from :
    (rounds : ℕ) (from : Memory) (vaddr : ℕ) (source : Option ℕ) (length : ℕ) → Load (Unit {0})
write_from zero from vaddr source length = λ p. unfinished
write_from (suc rounds) from vaddr source length =
    let page_vaddr = bit_and vaddr pte_page_mask in
    let offset = sub_u32 vaddr page_vaddr in
    let chunk = chunk_of vaddr length in
    let rest =
      write_from rounds from (u32 (vaddr + chunk)) (advance source chunk) (sub_u32 length chunk) in
    if length == 0 then pure tt else do
      index ← user_page_index page_vaddr 0 false
      write_chunk from source index offset chunk
      rest

pub write_user_range :
    (from : Memory) (vaddr : ℕ) (source : Option ℕ) (length : ℕ) → Load (Unit {0})
write_user_range from vaddr source length = write_from (suc length) from vaddr source length
