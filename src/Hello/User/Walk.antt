-- ===== src/Hello/User/Walk.antt =====
-- How the processor reads the user's memory: through the tables that the kernel has written.
use minimum_tests.Base.{ℕ, ◌+◌, ◌-◌, ◌*◌, ◌/◌, ◌%◌, ◌^◌, ◌≤◌, ◌<◌, ◌≡◌, ◌∙◌, ap, arith}
use minimum_tests.Memory.{Memory, word_at}
use minimum_tests.Hello.Pages.{UserPages}
use minimum_tests.Hello.Tables.{Layout, Tables}
use minimum_tests.Hello.Tables.Filled.{IsLinked}
use minimum_tests.Hello.Module.{Loader}
use minimum_tests.Hello.Module.Table.{IsUser, IsUserMapped}

-- A read of an aligned word by the processor, for tables, physical memory and an address: where the
-- directory names the user's page table, and the entry there is valid and readable, it is the word
-- at that offset of the frame.
abbrev pub IsMmu : Layout → (read : Tables → Memory → ℕ → ℕ) → Type 0
IsMmu layout read =
    (t : Tables) (physical : Memory) (a : ℕ)
    → a % 4 ≡ 0
    → t.directory (a / 2 ^ 22) ≡ layout.user_page_table - 0x80000000 + 1
    → t.user (a / 4096 % 1024) % 2 ≡ 1
    → t.user (a / 4096 % 1024) / 16 % 2 ≡ 1
    → read t physical a ≡ word_at physical (t.user (a / 4096 % 1024) / 4096 * 4096 + a % 4096)

-- The linker has put the array of pages at its address in the direct map of physical memory.
abbrev pub ArePlaced : Layout → (physical : Loader → Memory) → Type 0
ArePlaced layout physical =
    (l : Loader) (i b : ℕ)
    → i < 16
    → b < 4096
    → physical l (layout.user_image_pages + i * 4096 - 0x80000000 + b) ≡ l.pages.bytes i b

-- An aligned word of a readable page is what the page holds there.
abbrev pub Reads : (fetch : ℕ → ℕ) → UserPages → Type 0
Reads fetch p =
    (i b : ℕ)
    → i < p.count
    → b + 4 ≤ 4096
    → b % 4 ≡ 0
    → p.flags i / 16 % 2 ≡ 1
    → fetch (p.vaddrs i + b) ≡ word_at (p.bytes i) b

module _ (layout : Layout) (frames : IsLinked layout.user_image_pages 16)
    (read : Tables → Memory → ℕ → ℕ) (mmu : IsMmu layout read) (physical : Loader → Memory)
    (placed : ArePlaced layout physical) where
  placed_word :
      (l : Loader) (i b a : ℕ)
      → i < 16
      → b + 4 ≤ 4096
      → a ≡ layout.user_image_pages + i * 4096 - 0x80000000 + b
      → word_at (physical l) a ≡ word_at (l.pages.bytes i) b
  unfolding word_at
  placed_word l i b a lt room e = ground (
    arith,
    e,
    placed l i b lt,
    placed l i (b + 1) lt,
    placed l i (b + 2) lt,
    placed l i (b + 3) lt,
  )

  -- Through the tables that the loader has written, the processor reads the loaded pages.
  pub IsUserMapped-Reads :
      (before l : Loader)
      → IsUserMapped layout before l
      → IsUser l.pages
      → Reads (read l.tables (physical l)) l.pages
  IsUserMapped-Reads before l mapped user i b li room aligned readable =
      let a : ℕ = l.pages.vaddrs i + b in
      let page : l.pages.vaddrs i % 4096 ≡ 0 = user.valid.aligned i li in
      let low = user.lower i li in
      let high = user.upper i li in
      let index : a / 4096 % 1024 ≡ l.pages.vaddrs i / 4096 % 1024 = omega arith in
      let entry : l.tables.user (a / 4096 % 1024)
          ≡ layout.user_image_pages + i * 4096 - 0x80000000 + 5 + l.pages.flags i =
        ap l.tables.user index ∙ mapped.pages i li in
      let directory : a / 2 ^ 22 ≡ 1 = omega arith in
      let permissions = user.permissions i li in
      let few = user.valid.few in
      mmu l.tables (physical l) a (omega arith) (ap l.tables.directory directory ∙ mapped.linked_in)
        (omega (arith, entry, permissions, frames.aligned, frames.low))
        (omega (arith, entry, permissions, frames.aligned, frames.low))
      ∙ placed_word l i b _ (omega arith) room
          (omega (arith, entry, permissions, frames.aligned, frames.low))
