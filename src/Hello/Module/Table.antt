-- ===== src/Hello/Module/Table.antt =====
-- The user's page table, once the segments are in place.
use minimum_tests.Base.{
  ℕ, suc, ◌+◌, ◌-◌, ◌*◌, ◌/◌, ◌%◌, ◌^◌, ◌≤◌, ◌<◌, ◌≡◌, ◌≢◌, refl, ◌∙◌, bit_or, arith, for_loop,
  for_loop_rule,
}
use minimum_tests.Bits.{bit_or_high, bit_or_flags, bit_or_step, zero-bit_or, bit_and_mask}
use minimum_tests.Hello.Pages.{UserPages}
use minimum_tests.Hello.Pages.Valid.{IsValid}
use minimum_tests.Hello.Tables.{Layout, kernel_vaddr_to_paddr}
use minimum_tests.Hello.Tables.Filled.{IsLinked, kernel_vaddr_to_paddr_lem}
use minimum_tests.Hello.Module.{Loader, user_entry, stack_entry, table_index, map_page, map_user}

-- Permission bits of a page entry: not Valid, not User, and nothing above Readable.
abbrev pub ArePermissions : ℕ → Type 0
ArePermissions f = (f % 2 ≡ 0) × (f / 4 % 2 ≡ 0) × (f < 32)

-- A valid table whose pages lie in the user's image, below the stack.
pub record IsUser (p : UserPages) : Type 0 where
  pub valid : IsValid p
  pub lower : (i : ℕ) → i < p.count → 0x00400000 ≤ p.vaddrs i
  pub upper : (i : ℕ) → i < p.count → p.vaddrs i < 0x007ff000
  pub permissions : (i : ℕ) → i < p.count → ArePermissions (p.flags i)

-- Valid and User beside the permissions.
or_five : (f : ℕ) → ArePermissions f → bit_or 5 f ≡ 5 + f
or_five f h = omega (
  arith,
  bit_or_step 5 f,
  bit_or_step 2 (f / 2),
  bit_or_step 1 (f / 2 / 2),
  zero-bit_or (f / 2 / 2 / 2),
)

table_index_lem : (a : ℕ) → table_index a ≡ a / 4096 % 1024
table_index_lem a = bit_and_mask 10 (a / 4096)

-- The frame at a page-aligned address of the direct map, as a multiple of the page size.
frame_pages :
    (base i pages : ℕ)
    → IsLinked base pages
    → i < pages
    → kernel_vaddr_to_paddr (base + i * 4096) ≡ (base + i * 4096 - 0x80000000) / 4096 * 2 ^ 12
frame_pages base i pages l lt =
    kernel_vaddr_to_paddr_lem (base + i * 4096) (omega (arith, l.low)) (omega (arith, l.high))
    ∙ omega (arith, l.low, l.aligned)

flagged :
    (frame : ℕ) (f : ℕ)
    → ArePermissions f
    → bit_or (bit_or (bit_or (frame * 2 ^ 12) 1) 4) f ≡ frame * 2 ^ 12 + 5 + f
flagged frame f h =
    rw
      (
        bit_or_high 12 frame 1 (omega arith),
        bit_or_flags 12 frame 1 4 (omega arith) (omega arith),
        bit_or_flags 12 frame 5 f (omega arith) (omega arith),
        or_five f h,
      )
      (omega arith)

user_entry-sum :
    (layout : Layout) (p : UserPages) (i : ℕ)
    → IsLinked layout.user_image_pages 16
    → IsUser p
    → i < p.count
    → user_entry layout p i ≡ layout.user_image_pages + i * 4096 - 0x80000000 + 5 + p.flags i
user_entry-sum layout p i l u lt =
    rw (frame_pages layout.user_image_pages i 16 l (omega (arith, u.valid.few))) (
      flagged ((layout.user_image_pages + i * 4096 - 0x80000000) / 4096) (p.flags i)
        (u.permissions i lt)
      ∙ omega (arith, l.low, l.aligned))

stack_entry-sum :
    (layout : Layout)
    → IsLinked layout.user_stack 1
    → stack_entry layout ≡ layout.user_stack - 0x80000000 + 23
stack_entry-sum layout l =
    rw
      (
        frame,
        bit_or_high 12 page 1 (omega arith),
        bit_or_flags 12 page 1 4 (omega arith) (omega arith),
        bit_or_flags 12 page 5 16 (omega arith) (omega arith),
        bit_or_flags 12 page 21 2 (omega arith) (omega arith),
      )
      (omega (arith, l.low, l.aligned))
  where
    page : ℕ
    page = (layout.user_stack - 0x80000000) / 4096

    frame : kernel_vaddr_to_paddr layout.user_stack ≡ page * 2 ^ 12
    frame =
        kernel_vaddr_to_paddr_lem layout.user_stack (omega (arith, l.low)) (omega (arith, l.high))
        ∙ omega (arith, l.low, l.aligned)

table_pde :
    (base : ℕ) → IsLinked base 1 → bit_or (kernel_vaddr_to_paddr base) 1 ≡ base - 0x80000000 + 1
table_pde base l = rw (frame, bit_or_high 12 page 1 (omega arith)) (omega (arith, l.low, l.aligned))
  where
    page : ℕ
    page = (base - 0x80000000) / 4096

    frame : kernel_vaddr_to_paddr base ≡ page * 2 ^ 12
    frame =
        kernel_vaddr_to_paddr_lem base (omega (arith, l.low)) (omega (arith, l.high))
        ∙ omega (arith, l.low, l.aligned)

-- After the first `n` pages: their entries, and no others.
record AreEntered (layout : Layout) (p : UserPages) (before : ℕ → ℕ) (n : ℕ) (table : ℕ → ℕ)
    : Type 0 where
  entered : (i : ℕ) → i < n → table (p.vaddrs i / 4096 % 1024) ≡ user_entry layout p i
  others : (x : ℕ) → ((i : ℕ) → i < n → x ≢ p.vaddrs i / 4096 % 1024) → table x ≡ before x

map_page-AreEntered :
    (layout : Layout) (p : UserPages) (before table : ℕ → ℕ) (n : ℕ)
    → IsUser p
    → n < p.count
    → AreEntered layout p before n table
    → AreEntered layout p before (suc n) (map_page layout p n table)
map_page-AreEntered layout p before table n u lt a = rw (table_index_lem (p.vaddrs n)) (record {
  entered = λ i li. ground (
    arith,
    a.entered i,
    u.valid.distinct i n,
    u.valid.aligned i,
    u.valid.aligned n,
    u.lower i,
    u.lower n,
    u.upper i,
    u.upper n,
  );
  others = λ x off. ground (arith, off n, a.others x (λ i li. off i (omega arith)));
})

-- What the user can reach: each page of the table through its own entry, at the frame that the
-- kernel gave it and with its permissions; the stack, readable and writable; and nothing else.
pub record IsUserMapped (layout : Layout) (before l : Loader) : Type 0 where
  pub pages :
      (i : ℕ)
      → i < l.pages.count
      → l.tables.user (l.pages.vaddrs i / 4096 % 1024)
        ≡ layout.user_image_pages + i * 4096 - 0x80000000 + 5 + l.pages.flags i
  pub stack : l.tables.user 1023 ≡ layout.user_stack - 0x80000000 + 23
  pub nothing_else :
      (x : ℕ)
      → x ≢ 1023
      → ((i : ℕ) → i < l.pages.count → x ≢ l.pages.vaddrs i / 4096 % 1024)
      → l.tables.user x ≡ 0
  pub linked_in : l.tables.directory 1 ≡ layout.user_page_table - 0x80000000 + 1
  pub directory : (d : ℕ) → d ≢ 1 → l.tables.directory d ≡ before.tables.directory d
  pub flushed : l.tables.flushes ≡ before.tables.flushes + 1
  pub pages_same : l.pages ≡ before.pages

module _ (layout : Layout) (l : Loader) (u : IsUser l.pages) where
  all_entered :
      AreEntered layout l.pages l.tables.user l.pages.count
        (for_loop (map_page layout l.pages) l.pages.count 0 l.tables.user)
  all_entered =
      for_loop_rule (map_page layout l.pages) (AreEntered layout l.pages l.tables.user)
        l.pages.count 0 l.pages.count (omega arith)
        (λ i t lt a. map_page-AreEntered layout l.pages l.tables.user t i u lt a)
        (record { entered = λ i li. absurd (omega arith); others = λ x off. refl })

  -- For pages in the user's image, a table that is clear, and statics that are page aligned in the
  -- direct map: the user's table then maps each page at its own frame with its permissions, the
  -- stack readable and writable, and nothing else; directory entry 1 names the table, no other
  -- entry changes, and the TLB is flushed once.
  pub map_user-IsUserMapped :
      IsLinked layout.user_image_pages 16
      → IsLinked layout.user_stack 1
      → IsLinked layout.user_page_table 1
      → ((x : ℕ) → l.tables.user x ≡ 0)
      → IsUserMapped layout l (map_user layout l)
  unfolding map_user
  map_user-IsUserMapped pages stack table clear = record {
    pages = λ i li. ground (
      arith,
      all_entered.entered i li,
      user_entry-sum layout l.pages i pages u li,
      u.valid.aligned i li,
      u.lower i li,
      u.upper i li,
    );
    stack = stack_entry-sum layout stack;
    nothing_else = λ x ne off. ground (arith, all_entered.others x off, clear x);
    linked_in = table_pde layout.user_page_table table;
    directory = λ d ne. ground arith;
    flushed = refl;
    pages_same = refl;
  }
