-- ===== src/Platform/Devices.antt =====
-- kernel/include/minemu/platform.h: the register structures of the devices, and where they are.
mod Tests
use minimum_tests.Base.{
  ℕ, zero, suc, ◌+◌, ◌*◌, ◌/◌, ◌%◌, ◌≤◌, ◌<◌, ◌≡◌, ◌⊎◌, inl, inr, refl, sym, ap, subst, ◌∙◌, ◌==◌,
  if◌then◌else◌, List, [], ◌∷◌, arith,
}

-- The names of the fields, across all structures.
pub data Field : Type 0 where
  pending enable claim eoi priority_systick priority_uart0 priority_uart1 priority_block : Field
  period control status ack : Field
  command lba sector_count dma_paddr error unit : Field
  seed word state : Field
  rx_data tx_data : Field
  event : Field

pub data Structure : Type 0 where
  interrupt_regs systick_regs block_regs rng_regs uart_regs trace_regs : Structure

-- The fields in their order. Each is a `uint32_t`, and the structures are packed. `word` is the
-- field `data` of the generator.
abbrev pub fields : Structure → List Field
fields interrupt_regs =
    pending ∷ enable ∷ claim ∷ eoi ∷ priority_systick ∷ priority_uart0 ∷ priority_uart1
    ∷ priority_block ∷ []
fields systick_regs = period ∷ control ∷ status ∷ ack ∷ []
fields block_regs =
    command ∷ lba ∷ sector_count ∷ dma_paddr ∷ status ∷ error ∷ ack ∷ control ∷ unit ∷ []
fields rng_regs = seed ∷ word ∷ state ∷ []
fields uart_regs = rx_data ∷ tx_data ∷ status ∷ control ∷ []
fields trace_regs = event ∷ []

abbrev pub sizeof : List Field → ℕ
sizeof [] = 0
sizeof (field ∷ fields) = 4 + sizeof fields

pub data Device : Type 0 where
  interrupt systick block rng uart0 uart1 trace : Device

-- `MINEMU_INTERRUPT_BASE` and so on
abbrev pub base_of : Device → ℕ
base_of interrupt = 0x10000000
base_of systick = 0x10001000
base_of block = 0x10002000
base_of rng = 0x10003000
base_of uart0 = 0x10004000
base_of uart1 = 0x10005000
base_of trace = 0x1000f000

-- The type of `MINEMU_INTERRUPT` and so on.
abbrev pub structure_of : Device → Structure
structure_of interrupt = interrupt_regs
structure_of systick = systick_regs
structure_of block = block_regs
structure_of rng = rng_regs
structure_of uart0 = uart_regs
structure_of uart1 = uart_regs
structure_of trace = trace_regs

abbrev pub mmio_page_size : ℕ
mmio_page_size = 0x1000

-- Field `f` stands at `offset` in a structure of those fields.
pub data IsFieldAt (f : Field) : List Field → (offset : ℕ) → Type 0 where
  here : (rest : List Field) (offset : ℕ) → offset ≡ 0 → IsFieldAt f (f ∷ rest) offset
  later :
      (g : Field) (rest : List Field) (before offset : ℕ)
      → offset ≡ 4 + before
      → IsFieldAt f rest before
      → IsFieldAt f (g ∷ rest) offset

abbrev pub IsRegister : Device → Field → (address : ℕ) → Type 0
IsRegister d f address =
    (offset : ℕ) × IsFieldAt f (fields (structure_of d)) offset × (address ≡ base_of d + offset)

IsFieldAt-bounds :
    (f : Field) (l : List Field) (offset : ℕ)
    → IsFieldAt f l offset
    → (offset + 4 ≤ sizeof l) × (offset % 4 ≡ 0)
IsFieldAt-bounds f _ _ (here rest offset e) = omega arith
IsFieldAt-bounds f _ _ (later g rest before offset e at) =
    omega (arith, IsFieldAt-bounds f rest before at)

IsFieldAt-unique :
    (f g : Field) (l : List Field) (a b : ℕ) → IsFieldAt f l a → IsFieldAt g l b → a ≡ b → f ≡ g
IsFieldAt-unique f g _ _ _ (here rest a e) (here _ b e') same = refl
IsFieldAt-unique f g _ _ _ (here rest a e) (later _ _ before b e' at) same = absurd (omega arith)
IsFieldAt-unique f g _ _ _ (later _ rest before a e at) (here _ b e') same = absurd (omega arith)
IsFieldAt-unique f g _ _ _ (later _ rest before a e at) (later _ _ before' b e' at') same =
    IsFieldAt-unique f g rest before before' at at' (omega arith)

structure_fits : (d : Device) → sizeof (fields (structure_of d)) ≤ mmio_page_size
structure_fits interrupt = omega arith
structure_fits systick = omega arith
structure_fits block = omega arith
structure_fits rng = omega arith
structure_fits uart0 = omega arith
structure_fits uart1 = omega arith
structure_fits trace = omega arith

abbrev device_at : (page : ℕ) → Device
device_at page =
    if page == 0x10000
    then interrupt
    else if page == 0x10001
    then systick
    else if page == 0x10002
    then block
    else if page == 0x10003
    then rng
    else if page == 0x10004
    then uart0
    else if page == 0x10005
    then uart1
    else trace

device_at-base_of : (d : Device) → (device_at (base_of d / 4096) ≡ d) × (base_of d % 4096 ≡ 0)
device_at-base_of interrupt = (refl, refl)
device_at-base_of systick = (refl, refl)
device_at-base_of block = (refl, refl)
device_at-base_of rng = (refl, refl)
device_at-base_of uart0 = (refl, refl)
device_at-base_of uart1 = (refl, refl)
device_at-base_of trace = (refl, refl)

base_of_unique : (d d' : Device) → base_of d ≡ base_of d' → d ≡ d'
base_of_unique d d' e =
    sym (device_at-base_of d).0
    ∙ (ap (λ (base : ℕ). device_at (base / 4096)) e ∙ (device_at-base_of d').0)

-- Every register is an aligned word inside the page of its device, and no two registers, of
-- whichever devices, have the same address.
pub registers_apart :
    (d : Device) (f : Field) (address : ℕ)
    → IsRegister d f address
    → (address % 4 ≡ 0)
      × (base_of d ≤ address)
      × (address + 4 ≤ base_of d + mmio_page_size)
      × ((d' : Device) (g : Field) → IsRegister d' g address → (d ≡ d') × (f ≡ g))
registers_apart d f address (offset, at, e) = (
  omega (arith, IsFieldAt-bounds f (fields (structure_of d)) offset at, device_at-base_of d),
  omega arith,
  omega (arith, IsFieldAt-bounds f (fields (structure_of d)) offset at, structure_fits d),
  same,
)
  where
    same : (d' : Device) (g : Field) → IsRegister d' g address → (d ≡ d') × (f ≡ g)
    same d' g (offset', at', e') =
        let device : d ≡ d' = base_of_unique d d' (
          omega (
            arith,
            IsFieldAt-bounds f (fields (structure_of d)) offset at,
            IsFieldAt-bounds g (fields (structure_of d')) offset' at',
            structure_fits d,
            structure_fits d',
            device_at-base_of d,
            device_at-base_of d',
          )) in
        let there : IsFieldAt g (fields (structure_of d)) offset' =
          subst (λ (x : Device). IsFieldAt g (fields (structure_of x)) offset') (sym device) at' in
        (
          device,
          IsFieldAt-unique f g (fields (structure_of d)) offset offset' at there
              (omega (arith, ap base_of device)),
        )
