-- ===== src/Platform/Devices/Tests.antt =====
-- The static assertions of platform.h, and registers that the drivers name by their address.
use minimum_tests.Base.{◌+◌, ◌%◌, ◌≤◌, ◌≡◌, refl}
use minimum_tests.Platform.Registers
use minimum_tests.Platform.Devices.{
  Field, Device, Structure, fields, sizeof, mmio_page_size, IsRegister, here, later,
  registers_apart,
}

sizes :
    (sizeof (fields Structure.interrupt_regs) ≡ 32)
    × (sizeof (fields Structure.systick_regs) ≡ 16)
    × (sizeof (fields Structure.block_regs) ≡ 36)
    × (sizeof (fields Structure.rng_regs) ≡ 12)
    × (sizeof (fields Structure.uart_regs) ≡ 16)
    × (sizeof (fields Structure.trace_regs) ≡ 4)
sizes = (refl, refl, refl, refl, refl, refl)

claim_at : IsRegister Device.interrupt Field.claim Registers.interrupt_claim
claim_at = (8, later _ _ 4 8 refl (later _ _ 0 4 refl (here _ 0 refl)), refl)

eoi_at : IsRegister Device.interrupt Field.eoi Registers.interrupt_eoi
eoi_at = (12, later _ _ 8 12 refl (later _ _ 4 8 refl (later _ _ 0 4 refl (here _ 0 refl))), refl)

ack_at : IsRegister Device.systick Field.ack Registers.systick_ack
ack_at = (12, later _ _ 8 12 refl (later _ _ 4 8 refl (later _ _ 0 4 refl (here _ 0 refl))), refl)

registers_apart_example :
    (Registers.interrupt_claim % 4 ≡ 0)
    × (0x10000000 ≤ Registers.interrupt_claim)
    × (Registers.interrupt_claim + 4 ≤ 0x10000000 + mmio_page_size)
    × ((d' : Device) (g : Field)
        → IsRegister d' g Registers.interrupt_claim
        → (Device.interrupt ≡ d') × (Field.claim ≡ g))
registers_apart_example =
    registers_apart Device.interrupt Field.claim Registers.interrupt_claim claim_at
