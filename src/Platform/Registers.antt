-- ===== src/Platform/Registers.antt =====
-- kernel/include/minemu/platform.h: the addresses of the device registers and their bits.
use minimum_tests.Base.{ℕ, ◌+◌}

abbrev pub interrupt_base : ℕ
interrupt_base = 0x10000000

abbrev pub interrupt_pending : ℕ
interrupt_pending = interrupt_base

abbrev pub interrupt_enable : ℕ
interrupt_enable = interrupt_base + 4

abbrev pub interrupt_claim : ℕ
interrupt_claim = interrupt_base + 8

abbrev pub interrupt_eoi : ℕ
interrupt_eoi = interrupt_base + 12

abbrev pub priority_uart0 : ℕ
priority_uart0 = interrupt_base + 20

abbrev pub priority_uart1 : ℕ
priority_uart1 = interrupt_base + 24

abbrev pub irq_systick : ℕ
irq_systick = 0

abbrev pub irq_uart0 : ℕ
irq_uart0 = 1

abbrev pub irq_uart1 : ℕ
irq_uart1 = 2

abbrev pub irq_block : ℕ
irq_block = 3

abbrev pub irq_none : ℕ
irq_none = 0xffffffff

abbrev pub systick_base : ℕ
systick_base = 0x10001000

abbrev pub systick_period : ℕ
systick_period = systick_base

abbrev pub systick_control : ℕ
systick_control = systick_base + 4

abbrev pub systick_status : ℕ
systick_status = systick_base + 8

abbrev pub systick_ack : ℕ
systick_ack = systick_base + 12

abbrev pub systick_control_enable : ℕ
systick_control_enable = 1

abbrev pub systick_control_periodic : ℕ
systick_control_periodic = 2

abbrev pub systick_control_irq_enable : ℕ
systick_control_irq_enable = 4

abbrev pub systick_status_pending : ℕ
systick_status_pending = 1

abbrev pub rng_base : ℕ
rng_base = 0x10003000

abbrev pub block_control : ℕ
block_control = 0x1000201c

abbrev pub status_busy : ℕ
status_busy = 1

abbrev pub error_no_media : ℕ
error_no_media = 1

abbrev pub error_busy : ℕ
error_busy = 2

abbrev pub error_invalid_command : ℕ
error_invalid_command = 3

abbrev pub error_invalid_dma : ℕ
error_invalid_dma = 4

abbrev pub error_invalid_lba : ℕ
error_invalid_lba = 5

abbrev pub error_invalid_unit : ℕ
error_invalid_unit = 7

abbrev pub unit_filesystem : ℕ
unit_filesystem = 0

abbrev pub unit_swap : ℕ
unit_swap = 1

abbrev pub sector_size : ℕ
sector_size = 512

abbrev pub uart_control_rx_irq_enable : ℕ
uart_control_rx_irq_enable = 1
