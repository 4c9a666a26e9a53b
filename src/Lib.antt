-- ===== src/Lib.antt =====
-- A model, with proofs, of the C code of this repository: the reset firmware, the starter kernel
-- and its runtime, and the example programs that kernel work starts from.
--
-- How the parts interact. The firmware (bootloader/src/boot.c) copies the kernel's segments from a
-- packed image in system ROM into RAM, publishes the boot information and enters the kernel. The
-- baseline kernel (kernel/src/core/main.c) checks how it was handed the machine and reports on the
-- trace port. The runtime (kernel/src/runtime) is linked into every kernel: memory functions, the
-- trace port, the fail-stop loop and the block driver. The example examples/user-mode-hello maps the
-- image, loads a user module from it into pages of its own, enters user mode and serves a system
-- call. The examples svc-context-switch and irq-context-switch choose the trap frame that a
-- trampoline returns to.
--
-- Files and code:
--   Base, Bits, Memory    numbers as words, the counted loop, bitwise facts, memory as bytes
--   Platform, BootInfo,
--   TrapFrame             constants and structures of kernel/include/minemu
--   Machine               the bus, the status register, and programs that use them
--   Boot                  bootloader/src/boot.c, function by function: read_u32, write_u16, write_u32,
--                         copy_bytes, zero_bytes, write_boot_info, boot_main
--   Kernel                kernel/src/core/main.c; Kernel/Baseline joins it to the firmware
--   Runtime               trace.c and exception.c of kernel/src/runtime, conformance.h
--   Runtime/Mem           memory.c of kernel/src/runtime, whose text user/lib/src/memory.c repeats
--   Runtime/Block         block.c of kernel/src/runtime
--   Hello/Image           image_range_valid, image_records_valid, bytes_equal and find_module of
--                         examples/user-mode-hello/kernel/main.c
--   Hello/Pages           user_page_index, prepare_user_range, write_user_range
--   Hello/Tables          kernel_vaddr_to_paddr, map_system_rom
--   Hello/Module          pte_flags_from_segment, load_user_module
--   Hello/Syscall         minemu_svc_dispatch, minemu_undefined_dispatch, minemu_abort_dispatch;
--                         Hello/Syscall/Faults runs them over a list of traps
--   Hello/Start           minemu_kernel_main; Hello/Start/Booted joins it to the firmware
--   Hello/User            user/main.c and user/syscall.S of the same example, as the traps they
--                         make; Hello/User/Hosted joins firmware, kernel and program
--   Switch                the dispatchers of svc-context-switch/main.c and irq-context-switch/main.c,
--                         and in Switch/Main their kernel mains
--   MmioBasics            examples/mmio-basics/main.c
--   UserLib               user/lib/src/memory.c
--   Headless              rng-trace/main.c and uart/main.c under headless
--   Headless/Ensures,
--   Headless/Tells        how programs with assertions end, and what they do to a view of the log
--   Headless/Interrupts   headless/interrupts/main.c: the dispatcher; in Main the script
--   Headless/Exceptions   headless/exceptions/main.c: the dispatchers; in Main the script
--   Headless/Mmu          headless/mmu/main.c
--   Headless/Block        headless/block/main.c and headless/block-unattached/main.c
--   Headless/TtbrSwitch   headless/ttbr-switch/main.c
--   Platform/Mmu,
--   Platform/Registers    mmu.h and the registers of platform.h
--   Platform/Devices      the register structures of platform.h and their addresses
--
-- State. Words and bytes are natural numbers, with the wrap-around of unsigned arithmetic written
-- out. Memory is a function from addresses to bytes. An array is a function of its index. A static
-- variable is a field of a record that is passed along. Code that touches devices is a function
-- from a machine to a result: the machine has the devices, the status register and a log of what
-- the program has done, and the result is a value, the fail-stop loop, or a poll that has used up
-- its rounds.
-- The loader of the example reads the image in system ROM and writes statics in RAM, so its memory
-- is a parameter beside the statics that it returns.
-- The devices are not part of the repository: how they answer a load or a store is the parameter
-- `Bus`, which is arbitrary in every theorem. So is the user's code that a system call interrupts.
-- In the programs under headless the bus also holds the words that the processor reads or writes by
-- itself (page tables, pages, the buffer of the block controller, by their addresses), and it is
-- told of the writes to the coprocessor, so that it may be a TLB. What the processor does between
-- two instructions is a parameter too: the traps that it takes at each step of a script are a list
-- of frames. An instruction that aborts runs again behind its abort, unless the dispatcher has
-- moved its return address past it. How the processor reads user memory is the parameter `read` of
-- Hello/User/Hosted, of which the hypothesis `IsMmu` states the walk of the tables.
--
-- Bounds and fuel. `write_user_range` has one round more than the range has bytes, and each round
-- writes a byte at least. `prepare_user_range` has 2 ^ 20 + 1 rounds, as a word holds 2 ^ 20 pages.
-- The polls of devices and the waits for interrupts have a number of rounds that the theorems take
-- as a parameter: the code itself has no bound.
--
-- Not modelled. Most of the assembly: reset and vector code, trampolines, probes, the entry to user
-- mode. Of the timed routines deadline.S and deadlines.S under headless and of syscall.S the accesses
-- and the call are modelled, not the number of cycles. The linker scripts, which place the statics:
-- their addresses are parameters, page aligned and in the direct map where a theorem says so. The
-- image packer, whose documented checks are the hypothesis `IsPacked`. The endless loops of the
-- minimal user program and of the IRQ example's tasks, which have no effect. Exceptions that a
-- program under headless does not install a dispatcher for. The breakpoint macro of debug.h and the
-- constants of platform.h and mmu.h that no code of the repository names.
pub mod Base
pub mod Bits
pub mod Memory
pub mod Boot
pub mod Platform
pub mod Machine
pub mod Runtime
pub mod Kernel
pub mod Hello
pub mod Switch
pub mod Headless
pub mod MmioBasics
pub mod UserLib
