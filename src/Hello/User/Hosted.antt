-- ===== src/Hello/User/Hosted.antt =====
-- The firmware, the kernel of the example and the user program together.
mod Sample
mod Tests
use minimum_tests.Base.{
  ℕ, ◌+◌, ◌-◌, ◌/◌, ◌%◌, ◌≡◌, ◌∙◌, Option, some, refl, sym, ap, subst, [], true, false, u32, arith,
}
use minimum_tests.Memory.{Memory, IsBytes, SameOn}
use minimum_tests.Platform.{system_rom_base, system_rom_size}
use minimum_tests.Platform.BootInfo.{BootInfo, boot_info_at}
use minimum_tests.Platform.TrapFrame.{TrapFrame}
use minimum_tests.Machine.{Bus, Machine, ret}
use minimum_tests.Boot.Image.{IsPacked}
use minimum_tests.Hello.Image.{ModuleRecord, ModuleSegment, module_at}
use minimum_tests.Hello.Image.Find.{Search}
use minimum_tests.Hello.Pages.{UserPages}
use minimum_tests.Hello.Pages.Valid.{IsValid}
use minimum_tests.Hello.Tables.{Layout, Tables}
use minimum_tests.Hello.Module.{Loader, cleared}
use minimum_tests.Hello.Module.Exact.{segment_table}
use minimum_tests.Hello.Start.SameRom.{segment_same, record_same, IsUserHello-same}
use minimum_tests.Hello.Module.Segments.{segment, AreInPlace}
use minimum_tests.Hello.Syscall.{serve}
use minimum_tests.Hello.Syscall.Session.{transcript}
use minimum_tests.Hello.Start.{UserEntry, module_name, kernel_main}
use minimum_tests.Hello.Start.Enter.{IsLaidOut, IsUserEntry}
use minimum_tests.Hello.Start.Exact.{IsStartable, record_at, Search-unique}
use minimum_tests.Hello.Start.Booted.{booted, packed_info, boot_main-SameRom, firmware_enters_user}
use minimum_tests.Hello.User.{message, user_main}
use minimum_tests.Hello.User.Walk.{IsMmu, ArePlaced, IsUserMapped-Reads}
use minimum_tests.Hello.User.Instruction.{IsSvcAt, fetches_svc, IsSvcAt-same}
use minimum_tests.Hello.User.Output.{sent_after, user_main-served}

-- A trap of the program at that instruction, in user mode and A32 code.
pub record IsCallAt (pc : ℕ) (context : TrapFrame) : Type 0 where
  pub svc : context.exception_id ≡ 0xfffffffd
  pub user_mode : context.spsr % 32 ≡ 16
  pub arm_state : context.spsr / 32 % 2 ≡ 0
  pub at_svc : context.fault_pc ≡ pc

module _ (m : Memory) (p : IsPacked m) (ok : IsStartable m (packed_info m p)) (layout : Layout)
    (l : Loader) (laid : IsLaidOut layout) (pages : (i : ℕ) → IsBytes (l.pages.bytes i))
    (stack : IsBytes l.stack) where
  abbrev info : BootInfo
  info = packed_info m p

  -- The module that the kernel starts.
  abbrev pub hello : ModuleRecord
  hello = module_at m (record_at m info ok.index)

  abbrev memory : Memory
  memory = (booted m p).memory

  -- It is the first of its name in the memory that the firmware leaves, too.
  same_module :
      (address : ℕ) {o : Option ℕ}
      → Search info module_name 10 memory
          (u32 (info.system_rom_base + info.module_table_offset))
          0
          info.module_count
          o
      → o ≡ some address
      → module_at memory address ≡ hello
  same_module address result e =
      ap (module_at memory) place
      ∙ record_same m memory rom info ok.mappable ok.index ok.table_fits ok.within
    where
      rom : SameOn system_rom_base system_rom_size m memory
      rom = boot_main-SameRom m p

      unique : some address ≡ some (record_at memory info ok.index)
      unique =
          sym e
          ∙ Search-unique memory info ok.index ok.within
              (IsUserHello-same m memory info ok.index rom ok.mappable ok.table_fits ok.within
                ok.named)
              (λ j lt named. ok.first j lt (
                IsUserHello-same memory m info j (λ a inside. sym (rom a inside)) ok.mappable
                  ok.table_fits (omega (arith, ok.within)) named))
              result

      place : address ≡ record_at memory info ok.index
      place = cc unique

  in_user_memory :
      (e : UserEntry)
      → IsUserEntry layout memory info l e
      → (before : UserPages) × AreInPlace memory info
          (segment_table memory info hello)
          0
          hello.segment_count
          before
          e.loader.pages
  in_user_memory e u =
      let r = same_module u.address u.first refl in
      (
        _,
        subst
            (λ (r : ModuleRecord).
              AreInPlace memory info (segment_table memory info r) 0 r.segment_count
                (cleared (record l { tables = u.tables })).pages e.loader.pages)
            r u.in_place.segments,
      )

  -- The firmware run on a packed image that starts, and then the kernel of the example, enters user
  -- mode. If the user program then traps at an `svc #0` of its file, in an executable segment, in
  -- user mode and A32 code, and the processor reads user memory by walking the tables that the
  -- kernel has written, the kernel serves all its calls, and what goes out is one report and then
  -- "hello world" and a newline on UART 0.
  pub hello_world :
      (read : Tables → Memory → ℕ → ℕ)
      → IsMmu layout read
      → (physical : Loader → Memory) → ArePlaced layout physical
      → (k offset : ℕ) → IsSvcAt m info (segment_table m info hello) hello.segment_count k offset
      → (context : ℕ → TrapFrame)
      → ((index : ℕ)
          → IsCallAt
              ((segment m info (segment_table m info hello) k).virtual_address + offset)
              (context index))
      → {D : Type 0} ⦃bus : Bus D⦄ (s : Machine D)
      → (e : UserEntry) × (s' : Machine D) × (kernel_main layout memory
            (booted m p).argument
            (boot_info_at memory ((booted m p).argument - 0x80000000))
            l
            s
          ≡ ret e s)
        × (serve (read e.loader.tables (physical e.loader)) (user_main context) false s
            ≡ ret true s')
        × (s'.log ≡ transcript (sent_after message []) s.log)
  hello_world read mmu physical placed k offset svc context calls s =
      let (e, run, u) = (firmware_enters_user m p layout l laid pages stack s).0 ok in
      let fetch : ℕ → ℕ = read e.loader.tables (physical e.loader) in
      let (before, at) = in_user_memory e u in
      let there = IsSvcAt-same m memory info hello k offset rom ok.mappable ok.good svc in
      let instruction =
        fetches_svc memory info (segment_table memory info hello) hello.segment_count before
          e.loader.pages ok.mappable.base ok.mappable.fits at k offset there fetch
          (IsUserMapped-Reads layout laid.image_pages read mmu physical placed _ e.loader
            u.in_place.tables at.user) in
      let same = segment_same m memory rom info ok.mappable hello k ok.good.records svc.within in
      let place = ap (λ (t : ModuleSegment). t.virtual_address + offset) (sym same) in
      let (s', served, log) =
        user_main-served fetch context
          (λ index. record {
            svc = (calls index).svc;
            user_mode = (calls index).user_mode;
            arm_state = (calls index).arm_state;
            instruction = ap fetch ((calls index).at_svc ∙ place) ∙ instruction;
          })
          s in
      (e, s', run, served, log)
    where
      rom : SameOn system_rom_base system_rom_size m memory
      rom = boot_main-SameRom m p
