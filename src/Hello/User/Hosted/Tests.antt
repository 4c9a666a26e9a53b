-- ===== src/Hello/User/Hosted/Tests.antt =====
-- The sample image from the packed image to the program's output.
use minimum_tests.Base.{ℕ, ◌+◌, ◌/◌, ◌*◌, ◌-◌, ◌%◌, ◌≡◌, ◌↔◌, refl, ap, ◌∙◌, [], true, false, arith}
use minimum_tests.Memory.{Memory, IsBytes, word_at}
use minimum_tests.Machine.{Machine, ret}
use minimum_tests.Machine.Sample.{quiet, idle}
use minimum_tests.Platform.BootInfo.{boot_info_at}
use minimum_tests.Platform.TrapFrame.{TrapFrame}
use minimum_tests.Hello.Image.{module_at, segment_at}
use minimum_tests.Hello.Module.{load_user_module, accepted, Loader}
use minimum_tests.Hello.Module.Segments.{segment}
use minimum_tests.Hello.Module.Exact.{segment_table, IsGood, load_user_module-IsGood}
use minimum_tests.Hello.Start.{UserEntry, kernel_main}
use minimum_tests.Hello.Start.Exact.{record_at, IsStartable, kernel_main-IsStartable}
use minimum_tests.Hello.Start.Booted.{booted, packed_info, firmware_enters_user}
use minimum_tests.Hello.Start.Enter.{IsHandedOver, AreInRange, IsUserEntry}
use minimum_tests.Hello.Syscall.{serve}
use minimum_tests.Hello.Syscall.Session.{transcript}
use minimum_tests.Hello.User.{message, user_main}
use minimum_tests.Hello.User.Output.{sent_after}
use minimum_tests.Hello.User.Hosted.{IsCallAt, hello_world}
use minimum_tests.Hello.Tables.{Tables}
use minimum_tests.Hello.User.Walk.{IsMmu, ArePlaced}
use minimum_tests.Hello.User.Instruction.{IsSvcAt}
use minimum_tests.Hello.Tests.{layout, loader, layout-IsLaidOut, zeros-IsBytes}
use minimum_tests.Hello.User.Hosted.Sample.{
  image, image-IsBytes, image-IsPacked, info, hello, code_here, startable,
}

-- A walk of the user's table, whatever the directory says.
abbrev walked : Tables → Memory → ℕ → ℕ
walked t physical a = word_at physical (t.user (a / 4096 % 1024) / 4096 * 4096 + a % 4096)

walked-IsMmu : IsMmu layout walked
walked-IsMmu t physical a aligned directory valid readable = refl

-- Physical memory with nothing but the array of pages.
abbrev pages_only : Loader → Memory
pages_only l a =
    let offset : ℕ = a - (layout.user_image_pages - 0x80000000) in
    l.pages.bytes (offset / 4096) (offset % 4096)

pages_only-ArePlaced : ArePlaced layout pages_only
pages_only-ArePlaced l i b li lb =
    let offset : ℕ =
      layout.user_image_pages
      + i * 4096
      - 0x80000000
      + b
      - (layout.user_image_pages - 0x80000000) in
    let page : offset / 4096 ≡ i = omega arith in
    let place : offset % 4096 ≡ b = omega arith in
    ap (λ (n : ℕ). l.pages.bytes n (offset % 4096)) page ∙ ap (l.pages.bytes i) place

svc_here : IsSvcAt image info (segment_table image info hello) 1 0 0
unfolding word_at
svc_here = record {
  within = omega arith;
  executable = rw code_here refl;
  in_file = rw code_here (omega arith);
  aligned = rw code_here refl;
  word = rw code_here refl;
  on_top = λ n lo hi. absurd (omega arith);
}

abbrev context : ℕ → TrapFrame
context index = record {
  r = λ register. 0;
  return_lr = 0x00400004;
  spsr = 0x10;
  exception_id = 0xfffffffd;
  fault_pc = 0x00400000;
  dfsr = 0;
  dfar = 0;
  user_sp = 0x00800000;
  user_lr = 0;
  reserved = 0;
}

svc_passed :
    let passed = packed_info image image-IsPacked in
    let started = module_at image (record_at image passed 0) in
    IsSvcAt image passed (segment_table image passed started) started.segment_count 0 0
unfolding module_at word_at
svc_passed = svc_here

called_at :
    let passed = packed_info image image-IsPacked in
    let started = module_at image (record_at image passed 0) in
    (index : ℕ)
    → IsCallAt
        ((segment image passed (segment_table image passed started) 0).virtual_address + 0)
        (context index)
unfolding module_at segment_at word_at
called_at index = record { svc = refl; user_mode = refl; arm_state = refl; at_svc = refl }

pages-IsBytes : (i : ℕ) → IsBytes (loader.pages.bytes i)
pages-IsBytes i = zeros-IsBytes

load_user_module-IsGood_example :
    IsGood image info hello
    ↔ ((l' : Loader) × (load_user_module layout image info hello loader ≡ accepted l'))
load_user_module-IsGood_example =
    load_user_module-IsGood image info hello layout loader image-IsBytes pages-IsBytes zeros-IsBytes
      (omega arith) (omega arith) (omega arith) layout-IsLaidOut.image_pages layout-IsLaidOut.stack
      layout-IsLaidOut.page_table

in_range : AreInRange image info loader
in_range = record {
  memory = image-IsBytes;
  image_size = omega arith;
  table_offset = omega arith;
  pages = pages-IsBytes;
  stack = zeros-IsBytes;
}

kernel_main-IsStartable_example :
    (IsHandedOver 0xc0007000 info × IsStartable image info)
    ↔ ((e : UserEntry) × (kernel_main layout image 0xc0007000 info loader idle ≡ ret e idle))
kernel_main-IsStartable_example =
    kernel_main-IsStartable image info layout loader layout-IsLaidOut in_range 0xc0007000 idle

firmware_enters_user_example :
    let h = booted image image-IsPacked in
    let passed = packed_info image image-IsPacked in
    let run =
      kernel_main layout h.memory h.argument
        (boot_info_at h.memory (h.argument - 0x80000000))
        loader
        idle in
    (IsStartable image passed
      → (e : UserEntry) × (run ≡ ret e idle) × IsUserEntry layout h.memory passed loader e)
    × ((e : UserEntry) → run ≡ ret e idle → IsStartable image passed)
firmware_enters_user_example =
    firmware_enters_user image image-IsPacked layout loader layout-IsLaidOut pages-IsBytes
      zeros-IsBytes idle

hello_world_example :
    let h = booted image image-IsPacked in
    (e : UserEntry) × (s' : Machine (Unit {0})) × (kernel_main layout h.memory h.argument
        (boot_info_at h.memory (h.argument - 0x80000000))
        loader
        idle
      ≡ ret e idle)
    × (serve (walked e.loader.tables (pages_only e.loader)) (user_main context) false idle
        ≡ ret true s')
    × (s'.log ≡ transcript (sent_after message []) [])
hello_world_example =
    hello_world image image-IsPacked startable layout loader layout-IsLaidOut pages-IsBytes
      zeros-IsBytes walked walked-IsMmu pages_only pages_only-ArePlaced 0 0 svc_passed context
      called_at idle
