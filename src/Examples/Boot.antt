-- ===== src/Examples/Boot.antt =====
-- The kernel of the sample world from its first line to the PS/2 driver.
use chp_os.Base.{
  ℕ, ◌+◌, ◌*◌, ◌/◌, ◌%◌, ◌^◌, ◌<◌, ◌≡◌, refl, arith, Bool-cases, inl, inr, true, false, ◌==◌, ltb,
  some, u32,
}
use chp_os.Base.{[]}
use chp_os.Machine.{Machine, printf}
use chp_os.Kernel.SetUp.{set_up}
use chp_os.Kernel.Delivery.{software_interrupt-handled}
use chp_os.Kernel.{software_interrupt, kernel_early_main, kernel_main, after_interrupts}
use chp_os.Kernel.Start.{start, print_multiboot_info}
use chp_os.Kernel.Load.{load_image, start-load_image-Simulates}
use chp_os.Interrupt.Image.{load_data}
use chp_os.Interrupt.Linked.{IsLinked, stub_of, load_data-dispatches}
use chp_os.Interrupt.{dispatch_entry, handler_addr}
use chp_os.Memory.{load32}
use chp_os.Machine.{isr_dispatch}
use chp_os.Kernel.Shown.{boot_lines, driver_start, greeted}
use chp_os.Machine.Displays.{typed}
use chp_os.Tty.Colormap.{paint, colormap}
use chp_os.Ps2.Typing.{driver_lines}
use chp_os.Tty.Output.{Simulates}
use chp_os.Kernel.Listing.{listing, print_multiboot_info-listing}
use chp_os.Tty.Tables.{put_all}
use chp_os.Kernel.Main.{
  IsPlaced, IsBootable, before_interrupts, calm, stubs-calm, before-IsLoaded, after_first,
  kernel_main-comes_back,
}
use chp_os.Examples.{sample_world, sample_address, sample_mem, sample_machine, sample_handler}
use chp_os.Examples.Tables.{sample_machine-IsValid}
use chp_os.Examples.Interrupts.{sample_world-IsLaidOut, sample_world-HasStubs, unset}

sample_world-IsPlaced : IsPlaced sample_world 0x120000 0x120100 0x120200 sample_handler
sample_world-IsPlaced = record {
  arrays = record {
    src_in = omega arith;
    dst_in = omega arith;
    array_in = omega arith;
    apart = inr (omega arith);
  };
  laid_out = sample_world-IsLaidOut;
  table = omega arith;
  operand = ground arith;
  dispatch_clear = λ a from to. (
    omega arith,
    inl (omega arith),
    inl (omega arith),
    inl (omega arith),
    inr (omega arith),
    inr (omega arith),
  );
  handlers_clear = λ a from to. (
    omega arith,
    inl (omega arith),
    inl (omega arith),
    inl (omega arith),
    inr (omega arith),
    inr (omega arith),
  );
  gdt_apart = ground arith;
  handler_fits = omega arith;
  handler_set = omega arith;
  handler_code = refl;
}

sample_machine-IsBootable :
    IsBootable sample_world 0x120000 0x120100 0x120200 sample_handler sample_machine
sample_machine-IsBootable = record {
  placed = sample_world-IsPlaced;
  stubs = sample_world-HasStubs;
  unset = unset;
}

sample_world-IsLinked : IsLinked sample_world sample_address
sample_world-IsLinked = record {
  fits = λ i lt. at_stub i (λ n. n < 2 ^ 32) (omega arith);
  found = λ i lt. at_stub i (λ n. sample_world.code n ≡ some (stub_of i)) (sample_found i lt);
  follows = refl;
  placed = omega arith;
}
  where
    sample_found : (i : ℕ) → i < 256 → sample_world.code (256 * i + 7) ≡ some (stub_of i)
    sample_found i lt =
        let handler : ((256 * i + 7) == sample_handler) ≡ false = ground arith in
        let place : ((256 * i + 7) % 256 == 7) ≡ true = ground arith in
        let index : (256 * i + 7) / 256 ≡ i = omega arith in rw (handler, place, index) refl

    at_stub : (i : ℕ) (P : ℕ → Type 0) → P (256 * i + 7) → P (sample_address (stub_of i))
    at_stub i P p = elim (Bool-cases (ltb i 32)) [ inl e ↦ rw e p | inr e ↦ rw e p ]

-- The state of `kernel_main` before the set up of the interrupts.
abbrev before : Machine
before = before_interrupts sample_world 0x120000 0x120100 0x120200 sample_handler sample_machine

software_interrupt-handled_example :
    let ready = set_up sample_world 32 sample_handler before in
    software_interrupt sample_world 32 ready
    ≡ (true, (printf sample_world "Interrupt handler works!\n" [] ready).1)
software_interrupt-handled_example =
    software_interrupt-handled sample_world sample_world-IsLaidOut before
      (calm sample_world 0x120000 0x120100 0x120200 sample_handler sample_machine
        sample_machine-IsBootable sample_machine-IsValid).valid
      (stubs-calm sample_world 0x120000 0x120100 0x120200 sample_handler sample_machine
        sample_machine-IsBootable sample_machine-IsValid)
      32 sample_handler (omega arith) (omega arith) (omega arith) (ground arith)
      (before-IsLoaded sample_world 0x120000 0x120100 0x120200 sample_handler sample_machine
        sample_machine-IsBootable sample_machine-IsValid)
      (omega arith) (omega arith) (omega arith) refl

load_data-dispatches_example :
    let loaded = (load_data sample_address (0x114000, sample_mem)).1 in
    (sample_world.code (u32 (dispatch_entry sample_world loaded 7)) ≡ some (isr_dispatch 7))
    × (load32 loaded (handler_addr sample_world 7) ≡ 0)
load_data-dispatches_example =
    load_data-dispatches sample_world sample_address sample_world-IsLinked sample_mem 7
      (omega arith)

kernel_main-comes_back_example :
    kernel_main sample_world 0x120000 0x120100 0x120200 sample_handler sample_machine
    ≡ after_interrupts sample_world
        (after_first sample_world 0x120000 0x120100 0x120200 sample_handler sample_machine)
kernel_main-comes_back_example =
    kernel_main-comes_back sample_world 0x120000 0x120100 0x120200 sample_handler sample_machine
      sample_machine-IsBootable sample_machine-IsValid

start-load_image-Simulates_example :
    let image = load_image sample_world sample_address sample_machine in
    let early = (kernel_early_main sample_world 0x2badb002 image).1 in
    Simulates 0x0f
      (start sample_world 0x2badb002 0x120000 0x120100 0x120200 sample_handler image).1.tty
      (typed 0x0f
        (driver_lines sample_world
          (driver_start sample_world 0x120000 0x120100 0x120200 sample_handler early))
        (paint
          (colormap 0x0f)
          (typed 0x0f (boot_lines sample_world) (greeted sample_world 0x0f 0x2badb002))))
start-load_image-Simulates_example =
    start-load_image-Simulates sample_world sample_address sample_world-IsLinked 0x120000 0x120100
      0x120200 sample_handler sample_world-IsPlaced sample_machine (omega arith) 0x2badb002
      (λ fmt args. (omega arith, tt)) (omega arith) refl

print_multiboot_info-listing_example :
    (print_multiboot_info sample_world 0x130000 sample_machine).1.tty
    ≡ put_all (listing sample_world 0x130000 sample_machine.tty.mem) sample_machine.tty
print_multiboot_info-listing_example =
    print_multiboot_info-listing sample_world 0x130000 (omega arith) (omega arith) sample_machine
      sample_machine-IsValid
