-- ===== src/Kernel.antt =====
-- kernel/src/kernel.c: the two entry points and the self tests of memcpy and memmove, with
-- interrupts delivered as the processor delivers them.
pub mod SelfTests
pub mod SetUp
pub mod Delivery
pub mod Ignored
pub mod Calm
pub mod Main
pub mod End
pub mod Start
pub mod Boot
pub mod Listing
pub mod Lines
pub mod Shown
pub mod Load
use chp_os.Base.{
  ℕ, zero, suc, ◌+◌, ◌-◌, ◌*◌, ◌^◌, ◌==◌, leb, if◌then◌else◌, Bool, true, false, ◌&&◌, List, [],
  ◌∷◌, none, some, u8, ptr_add,
}
use chp_os.Memory.{Mem, store8, load16}
use chp_os.Libc.{memcpy, memmove, memset}
use chp_os.Machine.{
  M, pure, ◌>>=◌, ◌>>◌, skip, on_mem, on_tty, World, isr_dispatch, isr_user_stub, test_handler,
  printf, assert_msg, num,
}
use chp_os.Tty.{tty_init}
use chp_os.Tty.Tables.{tty_print_colormap}
use chp_os.Segment.{gdt_init, gdt_flush}
use chp_os.Interrupt
use chp_os.Interrupt.{sizeof_descriptor, idt_init, idt_flush, idt_register_handler}
use chp_os.Interrupt.Gates.{is_open, gate_at}
use chp_os.Segment.Translate.{is_code_segment}
use chp_os.Ps2.{yes_no}
use chp_os.Ps2.Init.{ps2_init}

-- `for (..; i < n; ++i) array[i] = i;` on bytes: `init_data_array`, and a loop of `test_memcpy`.
unfoldable pub init_data_array : (array left i : ℕ) → Mem → Mem
init_data_array array zero i m = m
init_data_array array (suc left) i m =
    init_data_array array left (i + 1) (store8 m (ptr_add array i) (u8 i))

-- `for (..) passed &= dst_array[i] == src_array[i];`
unfoldable pub same_bytes : (dst src left i : ℕ) → Mem → Bool → Bool
same_bytes dst src zero i m passed = passed
same_bytes dst src (suc left) i m passed =
    same_bytes dst src left (i + 1) m (passed && (m (ptr_add dst i) == m (ptr_add src i)))

-- `for (..) passed &= data[to + i] == from + i;`
unfoldable pub counts_from : (array to from left i : ℕ) → Mem → Bool → Bool
counts_from array to from zero i m passed = passed
counts_from array to from (suc left) i m passed =
    counts_from array to from left (i + 1) m (passed && (m (ptr_add array (to + i)) == from + i))

-- `test_memcpy` up to its message, for the addresses of its two arrays.
unfoldable pub memcpy_test : (src_array dst_array : ℕ) → Mem → Bool × Mem
memcpy_test src_array dst_array m0 =
    let m1 = memset dst_array 0 256 (memset src_array 0 256 m0) in
    let m2 = memcpy dst_array src_array 256 (init_data_array src_array 256 0 m1) in
    let passed1 = same_bytes dst_array src_array 256 0 m2 true in
    let m3 = memcpy src_array dst_array 256 m2 in
    (same_bytes dst_array src_array 256 0 m3 passed1, m3)

pub record Testcase : Type 0 where
  pub from : ℕ
  pub to : ℕ
  pub n : ℕ

abbrev testcase : (from to n : ℕ) → Testcase
testcase from to n = record { from = from; to = to; n = n }

-- `testcases` of `test_memmove`
abbrev pub testcases : List Testcase
testcases =
    testcase 0 10 10
    ∷ testcase 5 10 10
    ∷ testcase 10 10 10
    ∷ testcase 15 10 10
    ∷ testcase 20 10 10
    ∷ []

-- One round of `test_memmove`, up to its message.
unfoldable pub memmove_test : (array : ℕ) → Testcase → Mem → Bool × Mem
memmove_test array t m0 =
    let m1 = init_data_array array 256 0 m0 in
    let m2 = memmove (ptr_add array t.to) (ptr_add array t.from) t.n m1 in
    (counts_from array t.to t.from t.n 0 m2 true, m2)

-- Pure code on the memory.
abbrev pub run_mem : {A : Type 0} → (Mem → A × Mem) → M A
run_mem f s = let (a, m) = f s.tty.mem in (a, record s { tty = record s.tty { mem = m } })

module _ (w : World) where
  unfoldable pub test_memcpy : (src_array dst_array : ℕ) → M (Unit {0})
  test_memcpy src_array dst_array = do
    passed ← run_mem (memcpy_test src_array dst_array)
    if passed then printf w "memcpy okay\n" [] else printf w "memcpy failed\n" []

  -- The loop over the test cases.
  unfoldable pub memmove_tests : (array : ℕ) → List Testcase → (idx : ℕ) → Bool → M Bool
  memmove_tests array [] idx overall_passed = pure overall_passed
  memmove_tests array (t ∷ ts) idx overall_passed = do
    passed ← run_mem (memmove_test array t)
    assert_msg w passed "Assertion failed: passed, memmove testcase %u failed\n" (num idx ∷ [])
    memmove_tests array ts (idx + 1) (overall_passed && passed)

  unfoldable pub test_memmove : (array : ℕ) → M (Unit {0})
  test_memmove array = do
    on_mem (memset array 0 256)
    overall_passed ← memmove_tests array testcases 0 true
    if overall_passed then printf w "memmove okay\n" [] else printf w "memmove failed\n" []

  unfoldable pub kernel_early_main : (eax : ℕ) → M (Unit {0})
  kernel_early_main mb_magic = do
    on_tty tty_init
    printf w "[early main]: mb_magic okay: %s\n" (yes_no (0x2badb002 == mb_magic) ∷ [])

  -- A call through a handler's address; `false` where no routine is known there.
  unfoldable pub call_handler : (address : ℕ) → M Bool
  call_handler address = elim (w.code address) [
    | some test_handler ↦ do printf w "Interrupt handler works!\n" []; pure true
    | _ ↦ pure false
  ]

  unfoldable pub run_stub : (id : ℕ) → M Bool
  run_stub id = do
    handler ← Interrupt.isr_user_stub w id
    elim handler [ none ↦ pure true | some address ↦ call_handler address ]

  -- `int $n`: the processor checks the vector against the limit of IDTR and reads the gate, which
  -- must be a present 32-bit interrupt gate whose selector names a code segment of the kernel, and
  -- goes to its offset. `false` is a fault, from which the kernel does not come back.
  unfoldable pub software_interrupt : (n : ℕ) → M Bool
  software_interrupt n s =
      let gate = gate_at s.tty.mem (ptr_add s.cpu.idtr_base (n * sizeof_descriptor)) in
      let stub : M Bool = elim (w.code gate.offset) [
        | some (isr_user_stub id) ↦ run_stub id
        | some (isr_dispatch id) ↦ pure true
        | _ ↦ pure false
      ] in
      if leb (n * sizeof_descriptor + (sizeof_descriptor - 1)) s.cpu.idtr_limit
        && is_open gate
        && is_code_segment s.cpu s.tty.mem gate.selector
      then stub s
      else (false, s)

  -- What follows the two interrupts.
  unfoldable pub after_interrupts : M Bool
  after_interrupts = do on_tty tty_print_colormap; ps2_init w; pure true

  -- `kernel_main`, for the addresses of the arrays of the self tests and of `test_handler`.
  unfoldable pub kernel_main : (src_array dst_array array handler : ℕ) → M Bool
  kernel_main src_array dst_array array handler = do
    printf w "chp-os kernel_main\n" []
    printf w "[self-test]: memutil\n" []
    test_memcpy src_array dst_array
    test_memmove array
    gdt_init w
    gdt_flush w
    idt_init w
    idt_register_handler w 32 handler
    idt_flush w
    returned ← software_interrupt 32
    if returned
        then (do
          returned2 ← software_interrupt 33
          if returned2 then after_interrupts else pure false)
        else pure false
