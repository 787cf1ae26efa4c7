-- ===== src/Kernel/Lines.antt =====
-- What the self tests and the set up of the interrupts print.
use chp_os.Base.{
  ℕ, ◌-◌, ◌*◌, ◌<◌, ◌≤◌, ◌≡◌, ◌∙◌, sym, subst, arith, leb, true, inl, [], ptr_add, u16,
}
use chp_os.Memory.{store16, store32}
use chp_os.Memory.Access.{store16-other, store32-other}
use chp_os.Libc.{memset}
use chp_os.Machine.{Machine, ◌>>=◌, World}
use chp_os.Machine.Changes.{vga_end}
use chp_os.Machine.Displays.{
  RendersBytes, Displays, Displays-printf, Displays-log_debug, Displays-mem,
}
use chp_os.Tty.Screen
use chp_os.Tty.Screen.{Screen}
use chp_os.Interrupt.{
  sizeof_descriptor, idt_max_entries, idt_entry, init_gates, idt_init, idtr_reload, idt_flush,
  handler_addr, idt_register_handler,
}
use chp_os.Interrupt.Loops.{init_gates-other}
use chp_os.Kernel.{memcpy_test, test_memcpy, test_memmove, testcases}
use chp_os.Kernel.SelfTests.{after_rounds, test_memcpy-okay, test_memmove-okay}
use chp_os.Kernel.Calm.{AreArrays, memset-other, memcpy_test-other, after_rounds-other}
use chp_os.Kernel.SetUp.{IsLaidOut, set_up}

-- The arrays of the self tests are behind the text buffer.
abbrev pub AreBehind : (src_array dst_array array : ℕ) → Type 0
AreBehind src dst array = (vga_end ≤ src) × (vga_end ≤ dst) × (vga_end ≤ array)

module _ (w : World) (bytes : RendersBytes w) {color : ℕ} {s : Machine} {screen : Screen}
    (d : Displays color s screen) where
  module _ (src dst array : ℕ) (arrays : AreArrays src dst array)
      (behind : AreBehind src dst array) where
    pub test_memcpy-Displays :
        Displays color
          (test_memcpy w src dst s).1
          (Screen.puts color (w.render "memcpy okay\n" []) screen)
    test_memcpy-Displays =
        subst
          (λ (r : Unit {0} × Machine).
            Displays color r.1 (Screen.puts color (w.render "memcpy okay\n" []) screen))
          (sym (test_memcpy-okay w src dst s arrays.src_in arrays.dst_in arrays.apart))
          (Displays-printf
            (Displays-mem d (λ m. (memcpy_test src dst m).1)
              λ a h.
                memcpy_test-other src dst s.tty.mem a arrays.src_in arrays.dst_in
                  (inl (omega arith)) (inl (omega arith)))
            w bytes "memcpy okay\n" [])

    pub test_memmove-Displays :
        Displays color
          (test_memmove w array s).1
          (Screen.puts color (w.render "memmove okay\n" []) screen)
    test_memmove-Displays =
        subst
          (λ (r : Unit {0} × Machine).
            Displays color r.1 (Screen.puts color (w.render "memmove okay\n" []) screen))
          (sym (test_memmove-okay w array s arrays.array_in))
          (Displays-printf
            (Displays-mem d (λ m. after_rounds array testcases (memset array 0 256 m))
              λ a h.
                after_rounds-other array testcases _ a arrays.array_in (ground arith)
                  (inl (omega arith))
                ∙ memset-other array 0 256 s.tty.mem a (omega (arith, arrays.array_in))
                    (inl (omega arith)))
            w bytes "memmove okay\n" [])

  module _ (out : IsLaidOut w) where
    idt_init-Displays : Displays color (idt_init w s).1 screen
    unfolding idt_init ◌>>=◌
    idt_init-Displays =
        let below = out.idt_placed in
        Displays-mem
          (Displays-mem d (init_gates w 32 0)
            λ a h. init_gates-other w below.1 32 0 _ a (omega arith) (inl (omega arith)))
          (init_gates w 224 32)
          λ a h. init_gates-other w below.1 224 32 _ a (omega arith) (inl (omega arith))

    idt_register_handler-Displays :
        (vector handler : ℕ)
        → 32 ≤ vector
        → vector < 256
        → Displays color (idt_register_handler w vector handler s).1 screen
    unfolding idt_register_handler ◌>>=◌
    idt_register_handler-Displays vector handler user in_table =
        let user_vector : leb 32 vector ≡ true = ground arith in
        rw user_vector (
          Displays-mem d (λ m. store32 m (handler_addr w vector) handler)
            λ a h.
              store32-other _ (handler_addr w vector) handler a
                (inl (omega (arith, out.handlers_placed))))

    idt_flush-Displays :
        Displays color
          (idt_flush w s).1
          (Screen.puts color (w.render "[sys]: Flushed IDT\n" []) screen)
    unfolding idt_flush idtr_reload ◌>>=◌
    idt_flush-Displays =
        let limit = u16 (sizeof_descriptor * idt_max_entries - 1) in
        let base = ptr_add w.layout.idtr 2 in
        let limited =
          Displays-mem d (λ m. store16 m w.layout.idtr limit)
            λ a h. store16-other _ w.layout.idtr limit a (inl (omega (arith, out.idtr_placed))) in
        let based =
          Displays-mem limited (λ m. store32 m base (idt_entry w 0))
            λ a h. store32-other _ base (idt_entry w 0) a (inl (omega (arith, out.idtr_placed))) in
        Displays-log_debug (record { simulates = based.simulates; logs = based.logs }) w bytes _ _

-- The set up of the interrupts prints one line.
pub set_up-Displays :
    (w : World) (bytes : RendersBytes w) {color : ℕ} {s : Machine} {screen : Screen}
    → Displays color s screen
    → (out : IsLaidOut w) (vector handler : ℕ) → 32 ≤ vector
    → vector < 256
    → Displays color
        (set_up w vector handler s)
        (Screen.puts color (w.render "[sys]: Flushed IDT\n" []) screen)
set_up-Displays w bytes d out vector handler user in_table =
    let filled = idt_init-Displays w bytes d out in
    let registered =
      idt_register_handler-Displays w bytes filled out vector handler user in_table in
    idt_flush-Displays w bytes registered out
