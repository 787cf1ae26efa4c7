-- ===== src/Lib.antt =====
-- chp-os: a small kernel for i686 with a text console, descriptor tables and a PS/2 driver.
--
-- The program. `kernel_early_main` clears the console; `kernel_main` (kernel/src/kernel.c) tests
-- memcpy and memmove, sets up the global descriptor table and the interrupt descriptor table,
-- raises two software interrupts, prints the colour map and initialises the PS/2 controller. All
-- parts print through printf, whose output goes to the console byte by byte.
--
-- Files and code.
--   Base            shared helpers: Boolean tests, machine words, fields of bits, text literals.
--   Memory          the flat memory: a function from addresses to bytes, with little-endian loads
--                   and stores of 8, 16 and 32 bits.
--   Libc            libc/string.c: `memmove`, `memcpy`, `memset` and their loops. Libc/Move and
--                   Libc/Fill relate them to a move and a fill at one stroke.
--   Tty             kernel/src/io/tty/tty.c. The record `Tty` is the memory with `vga_col`,
--                   `vga_row` and `tty_color`. Tty/Tables has the tables that it prints. Tty/Screen
--                   is the abstract screen, Tty/Cells the content of the text buffer, Tty/Bounds
--                   the invariant, Tty/Colors and Tty/Looks the colours and cells, Tty/Refine the
--                   refinement by one byte and Tty/Output by texts, Tty/Chart the table of
--                   characters, Tty/Colormap the colour map, Tty/Pictures the frame of both.
--   Machine         the state that the files share, the monad of kernel code, LOG_DEBUG
--                   (kernel/src/log) and the port accesses (kernel/src/io/arch/i686/inout.c).
--                   Machine/Runs and Machine/Changes have the rules for sequences and
--                   frames, Machine/Displays those for what the screen shows. Machine/Processor has
--                   the registers and the instructions that the routines of asm_bits.s use,
--                   Machine/Routines what a routine promises to its caller.
--   Ps2             kernel/src/io/ps2/ps2.c: the controller; Ps2/Device is the part on one device,
--                   Ps2/Init is `ps2_init`. Ps2/Keeps carries an invariant through the driver;
--                   Ps2/Handshake and Ps2/Frame are two of them. Ps2/Quiet is on the steps that
--                   only access the ports.
--                   Ps2/Polls and Ps2/Wait are on the wait loops, Ps2/Receive on a read from a
--                   device, Ps2/Writes, Ps2/Config and Ps2/Ports on what the driver writes,
--                   Ps2/Outcome, Ps2/Exchange and Ps2/Reset on the reset of a device, Ps2/SelfCheck
--                   on the part up to the self check, Ps2/Answers and Ps2/Result on the variables
--                   that the whole driver leaves. Ps2/Messages is what the driver prints as a
--                   function of the answers; Ps2/Says, Ps2/Report, Ps2/Progress, Ps2/Printed and
--                   Ps2/Typing are on the code that prints it. Ps2/Controller is a controller in
--                   working order by its documents, as hypotheses on the ports, with one on its
--                   timing, which no document gives; Ps2/Queue,
--                   Ps2/Ids, Ps2/Meets, Ps2/Course and Ps2/Found follow the driver with it.
--   Segment         kernel/src/system/segment.h, segment.c and two routines of asm_bits.s. The
--                   table is bytes in memory; Segment/Fields decodes them by the layout of the
--                   struct, and Segment/Translate is the processor's use of them. Segment/Flags
--                   is on the macros that make flags, Segment/Flat and Segment/Load on the table
--                   and on GDTR, Segment/Loaded on what keeps the segments flat,
--                   Segment/Shown on the lines that they print; Segment/Gdtr and Segment/Reload
--                   on the two routines instruction by instruction.
--   Interrupt       kernel/src/system/interrupt.h, interrupt.c and the stubs of asm_bits.s: the
--                   gates, the loops that fill the table, LIDT and the table of user handlers.
--                   Interrupt/Image and Interrupt/Linked are the data of asm_bits.s as it is loaded;
--                   Interrupt/Stubs has the stubs instruction by instruction, with
--                   Interrupt/Stubs/Frame and Interrupt/Stubs/Return on the way back;
--                   Interrupt/Reload is the routine of LIDT, instruction by instruction.
--   Kernel          kernel/src/kernel.c, and a software interrupt as the processor delivers it.
--                   Kernel/SelfTests is on the self tests, Kernel/SetUp, Kernel/Delivery and
--                   Kernel/Ignored on the interrupts, Kernel/Calm, Kernel/Main and Kernel/End on
--                   `kernel_main` as a whole. Kernel/Start is the entry point of
--                   kernel/src/arch/i686/start.s, the constructor and the listing of the boot
--                   information; Kernel/Boot and Kernel/Listing are on these, Kernel/Lines and
--                   Kernel/Shown on what the screen shows after the boot, and Kernel/Load on the
--                   boot from the image in memory.
--   Examples        sample worlds and states.
--
-- State. Kernel code is a function from a `Machine` to a result and a `Machine`. A device is a
-- function `answer` of the `World` from the history of port accesses to the next byte, so that a
-- statement for all worlds is one for all behaviours of the devices. The places of the objects that
-- the processor reads are the `Layout` of the world; where a theorem needs them apart from each
-- other, a hypothesis says so.
--
-- Numbers. All numbers are natural numbers; a conversion to 8, 16 or 32 bits is written as a
-- remainder, and addresses wrap at 2 ^ 32. `char` is signed, as gcc has it for i386.
--
-- Loops. Loops with a counter recur on the rounds left. The two wait loops recur on their
-- `timeout`, which is the bound of the source (100000000 and 10000), so no fuel is added and every
-- function is total.
--
-- Not modelled. printf (libc/stdio.c) is a copy of another project's library: what it prints is
-- the parameter `render`, of which the theorems on the screen suppose that it gives bytes
-- (`RendersBytes`). kernel/src/boot/multiboot.h is a copy of the header in the GRUB manual; the
-- offsets and the widths of the fields that the kernel prints stand in Kernel/Start. Of the start
-- code there is the order of its three calls, not the stack, the multiboot header, the frames of
-- `_init` and `_fini` or the endless loop at the end; the linker script is not modelled. The
-- routines that the processor reaches through addresses in memory are the parameter `code`. In
-- Kernel a software interrupt pushes no frame, and a stub comes back to where it was called; what
-- the stubs do to the frame and to the registers is in Interrupt/Stubs, where the code of a
-- handler is the parameter `callee`. Of the processor's checks, those of a software interrupt (the
-- limit of IDTR, the present bit and the type of the gate, its code segment), those of an access
-- through a segment register (Segment/Translate) and that of IRET on its selector are modelled,
-- for code of the kernel's privilege level; the instructions that load the segment registers do
-- not fault in the model, and what a fault does is not modelled but for that the kernel does not
-- go on.
pub mod Base
pub mod Memory
pub mod Libc
pub mod Tty
pub mod Machine
pub mod Ps2
pub mod Segment
pub mod Interrupt
pub mod Kernel
pub mod Examples
