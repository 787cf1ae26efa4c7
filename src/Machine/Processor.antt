-- ===== src/Machine/Processor.antt =====
-- The processor, as far as the routines of kernel/src/system/asm_bits.s use it: registers, the stack
-- and the instructions, which stand in the order of AT&T, the source first. Of the faults only the
-- one of IRET on its selector is modelled, not those of the loads of segment registers.
use chp_os.Base.{
  ℕ, ◌+◌, ◌-◌, ◌*◌, ◌/◌, ◌^◌, ◌==◌, Bool, true, false, List, [], ◌∷◌, bit_and, u16, u32, ptr_add,
}
use chp_os.Memory.{Mem, store16, load16, store32, load32}
use chp_os.Base.{◌%◌, ◌&&◌, if◌then◌else◌, bits}
use chp_os.Machine.{Cpu}
use chp_os.Segment.Translate.{is_code_segment}

pub data Register : Type 0 where
  eax ebx ebp esp : Register

pub data SegmentRegister : Type 0 where
  ss ds es fs gs : SegmentRegister

-- `eip` is where a return or the end of an interrupt leads; the place in a routine is what is left
-- of its list. `fault` is set where IRET, which ends its routine, does not return to code of the
-- kernel.
pub record Proc : Type 0 where
  pub eax : ℕ
  pub ebx : ℕ
  pub ebp : ℕ
  pub esp : ℕ
  pub eip : ℕ
  pub eflags : ℕ
  pub fault : Bool
  pub cpu : Cpu
  pub mem : Mem

abbrev pub get : Register → Proc → ℕ
get eax p = p.eax
get ebx p = p.ebx
get ebp p = p.ebp
get esp p = p.esp

abbrev pub put : Register → ℕ → Proc → Proc
put eax v p = record p { eax = v }
put ebx v p = record p { ebx = v }
put ebp v p = record p { ebp = v }
put esp v p = record p { esp = v }

abbrev pub put_selector : SegmentRegister → ℕ → Cpu → Cpu
put_selector ss v k = record k { ss = v }
put_selector ds v k = record k { ds = v }
put_selector es v k = record k { es = v }
put_selector fs v k = record k { fs = v }
put_selector gs v k = record k { gs = v }

pub data Instruction : Type 0 where
  push pop test call : Register → Instruction
  mov : (source target : Register) → Instruction
  mov_constant mov_half_constant : (constant : ℕ) → (target : Register) → Instruction
  mov_from : (offset : ℕ) → (base target : Register) → Instruction
  mov_to movw_to : (source base : Register) → Instruction
  mov_selector : (source : Register) → SegmentRegister → Instruction
  ljmp : (selector : ℕ) → Instruction
  lgdt lidt : (operand : ℕ) → Instruction
  pushf popf cli ret iret jz : Instruction

abbrev pub pushed : ℕ → Proc → Proc
pushed v p = let top = u32 (p.esp + 2 ^ 32 - 4) in record p { esp = top; mem = store32 p.mem top v }

-- The double word at `n` bytes above the top of the stack.
abbrev pub stacked : ℕ → Proc → ℕ
stacked n p = load32 p.mem (ptr_add p.esp n)

-- EFLAGS without IF, which is bit 9.
abbrev without_if : ℕ → ℕ
without_if eflags = bit_and eflags (2 ^ 32 - 1 - 2 ^ 9)

-- The low eight bits that are set.
abbrev ones : ℕ → ℕ
ones v =
    bits 0 1 v
    + bits 1 1 v
    + bits 2 1 v
    + bits 3 1 v
    + bits 4 1 v
    + bits 5 1 v
    + bits 6 1 v
    + bits 7 1 v

-- EFLAGS after a test of the value: SF (bit 7), ZF (bit 6) and PF (bit 2) are set from it, CF (bit
-- 0) and OF (bit 11) are cleared; AF, which is undefined, is as before.
abbrev pub test_flags : (value eflags : ℕ) → ℕ
test_flags value eflags =
    let sf = bits 31 1 value in
    let zf = if value == 0 then 1 else 0 in
    let pf = (ones value + 1) % 2 in
    eflags / 2 ^ 12 * 2 ^ 12
    + bits 8 3 eflags * 2 ^ 8
    + sf * 2 ^ 7
    + zf * 2 ^ 6
    + bits 3 3 eflags * 2 ^ 3
    + pf * 2 ^ 2
    + bits 1 1 eflags * 2

-- The check of IRET for a return within the kernel: a selector of its level that names one of its
-- code segments. The kernel has no other level.
abbrev pub returns_to : Cpu → Mem → (selector : ℕ) → Bool
returns_to c m selector = (bits 0 2 selector == 0) && is_code_segment c m selector

-- The code behind an address that is called is that of the C functions, which the compiler makes:
-- `callee` is the state in which it returns.
module _ (callee : (address : ℕ) → Proc → Proc) where
  unfoldable pub execute : Instruction → Proc → Proc
  execute (push r) p = pushed (get r p) p
  execute (pop r) p = let v = stacked 0 p in put r v (record p { esp = ptr_add p.esp 4 })
  execute (test r) p = record p { eflags = test_flags (get r p) p.eflags }
  execute (call r) p = callee (get r p) p
  execute (mov source target) p = put target (get source p) p
  execute (mov_constant constant target) p = put target constant p
  execute (mov_half_constant constant target) p =
      put target (get target p / 2 ^ 16 * 2 ^ 16 + constant) p
  execute (mov_from offset base target) p =
      put target (load32 p.mem (ptr_add (get base p) offset)) p
  execute (mov_to source base) p = record p { mem = store32 p.mem (get base p) (get source p) }
  execute (movw_to source base) p = record p {
    mem = store16 p.mem (get base p) (u16 (get source p));
  }
  execute (mov_selector source r) p = record p { cpu = put_selector r (u16 (get source p)) p.cpu }
  execute (ljmp selector) p = record p { cpu = record p.cpu { cs = selector } }
  execute (lgdt operand) p = record p {
    cpu = record p.cpu {
      gdtr_limit = load16 p.mem operand;
      gdtr_base = load32 p.mem (ptr_add operand 2);
    };
  }
  execute (lidt operand) p = record p {
    cpu = record p.cpu {
      idtr_limit = load16 p.mem operand;
      idtr_base = load32 p.mem (ptr_add operand 2);
    };
  }
  execute pushf p = pushed p.eflags p
  execute popf p = record p { eflags = stacked 0 p; esp = ptr_add p.esp 4 }
  execute cli p = record p { eflags = without_if p.eflags }
  execute ret p = record p { eip = stacked 0 p; esp = ptr_add p.esp 4 }
  execute iret p =
      if returns_to p.cpu p.mem (u16 (stacked 4 p))
      then record p {
        eip = stacked 0 p;
        cpu = record p.cpu { cs = u16 (stacked 4 p) };
        eflags = stacked 8 p;
        esp = ptr_add p.esp 12;
      }
      else record p { fault = true }
  execute jz p = p

  -- The instruction jumps over the next one, behind which its label is.
  abbrev jumps : Instruction → Proc → Bool
  jumps jz p = bits 6 1 p.eflags == 1
  jumps _ p = false

  -- The code, but for its first instruction where it is jumped over.
  unfoldable pub run : (over : Bool) → List Instruction → Proc → Proc
  run over [] p = p
  run true (i ∷ code) p = run false code p
  run false (i ∷ code) p = run (jumps i p) code (execute i p)
