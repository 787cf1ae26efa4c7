-- ===== src/Kernel/Start.antt =====
-- kernel/src/arch/i686/start.s, and the rest of kernel/src/kernel.c: the constructor that `_init`
-- runs, and the listing of the boot information, which nothing calls.
use chp_os.Base.{ℕ, ◌+◌, Bool, List, [], ◌∷◌, String, ptr_add}
use chp_os.Memory.{Mem, load16, load32}
use chp_os.Machine.{M, ◌>>=◌, ◌>>◌, skip, get_state, World, Arg, num, printf}
use chp_os.Kernel.{kernel_early_main, kernel_main}

-- `test_constructor` does nothing.
unfoldable pub test_constructor : M (Unit {0})
test_constructor = skip

-- From the entry point to `hang`. EAX comes from the boot loader and is not changed before
-- `kernel_early_main` reads it; what gcc puts into `_init` runs the constructors.
unfoldable pub start : World → (eax src_array dst_array array handler : ℕ) → M Bool
start w eax src_array dst_array array handler = do
  kernel_early_main w eax
  test_constructor
  kernel_main w src_array dst_array array handler

-- The width of a field of `multiboot_info_t`.
pub data Width : Type 0 where
  byte half word double : Width

-- A field that `print_multiboot_info` prints: the format that `PRINT_VAR` makes of its name, its
-- offset and its width.
pub record Field : Type 0 where
  pub fmt : String
  pub offset : ℕ
  pub width : Width

abbrev field : String → ℕ → Width → Field
field fmt offset width = record { fmt = fmt; offset = offset; width = width }

-- What printf gets of a field of the structure at `mb_info`, in words: a `uint64_t` takes two of
-- them, the lower half first.
unfoldable pub get_field : (mb_info offset : ℕ) → Width → Mem → List Arg
get_field mb_info offset byte m = num (m (ptr_add mb_info offset)) ∷ []
get_field mb_info offset half m = num (load16 m (ptr_add mb_info offset)) ∷ []
get_field mb_info offset word m = num (load32 m (ptr_add mb_info offset)) ∷ []
get_field mb_info offset double m =
    num (load32 m (ptr_add mb_info offset)) ∷ num (load32 m (ptr_add mb_info (offset + 4))) ∷ []

-- The lines of `PRINT_VAR`, in their order.
abbrev pub printed_fields : List Field
printed_fields =
    field "vbe_mode: 0x%x\n" 80 half
    ∷ field "vbe_control_info: 0x%x\n" 72 word
    ∷ field "vbe_mode_info: 0x%x\n" 76 word
    ∷ field "framebuffer_addr: 0x%x\n" 88 double
    ∷ field "framebuffer_type: 0x%x\n" 109 byte
    ∷ field "framebuffer_bpp: 0x%x\n" 108 byte
    ∷ field "framebuffer_width: 0x%x\n" 100 word
    ∷ field "framebuffer_height: 0x%x\n" 104 word
    ∷ field "framebuffer_pitch: 0x%x\n" 96 word
    ∷ field "framebuffer_palette_addr: 0x%x\n" 112 word
    ∷ field "framebuffer_palette_num_colors: 0x%x\n" 116 half
    ∷ []

module _ (w : World) (mb_info : ℕ) where
  -- `PRINT_VAR` for one field after the other.
  unfoldable pub print_fields : List Field → M (Unit {0})
  print_fields [] = skip
  print_fields (f ∷ fs) = do
    s ← get_state
    printf w f.fmt (get_field mb_info f.offset f.width s.tty.mem)
    print_fields fs

  unfoldable pub print_multiboot_info : M (Unit {0})
  print_multiboot_info = do printf w "multiboot info:\n" []; print_fields printed_fields
