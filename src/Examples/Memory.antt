-- ===== src/Examples/Memory.antt =====
-- memmove, memset and the self tests on sample regions.
use chp_os.Base.{◌≡◌, arith}
use chp_os.Libc.{memmove, memset}
use chp_os.Libc.Move.{moved, memmove-moved, memmove_past_int}
use chp_os.Libc.Fill.{filled, memset-filled}
use chp_os.Examples.{sample_mem}

-- An overlap that is copied from the end.
memmove-moved_example :
    memmove 0x114002 0x114000 8 sample_mem ≡ moved 0x114002 0x114000 8 sample_mem
memmove-moved_example =
    memmove-moved 0x114002 0x114000 8 sample_mem (omega arith) (omega arith) (omega arith)

memmove_past_int_example : memmove 0x1001 0x1000 0x80000001 sample_mem ≡ sample_mem
memmove_past_int_example =
    memmove_past_int 0x1001 0x1000 0x80000001 sample_mem (omega arith) (omega arith) (omega arith)
      (omega arith)

memset-filled_example : memset 0x1000 b'x' 16 sample_mem ≡ filled 0x1000 b'x' 16 sample_mem
memset-filled_example = memset-filled 0x1000 b'x' 16 sample_mem (omega arith)
