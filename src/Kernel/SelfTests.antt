-- ===== src/Kernel/SelfTests.antt =====
-- The self tests of memcpy and memmove pass.
use chp_os.Base.{
  ℕ, zero, suc, ◌+◌, ◌^◌, ◌≤◌, ◌<◌, ◌≡◌, refl, sym, ◌∙◌, ◌⊎◌, arith, u8, ptr_add, true, List, [],
  ◌∷◌,
}
use chp_os.Memory.{Mem, store8}
use chp_os.Libc.{memcpy, memmove, memset}
use chp_os.Libc.Move.{moved, memmove-moved}
use chp_os.Interrupt.Table.{IsDisjoint}
use chp_os.Machine.{Machine, World, ◌>>=◌, printf, on_mem}
use chp_os.Kernel.{
  test_memcpy, test_memmove, memmove_tests, run_mem, init_data_array, same_bytes, counts_from,
  memcpy_test, Testcase, testcases, memmove_test,
}

pub init_data_array-other :
    (array left i : ℕ) (m : Mem) (a : ℕ)
    → array + (i + left) ≤ 2 ^ 32
    → (a < array + i) ⊎ (array + (i + left) ≤ a)
    → init_data_array array left i m a ≡ m a
unfolding init_data_array store8
init_data_array-other array zero i m a h out = refl
init_data_array-other array (suc left) i m a h out =
    ground (arith, init_data_array-other array left (i + 1) (store8 m (ptr_add array i) (u8 i)) a)

init_data_array-at :
    (array left i : ℕ) (m : Mem) (k : ℕ)
    → array + (i + left) ≤ 2 ^ 32
    → i + left ≤ 256
    → i ≤ k
    → k < i + left
    → init_data_array array left i m (array + k) ≡ k
unfolding init_data_array store8
init_data_array-at array zero i m k h small le lt = absurd (omega arith)
init_data_array-at array (suc left) i m k h small le lt =
    let m1 = store8 m (ptr_add array i) (u8 i) in
    ground (
      arith,
      init_data_array-at array left (i + 1) m1 k,
      init_data_array-other array left (i + 1) m1 (array + k),
    )

same_bytes-true :
    (dst src left i : ℕ) (m : Mem)
    → dst + (i + left) ≤ 2 ^ 32
    → src + (i + left) ≤ 2 ^ 32
    → ((k : ℕ) → k < i + left → m (dst + k) ≡ m (src + k))
    → same_bytes dst src left i m true ≡ true
unfolding same_bytes
same_bytes-true dst src zero i m hd hs same = refl
same_bytes-true dst src (suc left) i m hd hs same =
    ground (arith, same i, same_bytes-true dst src left (i + 1) m)

counts_from-true :
    (array to from left i : ℕ) (m : Mem)
    → array + (to + (i + left)) ≤ 2 ^ 32
    → ((k : ℕ) → k < i + left → m (array + (to + k)) ≡ from + k)
    → counts_from array to from left i m true ≡ true
unfolding counts_from
counts_from-true array to from zero i m h counts = refl
counts_from-true array to from (suc left) i m h counts =
    ground (arith, counts i, counts_from-true array to from left (i + 1) m)

-- A copy to a region apart from its source.
moved-same :
    (dst src n : ℕ) (m : Mem) (k : ℕ)
    → IsDisjoint dst n src n
    → k < n
    → moved dst src n m (dst + k) ≡ moved dst src n m (src + k)
unfolding moved
moved-same dst src n m k apart lt = ground arith

moved-at :
    (dst src n : ℕ) (m : Mem) (a k b : ℕ)
    → a ≡ dst + k
    → b ≡ src + k
    → k < n
    → moved dst src n m a ≡ m b
unfolding moved
moved-at dst src n m a k b ea eb lt = ground arith

-- In arrays that are apart, `test_memcpy` finds no fault, whatever the memory holds.
pub memcpy_test-passes :
    (src_array dst_array : ℕ) (m : Mem)
    → src_array + 256 < 2 ^ 32
    → dst_array + 256 < 2 ^ 32
    → IsDisjoint dst_array 256 src_array 256
    → (memcpy_test src_array dst_array m).0 ≡ true
unfolding memcpy_test memcpy
memcpy_test-passes src dst m hs hd apart =
    let m1 = init_data_array src 256 0 (memset dst 0 256 (memset src 0 256 m)) in
    let m2 = moved dst src 256 m1 in
    let m3 = moved src dst 256 m2 in
    let forth : memmove dst src 256 m1 ≡ m2 =
      memmove-moved dst src 256 m1 (omega arith) (omega arith) (omega arith) in
    let back : memmove src dst 256 m2 ≡ m3 =
      memmove-moved src dst 256 m2 (omega arith) (omega arith) (omega arith) in
    let first : same_bytes dst src 256 0 m2 true ≡ true =
      same_bytes-true dst src 256 0 m2 (omega arith) (omega arith)
        (λ k h. moved-same dst src 256 m1 k apart (omega arith)) in
    let second : same_bytes dst src 256 0 m3 true ≡ true =
      same_bytes-true dst src 256 0 m3 (omega arith) (omega arith)
        (λ k h. sym (moved-same src dst 256 m2 k (ground arith) (omega arith))) in
    rw (forth, back, first) second

-- The counted bytes, moved within the array, are at their new place.
pub memmove_test-passes :
    (array : ℕ) (t : Testcase) (m : Mem)
    → array + 256 < 2 ^ 32
    → t.from + t.n ≤ 256
    → t.to + t.n ≤ 256
    → (memmove_test array t m).0 ≡ true
unfolding memmove_test
memmove_test-passes array t m h hf ht =
    let m1 = init_data_array array 256 0 m in
    let moving =
      memmove-moved (ptr_add array t.to) (ptr_add array t.from) t.n m1 (omega arith) (omega arith)
        (omega arith) in
    rw moving (
      counts_from-true array t.to t.from t.n 0 _ (omega arith) (λ k hk.
        moved-at (ptr_add array t.to) (ptr_add array t.from) t.n m1 (array + (t.to + k)) k
          (array + (t.from + k)) (omega arith) (omega arith) (omega arith)
        ∙ init_data_array-at array 256 0 m (t.from + k) (omega arith) (omega arith) (omega arith)
            (omega arith)))

-- The test cases lie in the array.
abbrev pub AreInArray : List Testcase → Type 0
AreInArray [] = Unit
AreInArray (t ∷ ts) = (t.from + t.n ≤ 256) × (t.to + t.n ≤ 256) × AreInArray ts

-- The memory after the rounds.
abbrev pub after_rounds : (array : ℕ) → List Testcase → Mem → Mem
after_rounds array [] m = m
after_rounds array (t ∷ ts) m = after_rounds array ts (memmove_test array t m).1

module _ (w : World) where
  -- Where its two arrays are apart and end below the end of the address space, the self test
  -- of memcpy says that memcpy is okay, and prints nothing else.
  pub test_memcpy-okay :
      (src_array dst_array : ℕ) (s : Machine)
      → src_array + 256 < 2 ^ 32
      → dst_array + 256 < 2 ^ 32
      → IsDisjoint dst_array 256 src_array 256
      → test_memcpy w src_array dst_array s
        ≡ printf w "memcpy okay\n" [] (run_mem (memcpy_test src_array dst_array) s).1
  unfolding test_memcpy ◌>>=◌
  test_memcpy-okay src dst s hs hd apart =
      let passed = memcpy_test-passes src dst s.tty.mem hs hd apart in rw passed

  memmove_tests-pass :
      (array : ℕ) (ts : List Testcase) (idx : ℕ) (s : Machine)
      → array + 256 < 2 ^ 32
      → AreInArray ts
      → memmove_tests w array ts idx true s ≡ (true, (on_mem (after_rounds array ts) s).1)
  unfolding memmove_tests ◌>>=◌
  memmove_tests-pass array [] idx s h inside = refl
  memmove_tests-pass array (t ∷ ts) idx s h (hf, ht, inside) =
      let passed = memmove_test-passes array t s.tty.mem h hf ht in
      rw passed (memmove_tests-pass array ts (idx + 1) _ h inside)

  -- Where its array ends below the end of the address space, the self test of memmove says
  -- that memmove is okay, and prints nothing else.
  pub test_memmove-okay :
      (array : ℕ) (s : Machine)
      → array + 256 < 2 ^ 32
      → test_memmove w array s
        ≡ printf w "memmove okay\n" []
            (on_mem (λ m. after_rounds array testcases (memset array 0 256 m)) s).1
  unfolding test_memmove ◌>>=◌
  test_memmove-okay array s h =
      let passed =
        memmove_tests-pass array testcases 0 (on_mem (memset array 0 256) s).1 h (ground arith) in
      rw passed
