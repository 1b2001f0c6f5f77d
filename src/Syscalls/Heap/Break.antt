-- ===== src/Syscalls/Heap/Break.antt =====
-- The emulated heap of syscall/heap.c is a heap: a break that moves.
use vm_forge.Prelude.{
  ℕ, ◌+◌, ◌-◌, ◌%◌, ◌≤◌, ◌<◌, ◌≡◌, ◌⊎◌, refl, true, false, ltb, ◌==◌, inl, inr, arith, Bool-cases,
}
use vm_forge.Syscalls.Heap.{
  word, add_word, sub_word, Heap, Request, void, mmap, mremap, translate_brk_enter, is_error,
  exit_with, translate_brk_exit, emulated_brk,
}

-- A heap that is there: its mapping starts a page before it, at the start of a page, and does not wrap.
abbrev pub IsHeap : ℕ → Heap → Type 0
IsHeap offset h =
    (h.disabled ≡ false)
    × (0 < h.base)
    × (offset ≤ h.base)
    × ((h.base - offset) % 4096 ≡ 0)
    × (h.base + h.size < 18446744073709551616)

-- The kernel's answer: -errno.
abbrev pub IsErrno : ℕ → Type 0
IsErrno result = (18446744073709551616 - 4096 < result) × (result < 18446744073709551616)

errno-is_error : (result : ℕ) → IsErrno result → is_error result ≡ true
errno-is_error result (low, high) = ground arith

page-is_error : (result : ℕ) → result % 4096 ≡ 0 → is_error result ≡ false
page-is_error result aligned = ground arith

-- The call that a brk(2) on such a heap becomes.
abbrev pub resize_request : Heap → ℕ → ℕ → Request
resize_request h offset address =
    mremap (sub_word h.base offset) (add_word h.size offset)
      (add_word (sub_word address h.base) offset)

-- mremap(2) without MREMAP_MAYMOVE: the old address, or an error.
abbrev pub IsAnswer : Heap → ℕ → ℕ → Type 0
IsAnswer h offset result = (result ≡ h.base - offset) ⊎ IsErrno result

-- The break has moved to the address, or it has stayed, for an address below the heap or an error.
abbrev pub Moves : Heap → ℕ → ℕ → Heap × ℕ → Type 0
Moves h address result p =
    ((p.0 ≡ record h { size = address - h.base }) × (p.1 ≡ address) × (h.base ≤ address))
    ⊎ ((p.0 ≡ h) × (p.1 ≡ h.base + h.size) × ((address < h.base) ⊎ IsErrno result))

resized :
    (h : Heap) (offset address : ℕ)
    → offset ≤ h.base
    → h.base ≤ address
    → address < 18446744073709551616
    → sub_word (add_word (sub_word address h.base) offset) offset ≡ address - h.base
resized h offset address lo hi lt =
    let size : sub_word address h.base ≡ address - h.base = omega arith in
    let sum : add_word (address - h.base) offset ≡ address - h.base + offset = omega arith in
    rw (size, sum) (omega arith)

exit_with-Moves :
    (h : Heap) (offset address result : ℕ)
    → IsHeap offset h
    → h.base ≤ address
    → address < 18446744073709551616
    → IsAnswer h offset result
    → Moves h address result (exit_with h offset (resize_request h offset address) result address)
exit_with-Moves h offset address result (on, there, lo, aligned, fits) hi lt (inl same) =
    let no_error : is_error result ≡ false = page-is_error result (rw same aligned) in
    let stays : (h.base == add_word result offset) ≡ true = rw same (ground arith) in
    let size = resized h offset address lo hi lt in
    inl (rw (no_error, stays, size) refl, rw (no_error, stays, size) (omega arith), hi)
exit_with-Moves h offset address result (on, there, lo, aligned, fits) hi lt (inr errno) =
    let error = errno-is_error result errno in
    inr (rw error refl, rw error (omega arith), inr errno)

-- A heap stays one.
Moves-IsHeap :
    (h : Heap) (offset address result : ℕ) (p : Heap × ℕ)
    → IsHeap offset h
    → address < 18446744073709551616
    → Moves h address result p
    → IsHeap offset p.0
Moves-IsHeap h offset address result p (on, there, lo, aligned, fits) lt (inl (is, _, hi)) =
    rw is (on, there, lo, aligned, omega arith)
Moves-IsHeap h offset address result p is lt (inr (same, _, _)) = rw same is

module _ (h : Heap) (offset bss_end address : ℕ) (on : h.disabled ≡ false) where
  enter-resizes :
      (h.base == 0) ≡ false
      → ltb address h.base ≡ false
      → translate_brk_enter h offset bss_end address ≡ resize_request h offset address
  unfolding translate_brk_enter
  enter-resizes based above = simp (on, based, above) refl

  enter-voids :
      (h.base == 0) ≡ false
      → ltb address h.base ≡ true
      → translate_brk_enter h offset bss_end address ≡ void
  unfolding translate_brk_enter
  enter-voids based below = simp (on, based, below) refl

  enter-maps :
      (h.base == 0) ≡ true
      → (address == 0) ≡ true
      → translate_brk_enter h offset bss_end address ≡ mmap (word bss_end) offset
  unfolding translate_brk_enter
  enter-maps none_yet asks = simp (on, none_yet, asks) refl

  exit-with :
      (request : Request) (result : ℕ)
      → translate_brk_exit h offset request result address
        ≡ exit_with h offset request result address
  unfolding translate_brk_exit
  exit-with request result = simp on refl

-- Every brk(2) on an emulated heap moves the break exactly to the address, or leaves the heap as it is
-- and returns the old break, the latter only for an address below the heap or an error of mremap(2);
-- no address that mremap(2) returns is taken for an error, and the heap stays a heap.
pub emulated_brk-Moves :
    (kernel : Request → ℕ) (h : Heap) (offset bss_end address : ℕ)
    → IsHeap offset h
    → address < 18446744073709551616
    → IsAnswer h offset (kernel (resize_request h offset address))
    → Moves h address
        (kernel (resize_request h offset address))
        (emulated_brk kernel h offset bss_end address)
      × IsHeap offset (emulated_brk kernel h offset bss_end address).0
unfolding emulated_brk
emulated_brk-Moves kernel h offset bss_end address is lt answer = (
  moves,
  Moves-IsHeap h offset address _ (emulated_brk kernel h offset bss_end address) is lt moves,
)
  where
    moves :
        Moves h address
          (kernel (resize_request h offset address))
          (emulated_brk kernel h offset bss_end address)
    moves =
        let (on, there, lo, aligned, fits) = is in
        let based : (h.base == 0) ≡ false = ground arith in
        elim (Bool-cases (ltb address h.base)) [
          | inl below ↦
              let request = enter-voids h offset bss_end address on based below in
              rw (request, exit-with h offset bss_end address on void (kernel void))
                (inr (refl, omega arith, inl (ground arith)))
          | inr above ↦
              let hi : h.base ≤ address = ground arith in
              let asked = resize_request h offset address in
              let request = enter-resizes h offset bss_end address on based above in
              rw (request, exit-with h offset bss_end address on asked (kernel asked))
                (exit_with-Moves h offset address (kernel asked) is hi lt answer)
        ]

-- What a first call leaves: a heap of size 0, or none.
abbrev pub Starts : Heap → ℕ → Heap × ℕ → Type 0
Starts h offset p =
    (IsHeap offset p.0 × (p.0.size ≡ 0) × (p.1 ≡ p.0.base)) ⊎ ((p.0 ≡ h) × (p.1 ≡ 0))

exit_with-Starts :
    (h : Heap) (offset bss_end m : ℕ)
    → h.disabled ≡ false
    → 0 < offset
    → ((m % 4096 ≡ 0) × (m + offset < 18446744073709551616)) ⊎ IsErrno m
    → Starts h offset (exit_with h offset (mmap (word bss_end) offset) m 0)
exit_with-Starts h offset bss_end m on positive (inl (aligned, fits)) =
    let start : (m + offset) % 18446744073709551616 ≡ m + offset = omega arith in
    let page : m + offset - offset ≡ m = omega arith in
    rw (page-is_error m aligned, start)
      (inl ((on, omega arith, omega arith, rw page aligned, omega arith), refl, omega arith))
exit_with-Starts h offset bss_end m on positive (inr errno) =
    rw (errno-is_error m errno) (inr (refl, refl))

-- The first brk(2) of a program, that asks for the break, makes a heap of size 0 a page behind the
-- mapping that the kernel gives and returns where it begins, or returns 0 and makes none where the
-- kernel gives an error. The address that the kernel gives is that of a page, below the end of the
-- address space.
pub emulated_brk-Starts :
    (kernel : Request → ℕ) (h : Heap) (offset bss_end : ℕ)
    → h.disabled ≡ false
    → h.base ≡ 0
    → 0 < offset
    → ((kernel (mmap (word bss_end) offset) % 4096 ≡ 0)
        × (kernel (mmap (word bss_end) offset) + offset < 18446744073709551616))
      ⊎ IsErrno (kernel (mmap (word bss_end) offset))
    → Starts h offset (emulated_brk kernel h offset bss_end 0)
unfolding emulated_brk
emulated_brk-Starts kernel h offset bss_end on none_yet positive answer =
    let m = kernel (mmap (word bss_end) offset) in
    let zero_base : (h.base == 0) ≡ true = ground arith in
    let request = enter-maps h offset bss_end 0 on zero_base refl in
    rw (request, exit-with h offset bss_end 0 on (mmap (word bss_end) offset) m)
      (exit_with-Starts h offset bss_end m on positive answer)
