-- ===== src/Syscalls/Heap.antt =====
-- syscall/heap.c: brk(2) as a mapping of its own, whose first page is not part of the heap. Words have 64
-- bits.
pub mod Break
use vm_forge.Prelude.{
  ℕ, ◌+◌, ◌-◌, ◌%◌, ◌≡◌, refl, Bool, true, false, ◌||◌, ◌&&◌, ltb, leb, ◌==◌, if◌then◌else◌, not,
  Option, none, some,
}

abbrev pub word : ℕ → ℕ
word n = n % 18446744073709551616

abbrev pub add_word : ℕ → ℕ → ℕ
add_word a b = word (a + b)

abbrev pub sub_word : ℕ → ℕ → ℕ
sub_word a b = word (a + (18446744073709551616 - word b))

-- struct Heap
pub record Heap : Type 0 where
  pub base : ℕ
  pub size : ℕ
  pub disabled : Bool

-- heap_offset, from what sysconf(_SC_PAGE_SIZE) gives.
unfoldable pub heap_offset : ℕ → ℕ
heap_offset page =
    let as_int = page % 4294967296 in if as_int == 0 || leb 2147483648 as_int then 4096 else page

-- The call that the tracee makes in the end: brk(2) as it is, none, mmap(2) or mmap2(2) with address and
-- length, or mremap(2) with the old address and the two sizes.
pub data Request : Type 0 where
  brk : Request
  void : Request
  mmap : ℕ → ℕ → Request
  mremap : ℕ → ℕ → ℕ → Request

-- `bss_end` is the end of the last mapping of the program.
unfoldable pub translate_brk_enter : Heap → ℕ → ℕ → ℕ → Request
translate_brk_enter h offset bss_end new_brk_address =
    if h.disabled
    then brk
    else if h.base == 0
    then (if not (new_brk_address == 0) then brk else mmap (word bss_end) offset)
    else if ltb new_brk_address h.base
    then void
    else mremap (sub_word h.base offset) (add_word h.size offset)
        (add_word (sub_word new_brk_address h.base) offset)

-- (int) result < 0 && (int) result > -4096
abbrev pub is_error : ℕ → Bool
is_error result = ltb 4294963200 (result % 4294967296)

abbrev pub break_of : Heap → ℕ
break_of h = add_word h.base h.size

-- The heap and the result, by the call that was made, its result and the argument of brk(2).
abbrev pub exit_with : Heap → ℕ → Request → ℕ → ℕ → Heap × ℕ
exit_with h offset brk result original =
    (if result == original then record h { disabled = true } else h, result)
exit_with h offset void result original = (h, break_of h)
exit_with h offset (mmap address length) result original =
    if is_error result
    then (h, 0)
    else (record h { base = add_word result offset; size = 0 }, add_word (add_word result offset) 0)
exit_with h offset (mremap old_address old_size new_size) result original =
    if is_error result || not (h.base == add_word result offset)
    then (h, break_of h)
    else (record h { size = sub_word new_size offset }, add_word h.base (sub_word new_size offset))

unfoldable pub translate_brk_exit : Heap → ℕ → Request → ℕ → ℕ → Heap × ℕ
translate_brk_exit h offset request result original =
    if h.disabled then (h, result) else exit_with h offset request result original

-- A call of brk(2) from its entry to its exit; `kernel` is what the call that is made returns.
unfoldable pub emulated_brk : (Request → ℕ) → Heap → ℕ → ℕ → ℕ → Heap × ℕ
emulated_brk kernel h offset bss_end address =
    let request = translate_brk_enter h offset bss_end address in
    translate_brk_exit h offset request (kernel request) address
