-- ===== src/Syscalls/Seccomp.antt =====
-- syscall/seccomp.c: the list of the system calls that PRoot and its extensions ask for, and the BPF
-- program that the kernel is given for it. prctl(2) that installs the program is not modelled, and
-- memory is never exhausted. The final entry of a list (PR_void) is the list's end.
pub mod Bpf
pub mod Code
pub mod Correct
pub mod Flags
pub mod Merge
use vm_forge.Prelude.{
  ℕ, zero, suc, ◌+◌, ◌-◌, ◌*◌, ◌%◌, ◌≤◌, ◌<◌, ◌≡◌, refl, Bool, true, false, not, List, [], ◌∷◌,
  ◌++◌, arith, ltb, ◌==◌, if◌then◌else◌, length, Option, some, none,
}
use vm_forge.Prelude.Errors.{Result, ok, err, erange, ◌>>=◌}
use vm_forge.Syscalls.Sysnum.{Sysnums, detranslate_sysnum}
use Prim.Native.Nat.{bit_or}

-- struct sock_filter, with the codes that the file uses: BPF_LD + BPF_W + BPF_ABS,
-- BPF_JMP + BPF_JEQ + BPF_K, BPF_JMP + BPF_JA + BPF_K and BPF_RET + BPF_K.
pub data Statement : Type 0 where
  load : ℕ → Statement
  jump_equal : ℕ → ℕ → ℕ → Statement
  jump : ℕ → Statement
  ret : ℕ → Statement

-- offsetof(struct seccomp_data, nr) and offsetof(struct seccomp_data, arch)
abbrev pub syscall_offset : ℕ
syscall_offset = 0

abbrev pub arch_offset : ℕ
arch_offset = 4

-- SECCOMP_RET_KILL, SECCOMP_RET_TRACE + flag as an int, SECCOMP_RET_ALLOW
abbrev pub ret_kill : ℕ
ret_kill = 0

abbrev pub ret_trace : ℕ → ℕ
ret_trace flag = (2146435072 + flag) % 4294967296

abbrev pub ret_allow : ℕ
ret_allow = 2147418112

-- struct sock_fprog: `len` is an unsigned short.
pub record Program : Type 0 where
  pub filter : List Statement
  pub len : ℕ

pub record FilteredSysnum : Type 0 where
  pub value : ℕ
  pub flags : ℕ

-- The tables of the ABIs of an architecture.
pub record SeccompArch : Type 0 where
  pub value : ℕ
  pub abis : List Sysnums

unfoldable pub add_statements : Program → List Statement → Program
add_statements p statements = record p { filter = p.filter ++ statements }

unfoldable pub add_trace_syscall : Program → ℕ → ℕ → Result Program
unfolding add_statements
add_trace_syscall p syscall flag =
    if ltb 4294967295 syscall
    then err erange
    else ok (add_statements p (jump_equal syscall 0 1 ∷ ret (ret_trace flag) ∷ []))

abbrev pub section_length : ℕ → ℕ
section_length nb_traced_syscalls = 1 + nb_traced_syscalls * 2

unfoldable pub end_arch_section : Program → ℕ → Result Program
unfolding add_statements
end_arch_section p nb_traced_syscalls =
    let p' = add_statements p (ret ret_allow ∷ []) in
    if length p'.filter - p'.len == section_length nb_traced_syscalls then ok p' else err erange

unfoldable pub start_arch_section : Program → ℕ → ℕ → Result Program
unfolding add_statements
start_arch_section p arch nb_traced_syscalls =
    let p' = add_statements p (
      load arch_offset
      ∷ jump_equal arch 1 0
      ∷ jump (section_length nb_traced_syscalls + 1)
      ∷ load syscall_offset
      ∷ []) in
    if ltb 4294967294 (section_length nb_traced_syscalls)
    then err erange
    else ok (record p' { len = length p'.filter % 65536 })

unfoldable pub finalize_program_filter : Program → Program
unfolding add_statements
finalize_program_filter p =
    let p' = add_statements p (ret ret_kill ∷ []) in record p' { len = length p'.filter % 65536 }

-- The first pass over the numbers of one ABI: how many of them it has.
unfoldable pub count_traced : Sysnums → List FilteredSysnum → ℕ
count_traced abi [] = 0
count_traced abi (s ∷ ss) =
    let rest = count_traced abi ss in
    if detranslate_sysnum abi s.value == abi.avoider then rest else suc rest

unfoldable pub count_all : List Sysnums → List FilteredSysnum → ℕ
unfolding count_traced
count_all [] sysnums = 0
count_all (abi ∷ abis) sysnums = count_traced abi sysnums + count_all abis sysnums

-- The second pass.
unfoldable pub add_traced : Sysnums → List FilteredSysnum → Program → Result Program
unfolding add_trace_syscall
add_traced abi [] p = ok p
add_traced abi (s ∷ ss) p =
    (if detranslate_sysnum abi s.value == abi.avoider
      then ok p
      else add_trace_syscall p (detranslate_sysnum abi s.value) s.flags)
    >>= λ p'. add_traced abi ss p'

unfoldable pub add_all : List Sysnums → List FilteredSysnum → Program → Result Program
unfolding add_traced
add_all [] sysnums p = ok p
add_all (abi ∷ abis) sysnums p = add_traced abi sysnums p >>= λ p'. add_all abis sysnums p'

-- One round of the loop over the architectures.
unfoldable pub add_arch : SeccompArch → List FilteredSysnum → Program → Result Program
unfolding start_arch_section add_all count_all end_arch_section
add_arch a sysnums p =
    let nb = count_all a.abis sysnums in
    start_arch_section p a.value nb >>= λ p1.
    add_all a.abis sysnums p1 >>= λ p2. end_arch_section p2 nb

unfoldable pub add_archs : List SeccompArch → List FilteredSysnum → Program → Result Program
unfolding add_arch
add_archs [] sysnums p = ok p
add_archs (a ∷ archs) sysnums p = add_arch a sysnums p >>= λ p'. add_archs archs sysnums p'

-- The program that set_seccomp_filters() hands to the kernel.
unfoldable pub set_seccomp_filters : List SeccompArch → List FilteredSysnum → Result Program
unfolding add_archs finalize_program_filter
set_seccomp_filters archs sysnums =
    add_archs archs sysnums (record { filter = []; len = 0 }) >>= λ p.
    ok (finalize_program_filter p)

-- One number of merge_filtered_sysnums(): the flags are merged, or a new entry is the last one.
unfoldable pub merge_one : List FilteredSysnum → FilteredSysnum → List FilteredSysnum
merge_one [] new = new ∷ []
merge_one (s ∷ ss) new =
    let rest = merge_one ss new in
    if s.value == new.value then record s { flags = bit_or s.flags new.flags } ∷ ss else s ∷ rest

unfoldable pub merge_filtered_sysnums :
    List FilteredSysnum → List FilteredSysnum → List FilteredSysnum
unfolding merge_one
merge_filtered_sysnums sysnums [] = sysnums
merge_filtered_sysnums sysnums (new ∷ news) = merge_filtered_sysnums (merge_one sysnums new) news

-- The lists of the extensions; an extension may have none.
unfoldable pub merge_extensions :
    List FilteredSysnum → List (Option (List FilteredSysnum)) → List FilteredSysnum
unfolding merge_filtered_sysnums
merge_extensions sysnums [] = sysnums
merge_extensions sysnums (none ∷ extensions) = merge_extensions sysnums extensions
merge_extensions sysnums (some news ∷ extensions) =
    merge_extensions (merge_filtered_sysnums sysnums news) extensions

unfoldable pub enable_syscall_filtering :
    List SeccompArch → List FilteredSysnum → List (Option (List FilteredSysnum)) → Result Program
unfolding merge_extensions set_seccomp_filters
enable_syscall_filtering archs proot_sysnums extensions =
    set_seccomp_filters archs
      (merge_extensions (merge_filtered_sysnums [] proot_sysnums) extensions)
