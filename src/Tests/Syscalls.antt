-- ===== src/Tests/Syscalls.antt =====
-- The numbers of system calls, and a filter for one architecture that a kernel of a few lines runs.
use vm_forge.Prelude.{
  ℕ, zero, suc, ◌+◌, ◌≡◌, ◌≢◌, ◌⊎◌, ◌↔◌, refl, true, false, List, [], ◌∷◌, drop, length, ◌==◌,
  if◌then◌else◌, some, none, arith,
}
use vm_forge.Prelude.Errors.{ok}
use vm_forge.Syscalls.Sysnum.{
  Sysnums, translate_sysnum, find_sysnum, detranslate_sysnum, translate-detranslate,
  translate_sysnum_outside,
}
use vm_forge.Syscalls.Heap.{add_word}
use vm_forge.Syscalls.Chain.{inactive, ChainedSyscall, Registers, Stopped, run_chain}
use vm_forge.Syscalls.Chain.Order.{
  AreCalls, IsOver, register_all, last_exit, register_all-run_chain,
}
use vm_forge.Syscalls.Seccomp.{
  Statement, load, jump_equal, jump, ret, ret_allow, ret_kill, ret_trace, Program, FilteredSysnum,
  SeccompArch, set_seccomp_filters, enable_syscall_filtering,
}
use vm_forge.Syscalls.Seccomp.Bpf.{Event, Bpf}
use vm_forge.Syscalls.Seccomp.Correct.{verdict, set_seccomp_filters-verdict}
use vm_forge.Syscalls.Seccomp.Merge.{IsAskedFor, Traces, enable_syscall_filtering-IsAskedFor}

abbrev numbers : Sysnums
numbers = record { avoider = 4294967295; table = 5 ∷ 0 ∷ 9 ∷ []; offset = 10 }

the_ninth : detranslate_sysnum numbers 9 ≢ 4294967295
unfolding detranslate_sysnum find_sysnum
the_ninth = omega arith

translate-detranslate_example : translate_sysnum numbers (detranslate_sysnum numbers 9) ≡ some 9
translate-detranslate_example = translate-detranslate numbers 9 the_ninth

translate_sysnum_outside_example :
    (translate_sysnum numbers 13 ≡ none) ↔ (13 ≡ 10 + length numbers.table)
translate_sysnum_outside_example = translate_sysnum_outside numbers 13

-- The statements from the one on that is `skip` further.
exec : Event → ℕ → ℕ → List Statement → ℕ
exec e skip acc [] = ret_kill
exec e (suc k) acc (s ∷ rest) = exec e k acc rest
exec e zero acc (load offset ∷ rest) = exec e zero (if offset == 0 then e.nr else e.arch) rest
exec e zero acc (jump_equal k jt jf ∷ rest) = exec e (if acc == k then jt else jf) acc rest
exec e zero acc (jump k ∷ rest) = exec e k acc rest
exec e zero acc (ret k ∷ rest) = k

exec-drop :
    (e : Event) (k acc : ℕ) (rest : List Statement) → exec e k acc rest ≡ exec e 0 acc (drop k rest)
unfolding exec
exec-drop e zero acc rest = refl
exec-drop e (suc k) acc [] = refl
exec-drop e (suc k) acc (s ∷ rest) = exec-drop e k acc rest

exec-nr :
    (e : Event) (acc : ℕ) (rest : List Statement)
    → exec e 0 acc (load 0 ∷ rest) ≡ exec e 0 e.nr rest
unfolding exec
exec-nr e acc rest = refl

exec-arch :
    (e : Event) (acc : ℕ) (rest : List Statement)
    → exec e 0 acc (load 4 ∷ rest) ≡ exec e 0 e.arch rest
unfolding exec
exec-arch e acc rest = refl

exec-jump_equal :
    (e : Event) (acc k jt jf : ℕ) (rest : List Statement)
    → exec e 0 acc (jump_equal k jt jf ∷ rest)
      ≡ exec e 0 acc (drop (if acc == k then jt else jf) rest)
unfolding exec
exec-jump_equal e acc k jt jf rest = exec-drop e (if acc == k then jt else jf) acc rest

exec-jump :
    (e : Event) (acc k : ℕ) (rest : List Statement)
    → exec e 0 acc (jump k ∷ rest) ≡ exec e 0 acc (drop k rest)
unfolding exec
exec-jump e acc k rest = exec-drop e k acc rest

exec-ret : (e : Event) (acc k : ℕ) (rest : List Statement) → exec e 0 acc (ret k ∷ rest) ≡ k
unfolding exec
exec-ret e acc k rest = refl

kernel : Bpf
kernel = record {
  run = λ e acc rest. exec e 0 acc rest;
  run_nr = exec-nr;
  run_arch = exec-arch;
  run_jump_equal = exec-jump_equal;
  run_jump = exec-jump;
  run_ret = exec-ret;
}

abbrev machine : SeccompArch
machine = record { value = 183; abis = numbers ∷ [] }

abbrev asked : List FilteredSysnum
asked = record { value = 9; flags = 1 } ∷ []

abbrev code : Program
code = record {
  filter =
      load 4
      ∷ jump_equal 183 1 0
      ∷ jump 4
      ∷ load 0
      ∷ jump_equal 12 0 1
      ∷ ret (ret_trace 1)
      ∷ ret ret_allow
      ∷ ret ret_kill
      ∷ [];
  len = 8;
}

makes_code : set_seccomp_filters (machine ∷ []) asked ≡ ok code
unfolding set_seccomp_filters detranslate_sysnum
makes_code = refl

abbrev event : Event
event = record { nr = 12; arch = 183 }

set_seccomp_filters-verdict_example :
    kernel.run event 0 code.filter ≡ verdict (machine ∷ []) asked event
set_seccomp_filters-verdict_example =
    set_seccomp_filters-verdict kernel event (machine ∷ []) asked 0 code makes_code

enables_code : enable_syscall_filtering (machine ∷ []) [] (none ∷ some asked ∷ []) ≡ ok code
unfolding enable_syscall_filtering detranslate_sysnum
enables_code = refl

enable_syscall_filtering-IsAskedFor_example :
    (IsAskedFor machine [] (none ∷ some asked ∷ []) 12 × Traces (kernel.run event 0 code.filter))
    ⊎ ((IsAskedFor machine [] (none ∷ some asked ∷ []) 12 → ⊥)
        × (kernel.run event 0 code.filter ≡ ret_allow))
enable_syscall_filtering-IsAskedFor_example =
    enable_syscall_filtering-IsAskedFor kernel event (machine ∷ []) [] (none ∷ some asked ∷ []) 0
      code machine tt (omega arith, tt) refl enables_code

-- Two calls behind a tracee's own, on a machine whose trap has four bytes and whose calls return 5.
abbrev first_call : ChainedSyscall
first_call = record { sysnum = 9; sysargs = 1 ∷ 2 ∷ 3 ∷ 0 ∷ 0 ∷ 0 ∷ [] }

abbrev second_call : ChainedSyscall
second_call = record { sysnum = 5; sysargs = 4 ∷ 0 ∷ 0 ∷ 0 ∷ 0 ∷ 0 ∷ [] }

abbrev at_exit : Stopped
at_exit = record {
  chain = record {
    syscalls = none;
    force_final_result = true;
    final_result = 77;
    sysnum_workaround_state = inactive;
  };
  registers = record { systrap_num = 11; sysargs = []; sysarg_result = 0; instr_pointer = 400 };
  restore_original_regs = true;
  restart_how = false;
}

abbrev cpu : Registers → Registers
cpu r = record r { sysarg_result = 5; instr_pointer = add_word r.instr_pointer 4 }

cpu-steps : (r : Registers) → (cpu r).instr_pointer ≡ add_word r.instr_pointer 4
cpu-steps r = refl

register_all-run_chain_example :
    (traps : List Registers) × (end : Stopped) × (run_chain 3 numbers 4 cpu
        (register_all at_exit (first_call ∷ second_call ∷ []))
      ≡ ok (traps, end))
    × AreCalls numbers (first_call ∷ second_call ∷ []) traps
    × IsOver at_exit.chain (last_exit cpu at_exit.registers traps) end
    × (end.registers.instr_pointer ≡ at_exit.registers.instr_pointer)
register_all-run_chain_example =
    register_all-run_chain numbers 4 cpu cpu-steps 3 at_exit first_call (second_call ∷ []) refl
      (omega arith) (omega arith)
