-- ===== src/Syscalls/Seccomp/Bpf.antt =====
-- What the kernel does with the statements of a filter, as its documentation has it.
use vm_forge.Prelude.{ℕ, ◌≡◌, List, ◌∷◌, drop, ◌==◌, if◌then◌else◌}
use vm_forge.Syscalls.Seccomp.{Statement, load, jump_equal, jump, ret, syscall_offset, arch_offset}

-- struct seccomp_data, as far as a filter reads it.
pub record Event : Type 0 where
  pub nr : ℕ
  pub arch : ℕ

-- The value that the statements from some place on return, for an accumulator: jumps are relative
-- to the next statement.
pub record Bpf : Type 0 where
  pub run : Event → ℕ → List Statement → ℕ
  pub run_nr :
      (e : Event) (acc : ℕ) (rest : List Statement)
      → run e acc (load syscall_offset ∷ rest) ≡ run e e.nr rest
  pub run_arch :
      (e : Event) (acc : ℕ) (rest : List Statement)
      → run e acc (load arch_offset ∷ rest) ≡ run e e.arch rest
  pub run_jump_equal :
      (e : Event) (acc k jt jf : ℕ) (rest : List Statement)
      → run e acc (jump_equal k jt jf ∷ rest) ≡ run e acc (drop (if acc == k then jt else jf) rest)
  pub run_jump :
      (e : Event) (acc k : ℕ) (rest : List Statement)
      → run e acc (jump k ∷ rest) ≡ run e acc (drop k rest)
  pub run_ret : (e : Event) (acc k : ℕ) (rest : List Statement) → run e acc (ret k ∷ rest) ≡ k
