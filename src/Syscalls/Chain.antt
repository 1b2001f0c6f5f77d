-- ===== src/Syscalls/Chain.antt =====
-- syscall/chain.c: system calls that the tracer makes in a tracee behind the one that it asked for. A word
-- has 64 bits; memory is never exhausted.
pub mod Order
use vm_forge.Prelude.{
  ℕ, zero, suc, not, ◌+◌, ◌-◌, ◌%◌, ◌≡◌, refl, Bool, true, false, List, [], ◌∷◌, ◌++◌,
  if◌then◌else◌, Option, none, some,
}
use vm_forge.Prelude.Errors.{Result, ok, err, assertion, ◌>>=◌}
use vm_forge.Syscalls.Sysnum.{Sysnums, detranslate_sysnum}
use vm_forge.Syscalls.Heap.{sub_word}

-- struct chained_syscall
pub record ChainedSyscall : Type 0 where
  pub sysnum : ℕ
  pub sysargs : List ℕ

pub data SysnumWorkaround : Type 0 where
  inactive process_faulty_call process_replaced_call : SysnumWorkaround

-- tracee->chain
pub record Chain : Type 0 where
  pub syscalls : Option (List ChainedSyscall)
  pub force_final_result : Bool
  pub final_result : ℕ
  pub sysnum_workaround_state : SysnumWorkaround

-- The registers that the code writes: SYSTRAP_NUM, SYSARG_1 to SYSARG_6, SYSARG_RESULT, INSTR_POINTER.
pub record Registers : Type 0 where
  pub systrap_num : ℕ
  pub sysargs : List ℕ
  pub sysarg_result : ℕ
  pub instr_pointer : ℕ

-- A tracee at the exit of a call; `restart_how` is whether it stops at the next exit.
pub record Stopped : Type 0 where
  pub chain : Chain
  pub registers : Registers
  pub restore_original_regs : Bool
  pub restart_how : Bool

abbrev pub listed : Option (List ChainedSyscall) → List ChainedSyscall
listed none = []
listed (some syscalls) = syscalls

unfoldable pub register_chained_syscall_internal : Stopped → ChainedSyscall → Bool → Stopped
register_chained_syscall_internal t syscall at_front =
    let syscalls = listed t.chain.syscalls in
    record t {
      chain = record t.chain {
        syscalls = some (if at_front then syscall ∷ syscalls else syscalls ++ syscall ∷ []);
      };
    }

unfoldable pub register_chained_syscall : Stopped → ChainedSyscall → Stopped
unfolding register_chained_syscall_internal
register_chained_syscall t syscall = register_chained_syscall_internal t syscall false

-- `original` are the number and the arguments that the tracee's call had.
unfoldable pub restart_original_syscall : Stopped → ChainedSyscall → Stopped
unfolding register_chained_syscall
restart_original_syscall t original = register_chained_syscall t original

abbrev pub is_inactive : SysnumWorkaround → Bool
is_inactive inactive = true
is_inactive _ = false

-- `current` is the call that is under way, which is made again before all others.
unfoldable pub restart_current_syscall_as_chained : Stopped → ChainedSyscall → Result Stopped
unfolding register_chained_syscall_internal
restart_current_syscall_as_chained t current =
    if is_inactive t.chain.sysnum_workaround_state
    then ok (
        register_chained_syscall_internal
          (record t { chain = record t.chain { sysnum_workaround_state = process_faulty_call } })
          current true)
    else err assertion

unfoldable pub force_chain_final_result : Stopped → ℕ → Stopped
force_chain_final_result t forced_result = record t {
  chain = record t.chain { force_final_result = true; final_result = forced_result };
}

-- No more chained calls.
abbrev pub ended : Stopped → Stopped
ended t = record t {
  chain = record t.chain { syscalls = none; force_final_result = false; final_result = 0 };
  registers = record t.registers {
    sysarg_result =
        if t.chain.force_final_result then t.chain.final_result else t.registers.sysarg_result;
  };
}

-- The trap is made once more, for the first chained call.
abbrev pub started : Sysnums → ℕ → Stopped → ChainedSyscall → List ChainedSyscall → Stopped
started abi systrap_size t syscall syscalls = record {
  chain = record t.chain { syscalls = some syscalls };
  registers = record t.registers {
    systrap_num = detranslate_sysnum abi syscall.sysnum;
    sysargs = syscall.sysargs;
    instr_pointer = sub_word t.registers.instr_pointer systrap_size;
  };
  restore_original_regs = false;
  restart_how = true;
}

abbrev pub next_of : Sysnums → ℕ → Stopped → Option (List ChainedSyscall) → Result Stopped
next_of abi systrap_size t none = err assertion
next_of abi systrap_size t (some []) = ok (ended t)
next_of abi systrap_size t (some (syscall ∷ syscalls)) =
    ok (started abi systrap_size t syscall syscalls)

unfoldable pub chain_next_syscall : Sysnums → ℕ → Stopped → Result Stopped
chain_next_syscall abi systrap_size t = next_of abi systrap_size t t.chain.syscalls

-- The call that the chain made runs up to its exit.
abbrev pub made : (Registers → Registers) → Stopped → Stopped
made kernel t = record t { registers = kernel t.registers }

abbrev pub has_chain : Option (List ChainedSyscall) → Bool
has_chain none = false
has_chain (some _) = true

-- The exits of a tracee, for so many rounds: while there is a chain its next call is made, which the
-- kernel takes to the next exit. The list holds the registers at each trap.
unfoldable pub run_chain :
    ℕ → Sysnums → ℕ → (Registers → Registers) → Stopped → Result (List Registers × Stopped)
unfolding chain_next_syscall
run_chain zero abi systrap_size kernel t = ok ([], t)
run_chain (suc n) abi systrap_size kernel t =
    if not (has_chain t.chain.syscalls)
    then ok ([], t)
    else chain_next_syscall abi systrap_size t >>= λ t'.
        (if not (has_chain t'.chain.syscalls)
          then ok ([], t')
          else run_chain n abi systrap_size kernel (made kernel t') >>= λ (traps, end).
              ok (t'.registers ∷ traps, end))
