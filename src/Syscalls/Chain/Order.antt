-- ===== src/Syscalls/Chain/Order.antt =====
-- The calls of a chain of syscall/chain.c are made one by one, in the order in which they were registered.
use vm_forge.Prelude.{
  ℕ, zero, suc, ◌<◌, ◌≡◌, refl, ap, ◌∙◌, Bool, false, List, [], ◌∷◌, ◌++◌, append_assoc, arith,
  if◌then◌else◌, length, none, some,
}
use vm_forge.Prelude.Errors.{ok}
use vm_forge.Syscalls.Sysnum.{Sysnums, detranslate_sysnum}
use vm_forge.Syscalls.Heap.{sub_word, add_word}
use vm_forge.Syscalls.Chain.{
  ChainedSyscall, Chain, Registers, Stopped, listed, register_chained_syscall, chain_next_syscall,
  ended, started, made, run_chain,
}

-- The registers at the traps are those of the calls, in order.
abbrev pub AreCalls : Sysnums → List ChainedSyscall → List Registers → Type 0
AreCalls abi [] [] = Unit
AreCalls abi (c ∷ cs) (r ∷ rs) =
    ((r.systrap_num ≡ detranslate_sysnum abi c.sysnum) × (r.sysargs ≡ c.sysargs))
    × AreCalls abi cs rs
AreCalls abi _ _ = ⊥

-- A chain that has come to its end: the result is the forced one, or that of the last call.
abbrev pub IsOver : Chain → Registers → Stopped → Type 0
IsOver chain last t =
    (t.chain.syscalls ≡ none)
    × (t.chain.force_final_result ≡ false)
    × (t.registers.sysarg_result
        ≡ (if chain.force_final_result then chain.final_result else last.sysarg_result))

-- The calls that a tracee registers one after the other.
abbrev pub register_all : Stopped → List ChainedSyscall → Stopped
register_all t [] = t
register_all t (c ∷ cs) = register_all (register_chained_syscall t c) cs

register_all-syscalls :
    (t : Stopped) (c : ChainedSyscall) (cs : List ChainedSyscall)
    → (register_all t (c ∷ cs)).chain.syscalls ≡ some (listed t.chain.syscalls ++ c ∷ cs)
unfolding register_chained_syscall
register_all-syscalls t c [] = refl
register_all-syscalls t c (d ∷ cs) =
    register_all-syscalls (register_chained_syscall t c) d cs
    ∙ rw (append_assoc (listed t.chain.syscalls) (c ∷ []) (d ∷ cs)) refl

-- Registration touches nothing else.
register_all-registers :
    (t : Stopped) (cs : List ChainedSyscall)
    → ((register_all t cs).registers ≡ t.registers)
      × ((register_all t cs).chain.force_final_result ≡ t.chain.force_final_result)
      × ((register_all t cs).chain.final_result ≡ t.chain.final_result)
unfolding register_chained_syscall
register_all-registers t [] = (refl, refl, refl)
register_all-registers t (c ∷ cs) = register_all-registers (register_chained_syscall t c) cs

-- The kernel's registers at the last exit before the end.
abbrev pub last_exit : (Registers → Registers) → Registers → List Registers → Registers
last_exit kernel at_start [] = at_start
last_exit kernel at_start (trap ∷ traps) = last_exit kernel (kernel trap) traps

IsOver-transport :
    (c c' : Chain) (r r' : Registers) (t : Stopped)
    → c.force_final_result ≡ c'.force_final_result
    → c.final_result ≡ c'.final_result
    → r ≡ r'
    → IsOver c r t
    → IsOver c' r' t
IsOver-transport c c' r r' t e f g (gone, unforced, result) = (
  gone,
  unforced,
  result ∙ same c.force_final_result c'.force_final_result c.final_result c'.final_result e f g,
)
  where
    same :
        (b b' : Bool) (n n' : ℕ)
        → b ≡ b'
        → n ≡ n'
        → r ≡ r'
        → (if b then n else r.sysarg_result) ≡ (if b' then n' else r'.sysarg_result)
    same b b' n n' e f g = rw (e, f, g) refl

there_and_back : (ip size : ℕ) → ip < 18446744073709551616 → add_word (sub_word ip size) size ≡ ip
there_and_back ip size lt = omega arith

module _ (abi : Sysnums) (size : ℕ) (kernel : Registers → Registers)
    (steps : (r : Registers) → (kernel r).instr_pointer ≡ add_word r.instr_pointer size) where
  run_chain-IsOver :
      (n : ℕ) (t : Stopped) (cs : List ChainedSyscall)
      → t.chain.syscalls ≡ some cs
      → t.registers.instr_pointer < 18446744073709551616
      → length cs < n
      → (traps : List Registers) × (end : Stopped) × (run_chain n abi size kernel t
          ≡ ok (traps, end))
        × AreCalls abi cs traps
        × IsOver t.chain (last_exit kernel t.registers traps) end
        × (end.registers.instr_pointer ≡ t.registers.instr_pointer)
  unfolding run_chain chain_next_syscall
  run_chain-IsOver zero t cs h word lt = absurd (omega arith)
  run_chain-IsOver (suc n) t [] h word lt = ([], ended t, simp h refl, tt, (refl, refl, refl), refl)
  run_chain-IsOver (suc n) t (c ∷ cs) h word lt =
      let next = started abi size t c cs in
      let back : (kernel next.registers).instr_pointer ≡ t.registers.instr_pointer =
        steps next.registers ∙ there_and_back t.registers.instr_pointer size word in
      let (traps, end, runs, are, over, ip) =
        run_chain-IsOver n (made kernel next) cs refl (rw back word) (omega arith) in
      (next.registers ∷ traps, end, simp (h, runs) refl, ((refl, refl), are), over, ip ∙ back)

  -- The calls that are registered for a tracee with no chain are made in the order of their
  -- registration, each with its number on the architecture and its arguments, and no other is made. Then
  -- the chain is gone, the tracee is behind the trap that it made itself, and the result is the one that
  -- was forced, or that of the last call. The kernel takes a tracee from a trap to its end; one round more
  -- than there are calls is enough.
  pub register_all-run_chain :
      (n : ℕ) (t : Stopped) (c : ChainedSyscall) (cs : List ChainedSyscall)
      → t.chain.syscalls ≡ none
      → t.registers.instr_pointer < 18446744073709551616
      → suc (length cs) < n
      → (traps : List Registers) × (end : Stopped) × (run_chain n abi size kernel
            (register_all t (c ∷ cs))
          ≡ ok (traps, end))
        × AreCalls abi (c ∷ cs) traps
        × IsOver t.chain (last_exit kernel t.registers traps) end
        × (end.registers.instr_pointer ≡ t.registers.instr_pointer)
  register_all-run_chain n t c cs empty word lt =
      let u = register_all t (c ∷ cs) in
      let (same, force, final) = register_all-registers t (c ∷ cs) in
      let held : u.chain.syscalls ≡ some (c ∷ cs) = register_all-syscalls t c cs ∙ rw empty refl in
      let (traps, end, runs, are, over, ip) =
        run_chain-IsOver n u (c ∷ cs) held (rw same word) lt in
      let last = ap (λ (r : Registers). last_exit kernel r traps) same in
      (
        traps,
        end,
        runs,
        are,
        IsOver-transport u.chain t.chain _ _ end force final last over,
        ip ∙ ap (λ (r : Registers). r.instr_pointer) same,
      )
