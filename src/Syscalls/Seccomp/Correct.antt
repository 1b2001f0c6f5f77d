-- ===== src/Syscalls/Seccomp/Correct.antt =====
-- The filter does what the comment of set_seccomp_filters() says.
use vm_forge.Prelude.{
  ℕ, ◌+◌, ◌≡◌, refl, not, List, [], ◌∷◌, ◌++◌, append_assoc, arith, ◌==◌, inl, inr, Bool-cases,
  if◌then◌else◌, Option, some, none,
}
use vm_forge.Prelude.Errors.{ok, >>=-eq-ok}
use vm_forge.Syscalls.Sysnum.{Sysnums, detranslate_sysnum}
use vm_forge.Syscalls.Seccomp.{
  Statement, load, jump_equal, jump, ret, syscall_offset, ret_kill, ret_allow, ret_trace, Program,
  FilteredSysnum, SeccompArch, section_length, count_all, add_archs, finalize_program_filter,
  set_seccomp_filters,
}
use vm_forge.Syscalls.Seccomp.Bpf.{Event, Bpf}
use vm_forge.Syscalls.Seccomp.Code.{
  traced_code, all_code, arch_code, archs_code, add_archs-filter, over_section,
}

-- The flags of the first entry that an ABI has as the number `nr`.
unfoldable pub flags_of : Sysnums → List FilteredSysnum → ℕ → Option ℕ
flags_of abi [] nr = none
flags_of abi (s ∷ ss) nr =
    let rest = flags_of abi ss nr in
    if not (detranslate_sysnum abi s.value == abi.avoider)
    then (if nr == detranslate_sysnum abi s.value then some s.flags else rest)
    else rest

abbrev pub or_else : Option ℕ → Option ℕ → Option ℕ
or_else none o = o
or_else (some n) o = some n

unfoldable pub flags_of_any : List Sysnums → List FilteredSysnum → ℕ → Option ℕ
unfolding flags_of
flags_of_any [] sysnums nr = none
flags_of_any (abi ∷ abis) sysnums nr =
    or_else (flags_of abi sysnums nr) (flags_of_any abis sysnums nr)

-- What the filter is to answer: trace what is asked for, allow the rest, and kill on an architecture
-- that is not handled.
unfoldable pub verdict : List SeccompArch → List FilteredSysnum → Event → ℕ
unfolding flags_of_any
verdict [] sysnums e = ret_kill
verdict (a ∷ archs) sysnums e =
    let rest = verdict archs sysnums e in
    if e.arch == a.value
    then elim (flags_of_any a.abis sysnums e.nr) [ none ↦ ret_allow | some flags ↦ ret_trace flags ]
    else rest

module _ (b : Bpf) (e : Event) where
  run_traced :
      (abi : Sysnums) (ss : List FilteredSysnum) (rest : List Statement)
      → b.run e e.nr (traced_code abi ss ++ rest)
        ≡ (elim (flags_of abi ss e.nr) [ none ↦ b.run e e.nr rest | some flags ↦ ret_trace flags ])
  unfolding traced_code flags_of
  run_traced abi [] rest = refl
  run_traced abi (s ∷ ss) rest =
      let k = detranslate_sysnum abi s.value in
      let code = ret (ret_trace s.flags) ∷ traced_code abi ss ++ rest in
      elim (Bool-cases (k == abi.avoider)) [
        | inl absent ↦ rw absent (run_traced abi ss rest)
        | inr here ↦
            rw (here, b.run_jump_equal e e.nr k 0 1 code)
              (elim (Bool-cases (e.nr == k)) [
                | inl hit ↦
                    rw hit (b.run_ret e e.nr (ret_trace s.flags) (traced_code abi ss ++ rest))
                | inr miss ↦ rw miss (run_traced abi ss rest)
              ])
      ]

  run_all :
      (abis : List Sysnums) (ss : List FilteredSysnum) (rest : List Statement)
      → b.run e e.nr (all_code abis ss ++ rest) ≡ (elim (flags_of_any abis ss e.nr) [
        | none ↦ b.run e e.nr rest
        | some flags ↦ ret_trace flags
      ])
  unfolding all_code flags_of_any
  run_all [] ss rest = refl
  run_all (abi ∷ abis) ss rest =
      rw
        (
          append_assoc (traced_code abi ss) (all_code abis ss) rest,
          run_traced abi ss (all_code abis ss ++ rest),
        )
        (by_first (flags_of abi ss e.nr) (run_all abis ss rest))
    where
      by_first :
          (first : Option ℕ)
          → b.run e e.nr (all_code abis ss ++ rest)
            ≡ (elim (flags_of_any abis ss e.nr) as (λ _. ℕ) [
              | none ↦ b.run e e.nr rest
              | some flags ↦ ret_trace flags
            ])
          → (elim first as (λ _. ℕ) [
            | none ↦ b.run e e.nr (all_code abis ss ++ rest)
            | some flags ↦ ret_trace flags
          ])
            ≡ (elim (or_else first (flags_of_any abis ss e.nr)) as (λ _. ℕ) [
              | none ↦ b.run e e.nr rest
              | some flags ↦ ret_trace flags
            ])
      by_first none h = h
      by_first (some flags) h = refl

  run_arch_code :
      (a : SeccompArch) (ss : List FilteredSysnum) (acc : ℕ) (rest : List Statement)
      → b.run e acc (arch_code a ss ++ rest) ≡ (
          if e.arch == a.value
          then (elim (flags_of_any a.abis ss e.nr) [
            | none ↦ ret_allow
            | some flags ↦ ret_trace flags
          ])
          else b.run e e.arch rest)
  unfolding arch_code
  run_arch_code a ss acc rest =
      let nb = count_all a.abis ss in
      let body = all_code a.abis ss ++ ret ret_allow ∷ [] in
      let entry = load syscall_offset ∷ (body ++ rest) in
      rw
        (
          b.run_arch e acc (jump_equal a.value 1 0 ∷ jump (section_length nb + 1) ∷ entry),
          b.run_jump_equal e e.arch a.value 1 0 (jump (section_length nb + 1) ∷ entry),
        )
        (elim (Bool-cases (e.arch == a.value)) [
          | inl hit ↦
              rw
                (
                  hit,
                  b.run_nr e e.arch (body ++ rest),
                  append_assoc (all_code a.abis ss) (ret ret_allow ∷ []) rest,
                  run_all a.abis ss (ret ret_allow ∷ rest),
                )
                (λ i. elim (flags_of_any a.abis ss e.nr) as (λ _. ℕ) [
                  | none ↦ b.run_ret e e.nr ret_allow rest i
                  | some flags ↦ ret_trace flags
                ])
          | inr miss ↦
              rw (miss, b.run_jump e e.arch (section_length nb + 1) entry, over_section a ss rest)
        ])

  run_archs_code :
      (archs : List SeccompArch) (ss : List FilteredSysnum) (acc : ℕ)
      → b.run e acc (archs_code archs ss ++ ret ret_kill ∷ []) ≡ verdict archs ss e
  unfolding archs_code verdict
  run_archs_code [] ss acc = b.run_ret e acc ret_kill []
  run_archs_code (a ∷ archs) ss acc = rw (
    append_assoc (arch_code a ss) (archs_code archs ss) (ret ret_kill ∷ []),
    run_arch_code a ss acc (archs_code archs ss ++ ret ret_kill ∷ []),
    run_archs_code archs ss e.arch,
  )

  -- Whatever the architectures and the numbers asked for: where set_seccomp_filters() makes a program,
  -- the kernel that runs it kills a call on an architecture that is not handled, traces with the flags
  -- that are asked for a call that one of the architecture's ABIs has among the numbers, and allows
  -- every other call; of several entries with the architecture's value, or the call's number, the first
  -- counts.
  pub set_seccomp_filters-verdict :
      (archs : List SeccompArch) (ss : List FilteredSysnum) (acc : ℕ) (p : Program)
      → set_seccomp_filters archs ss ≡ ok p
      → b.run e acc p.filter ≡ verdict archs ss e
  unfolding set_seccomp_filters finalize_program_filter
  set_seccomp_filters-verdict archs ss acc p h =
      let (m, eq, done) = >>=-eq-ok (add_archs archs ss (record { filter = []; len = 0 })) _ h in
      let code = add_archs-filter archs ss (record { filter = []; len = 0 }) m eq in
      let all : p.filter ≡ m.filter ++ ret ret_kill ∷ [] = ground arith in
      rw (all, code) (run_archs_code archs ss acc)
