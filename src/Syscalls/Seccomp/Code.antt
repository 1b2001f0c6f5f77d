-- ===== src/Syscalls/Seccomp/Code.antt =====
-- The statements that syscall/seccomp.c emits.
use vm_forge.Prelude.{
  ℕ, ◌+◌, ◌*◌, ◌≡◌, refl, ◌∙◌, List, [], ◌∷◌, ◌++◌, append-nil, append_assoc, arith, ◌==◌, inl, inr,
  Bool-cases, if◌then◌else◌, length, length-append, drop, drop-length_append,
}
use vm_forge.Prelude.Errors.{ok, >>=-eq-ok}
use vm_forge.Syscalls.Sysnum.{Sysnums, detranslate_sysnum}
use vm_forge.Syscalls.Seccomp.{
  Statement, load, jump_equal, jump, ret, syscall_offset, arch_offset, ret_allow, ret_trace,
  Program, FilteredSysnum, SeccompArch, start_arch_section, end_arch_section, section_length,
  count_traced, count_all, add_traced, add_all, add_arch, add_archs,
}

-- The statements of one ABI, of all ABIs, of an architecture, of all.
unfoldable pub traced_code : Sysnums → List FilteredSysnum → List Statement
traced_code abi [] = []
traced_code abi (s ∷ ss) =
    let rest = traced_code abi ss in
    if detranslate_sysnum abi s.value == abi.avoider
    then rest
    else jump_equal (detranslate_sysnum abi s.value) 0 1 ∷ ret (ret_trace s.flags) ∷ rest

unfoldable pub all_code : List Sysnums → List FilteredSysnum → List Statement
unfolding traced_code
all_code [] sysnums = []
all_code (abi ∷ abis) sysnums = traced_code abi sysnums ++ all_code abis sysnums

unfoldable pub arch_code : SeccompArch → List FilteredSysnum → List Statement
unfolding all_code
arch_code a sysnums =
    load arch_offset
    ∷ jump_equal a.value 1 0
    ∷ jump (section_length (count_all a.abis sysnums) + 1)
    ∷ load syscall_offset
    ∷ (all_code a.abis sysnums ++ ret ret_allow ∷ [])

unfoldable pub archs_code : List SeccompArch → List FilteredSysnum → List Statement
unfolding arch_code
archs_code [] sysnums = []
archs_code (a ∷ archs) sysnums = arch_code a sysnums ++ archs_code archs sysnums

pub length-traced_code :
    (abi : Sysnums) (ss : List FilteredSysnum)
    → length (traced_code abi ss) ≡ count_traced abi ss * 2
unfolding traced_code count_traced
length-traced_code abi [] = refl
length-traced_code abi (s ∷ ss) = ground (arith, length-traced_code abi ss)

pub length-all_code :
    (abis : List Sysnums) (ss : List FilteredSysnum)
    → length (all_code abis ss) ≡ count_all abis ss * 2
unfolding all_code count_all
length-all_code [] ss = refl
length-all_code (abi ∷ abis) ss = omega (
  arith,
  length-append (traced_code abi ss) (all_code abis ss),
  length-traced_code abi ss,
  length-all_code abis ss,
)

-- The code that is emitted.
pub add_traced-filter :
    (abi : Sysnums) (ss : List FilteredSysnum) (p p' : Program)
    → add_traced abi ss p ≡ ok p'
    → p'.filter ≡ p.filter ++ traced_code abi ss
unfolding add_traced traced_code
add_traced-filter abi [] p p' h = ground (arith, append-nil p.filter)
add_traced-filter abi (s ∷ ss) p p' h =
    let syscall = detranslate_sysnum abi s.value in
    let two = jump_equal syscall 0 1 ∷ ret (ret_trace s.flags) ∷ [] in
    elim (Bool-cases (syscall == abi.avoider)) [
      | inl e ↦ rw e (add_traced-filter abi ss p p' (rw e at h))
      | inr e ↦ ground (
        arith,
        add_traced-filter abi ss (record p { filter = p.filter ++ two }) p',
        append_assoc p.filter two (traced_code abi ss),
      )
    ]

pub add_all-filter :
    (abis : List Sysnums) (ss : List FilteredSysnum) (p p' : Program)
    → add_all abis ss p ≡ ok p'
    → p'.filter ≡ p.filter ++ all_code abis ss
unfolding add_all all_code
add_all-filter [] ss p p' h = ground (arith, append-nil p.filter)
add_all-filter (abi ∷ abis) ss p p' h =
    let (m, e, k) = >>=-eq-ok (add_traced abi ss p) _ h in
    add_all-filter abis ss m p' k
    ∙ rw (add_traced-filter abi ss p m e)
        (append_assoc p.filter (traced_code abi ss) (all_code abis ss))

pub start_arch_section-filter :
    (p p' : Program) (arch nb : ℕ)
    → start_arch_section p arch nb ≡ ok p'
    → p'.filter
      ≡ p.filter
        ++ load arch_offset
          ∷ jump_equal arch 1 0
          ∷ jump (section_length nb + 1)
          ∷ load syscall_offset
          ∷ []
unfolding start_arch_section
start_arch_section-filter p p' arch nb h = ground arith

pub end_arch_section-filter :
    (p p' : Program) (nb : ℕ)
    → end_arch_section p nb ≡ ok p'
    → p'.filter ≡ p.filter ++ ret ret_allow ∷ []
unfolding end_arch_section
end_arch_section-filter p p' nb h = ground arith

pub add_arch-filter :
    (a : SeccompArch) (ss : List FilteredSysnum) (p p' : Program)
    → add_arch a ss p ≡ ok p'
    → p'.filter ≡ p.filter ++ arch_code a ss
unfolding add_arch arch_code
add_arch-filter a ss p p' h =
    let nb = count_all a.abis ss in
    let (p1, e1, h1) = >>=-eq-ok (start_arch_section p a.value nb) _ h in
    let (p2, e2, h2) = >>=-eq-ok (add_all a.abis ss p1) _ h1 in
    let start =
      load arch_offset
      ∷ jump_equal a.value 1 0
      ∷ jump (section_length nb + 1)
      ∷ load syscall_offset
      ∷ [] in
    let first : p1.filter ≡ p.filter ++ start = start_arch_section-filter p p1 a.value nb e1 in
    let last : p'.filter ≡ p2.filter ++ ret ret_allow ∷ [] = end_arch_section-filter p2 p' nb h2 in
    let middle = add_all-filter a.abis ss p1 p2 e2 in
    last
    ∙ rw (middle, first)
        (append_assoc (p.filter ++ start) (all_code a.abis ss) (ret ret_allow ∷ [])
          ∙ append_assoc p.filter start (all_code a.abis ss ++ ret ret_allow ∷ []))

pub add_archs-filter :
    (archs : List SeccompArch) (ss : List FilteredSysnum) (p p' : Program)
    → add_archs archs ss p ≡ ok p'
    → p'.filter ≡ p.filter ++ archs_code archs ss
unfolding add_archs archs_code
add_archs-filter [] ss p p' h = ground (arith, append-nil p.filter)
add_archs-filter (a ∷ archs) ss p p' h =
    let (m, e, k) = >>=-eq-ok (add_arch a ss p) _ h in
    add_archs-filter archs ss m p' k
    ∙ rw (add_arch-filter a ss p m e) (append_assoc p.filter (arch_code a ss) (archs_code archs ss))

-- A jump over a section ends behind it.
pub over_section :
    (a : SeccompArch) (ss : List FilteredSysnum) (rest : List Statement)
    → drop
        (section_length (count_all a.abis ss) + 1)
        (load syscall_offset ∷ ((all_code a.abis ss ++ ret ret_allow ∷ []) ++ rest))
      ≡ rest
over_section a ss rest =
    let body = load syscall_offset ∷ (all_code a.abis ss ++ ret ret_allow ∷ []) in
    let measured : section_length (count_all a.abis ss) + 1 ≡ length body =
      omega (
        arith,
        length-all_code a.abis ss,
        length-append (all_code a.abis ss) (ret ret_allow ∷ []),
      ) in
    rw measured (drop-length_append body rest)
