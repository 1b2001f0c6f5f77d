-- ===== src/Syscalls/Seccomp/Merge.antt =====
-- The numbers of PRoot's list and of the extensions' lists are merged, and all of them are traced.
use vm_forge.Prelude.{
  ℕ, zero, suc, ◌<◌, ◌≡◌, ◌≢◌, refl, List, [], ◌∷◌, arith, ◌==◌, ◌⊎◌, inl, inr, Bool-cases,
  if◌then◌else◌, Option, some, none, ◌↔◌, ◌∙◌,
}
use vm_forge.Prelude.Errors.{ok}
use vm_forge.Syscalls.Sysnum.{Sysnums, detranslate_sysnum}
use vm_forge.Syscalls.Seccomp.{
  ret_allow, ret_trace, Program, FilteredSysnum, SeccompArch, merge_one, merge_filtered_sysnums,
  merge_extensions, enable_syscall_filtering,
}
use vm_forge.Syscalls.Seccomp.Bpf.{Event, Bpf}
use vm_forge.Syscalls.Seccomp.Flags.{
  AreFlags, AreExtensionFlags, merge_filtered_sysnums-AreFlags, merge_extensions-AreFlags,
  flags_of_any-small,
}
use vm_forge.Syscalls.Seccomp.Correct.{
  or_else, flags_of, flags_of_any, verdict, set_seccomp_filters-verdict,
}

-- The number `v` is in a list, in the list of an extension.
abbrev pub Lists : List FilteredSysnum → ℕ → Type 0
Lists [] v = ⊥
Lists (s ∷ ss) v = (s.value ≡ v) ⊎ Lists ss v

abbrev pub ExtensionLists : List (Option (List FilteredSysnum)) → ℕ → Type 0
ExtensionLists [] v = ⊥
ExtensionLists (none ∷ extensions) v = ExtensionLists extensions v
ExtensionLists (some news ∷ extensions) v = Lists news v ⊎ ExtensionLists extensions v

-- The neutral number `v` is `nr` on an ABI, on one of several.
abbrev pub IsNumber : Sysnums → ℕ → ℕ → Type 0
IsNumber abi nr v = (detranslate_sysnum abi v ≢ abi.avoider) × (nr ≡ detranslate_sysnum abi v)

abbrev pub IsNumberOfAny : List Sysnums → ℕ → ℕ → Type 0
IsNumberOfAny [] nr v = ⊥
IsNumberOfAny (abi ∷ abis) nr v = IsNumber abi nr v ⊎ IsNumberOfAny abis nr v

-- The first of the architectures with a value.
abbrev pub arch_of : List SeccompArch → ℕ → Option SeccompArch
arch_of [] value = none
arch_of (a ∷ archs) value =
    let rest = arch_of archs value in if value == a.value then some a else rest

merge_one-Lists :
    (ss : List FilteredSysnum) (new : FilteredSysnum) (v : ℕ)
    → Lists (merge_one ss new) v ↔ (Lists ss v ⊎ (new.value ≡ v))
unfolding merge_one
merge_one-Lists [] new v = ground arith
merge_one-Lists (s ∷ ss) new v =
    let (there, back) = merge_one-Lists ss new v in
    elim (Bool-cases (s.value == new.value)) [
      | inl e ↦ rw e (ground arith)
      | inr e ↦ rw e (ground (arith, there, back))
    ]

merge_filtered_sysnums-Lists :
    (ss news : List FilteredSysnum) (v : ℕ)
    → Lists (merge_filtered_sysnums ss news) v ↔ (Lists ss v ⊎ Lists news v)
unfolding merge_filtered_sysnums
merge_filtered_sysnums-Lists ss [] v = ground arith
merge_filtered_sysnums-Lists ss (new ∷ news) v =
    let (there, back) = merge_filtered_sysnums-Lists (merge_one ss new) news v in
    let (one, one_back) = merge_one-Lists ss new v in ground (arith, there, back, one, one_back)

merge_extensions-Lists :
    (ss : List FilteredSysnum) (extensions : List (Option (List FilteredSysnum))) (v : ℕ)
    → Lists (merge_extensions ss extensions) v ↔ (Lists ss v ⊎ ExtensionLists extensions v)
unfolding merge_extensions
merge_extensions-Lists ss [] v = ground arith
merge_extensions-Lists ss (none ∷ extensions) v = merge_extensions-Lists ss extensions v
merge_extensions-Lists ss (some news ∷ extensions) v =
    let (there, back) = merge_extensions-Lists (merge_filtered_sysnums ss news) extensions v in
    let (one, one_back) = merge_filtered_sysnums-Lists ss news v in
    ground (arith, there, back, one, one_back)

-- The specification of the filter finds exactly the numbers that are listed.
flags_of-none :
    (abi : Sysnums) (ss : List FilteredSysnum) (nr v : ℕ)
    → flags_of abi ss nr ≡ none
    → IsNumber abi nr v
    → Lists ss v
    → ⊥
unfolding flags_of
flags_of-none abi [] nr v h is l = l
flags_of-none abi (s ∷ ss) nr v h is l = ground (arith, flags_of-none abi ss nr v)

flags_of-some :
    (abi : Sysnums) (ss : List FilteredSysnum) (nr flags : ℕ)
    → flags_of abi ss nr ≡ some flags
    → (v : ℕ) × IsNumber abi nr v × Lists ss v
unfolding flags_of
flags_of-some abi [] nr flags h = absurd (cc)
flags_of-some abi (s ∷ ss) nr flags h =
    let k = detranslate_sysnum abi s.value in
    elim (Bool-cases (k == abi.avoider)) [
      | inl absent ↦
          let (v, is, l) = flags_of-some abi ss nr flags (rw absent at h) in (v, is, inr l)
      | inr here ↦ elim (Bool-cases (nr == k)) [
        | inl hit ↦ (s.value, (ground arith, ground arith), inl refl)
        | inr miss ↦
            let (v, is, l) = flags_of-some abi ss nr flags (rw (here, miss) at h) in (v, is, inr l)
      ]
    ]

flags_of_any-none :
    (abis : List Sysnums) (ss : List FilteredSysnum) (nr v : ℕ)
    → flags_of_any abis ss nr ≡ none
    → IsNumberOfAny abis nr v
    → Lists ss v
    → ⊥
unfolding flags_of_any
flags_of_any-none [] ss nr v h is l = is
flags_of_any-none (abi ∷ abis) ss nr v h is l =
    by_first (flags_of abi ss nr) refl (λ h' there. flags_of_any-none abis ss nr v h' there l) h is
  where
    by_first :
        (first : Option ℕ)
        → flags_of abi ss nr ≡ first
        → (flags_of_any abis ss nr ≡ none → IsNumberOfAny abis nr v → ⊥)
        → or_else first (flags_of_any abis ss nr) ≡ none
        → IsNumber abi nr v ⊎ IsNumberOfAny abis nr v
        → ⊥
    by_first none e rest h (inl here) = flags_of-none abi ss nr v e here l
    by_first none e rest h (inr there) = rest h there
    by_first (some flags) e rest h is = absurd (cc)

flags_of_any-some :
    (abis : List Sysnums) (ss : List FilteredSysnum) (nr flags : ℕ)
    → flags_of_any abis ss nr ≡ some flags
    → (v : ℕ) × IsNumberOfAny abis nr v × Lists ss v
unfolding flags_of_any
flags_of_any-some [] ss nr flags h = absurd (cc)
flags_of_any-some (abi ∷ abis) ss nr flags h =
    by_first (flags_of abi ss nr) refl (flags_of_any-some abis ss nr flags) h
  where
    by_first :
        (first : Option ℕ)
        → flags_of abi ss nr ≡ first
        → (flags_of_any abis ss nr ≡ some flags → (v : ℕ) × IsNumberOfAny abis nr v × Lists ss v)
        → or_else first (flags_of_any abis ss nr) ≡ some flags
        → (v : ℕ) × IsNumberOfAny (abi ∷ abis) nr v × Lists ss v
    by_first none e rest h = let (v, is, l) = rest h in (v, inr is, l)
    by_first (some first) e rest h =
        let (v, is, l) = flags_of-some abi ss nr first e in (v, inl is, l)

verdict_of :
    (archs : List SeccompArch) (ss : List FilteredSysnum) (e : Event) {a : SeccompArch}
    → arch_of archs e.arch ≡ some a
    → verdict archs ss e
      ≡ (elim (flags_of_any a.abis ss e.nr) [ none ↦ ret_allow | some flags ↦ ret_trace flags ])
unfolding verdict
verdict_of [] ss e h = absurd (cc)
verdict_of (x ∷ archs) ss e {a} h = elim (Bool-cases (e.arch == x.value)) [
  | inl hit ↦ let same : x ≡ a = ground arith in rw (hit, same) refl
  | inr miss ↦ rw miss (verdict_of archs ss e (rw miss at h))
]

-- A list's and the extensions' requests, together.
abbrev pub IsAskedFor :
    SeccompArch → List FilteredSysnum → List (Option (List FilteredSysnum)) → ℕ → Type 0
IsAskedFor a proot_sysnums extensions nr =
    (v : ℕ) × IsNumberOfAny a.abis nr v × (Lists proot_sysnums v ⊎ ExtensionLists extensions v)

-- The two answers that have the kernel stop the tracee for PRoot: with FILTER_SYSEXIT and without it.
abbrev pub Traces : ℕ → Type 0
Traces answer = (answer ≡ ret_trace 0) ⊎ (answer ≡ ret_trace 1)

ret_trace-Traces : (flags : ℕ) → flags < 2 → Traces (ret_trace flags)
ret_trace-Traces zero h = inl refl
ret_trace-Traces (suc zero) h = inr refl
ret_trace-Traces (suc (suc n)) h = absurd (omega arith)

-- Where enable_syscall_filtering() makes a filter, the kernel that runs it on an architecture that is
-- handled either traces a system call, with the data 0 or FILTER_SYSEXIT, and then PRoot's own list or an
-- extension's has it under a number of one of the architecture's ABIs, or allows it, and then none of them
-- has it. The flags in the lists are 0 or FILTER_SYSEXIT.
pub enable_syscall_filtering-IsAskedFor :
    (b : Bpf) (e : Event) (archs : List SeccompArch) (proot_sysnums : List FilteredSysnum)
    → (extensions : List (Option (List FilteredSysnum))) (acc : ℕ) (p : Program) (a : SeccompArch)
    → AreFlags proot_sysnums
    → AreExtensionFlags extensions
    → arch_of archs e.arch ≡ some a
    → enable_syscall_filtering archs proot_sysnums extensions ≡ ok p
    → (IsAskedFor a proot_sysnums extensions e.nr × Traces (b.run e acc p.filter))
      ⊎ ((IsAskedFor a proot_sysnums extensions e.nr → ⊥) × (b.run e acc p.filter ≡ ret_allow))
unfolding enable_syscall_filtering merge_filtered_sysnums
enable_syscall_filtering-IsAskedFor b e archs proot_sysnums extensions acc p a own others at_a h =
    by_flags (flags_of_any a.abis merged e.nr) refl (verdict_of archs merged e at_a)
  where
    merged : List FilteredSysnum
    merged = merge_extensions (merge_filtered_sysnums [] proot_sysnums) extensions

    merged-AreFlags : AreFlags merged
    merged-AreFlags =
        merge_extensions-AreFlags (merge_filtered_sysnums [] proot_sysnums) extensions
          (merge_filtered_sysnums-AreFlags [] proot_sysnums tt own) others

    answers :
        (flags : ℕ)
        → b.run e acc p.filter ≡ ret_trace flags
        → flags < 2
        → Traces (b.run e acc p.filter)
    answers flags says small = rw says (ret_trace-Traces flags small)

    merged-Lists : (v : ℕ) → Lists merged v ↔ (Lists proot_sysnums v ⊎ ExtensionLists extensions v)
    merged-Lists v =
        let (there, back) =
          merge_extensions-Lists (merge_filtered_sysnums [] proot_sysnums) extensions v in
        let (one, one_back) = merge_filtered_sysnums-Lists [] proot_sysnums v in
        ground (arith, there, back, one, one_back)

    by_flags :
        (found : Option ℕ)
        → flags_of_any a.abis merged e.nr ≡ found
        → verdict archs merged e ≡ (elim (flags_of_any a.abis merged e.nr) as (λ _. ℕ) [
          | none ↦ ret_allow
          | some flags ↦ ret_trace flags
        ])
        → (IsAskedFor a proot_sysnums extensions e.nr × Traces (b.run e acc p.filter))
          ⊎ ((IsAskedFor a proot_sysnums extensions e.nr → ⊥) × (b.run e acc p.filter ≡ ret_allow))
    by_flags none eq says = inr (
      (λ (v, is, l).
          let (there, back) = merged-Lists v in
          flags_of_any-none a.abis merged e.nr v eq is (back l)),
      set_seccomp_filters-verdict b e archs merged acc p h ∙ says ∙ rw eq refl,
    )
    by_flags (some flags) eq says =
        let (v, is, l) = flags_of_any-some a.abis merged e.nr flags eq in
        let (there, back) = merged-Lists v in
        inl (
          (v, is, there l),
          answers flags (set_seccomp_filters-verdict b e archs merged acc p h ∙ says ∙ rw eq refl)
              (flags_of_any-small a.abis merged e.nr flags merged-AreFlags eq),
        )
