-- ===== src/Syscalls/Seccomp/Flags.antt =====
-- The flags of the merged list of syscall/seccomp.c: those of the lists that are merged, and no others.
use Prim.Native.Nat.{bit_or}
use vm_forge.Prelude.{
  ℕ, zero, suc, ◌<◌, ◌≡◌, refl, List, [], ◌∷◌, arith, ◌==◌, inl, inr, Bool-cases, Option, some,
  none,
}
use vm_forge.Syscalls.Sysnum.{Sysnums}
use vm_forge.Syscalls.Seccomp.{FilteredSysnum, merge_one, merge_filtered_sysnums, merge_extensions}
use vm_forge.Syscalls.Seccomp.Correct.{or_else, flags_of, flags_of_any}

-- Each entry's flags are 0 or FILTER_SYSEXIT, the only flag there is.
abbrev pub AreFlags : List FilteredSysnum → Type 0
AreFlags [] = Unit
AreFlags (s ∷ ss) = (s.flags < 2) × AreFlags ss

abbrev pub AreExtensionFlags : List (Option (List FilteredSysnum)) → Type 0
AreExtensionFlags [] = Unit
AreExtensionFlags (none ∷ extensions) = AreExtensionFlags extensions
AreExtensionFlags (some news ∷ extensions) = AreFlags news × AreExtensionFlags extensions

bit_or-flag : (a b : ℕ) → a < 2 → b < 2 → bit_or a b < 2
bit_or-flag zero zero h k = omega arith
bit_or-flag zero (suc zero) h k = omega arith
bit_or-flag (suc zero) zero h k = omega arith
bit_or-flag (suc zero) (suc zero) h k = omega arith
bit_or-flag (suc (suc a)) b h k = absurd (omega arith)
bit_or-flag a (suc (suc b)) h k = absurd (omega arith)

merge_one-AreFlags :
    (ss : List FilteredSysnum) (new : FilteredSysnum)
    → AreFlags ss
    → new.flags < 2
    → AreFlags (merge_one ss new)
unfolding merge_one
merge_one-AreFlags [] new all one = (one, tt)
merge_one-AreFlags (s ∷ ss) new (first, all) one = elim (Bool-cases (s.value == new.value)) [
  | inl e ↦ rw e (bit_or-flag s.flags new.flags first one, all)
  | inr e ↦ rw e (first, merge_one-AreFlags ss new all one)
]

pub merge_filtered_sysnums-AreFlags :
    (ss news : List FilteredSysnum)
    → AreFlags ss
    → AreFlags news
    → AreFlags (merge_filtered_sysnums ss news)
unfolding merge_filtered_sysnums
merge_filtered_sysnums-AreFlags ss [] all more = all
merge_filtered_sysnums-AreFlags ss (new ∷ news) all (one, more) =
    merge_filtered_sysnums-AreFlags (merge_one ss new) news (merge_one-AreFlags ss new all one) more

pub merge_extensions-AreFlags :
    (ss : List FilteredSysnum) (extensions : List (Option (List FilteredSysnum)))
    → AreFlags ss
    → AreExtensionFlags extensions
    → AreFlags (merge_extensions ss extensions)
unfolding merge_extensions
merge_extensions-AreFlags ss [] all more = all
merge_extensions-AreFlags ss (none ∷ extensions) all more =
    merge_extensions-AreFlags ss extensions all more
merge_extensions-AreFlags ss (some news ∷ extensions) all (one, more) =
    merge_extensions-AreFlags (merge_filtered_sysnums ss news) extensions
      (merge_filtered_sysnums-AreFlags ss news all one) more

flags_of-small :
    (abi : Sysnums) (ss : List FilteredSysnum) (nr flags : ℕ)
    → AreFlags ss
    → flags_of abi ss nr ≡ some flags
    → flags < 2
unfolding flags_of
flags_of-small abi [] nr flags all h = absurd (cc)
flags_of-small abi (s ∷ ss) nr flags (one, all) h =
    ground (arith, flags_of-small abi ss nr flags all)

-- What the filter's specification finds is such flags.
pub flags_of_any-small :
    (abis : List Sysnums) (ss : List FilteredSysnum) (nr flags : ℕ)
    → AreFlags ss
    → flags_of_any abis ss nr ≡ some flags
    → flags < 2
unfolding flags_of_any
flags_of_any-small [] ss nr flags all h = absurd (cc)
flags_of_any-small (abi ∷ abis) ss nr flags all h =
    by_first (flags_of abi ss nr) refl (flags_of_any-small abis ss nr flags all) h
  where
    by_first :
        (first : Option ℕ)
        → flags_of abi ss nr ≡ first
        → (flags_of_any abis ss nr ≡ some flags → flags < 2)
        → or_else first (flags_of_any abis ss nr) ≡ some flags
        → flags < 2
    by_first none e rest h = rest h
    by_first (some first) e rest h = flags_of-small abi ss nr flags all (rw e h)
