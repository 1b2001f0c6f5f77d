-- ===== src/FilePaths/Canon/Links.antt =====
-- What readlink_proc() of path/proc.c answers: a link that is kept is a canonical path, and it ends.
use vm_forge.Prelude.{
  ℕ, zero, suc, ◌+◌, ◌-◌, ◌%◌, ◌/◌, ◌≡◌, ◌≢◌, ◌⊎◌, refl, sym, ap, ◌∙◌, not, ◌||◌, [], ◌∷◌, ◌++◌,
  arith, ltb, leb, ◌==◌, Bool-cases, inl, inr, length, drop, Option, some, none,
}
use vm_forge.Prelude.Bytes.{Bytes, slash, dot, codes, str_equal, path_max}
use vm_forge.Prelude.Errors.{Ensures, Ensures-if, Ends, ne-Ends}
use vm_forge.FilePaths.Compare.{
  Comparison, paths_are_equal, path1_is_prefix, path2_is_prefix, paths_are_not_comparable,
  compare_paths, stripped, compare_paths-equal,
}
use vm_forge.FilePaths.Canonical.{NoSlash, IsStep, IsGuest, empty-IsStep}
use vm_forge.FilePaths.Binding.{get_root}
use vm_forge.FilePaths.Host.{Host, KnownTracee, Action, dont_canonicalize}
use vm_forge.FilePaths.ProcLinks.{
  digits_of, decimal, fd_path, proc_path, atoi, strtol_fails, substituted, process_link, fd_link,
  pid_link, readlink_proc,
}

-- The answers that name a path name a guest path.
abbrev pub GuestAction : Action → Type 0
GuestAction (dont_canonicalize path) = IsGuest path
GuestAction _ = Unit

-- No byte is a separator or a dot, as in a number with its sign.
abbrev AreDigits : Bytes → Type 0
AreDigits [] = Unit
AreDigits (c ∷ s) = (c ≢ slash) × (c ≢ dot) × AreDigits s

AreDigits-append : (a b : Bytes) → AreDigits a → AreDigits b → AreDigits (a ++ b)
AreDigits-append [] b p q = q
AreDigits-append (x ∷ a) b (s, d, p) q = (s, d, AreDigits-append a b p q)

digits_of-AreDigits : (fuel n : ℕ) → AreDigits (digits_of fuel n)
unfolding digits_of
digits_of-AreDigits zero n = tt
digits_of-AreDigits (suc fuel) n =
    let last : AreDigits ((48 + n % 10) ∷ []) = (omega arith, omega arith, tt) in
    elim (Bool-cases (ltb n 10)) [
      | inl e ↦ rw e last
      | inr e ↦
          rw e
            (AreDigits-append (digits_of fuel (n / 10)) _ (digits_of-AreDigits fuel (n / 10)) last)
    ]

decimal-AreDigits : (word : ℕ) → AreDigits (decimal word)
unfolding decimal
decimal-AreDigits word = elim (Bool-cases (ltb word 2147483648)) [
  | inl e ↦ rw e (digits_of-AreDigits 10 word)
  | inr e ↦ rw e (omega arith, omega arith, digits_of-AreDigits 10 (4294967296 - word))
]

AreDigits-NoSlash : (s : Bytes) → AreDigits s → NoSlash s
AreDigits-NoSlash [] all = tt
AreDigits-NoSlash (c ∷ s) (not_slash, not_dot, all) = (not_slash, AreDigits-NoSlash s all)

starts_otherwise : (c : ℕ) (s t : Bytes) → c ≢ dot → c ∷ s ≢ dot ∷ t
starts_otherwise c s t n e = n (cc)

AreDigits-IsStep : (s : Bytes) → AreDigits s → IsStep s
AreDigits-IsStep [] all = empty-IsStep
AreDigits-IsStep (c ∷ s) (not_slash, not_dot, all) = (
  (not_slash, AreDigits-NoSlash s all),
  starts_otherwise c s [] not_dot,
  starts_otherwise c s (dot ∷ []) not_dot,
)

stripped_open : (s : Bytes) → stripped (s ++ codes "/fd") ≡ s ++ codes "/fd"
stripped_open [] = refl
stripped_open (x ∷ []) = refl
stripped_open (x ∷ y ∷ s) = ap (λ t. x ∷ t) (stripped_open (y ∷ s))

stripped_cases : (s : Bytes) → (s ≡ stripped s) ⊎ (s ≡ stripped s ++ slash ∷ [])
stripped_cases [] = inl refl
stripped_cases (c ∷ []) = elim (Bool-cases (c == slash)) [
  | inl e ↦ let is : c ≡ slash = ground arith in rw e (inr (ap (λ t. t ∷ []) is))
  | inr e ↦ rw e (inl refl)
]
stripped_cases (c ∷ d ∷ s) = elim (stripped_cases (d ∷ s)) [
  | inl e ↦ inl (ap (λ t. c ∷ t) e)
  | inr e ↦ inr (ap (λ t. c ∷ t) e)
]

proc_bytes : AreDigits (codes "proc")
proc_bytes = (
  omega arith,
  omega arith,
  (omega arith, omega arith, (omega arith, omega arith, (omega arith, omega arith, tt))),
)

fd_bytes : AreDigits (codes "fd")
fd_bytes = (omega arith, omega arith, (omega arith, omega arith, tt))

fd_path-IsGuest :
    (pid : ℕ) (base component : Bytes)
    → IsStep component
    → compare_paths (fd_path pid) base ≡ paths_are_equal
    → IsGuest (base ++ slash ∷ component)
fd_path-IsGuest pid base component step equal =
    let same : fd_path pid ≡ stripped base =
      sym (stripped_open (proc_path pid)) ∙ compare_paths-equal (fd_path pid) base equal in
    let number = AreDigits-IsStep (decimal pid) (decimal-AreDigits pid) in
    let fd = AreDigits-IsStep (codes "fd") fd_bytes in
    let proc = AreDigits-IsStep (codes "proc") proc_bytes in
    elim (stripped_cases base) [
      | inl e ↦
          let whole : base ≡ fd_path pid = e ∙ sym same in
          (
            component,
            codes "fd" ∷ decimal pid ∷ codes "proc" ∷ [],
            step,
            (fd, (number, (proc, tt))),
            rw whole refl,
          )
      | inr e ↦
          let whole : base ≡ fd_path pid ++ slash ∷ [] = e ∙ ap (λ t. t ++ slash ∷ []) (sym same) in
          (
            component,
            [] ∷ codes "fd" ∷ decimal pid ∷ codes "proc" ∷ [],
            step,
            (empty-IsStep, (fd, (number, (proc, tt)))),
            rw whole refl,
          )
    ]

substituted-Guest : (text : Option Bytes) → Ensures GuestAction (substituted text)
unfolding substituted
substituted-Guest none = tt
substituted-Guest (some text) =
    Ensures-if GuestAction (leb path_max (length text)) _ _ (λ _. tt {0}) (λ _. tt {0})

process_link-Guest :
    (t : Option KnownTracee) (component : Bytes) → Ensures GuestAction (process_link t component)
unfolding process_link
process_link-Guest none component = tt
process_link-Guest (some t) component =
    Ensures-if GuestAction (str_equal component (codes "exe")) _ _ (λ _. substituted-Guest t.exe)
      λ _.
        Ensures-if GuestAction (str_equal component (codes "cwd")) _ _
          (λ _. substituted-Guest (some t.cwd))
          λ _.
            Ensures-if GuestAction (str_equal component (codes "root")) _ _
              (λ _. substituted-Guest (get_root t.fs)) (λ _. tt {0})

fd_link-Guest :
    (pid : ℕ) (base component : Bytes) (c : Comparison)
    → IsStep component
    → compare_paths (fd_path pid) base ≡ c
    → Ensures GuestAction (fd_link base component c)
unfolding fd_link
fd_link-Guest pid base component paths_are_equal step e =
    Ensures-if GuestAction
      (strtol_fails component || leb path_max (length base + 1 + length component)) _ _
      (λ _. tt {0}) (λ _. fd_path-IsGuest pid base component step e)
fd_link-Guest pid base component path1_is_prefix step e = tt
fd_link-Guest pid base component path2_is_prefix step e = tt
fd_link-Guest pid base component paths_are_not_comparable step e = tt

pid_link-Guest :
    (h : Host) (pid : ℕ) (base component : Bytes) (c : Comparison)
    → IsStep component
    → Ensures GuestAction (pid_link h pid base component c)
unfolding pid_link
pid_link-Guest h pid base component paths_are_equal step =
    process_link-Guest (h.known_tracee pid) component
pid_link-Guest h pid base component path1_is_prefix step =
    fd_link-Guest pid base component _ step refl
pid_link-Guest h pid base component path2_is_prefix step = tt
pid_link-Guest h pid base component paths_are_not_comparable step = tt

pub readlink_proc-Guest :
    (h : Host) (base component : Bytes) (c : Comparison)
    → IsStep component
    → Ensures GuestAction (readlink_proc h base component c)
unfolding readlink_proc
readlink_proc-Guest h base component paths_are_equal step =
    Ensures-if GuestAction (not (str_equal component (codes "self"))) _ _ (λ _. tt {0})
      (λ _. tt {0})
readlink_proc-Guest h base component path1_is_prefix step =
    Ensures-if GuestAction (atoi (drop 6 base) == 0) _ _ (λ _. tt {0})
      (λ _. pid_link-Guest h (atoi (drop 6 base)) base component _ step)
readlink_proc-Guest h base component path2_is_prefix step = tt
readlink_proc-Guest h base component paths_are_not_comparable step = tt

pub readlink_proc-Ends :
    (h : Host) (base component : Bytes) (c : Comparison) → Ends (readlink_proc h base component c)
unfolding readlink_proc substituted
readlink_proc-Ends h base component c = ne-Ends _ (ground arith)
