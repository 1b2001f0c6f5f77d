-- ===== src/Syscalls/Sysnum.antt =====
-- syscall/sysnum.c: the numbers of system calls, neutral (Sysnum) and of an architecture.
use vm_forge.Prelude.{
  ℕ, zero, suc, ◌+◌, ◌-◌, ◌≤◌, ◌<◌, ◌≡◌, ◌≢◌, ◌↔◌, refl, List, [], ◌∷◌, arith, ltb, ◌==◌,
  if◌then◌else◌, inl, inr, length, Bool-cases, Option, some, none, get_elem?,
}

-- PR_void
abbrev pub void : ℕ
void = 0

-- A table of sysnums-*.h, and the number of its first entry. The table's length is its list's. The
-- architecture's SYSCALL_AVOIDER of arch.h stands beside it.
pub record Sysnums : Type 0 where
  pub avoider : ℕ
  pub table : List ℕ
  pub offset : ℕ

-- The neutral number; `none` where the table is read behind its end.
unfoldable pub translate_sysnum : Sysnums → ℕ → Option ℕ
translate_sysnum s sysnum =
    if ltb sysnum s.offset
    then some void
    else if ltb (length s.table) (sysnum - s.offset)
    then some void
    else get_elem? s.table (sysnum - s.offset)

-- The loop over the table, from the entry `i` on.
unfoldable pub find_sysnum : List ℕ → ℕ → ℕ → Option ℕ
find_sysnum [] sysnum i = none
find_sysnum (x ∷ xs) sysnum i =
    let further = find_sysnum xs sysnum (i + 1) in if x == sysnum then some i else further

-- The number on the architecture.
unfoldable pub detranslate_sysnum : Sysnums → ℕ → ℕ
unfolding find_sysnum
detranslate_sysnum s sysnum =
    if sysnum == void
    then s.avoider
    else elim (find_sysnum s.table sysnum 0) [ none ↦ s.avoider | some i ↦ i + s.offset ]

-- A hit is an entry of the table.
find_sysnum-get_elem? :
    (xs : List ℕ) (sysnum i : ℕ) {j : ℕ}
    → find_sysnum xs sysnum i ≡ some j
    → (i ≤ j) × (get_elem? xs (j - i) ≡ some sysnum) × (j - i < length xs)
unfolding find_sysnum
find_sysnum-get_elem? [] sysnum i h = absurd (ground arith)
find_sysnum-get_elem? (x ∷ xs) sysnum i {j} h = elim (Bool-cases (x == sysnum)) [
  | inl e ↦
      let here : i ≡ j = ground arith in
      let zeroth : j - i ≡ 0 = omega arith in (omega arith, rw zeroth (ground arith), omega arith)
  | inr e ↦
      let (le, at_j, lt) = find_sysnum-get_elem? xs sysnum (i + 1) {j = j} (rw e at h) in
      let next : j - i ≡ suc (j - (i + 1)) = omega arith in (omega arith, rw next at_j, omega arith)
]

-- The number that a neutral one has on an architecture is translated back to it, where it has one.
pub translate-detranslate :
    (s : Sysnums) (sysnum : ℕ)
    → detranslate_sysnum s sysnum ≢ s.avoider
    → translate_sysnum s (detranslate_sysnum s sysnum) ≡ some sysnum
unfolding translate_sysnum detranslate_sysnum
translate-detranslate s sysnum h = by_search (find_sysnum s.table sysnum 0) refl
  where
    by_search :
        (found : Option ℕ)
        → find_sysnum s.table sysnum 0 ≡ found
        → translate_sysnum s (detranslate_sysnum s sysnum) ≡ some sysnum
    by_search none e = absurd (ground (arith, h))
    by_search (some i) e = ground (arith, h, find_sysnum-get_elem? s.table sysnum 0 {j = i})

length-get_elem?-none : (xs : List ℕ) (i : ℕ) → get_elem? xs i ≡ none → length xs ≤ i
length-get_elem?-none [] i h = omega arith
length-get_elem?-none (x ∷ xs) zero h = absurd (ground arith)
length-get_elem?-none (x ∷ xs) (suc i) h = omega (arith, length-get_elem?-none xs i h)

get_elem?-past : (xs : List ℕ) (i : ℕ) → length xs ≤ i → get_elem? xs i ≡ none
get_elem?-past [] i h = refl
get_elem?-past (x ∷ xs) zero h = absurd (omega arith)
get_elem?-past (x ∷ xs) (suc i) h = get_elem?-past xs i (omega arith)

-- translate_sysnum() reads behind the end of its table for one number, and for no other: the one just
-- above the table's numbers, which its check lets pass.
pub translate_sysnum_outside :
    (s : Sysnums) (sysnum : ℕ)
    → (translate_sysnum s sysnum ≡ none) ↔ (sysnum ≡ s.offset + length s.table)
unfolding translate_sysnum
translate_sysnum_outside s sysnum = (
  λ e. ground (arith, length-get_elem?-none s.table (sysnum - s.offset)),
  λ e. ground (arith, get_elem?-past s.table (sysnum - s.offset)),
)
