-- ===== src/FilePaths/Compare.antt =====
-- compare_paths and compare_paths2 of path/path.c.
use vm_forge.Prelude.{
  ℕ, zero, suc, ◌-◌, ◌≤◌, ◌<◌, ◌≡◌, ◌≢◌, refl, sym, ap, ◌∙◌, true, not, ◌&&◌, ◌||◌, [], ◌∷◌, ◌++◌,
  arith, ltb, ◌==◌, ◌↔◌, if◌then◌else◌, Bool-cases, ◌⊎◌, inl, inr, length, take,
}
use vm_forge.Prelude.Bytes.{Bytes, slash, char_at, str_equal_n, str_equal_iff, IsText}

pub data Comparison : Type 0 where
  paths_are_equal path1_is_prefix path2_is_prefix paths_are_not_comparable : Comparison

-- Remove a trailing '/' for the comparison: the length without it.
abbrev pub chopped_length : Bytes → ℕ → ℕ
chopped_length path len = if char_at path (len - 1) == slash then len - 1 else len

-- What follows the removal of trailing separators.
compare_chopped : Bytes → ℕ → Bytes → ℕ → Comparison
compare_chopped path1 length1 path2 length2 =
    let length_min = if ltb length1 length2 then length1 else length2 in
    let sentinel = if ltb length1 length2 then char_at path2 length1 else char_at path1 length2 in
    if not (sentinel == slash) && not (sentinel == 0)
    then paths_are_not_comparable
    else if not (str_equal_n path1 path2 length_min)
    then paths_are_not_comparable
    else if length1 == length2
    then paths_are_equal
    else if ltb length1 length2
    then path1_is_prefix
    else if ltb length2 length1
    then path2_is_prefix
    else paths_are_not_comparable

unfoldable pub compare_paths2 : Bytes → ℕ → Bytes → ℕ → Comparison
unfolding compare_chopped str_equal_n
compare_paths2 path1 length1 path2 length2 =
    if length1 == 0 || length2 == 0
    then paths_are_not_comparable
    else compare_chopped path1 (chopped_length path1 length1) path2 (chopped_length path2 length2)

unfoldable pub compare_paths : Bytes → Bytes → Comparison
unfolding compare_paths2
compare_paths path1 path2 = compare_paths2 path1 (length path1) path2 (length path2)

-- A path without the one separator that may stand at its end.
abbrev pub stripped : Bytes → Bytes
stripped [] = []
stripped (c ∷ []) = if c == slash then [] else c ∷ []
stripped (c ∷ d ∷ s) = c ∷ stripped (d ∷ s)

-- `t` is a path strictly below the directory `s`.
abbrev pub Below : Bytes → Bytes → Type 0
Below s t = (rest : Bytes) × (t ≡ s ++ slash ∷ rest)

-- What each answer says of the two paths.
abbrev pub Relates : Comparison → Bytes → Bytes → Type 0
Relates paths_are_equal s t = s ≡ t
Relates path1_is_prefix s t = Below s t
Relates path2_is_prefix s t = Below t s
Relates paths_are_not_comparable s t = (s ≢ t) × (¬ Below s t) × (¬ Below t s)

take-take-le : (m n : ℕ) (s : Bytes) → m ≤ n → take m (take n s) ≡ take m s
take-take-le zero n s h = refl
take-take-le (suc m) zero s h = absurd (omega arith)
take-take-le (suc m) (suc n) [] h = refl
take-take-le (suc m) (suc n) (x ∷ s) h = ap (λ t. x ∷ t) (take-take-le m n s (omega arith))

char_at-take : (i n : ℕ) (s : Bytes) → i < n → char_at (take n s) i ≡ char_at s i
char_at-take i zero s h = absurd (omega arith)
char_at-take i (suc n) [] h = refl
char_at-take zero (suc n) (x ∷ s) h = refl
char_at-take (suc i) (suc n) (x ∷ s) h = char_at-take i n s (omega arith)

length-take-le : (n : ℕ) (s : Bytes) → n ≤ length s → length (take n s) ≡ n
length-take-le zero s h = refl
length-take-le (suc n) [] h = absurd (omega arith)
length-take-le (suc n) (x ∷ s) h = ap suc (length-take-le n s (omega arith))

char_at-ne : (i : ℕ) (s : Bytes) → IsText s → i < length s → char_at s i ≢ 0
char_at-ne i [] t h = absurd (omega arith)
char_at-ne zero (x ∷ s) t h = t.0
char_at-ne (suc i) (x ∷ s) t h = char_at-ne i s t.1 (omega arith)

Below-intro :
    (s t : Bytes)
    → length s < length t
    → take (length s) t ≡ s
    → char_at t (length s) ≡ slash
    → Below s t
Below-intro [] [] l e c = absurd (omega arith)
Below-intro [] (y ∷ t) l e c = (t, ap (λ z. z ∷ t) c)
Below-intro (x ∷ s) [] l e c = absurd (omega arith)
Below-intro (x ∷ s) (y ∷ t) l e c =
    let (rest, p) = Below-intro s t (omega arith) (cc) c in (rest, cc)

Below-elim :
    (s t : Bytes)
    → Below s t
    → (length s < length t) × (take (length s) t ≡ s) × (char_at t (length s) ≡ slash)
Below-elim [] t (r, e) = rw e (omega arith, refl, refl)
Below-elim (x ∷ s) t (r, e) =
    let (l, p, c) = Below-elim s (s ++ slash ∷ r) (r, refl) in
    rw e (omega arith, ap (λ z. x ∷ z) p, c)

-- The stripped paths are the first bytes of the given ones.
module _ (p1 p2 : Bytes) (l1 l2 : ℕ) (fits1 : l1 ≤ length p1) (fits2 : l2 ≤ length p2) where
  length1 : length (take l1 p1) ≡ l1
  length1 = length-take-le l1 p1 fits1

  length2 : length (take l2 p2) ≡ l2
  length2 = length-take-le l2 p2 fits2

  Below-of_bytes :
      l1 < l2 → take l1 p1 ≡ take l1 p2 → char_at p2 l1 ≡ slash → Below (take l1 p1) (take l2 p2)
  Below-of_bytes h e c =
      Below-intro _ _ (omega (arith, length1, length2))
        (rw (length1, take-take-le l1 l2 p2 (omega arith)) (sym e))
        (rw (length1, char_at-take l1 l2 p2 h) c)

  bytes_of-Below :
      l1 < l2
      → Below (take l1 p1) (take l2 p2)
      → (take l1 p1 ≡ take l1 p2) × (char_at p2 l1 ≡ slash)
  bytes_of-Below h b =
      let (_, e, c) = Below-elim (take l1 p1) (take l2 p2) b in
      (
        sym (rw (length1, take-take-le l1 l2 p2 (omega arith)) at e),
        rw (length1, char_at-take l1 l2 p2 h) at c,
      )

  shorter-ne : l1 < l2 → take l1 p1 ≢ take l2 p2
  shorter-ne h e = absurd (omega (arith, length1, length2, ap length e))

  not-Below-ge : l2 ≤ l1 → ¬ Below (take l1 p1) (take l2 p2)
  not-Below-ge h b =
      let (l, _, _) = Below-elim (take l1 p1) (take l2 p2) b in
      absurd (omega (arith, length1, length2))

str_equal_n_iff : (a b : Bytes) (n : ℕ) → (str_equal_n a b n ≡ true) ↔ (take n a ≡ take n b)
unfolding str_equal_n
str_equal_n_iff a b n = str_equal_iff (take n a) (take n b)

module _ (p1 p2 : Bytes) (l1 l2 : ℕ) (fits1 : l1 ≤ length p1) (fits2 : l2 ≤ length p2)
    (text1 : IsText p1) (text2 : IsText p2) where
  abbrev Answer : Comparison → Type 0
  Answer c = compare_chopped p1 l1 p2 l2 ≡ c

  by_outcome :
      (c : Comparison)
      → Answer c
      → Relates c (take l1 p1) (take l2 p2)
      → Relates (compare_chopped p1 l1 p2 l2) (take l1 p1) (take l2 p2)
  by_outcome c e r = rw e r

  -- The bytes up to the shorter length differ, or no separator follows them.
  compare_shorter : l1 < l2 → Relates (compare_chopped p1 l1 p2 l2) (take l1 p1) (take l2 p2)
  unfolding compare_chopped
  compare_shorter h = elim (Bool-cases (char_at p2 l1 == slash && str_equal_n p1 p2 l1)) [
    | inl c ↦ by_outcome path1_is_prefix (ground arith) (
        Below-of_bytes p1 p2 l1 l2 fits1 fits2 h ((str_equal_n_iff p1 p2 l1).0 (ground arith))
          (ground arith))
    | inr c ↦
        let no_prefix : ¬ Below (take l1 p1) (take l2 p2) = λ b.
          let (e, k) = bytes_of-Below p1 p2 l1 l2 fits1 fits2 h b in
          ground (arith, (str_equal_n_iff p1 p2 l1).1 e) in
        by_outcome paths_are_not_comparable (ground (arith, char_at-ne l1 p2 text2)) (
          shorter-ne p1 p2 l1 l2 fits1 fits2 h,
          no_prefix,
          not-Below-ge p2 p1 l2 l1 fits2 fits1 (omega arith),
        )
  ]

  compare_longer : l2 < l1 → Relates (compare_chopped p1 l1 p2 l2) (take l1 p1) (take l2 p2)
  unfolding compare_chopped
  compare_longer h = elim (Bool-cases (char_at p1 l2 == slash && str_equal_n p1 p2 l2)) [
    | inl c ↦ by_outcome path2_is_prefix (ground arith) (
        Below-of_bytes p2 p1 l2 l1 fits2 fits1 h (sym ((str_equal_n_iff p1 p2 l2).0 (ground arith)))
          (ground arith))
    | inr c ↦
        let no_prefix : ¬ Below (take l2 p2) (take l1 p1) = λ b.
          let (e, k) = bytes_of-Below p2 p1 l2 l1 fits2 fits1 h b in
          ground (arith, (str_equal_n_iff p1 p2 l2).1 (sym e)) in
        by_outcome paths_are_not_comparable (ground (arith, char_at-ne l2 p1 text1)) (
          λ e. shorter-ne p2 p1 l2 l1 fits2 fits1 h (sym e),
          not-Below-ge p1 p2 l1 l2 fits1 fits2 (omega arith),
          no_prefix,
        )
  ]

  -- Of two paths that are as long, the first ends at `l1` or has a separator there.
  compare_as_long :
      l1 ≡ l2
      → ((char_at p1 l2 ≡ slash) ⊎ (char_at p1 l2 ≡ 0))
      → Relates (compare_chopped p1 l1 p2 l2) (take l1 p1) (take l2 p2)
  unfolding compare_chopped
  compare_as_long h s = elim (Bool-cases (str_equal_n p1 p2 l2)) [
    | inl c ↦ by_outcome paths_are_equal (ground arith) (rw h ((str_equal_n_iff p1 p2 l2).0 c))
    | inr c ↦ by_outcome paths_are_not_comparable (ground arith) (
      λ e. ground (arith, (str_equal_n_iff p1 p2 l2).1 (rw h at e)),
      not-Below-ge p1 p2 l1 l2 fits1 fits2 (omega arith),
      not-Below-ge p2 p1 l2 l1 fits2 fits1 (omega arith),
    )
  ]

char_at-length : (s : Bytes) → char_at s (length s) ≡ 0
char_at-length [] = refl
char_at-length (x ∷ s) = char_at-length s

chopped_length_end :
    (p : Bytes)
    → 0 < length p
    → (chopped_length p (length p) ≤ length p)
      × ((char_at p (chopped_length p (length p)) ≡ slash)
          ⊎ (char_at p (chopped_length p (length p)) ≡ 0))
chopped_length_end p h = elim (Bool-cases (char_at p (length p - 1) == slash)) [
  | inl e ↦ rw e (omega arith, inl (ground arith))
  | inr e ↦ rw e (omega arith, inr (char_at-length p))
]

pub stripped_le : (p : Bytes) → chopped_length p (length p) ≤ length p
stripped_le p = ground arith

pub order_cases : (m n : ℕ) → (m < n) ⊎ (m ≡ n) ⊎ (n < m)
order_cases m n = grind arith

take-length : (s : Bytes) → take (length s) s ≡ s
take-length [] = refl
take-length (x ∷ s) = ap (λ t. x ∷ t) (take-length s)

-- One separator is what the code cuts.
chopped-stripped :
    (c : ℕ) (s : Bytes) → take (chopped_length (c ∷ s) (length (c ∷ s))) (c ∷ s) ≡ stripped (c ∷ s)
chopped-stripped c [] = elim (Bool-cases (c == slash)) [ inl e ↦ rw e refl | inr e ↦ rw e refl ]
chopped-stripped c (d ∷ s) =
    let below : length (c ∷ d ∷ s) - 1 ≡ suc (length (d ∷ s) - 1) = omega arith in
    let below : length (c ∷ d ∷ s) - 1 ≡ suc (length (d ∷ s) - 1) = omega arith in
    let last : char_at (c ∷ d ∷ s) (length (c ∷ d ∷ s) - 1) ≡ char_at (d ∷ s) (length (d ∷ s) - 1) =
      ap (λ (i : ℕ). char_at (c ∷ d ∷ s) i) below in
    elim (Bool-cases (char_at (d ∷ s) (length (d ∷ s) - 1) == slash)) [
      | inl e ↦
          let before = rw e at (chopped-stripped d s) in
          rw (last, e, below) (ap (λ t. c ∷ t) before)
      | inr e ↦ let before = rw e at (chopped-stripped d s) in rw (last, e) (ap (λ t. c ∷ t) before)
    ]

pub chopped-stripped_filled :
    (p : Bytes) → 0 < length p → take (chopped_length p (length p)) p ≡ stripped p
chopped-stripped_filled [] h = absurd (omega arith)
chopped-stripped_filled (c ∷ s) h = chopped-stripped c s

-- What paths_are_equal says of any two buffers.
pub compare_paths-equal :
    (a b : Bytes) → compare_paths a b ≡ paths_are_equal → stripped a ≡ stripped b
unfolding compare_paths
compare_paths-equal a b h =
    let la = chopped_length a (length a) in
    let lb = chopped_length b (length b) in
    let same_length : la ≡ lb = ground arith in
    let same_bytes : str_equal_n a b lb ≡ true = ground arith in
    sym (chopped-stripped_filled a (ground arith))
    ∙ rw same_length ((str_equal_n_iff a b lb).0 same_bytes)
    ∙ chopped-stripped_filled b (ground arith)

pub compare_paths-same : (p : Bytes) → 0 < length p → compare_paths p p ≡ paths_are_equal
unfolding compare_paths
compare_paths-same p filled =
    let l = chopped_length p (length p) in
    let same : str_equal_n p p l ≡ true = (str_equal_n_iff p p l).1 refl in
    ground (arith, same, (chopped_length_end p filled).1)

-- The comparison of two paths, one separator at the end of each aside, tells exactly whether they are
-- equal, which one lies below the other, or that none of this holds. Both paths are not empty and
-- hold no NUL.
pub compare_paths-Relates :
    (a b : Bytes)
    → 0 < length a
    → 0 < length b
    → IsText a
    → IsText b
    → Relates (compare_paths a b) (stripped a) (stripped b)
unfolding compare_paths
compare_paths-Relates a b ha hb ta tb =
    let la = chopped_length a (length a) in
    let lb = chopped_length b (length b) in
    let fa = stripped_le a in
    let fb = stripped_le b in
    let start : compare_paths a b ≡ compare_chopped a la b lb = ground arith in
    rw (← chopped-stripped_filled a ha, ← chopped-stripped_filled b hb, start)
      (elim (order_cases la lb) [
        | inl h ↦ compare_shorter a b la lb fa fb ta tb h
        | inr (inl h) ↦
            compare_as_long a b la lb fa fb ta tb h (rw h at (chopped_length_end a ha).1)
        | inr (inr h) ↦ compare_longer a b la lb fa fb ta tb h
      ])
