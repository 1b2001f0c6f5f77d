-- ===== src/FilePaths/Component.antt =====
-- pop_component and next_component of path/canon.c.
use vm_forge.Prelude.{
  ℕ, zero, suc, ◌+◌, ◌-◌, ◌≤◌, ◌<◌, ◌≡◌, ◌≢◌, ◌⊎◌, refl, sym, ap, ◌∙◌, Bool, true, false, not, List,
  [], ◌∷◌, ◌++◌, append-nil, append_assoc, arith, leb, ◌==◌, if◌then◌else◌, Bool-cases, inl, inr,
  length, length-append, take-length_append, take,
}
use vm_forge.Prelude.Bytes.{Bytes, slash, char_at, name_max}
use vm_forge.Prelude.Errors.{Result, ok, err, enametoolong}
use vm_forge.FilePaths.Compare.{order_cases}
use vm_forge.FilePaths.Canonical.{
  IsName, NoSlash, render, spelled, IsGuest, IsStep, AllSteps, root-IsGuest, char_at-append_left,
  char_at-append_right, NoSlash-char_at,
}

-- while (offset > 1 && test(path[offset])) offset--
unfoldable pub skip_back : (ℕ → Bool) → Bytes → ℕ → ℕ
skip_back test path zero = zero
skip_back test path (suc zero) = suc zero
skip_back test path (suc (suc o)) =
    let further = skip_back test path (suc o) in
    if test (char_at path (suc (suc o))) then further else suc (suc o)

abbrev pub is_slash : ℕ → Bool
is_slash c = c == slash

abbrev pub not_slash : ℕ → Bool
not_slash c = not (c == slash)

-- An empty path is refused by an assertion of the code.
unfoldable pub pop_component : Bytes → Bytes
unfolding skip_back
pop_component path =
    let offset = length path - 1 in
    if offset == 0
    then path
    else take (skip_back not_slash path (skip_back is_slash path offset)) path

-- Finality: how a path ends at the component that was taken.
pub data Finality : Type 0 where
  not_final final_normal final_slash final_dot : Finality

abbrev pub is_final : Finality → Bool
is_final not_final = false
is_final _ = true

unfoldable pub skip_separators : Bytes → Bytes
skip_separators [] = []
skip_separators (c ∷ s) = let rest = skip_separators s in if c == slash then rest else c ∷ s

-- The bytes before the next separator.
unfoldable pub take_name : Bytes → Bytes
take_name [] = []
take_name (c ∷ s) = let rest = take_name s in if c == slash then [] else c ∷ rest

-- What stands at the next separator.
unfoldable pub drop_name : Bytes → Bytes
drop_name [] = []
drop_name (c ∷ s) = let rest = drop_name s in if c == slash then c ∷ s else rest

-- The component, the finality and the cursor that is left.
unfoldable pub next_component : Bytes → Result (Bytes × Finality × Bytes)
unfolding skip_separators take_name drop_name
next_component cursor =
    let start = skip_separators cursor in
    let component = take_name start in
    let after = drop_name start in
    let want_dir = char_at after 0 == slash in
    let rest = skip_separators after in
    if leb name_max (length component)
    then err enametoolong
    else if char_at rest 0 == 0
    then ok (component, (if want_dir then final_slash else final_normal), rest)
    else ok (component, not_final, rest)

-- The loop stops at `k` if every byte above it passes the test, and either `k` is 1 or its byte
-- does not pass.
skip_back-stop :
    (test : ℕ → Bool) (path : Bytes) (k o : ℕ)
    → suc k ≤ o
    → (k ≡ 0) ⊎ (test (char_at path (suc k)) ≡ false)
    → ((i : ℕ) → suc k < i → i ≤ o → test (char_at path i) ≡ true)
    → skip_back test path o ≡ suc k
unfolding skip_back
skip_back-stop test path k zero le h all = absurd (omega arith)
skip_back-stop test path k (suc zero) le h all = omega arith
skip_back-stop test path k (suc (suc o)) le h all = elim (order_cases (suc k) (suc (suc o))) [
  | inl l ↦
      rw (all (suc (suc o)) l (omega arith))
        (skip_back-stop test path k (suc o) (omega arith) h (λ i p q. all i p (omega arith)))
  | inr (inl e) ↦ rw (stop e h) (sym e)
  | inr (inr g) ↦ absurd (omega arith)
]
  where
    stop :
        suc k ≡ suc (suc o)
        → (k ≡ 0) ⊎ (test (char_at path (suc k)) ≡ false)
        → test (char_at path (suc (suc o))) ≡ false
    stop e (inl z) = absurd (omega arith)
    stop e (inr f) = rw e at f

-- What is kept of a path before the separator of its last name.
kept :
    (base c tail : Bytes)
    → take (suc (length base - 1)) ((base ++ slash ∷ c) ++ tail)
      ≡ (if length base == 0 then slash ∷ [] else base)
kept [] c tail = refl
kept (x ∷ base) c tail =
    let e : length (x ∷ base) - 1 ≡ length base = omega arith in
    let f : (length (x ∷ base) == 0) ≡ false = ground arith in
    rw (e, f, append_assoc base (slash ∷ c) tail) (ap (λ t. x ∷ t) (take-length_append base _))

-- The bytes of a path that ends in the name `c`, with `tail` behind it.
module _ (base c tail : Bytes) where
  abbrev whole : Bytes
  whole = (base ++ slash ∷ c) ++ tail

  length-whole : length whole ≡ length base + 1 + length c + length tail
  length-whole =
      omega (arith, length-append (base ++ slash ∷ c) tail, length-append base (slash ∷ c))

  inner : (i : ℕ) → i < length base + 1 + length c → char_at whole i ≡ char_at (base ++ slash ∷ c) i
  inner i h = char_at-append_left _ tail i (omega (arith, length-append base (slash ∷ c)))

  at_separator : (i : ℕ) → i ≡ length base → char_at whole i ≡ slash
  at_separator i e = inner i (omega arith) ∙ char_at-append_right base (slash ∷ c) 0 i (omega arith)

  at_name : (i j : ℕ) → i ≡ length base + suc j → j < length c → char_at whole i ≡ char_at c j
  at_name i j e h = inner i (omega arith) ∙ char_at-append_right base (slash ∷ c) (suc j) i e

  at_tail : (i : ℕ) → i ≡ length base + 1 + length c → char_at whole i ≡ char_at tail 0
  at_tail i e =
      char_at-append_right (base ++ slash ∷ c) tail 0 i
        (omega (arith, length-append base (slash ∷ c)))

  module _ (ends : (tail ≡ []) ⊎ (tail ≡ slash ∷ [])) (n : NoSlash c)
      (nonempty : 0 < length c) where
    in_name : (i : ℕ) → length base < i → i ≤ length base + length c → char_at whole i ≢ slash
    in_name i l h =
        rw (at_name i (i - length base - 1) (omega arith) (omega arith))
          (NoSlash-char_at c (i - length base - 1) n (omega arith))

    skip_tail : skip_back is_slash whole (length whole - 1) ≡ suc (length base + length c - 1)
    skip_tail =
        skip_back-stop is_slash whole (length base + length c - 1) (length whole - 1)
          (omega (arith, length-whole))
          (inr (ground (arith, in_name (suc (length base + length c - 1)))))
          (λ i l h. ground (arith, at_tail i, length-whole))

    skip_name : skip_back not_slash whole (suc (length base + length c - 1)) ≡ suc (length base - 1)
    skip_name =
        skip_back-stop not_slash whole (length base - 1) (suc (length base + length c - 1))
          (omega arith) (ground (arith, at_separator (suc (length base - 1))))
          (λ i l h. ground (arith, in_name i))

    -- The separators at the end are skipped, then the name before them.
    pop-spelled : pop_component whole ≡ (if length base == 0 then slash ∷ [] else base)
    unfolding pop_component
    pop-spelled =
        let e : (length whole - 1 == 0) ≡ false = ground (arith, length-whole) in
        rw (e, skip_tail, skip_name) (kept base c tail)

render-spelled :
    (cs : List Bytes) → (if length (spelled cs) == 0 then slash ∷ [] else spelled cs) ≡ render cs
render-spelled [] = refl
render-spelled (c ∷ cs) = ground (arith, length-append (spelled cs) (slash ∷ c))

-- Popping takes the innermost component off, with a separator at the end or without; "/" stays.
pub pop-render :
    (c : Bytes) (cs : List Bytes) → IsName c → pop_component (render (c ∷ cs)) ≡ render cs
pop-render c cs n =
    rw (← append-nil (render (c ∷ cs)))
      (pop-spelled (spelled cs) c [] (inl refl) n.no_slash n.nonempty ∙ render-spelled cs)

-- Where skip_back() stops: at 1, or at a byte that does not pass the test.
skip_back-stops :
    (test : ℕ → Bool) (path : Bytes) (o : ℕ)
    → (k : ℕ) × (skip_back test path (suc o) ≡ suc k)
      × (k ≤ o)
      × ((k ≡ 0) ⊎ (test (char_at path (suc k)) ≡ false))
unfolding skip_back
skip_back-stops test path zero = (0, refl, omega arith, inl refl)
skip_back-stops test path (suc o) = elim (Bool-cases (test (char_at path (suc (suc o))))) [
  | inl e ↦ let (k, is, le, at) = skip_back-stops test path o in (k, rw e is, omega arith, at)
  | inr e ↦ (suc o, rw e refl, omega arith, inr e)
]

take-append_left : (n : ℕ) (a b : Bytes) → n ≤ length a → take n (a ++ b) ≡ take n a
take-append_left zero a b h = refl
take-append_left (suc n) [] b h = absurd (omega arith)
take-append_left (suc n) (x ∷ a) b h = ap (λ t. x ∷ t) (take-append_left n a b (omega arith))

-- A guest path that is cut at one of its separators.
take-spelled :
    (c : Bytes) (cs : List Bytes) (k : ℕ)
    → IsStep c
    → AllSteps cs
    → char_at (spelled (c ∷ cs)) (suc k) ≡ slash
    → suc k < length (spelled (c ∷ cs))
    → IsGuest (take (suc k) (spelled (c ∷ cs)))
take-spelled c [] k step all at_k inside = absurd (NoSlash-char_at c k step.0 (omega arith) at_k)
take-spelled c (d ∷ ds) k step all at_k inside =
    elim (order_cases (suc k) (length (spelled (d ∷ ds)))) [
      | inl l ↦ rw (take-append_left (suc k) (spelled (d ∷ ds)) (slash ∷ c) (omega arith)) (
          take-spelled d ds k all.0 all.1
            (sym (char_at-append_left (spelled (d ∷ ds)) (slash ∷ c) (suc k) l) ∙ at_k) l)
      | inr (inl e) ↦
          rw (e, take-length_append (spelled (d ∷ ds)) (slash ∷ c)) (d, ds, all.0, all.1, refl)
      | inr (inr g) ↦
          let j : ℕ = suc k - length (spelled (d ∷ ds)) - 1 in
          absurd (
            NoSlash-char_at c j step.0 (omega (arith, length-append (spelled (d ∷ ds)) (slash ∷ c)))
              (sym (
                  char_at-append_right (spelled (d ∷ ds)) (slash ∷ c) (suc j) (suc k) (omega arith))
                ∙ at_k))
    ]

starts_with_slash :
    (c : Bytes) (cs : List Bytes) → (rest : Bytes) × (spelled (c ∷ cs) ≡ slash ∷ rest)
starts_with_slash c [] = (c, refl)
starts_with_slash c (d ∷ ds) =
    let (rest, e) = starts_with_slash d ds in (rest ++ slash ∷ c, rw e refl)

-- A guest path is still one when its last component is popped.
pub pop-IsGuest : {g : Bytes} → IsGuest g → IsGuest (pop_component g)
unfolding pop_component
pop-IsGuest {g} (c, cs, step, all, e) = elim (Bool-cases (length g - 1 == 0)) [
  | inl short ↦ rw short (c, cs, step, all, e)
  | inr long ↦
      let o : ℕ = length g - 2 in
      let offset : length g - 1 ≡ suc o = ground arith in
      let (j, first, j_le, _) = skip_back-stops is_slash g o in
      let (k, second, k_le, stop) = skip_back-stops not_slash g j in
      rw (long, offset, first, second) (cut o k (omega arith) (omega arith) stop)
]
  where
    cut :
        (o k : ℕ)
        → k ≤ o
        → o + 2 ≤ length g
        → (k ≡ 0) ⊎ (not_slash (char_at g (suc k)) ≡ false)
        → IsGuest (take (suc k) g)
    cut o k le long (inl zero_k) =
        let (rest, starts) = starts_with_slash c cs in rw (zero_k, e, starts) root-IsGuest
    cut o k le long (inr at_k) =
        let at_g : char_at g (suc k) ≡ slash = ground arith in
        let inside : suc k < length g = omega arith in
        rw e (take-spelled c cs k step all (rw e at at_g) (rw e at inside))

NoSlash-take_name : (s : Bytes) → NoSlash (take_name s)
unfolding take_name
NoSlash-take_name [] = tt
NoSlash-take_name (c ∷ s) = elim (Bool-cases (c == slash)) [
  | inl e ↦ rw e tt
  | inr e ↦ rw e (ground arith, NoSlash-take_name s)
]

length-drop_name-le : (s : Bytes) → length (drop_name s) ≤ length s
unfolding drop_name
length-drop_name-le [] = omega arith
length-drop_name-le (c ∷ s) = ground (arith, length-drop_name-le s)

length-skip_separators-le : (s : Bytes) → length (skip_separators s) ≤ length s
unfolding skip_separators
length-skip_separators-le [] = omega arith
length-skip_separators-le (c ∷ s) = ground (arith, length-skip_separators-le s)

skip_separators-lt : (s : Bytes) → char_at s 0 ≡ slash → length (skip_separators s) < length s
unfolding skip_separators
skip_separators-lt [] h = absurd (omega arith)
skip_separators-lt (c ∷ s) h = ground (arith, length-skip_separators-le s)

drop_name-stop : (s : Bytes) → (drop_name s ≡ []) ⊎ (char_at (drop_name s) 0 ≡ slash)
unfolding drop_name
drop_name-stop [] = inl refl
drop_name-stop (c ∷ s) = ground (arith, drop_name-stop s)

cursor_moves :
    (s : Bytes)
    → (char_at (skip_separators (drop_name s)) 0 == 0) ≡ false
    → length (skip_separators (drop_name s)) < length s
unfolding skip_separators
cursor_moves s h = elim (drop_name-stop s) [
  | inl e ↦ ground arith
  | inr e ↦ omega (arith, skip_separators-lt (drop_name s) e, length-drop_name-le s)
]

-- What next_component() returns, with the move of the cursor before a component that is not final.
pub next_component_bounds :
    (cursor : Bytes) {component rest : Bytes} {finality : Finality}
    → next_component cursor ≡ ok (component, finality, rest)
    → NoSlash component
      × (length component < name_max)
      × ((finality ≡ not_final) → length rest < length cursor)
unfolding next_component
next_component_bounds cursor {component} {rest} {finality} h =
    let start = skip_separators cursor in
    (
      (let e : component ≡ take_name start = ground arith in rw e (NoSlash-take_name start)),
      ground arith,
      λ e. ground (arith, cursor_moves start, length-skip_separators-le cursor),
    )

-- A component that next_component() returns holds no separator and has less than NAME_MAX bytes, and
-- it is the last one or leaves a shorter cursor.
pub next_component_lem :
    (cursor : Bytes) {component rest : Bytes} {finality : Finality}
    → next_component cursor ≡ ok (component, finality, rest)
    → NoSlash component
      × (length component < name_max)
      × ((is_final finality ≡ true) ⊎ (length rest < length cursor))
next_component_lem cursor {component} {rest} {finality} h =
    let (inside, short, moves) = next_component_bounds cursor h in
    (inside, short, moved finality moves)
  where
    moved :
        (end : Finality)
        → ((end ≡ not_final) → length rest < length cursor)
        → (is_final end ≡ true) ⊎ (length rest < length cursor)
    moved not_final m = inr (m refl)
    moved final_normal m = inl refl
    moved final_slash m = inl refl
    moved final_dot m = inl refl
