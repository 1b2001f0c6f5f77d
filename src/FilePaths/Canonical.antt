-- ===== src/FilePaths/Canonical.antt =====
-- The abstract view of a canonical path: the stack of its components, the innermost first.
use vm_forge.Prelude.{
  ℕ, zero, suc, ◌+◌, ◌-◌, ◌<◌, ◌≡◌, ◌≢◌, ◌⊎◌, inl, inr, refl, ap, List, [], ◌∷◌, ◌++◌, append_assoc,
  arith, length, length-append,
}
use vm_forge.Prelude.Bytes.{Bytes, slash, dot, char_at}
use vm_forge.Prelude.Errors.{ok}
use vm_forge.FilePaths.Join.{join_two, join_two-open, join_two-closed}

-- A name that a directory can hold: not empty, no separator and no NUL, neither "." nor "..".
abbrev pub NoSlash : Bytes → Type 0
NoSlash [] = Unit
NoSlash (c ∷ s) = (c ≢ slash) × NoSlash s

pub record IsName (s : Bytes) : Type 0 where
  pub nonempty : 0 < length s
  pub no_slash : NoSlash s
  pub not_dot : s ≢ dot ∷ []
  pub not_dot_dot : s ≢ dot ∷ dot ∷ []

abbrev pub AllNames : List Bytes → Type 0
AllNames [] = Unit
AllNames (c ∷ cs) = IsName c × AllNames cs

-- The components, each behind a separator: "" for the root.
abbrev pub spelled : List Bytes → Bytes
spelled [] = []
spelled (c ∷ cs) = spelled cs ++ slash ∷ c

abbrev pub render : List Bytes → Bytes
render [] = slash ∷ []
render (c ∷ cs) = spelled cs ++ slash ∷ c

-- A component that names no other directory than the one it stands in: no separator, neither "." nor
-- "..". It may be empty, where a separator stands at the end of a path or behind another one.
abbrev pub IsStep : Bytes → Type 0
IsStep c = NoSlash c × (c ≢ dot ∷ []) × (c ≢ dot ∷ dot ∷ [])

abbrev pub AllSteps : List Bytes → Type 0
AllSteps [] = Unit
AllSteps (c ∷ cs) = IsStep c × AllSteps cs

-- A guest path as canonicalize() builds it: such components, each behind a separator, one at least.
abbrev pub IsGuest : Bytes → Type 0
IsGuest p = (c : Bytes) × (cs : List Bytes) × IsStep c × AllSteps cs × (p ≡ spelled (c ∷ cs))

-- A canonicalized path: a guest path, or one whose last component is ".".
abbrev pub IsResult : Bytes → Type 0
IsResult p =
    (c : Bytes) × (cs : List Bytes) × (IsStep c ⊎ (c ≡ dot ∷ []))
    × AllSteps cs
    × (p ≡ spelled (c ∷ cs))

pub empty-IsStep : IsStep []
empty-IsStep = (tt, (λ e. cc), (λ e. cc))

pub root-IsGuest : IsGuest (slash ∷ [])
root-IsGuest = ([], [], empty-IsStep, tt, refl)

pub guest_path : {p : Bytes} → IsGuest p → IsResult p
guest_path (c, cs, step, all, e) = (c, cs, inl step, all, e)

pub length-render_pos : (cs : List Bytes) → 0 < length (render cs)
length-render_pos [] = omega arith
length-render_pos (c ∷ cs) = omega (arith, length-append {0} (spelled cs) (slash ∷ c))

pub char_at-append_right :
    (a b : Bytes) (i j : ℕ) → j ≡ length a + i → char_at (a ++ b) j ≡ char_at b i
char_at-append_right [] b i j e = ap (λ k. char_at b k) (omega arith)
char_at-append_right (x ∷ a) b i zero e = absurd (omega arith)
char_at-append_right (x ∷ a) b i (suc j) e = char_at-append_right a b i j (omega arith)

pub char_at-append_left : (a b : Bytes) (i : ℕ) → i < length a → char_at (a ++ b) i ≡ char_at a i
char_at-append_left [] b i h = absurd (omega arith)
char_at-append_left (x ∷ a) b zero h = refl
char_at-append_left (x ∷ a) b (suc i) h = char_at-append_left a b i (omega arith)

pub NoSlash-char_at : (s : Bytes) (i : ℕ) → NoSlash s → i < length s → char_at s i ≢ slash
NoSlash-char_at [] i n h = absurd (omega arith)
NoSlash-char_at (x ∷ s) zero n h = n.0
NoSlash-char_at (x ∷ s) (suc i) n h = NoSlash-char_at s i n.1 (omega arith)

-- The last byte of a path that ends in a name.
pub last-spelled :
    (base c : Bytes)
    → NoSlash c
    → 0 < length c
    → char_at (base ++ slash ∷ c) (length (base ++ slash ∷ c) - 1) ≢ slash
last-spelled base c n h =
    let place : length (base ++ slash ∷ c) - 1 ≡ length base + suc (length c - 1) =
      omega (arith, length-append base (slash ∷ c)) in
    rw (char_at-append_right base (slash ∷ c) (suc (length c - 1)) _ place)
      (NoSlash-char_at c (length c - 1) n (omega arith))

pub relative_name : (c : Bytes) → NoSlash c → char_at c 0 ≢ slash
relative_name [] n = omega arith
relative_name (x ∷ c) n = n.0

-- Joining a name, or nothing, to a path that ends in a name, and to one that ends in a separator.
pub join-open :
    (base d c r : Bytes)
    → NoSlash d
    → 0 < length d
    → NoSlash c
    → join_two (base ++ slash ∷ d) c ≡ ok r
    → r ≡ (base ++ slash ∷ d) ++ slash ∷ c
join-open base d c r nd hd nc h = ground (
  arith,
  join_two-open (base ++ slash ∷ d) c (omega (arith, length-append base (slash ∷ d)))
      (relative_name c nc) (last-spelled base d nd hd),
)

pub join-closed :
    (base c r : Bytes) → NoSlash c → join_two (base ++ slash ∷ []) c ≡ ok r → r ≡ base ++ slash ∷ c
join-closed base c r nc h = ground (
  arith,
  append_assoc base (slash ∷ []) c,
  join_two-closed (base ++ slash ∷ []) c (omega (arith, length-append base (slash ∷ [])))
      (relative_name c nc)
      (char_at-append_right base (slash ∷ []) 0 _ (omega (arith, length-append base (slash ∷ [])))),
)

-- Joining a component to a guest path puts it on the stack, in place of an empty one.
join_two-spelled :
    (g c r : Bytes)
    → IsGuest g
    → NoSlash c
    → join_two g c ≡ ok r
    → (cs : List Bytes) × AllSteps cs × (r ≡ spelled (c ∷ cs))
join_two-spelled g c r ([], cs, step, all, e) n h =
    (cs, all, join-closed (spelled cs) c r n (rw e at h))
join_two-spelled g c r (x ∷ d, cs, step, all, e) n h = (
  (x ∷ d) ∷ cs,
  (step, all),
  join-open (spelled cs) (x ∷ d) c r step.0 (omega arith) n (rw e at h),
)

pub join-IsGuest : {g c r : Bytes} → IsGuest g → IsStep c → join_two g c ≡ ok r → IsGuest r
join-IsGuest {g} {c} {r} is step h =
    let (cs, all, e) = join_two-spelled g c r is step.0 h in (c, cs, step, all, e)

pub join_dot-IsResult : {g r : Bytes} → IsGuest g → join_two g (dot ∷ []) ≡ ok r → IsResult r
join_dot-IsResult {g} {r} is h =
    let (cs, all, e) = join_two-spelled g (dot ∷ []) r is (omega arith, tt) h in
    (dot ∷ [], cs, inr refl, all, e)
