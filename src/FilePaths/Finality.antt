-- ===== src/FilePaths/Finality.antt =====
-- What chop_finality() of path/path.c makes of a path that canonicalize() returned.
use vm_forge.Prelude.{
  ℕ, ◌+◌, ◌-◌, ◌<◌, ◌≡◌, ◌≢◌, refl, List, [], ◌∷◌, ◌++◌, arith, length, length-append,
  take-length_append, ◌⊎◌, inl, inr, Bool-cases, ◌==◌,
}
use vm_forge.Prelude.Bytes.{Bytes, slash, dot, char_at}
use vm_forge.Prelude.Errors.{ok}
use vm_forge.FilePaths.Canonical.{
  AllNames, render, spelled, char_at-append_right, length-render_pos, last-spelled,
}
use vm_forge.FilePaths.Translate.{chop_finality}

last_of : Bytes → ℕ
last_of p = char_at p (length p - 1)

-- The three ends of a path, for any path before them.
chop-slash : (p : Bytes) → 0 < length p → chop_finality (p ++ slash ∷ []) ≡ ok p
unfolding chop_finality
chop-slash p nonempty =
    let size : length (p ++ slash ∷ []) ≡ length p + 1 = length-append p (slash ∷ []) in
    let last : char_at (p ++ slash ∷ []) (length p) ≡ slash =
      char_at-append_right p (slash ∷ []) 0 (length p) (omega arith) in
    let one : length p + 1 - 1 ≡ length p = omega arith in
    rw (size, one, last) (ground (arith, take-length_append p (slash ∷ [])))

chop-dot : (p : Bytes) → 0 < length p → chop_finality (p ++ slash ∷ dot ∷ []) ≡ ok p
unfolding chop_finality
chop-dot p nonempty =
    let size : length (p ++ slash ∷ dot ∷ []) ≡ length p + 2 = length-append p (slash ∷ dot ∷ []) in
    let last : char_at (p ++ slash ∷ dot ∷ []) (length p + 1) ≡ dot =
      char_at-append_right p (slash ∷ dot ∷ []) 1 (length p + 1) (omega arith) in
    let one : length p + 2 - 1 ≡ length p + 1 = omega arith in
    let two : length p + 2 - 2 ≡ length p = omega arith in
    rw (size, one, two, last) (ground (arith, take-length_append p (slash ∷ dot ∷ [])))

chop-other :
    (p : Bytes) → 0 < length p → last_of p ≢ slash → last_of p ≢ dot → chop_finality p ≡ ok p
unfolding chop_finality last_of
chop-other p nonempty not_slash not_dot = ground arith

-- Of the canonical path of some names chop_finality() removes a separator at the end, and a "/."
-- at the end; the path itself ends in '.', or is left as it is.
pub chop_finality_lem :
    (cs : List Bytes)
    → AllNames cs
    → (chop_finality (render cs ++ slash ∷ []) ≡ ok (render cs))
      × (chop_finality (spelled cs ++ slash ∷ dot ∷ []) ≡ ok (render cs))
      × ((char_at (render cs) (length (render cs) - 1) ≡ dot)
          ⊎ (chop_finality (render cs) ≡ ok (render cs)))
unfolding last_of chop_finality
chop_finality_lem [] all = (chop-slash (slash ∷ []) (omega arith), root_dot, inr root)
  where
    root_dot : chop_finality (slash ∷ dot ∷ []) ≡ ok (slash ∷ [])
    root_dot = refl

    root : chop_finality (slash ∷ []) ≡ ok (slash ∷ [])
    root = refl
chop_finality_lem (c ∷ cs) all =
    let nonempty = length-render_pos (c ∷ cs) in
    let name_last = last-spelled (spelled cs) c all.0.no_slash all.0.nonempty in
    (
      chop-slash (render (c ∷ cs)) nonempty,
      chop-dot (render (c ∷ cs)) nonempty,
      elim (Bool-cases (last_of (render (c ∷ cs)) == dot)) [
        | inl e ↦ inl (ground arith)
        | inr e ↦ inr (chop-other (render (c ∷ cs)) nonempty name_last (ground arith))
      ],
    )
