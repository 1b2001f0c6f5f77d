-- ===== src/FilePaths/Prefix.antt =====
-- substitute_path_prefix of path/path.c.
use vm_forge.Prelude.{
  ℕ, ◌+◌, ◌-◌, ◌<◌, ◌≡◌, ◌⊎◌, [], ◌∷◌, ◌++◌, append-nil, arith, ltb, leb, ◌==◌, if◌then◌else◌,
  length, length-append, take, drop, drop-length_append, take-length_self, drop-length_self,
}
use vm_forge.Prelude.Bytes.{Bytes, slash, path_max}
use vm_forge.Prelude.Errors.{Result, ok, err, enametoolong, ◌>>=◌}

-- The updated path and the returned length. The code returns `-ENAMETOOLONG` as a size with the
-- path left as it was: here `err` and no path.
unfoldable pub substitute_path_prefix : Bytes → ℕ → Bytes → ℕ → Result Bytes
substitute_path_prefix path old_prefix_length new_prefix new_prefix_length =
    if new_prefix_length == 1
    then (if length path - old_prefix_length == 0
        then ok (slash ∷ [])
        else ok (drop old_prefix_length path))
    else if old_prefix_length == 1
    then (if leb path_max (new_prefix_length + length path)
        then err enametoolong
        else if ltb 1 (length path)
        then ok (take new_prefix_length new_prefix ++ path)
        else ok (take new_prefix_length new_prefix))
    else if leb path_max (length path - old_prefix_length + new_prefix_length)
    then err enametoolong
    else ok (take new_prefix_length new_prefix ++ drop old_prefix_length path)

-- The path of `rest` in the directory `ref`: `rest` is empty or starts with a separator, and the
-- directory "/" adds nothing to it.
abbrev pub under : Bytes → Bytes → Bytes
under ref [] = ref
under ref (c ∷ rest) = if length ref == 1 then c ∷ rest else ref ++ c ∷ rest

-- Substituting the prefix `old` of the path of `rest` in `old` gives its path in `new`.
pub substitute-under :
    (old new rest : Bytes)
    → (old ≡ slash ∷ []) ⊎ (1 < length old)
    → (new ≡ slash ∷ []) ⊎ (1 < length new)
    → (rest ≡ []) ⊎ (1 < length rest)
    → (1 < length old) ⊎ (1 < length new)
    → length new + length rest + 1 < path_max
    → substitute_path_prefix (under old rest) (length old) new (length new) ≡ ok (under new rest)
unfolding substitute_path_prefix
substitute-under old new [] ho hn hr hd fits =
    ground (arith, take-length_self new, drop-length_self old, append-nil new)
substitute-under old new (c ∷ rest) ho hn hr hd fits =
    ground
      (arith, take-length_self new, drop-length_append old (c ∷ rest), length-append old (c ∷ rest))

-- Substituting a prefix and then substituting it back gives the path back. The prefixes are "/" or
-- longer, not both "/", and both paths fit their buffers.
pub substitute_roundtrip :
    (old new rest : Bytes)
    → (old ≡ slash ∷ []) ⊎ (1 < length old)
    → (new ≡ slash ∷ []) ⊎ (1 < length new)
    → (rest ≡ []) ⊎ (1 < length rest)
    → (1 < length old) ⊎ (1 < length new)
    → length new + length rest + 1 < path_max
    → length old + length rest + 1 < path_max
    → (substitute_path_prefix (under old rest) (length old) new (length new) >>= λ path.
        substitute_path_prefix path (length new) old (length old))
      ≡ ok (under old rest)
substitute_roundtrip old new rest ho hn hr hd fits_new fits_old =
    rw (substitute-under old new rest ho hn hr hd fits_new)
      (substitute-under new old rest hn ho hr (ground arith) fits_old)
