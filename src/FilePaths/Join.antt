-- ===== src/FilePaths/Join.antt =====
-- join_paths of path/path.c.
use vm_forge.Prelude.{
  ℕ, ◌+◌, ◌-◌, ◌<◌, ◌≡◌, ◌≢◌, not, ◌&&◌, List, [], ◌∷◌, ◌++◌, arith, ltb, leb, ◌==◌, if◌then◌else◌,
  length, length-append, drop, Option, some, none,
}
use vm_forge.Prelude.Bytes.{Bytes, slash, char_at, path_max}
use vm_forge.Prelude.Errors.{Result, ok, err, enametoolong, ◌>>=◌, >>=-eq-ok}

-- result[length - 1]
abbrev last_byte : Bytes → ℕ
last_byte s = char_at s (length s - 1)

-- The loop's body for one argument: `enametoolong` leaves the loop.
unfoldable pub join_step : Bytes → Bytes → Result Bytes
join_step result path =
    if ltb 0 (length result) && not (last_byte result == slash) && not (char_at path 0 == slash)
    then (if leb path_max (length result + length path + 1 + 1)
        then err enametoolong
        else ok (result ++ slash ∷ path))
    else if ltb 0 (length result) && last_byte result == slash && char_at path 0 == slash
    then (if leb path_max (length result + length path - 1 + 1)
        then err enametoolong
        else ok (result ++ drop 1 path))
    else if leb path_max (length result + length path + 1)
    then err enametoolong
    else ok (result ++ path)

-- The loop over the variadic arguments; a null pointer is skipped.
join_loop : Bytes → List (Option Bytes) → Result Bytes
join_loop result [] = ok result
join_loop result (none ∷ paths) = join_loop result paths
join_loop result (some path ∷ paths) = join_step result path >>= λ longer. join_loop longer paths

unfoldable pub join_paths : List (Option Bytes) → Result Bytes
unfolding join_loop join_step
join_paths paths = join_loop [] paths

-- join_paths(2, result, a, b)
abbrev pub join_two : Bytes → Bytes → Result Bytes
join_two a b = join_paths (some a ∷ some b ∷ [])

length-drop_one : (s : Bytes) → length (drop 1 s) ≡ length s - 1
length-drop_one [] = omega arith
length-drop_one (x ∷ s) = omega arith

join_step-length :
    (result path : Bytes) {r : Bytes} → join_step result path ≡ ok r → length r + 1 < path_max
unfolding join_step
join_step-length result path {r} h = ground (
  arith,
  length-append result (slash ∷ path),
  length-append result (drop 1 path),
  length-append result path,
  length-drop_one path,
)

join_loop-length :
    (paths : List (Option Bytes)) (result : Bytes) {r : Bytes}
    → length result + 1 < path_max
    → join_loop result paths ≡ ok r
    → length r + 1 < path_max
unfolding join_loop
join_loop-length [] result fits h = ground arith
join_loop-length (none ∷ paths) result fits h = join_loop-length paths result fits h
join_loop-length (some path ∷ paths) result fits h =
    let (longer, e, k) = >>=-eq-ok (join_step result path) (λ longer. join_loop longer paths) h in
    join_loop-length paths longer (join_step-length result path e) k

-- A path that is returned fits a buffer of PATH_MAX bytes with its NUL and one byte to spare.
pub join_paths-length :
    (paths : List (Option Bytes)) {r : Bytes} → join_paths paths ≡ ok r → length r + 1 < path_max
unfolding join_paths
join_paths-length paths h = join_loop-length paths [] (omega arith) h

-- Joining with a base that does not end in a separator, and with one that does.
module _ (a b : Bytes) (nonempty : 0 < length a) (relative : char_at b 0 ≢ slash) where
  pub join_two-open :
      char_at a (length a - 1) ≢ slash
      → join_two a b
        ≡ (if leb path_max (length a + length b + 2) then err enametoolong else ok (a ++ slash ∷ b))
  unfolding join_paths
  join_two-open h = ground arith

  pub join_two-closed :
      char_at a (length a - 1) ≡ slash
      → join_two a b
        ≡ (if leb path_max (length a + length b + 1) then err enametoolong else ok (a ++ b))
  unfolding join_paths
  join_two-closed h = ground arith

-- An absolute path replaces nothing of a base that is "/".
pub join_two-absolute :
    (b : Bytes)
    → join_two (slash ∷ []) (slash ∷ b)
      ≡ (if leb path_max (length b + 2) then err enametoolong else ok (slash ∷ b))
unfolding join_paths
join_two-absolute b = ground arith
