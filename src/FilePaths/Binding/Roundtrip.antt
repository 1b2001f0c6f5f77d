-- ===== src/FilePaths/Binding/Roundtrip.antt =====
-- substitute_binding of path/binding.c from the guest to the host and back.
use vm_forge.Prelude.{
  ◌+◌, ◌<◌, ◌≡◌, ◌⊎◌, List, [], ◌∷◌, ◌++◌, true, false, not, ◌&&◌, length, Option, some, arith,
  refl,
}
use vm_forge.Prelude.Bytes.{Bytes, slash, path_max}
use vm_forge.Prelude.Errors.{ok, ◌>>=◌}
use vm_forge.FilePaths.Compare.{compare_paths}
use vm_forge.FilePaths.Prefix.{under, substitute-under}
use vm_forge.FilePaths.Binding.{
  Binding, Bindings, guest_side, host_side, get_binding, substitute_binding, get_root, find_guest,
  find_host, is_equal, contains,
}

-- A side of a binding that substitute_path_prefix() handles: "/" or a longer path.
abbrev pub IsPlace : Bytes → Type 0
IsPlace p = (p ≡ slash ∷ []) ⊎ (1 < length p)

substitute-guest :
    (fs : Bindings) (b : Binding) (rest : Bytes)
    → IsPlace b.guest
    → IsPlace b.host
    → (rest ≡ []) ⊎ (1 < length rest)
    → (1 < length b.guest) ⊎ (1 < length b.host)
    → length b.host + length rest + 1 < path_max
    → b.need_substitution ≡ true
    → get_binding fs guest_side (under b.guest rest) ≡ ok (some b)
    → substitute_binding fs guest_side (under b.guest rest) ≡ ok (under b.host rest, true)
unfolding substitute_binding
substitute-guest fs b rest g h r one fits needed found =
    rw (found, needed, substitute-under b.guest b.host rest g h r one fits) refl

substitute-host :
    (fs : Bindings) (b : Binding) (rest : Bytes)
    → IsPlace b.guest
    → IsPlace b.host
    → (rest ≡ []) ⊎ (1 < length rest)
    → (1 < length b.host) ⊎ (1 < length b.guest)
    → length b.guest + length rest + 1 < path_max
    → b.need_substitution ≡ true
    → get_binding fs host_side (under b.host rest) ≡ ok (some b)
    → substitute_binding fs host_side (under b.host rest) ≡ ok (under b.guest rest, true)
unfolding substitute_binding
substitute-host fs b rest g h r one fits needed found =
    rw (found, needed, substitute-under b.host b.guest rest h g r one fits) refl

-- A binding is the first of a list whose path on that side contains the given path.
abbrev pub NoneContains : (Binding → Bytes) → List Binding → Bytes → Type 0
NoneContains side [] path = Unit
NoneContains side (b ∷ bs) path =
    (contains (compare_paths (side b) path) ≡ false) × NoneContains side bs path

abbrev pub IsFirst : (Binding → Bytes) → Option (List Binding) → Binding → Bytes → Type 0
IsFirst side bindings b path =
    (before : List Binding) × (after : List Binding) × (bindings ≡ some (before ++ b ∷ after))
    × NoneContains side before path
    × (contains (compare_paths (side b) path) ≡ true)

-- The rootfs is "/", or does not hold the host path.
abbrev pub IsOutside : Bindings → Bytes → Type 0
IsOutside fs path =
    (root : Bytes) × (get_root fs ≡ some root)
    × ((not (is_equal (compare_paths root (slash ∷ []))) && contains (compare_paths root path))
        ≡ false)

find_guest-first :
    (before after : List Binding) (b : Binding) (path : Bytes)
    → NoneContains (λ (x : Binding). x.guest) before path
    → contains (compare_paths b.guest path) ≡ true
    → find_guest (before ++ b ∷ after) path ≡ some b
unfolding find_guest
find_guest-first [] after b path misses hit = rw hit refl
find_guest-first (x ∷ before) after b path (miss, misses) hit =
    rw miss (find_guest-first before after b path misses hit)

find_host-first :
    (before after : List Binding) (b : Binding) (root path : Bytes)
    → NoneContains (λ (x : Binding). x.host) before path
    → contains (compare_paths b.host path) ≡ true
    → (not (is_equal (compare_paths root (slash ∷ []))) && contains (compare_paths root path))
      ≡ false
    → find_host (before ++ b ∷ after) (some root) path ≡ ok (some b)
unfolding find_host
find_host-first [] after b root path misses hit outside = rw (hit, outside) refl
find_host-first (x ∷ before) after b root path (miss, misses) hit outside =
    rw miss (find_host-first before after b root path misses hit outside)

get_binding-guest :
    (fs : Bindings) (b : Binding) (path : Bytes)
    → IsFirst (λ (x : Binding). x.guest) fs.guest b path
    → get_binding fs guest_side path ≡ ok (some b)
unfolding get_binding
get_binding-guest fs b path (before, after, is, misses, hit) =
    rw (is, find_guest-first before after b path misses hit) refl

get_binding-host :
    (fs : Bindings) (b : Binding) (path : Bytes)
    → IsFirst (λ (x : Binding). x.host) fs.host b path
    → IsOutside fs path
    → get_binding fs host_side path ≡ ok (some b)
unfolding get_binding
get_binding-host fs b path (before, after, is, misses, hit) (root, rooted, outside) =
    rw (is, rooted) (find_host-first before after b root path misses hit outside)

-- A guest path below a binding is translated to the host path below it and back to itself, where the
-- binding is the first of the guest list that contains the guest path and the first of the host list that
-- contains the host path, and the host path is not in the rootfs, or this is "/". The binding's sides
-- differ, not both are "/", and both paths fit their buffers; what follows the binding's path is empty or
-- longer than a separator.
pub substitute_binding_roundtrip :
    (fs : Bindings) (b : Binding) (rest : Bytes)
    → IsPlace b.guest
    → IsPlace b.host
    → (rest ≡ []) ⊎ (1 < length rest)
    → (1 < length b.guest) ⊎ (1 < length b.host)
    → length b.host + length rest + 1 < path_max
    → length b.guest + length rest + 1 < path_max
    → b.need_substitution ≡ true
    → IsFirst (λ (x : Binding). x.guest) fs.guest b (under b.guest rest)
    → IsFirst (λ (x : Binding). x.host) fs.host b (under b.host rest)
    → IsOutside fs (under b.host rest)
    → (substitute_binding fs guest_side (under b.guest rest) >>= λ (path, changed).
        substitute_binding fs host_side path)
      ≡ ok (under b.guest rest, true)
substitute_binding_roundtrip fs b rest g h r one fits_host fits_guest needed first back outside =
    rw
      (substitute-guest fs b rest g h r one fits_host needed
        (get_binding-guest fs b (under b.guest rest) first))
      (substitute-host fs b rest g h r (ground arith) fits_guest needed
        (get_binding-host fs b (under b.host rest) back outside))
