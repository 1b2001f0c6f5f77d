-- ===== src/FilePaths/Binding.antt =====
-- path/binding.c: the table of bindings, its lookup, and the insertion that keeps it ordered.
-- A list of the code (CIRCLEQ) is a list, a pointer into it is the split of the list there, and a
-- null list is `none`. A binding is told from another by `id`, as the code does by its address. The
-- cached length of a path is its strlen().
pub mod Roundtrip
use vm_forge.Prelude.{
  ℕ, Bool, true, false, not, ◌&&◌, List, [], ◌∷◌, if◌then◌else◌, length, Option, some, none,
}
use vm_forge.Prelude.Bytes.{Bytes, slash}
use vm_forge.Prelude.Errors.{Result, ok, err, enoent, null_pointer, assertion, ◌>>=◌}
use vm_forge.FilePaths.Compare.{Comparison, paths_are_equal, path1_is_prefix, compare_paths}
use vm_forge.FilePaths.Prefix.{substitute_path_prefix}

pub record Binding : Type 0 where
  pub id : ℕ
  pub host : Bytes
  pub guest : Bytes
  pub need_substitution : Bool

pub data Side : Type 0 where
  guest_side host_side pending_side : Side

pub record Bindings : Type 0 where
  pub guest : Option (List Binding)
  pub host : Option (List Binding)
  pub pending : Option (List Binding)

abbrev pub head_list : Bindings → Side → Option (List Binding)
head_list fs guest_side = fs.guest
head_list fs host_side = fs.host
head_list fs pending_side = fs.pending

abbrev pub is_equal : Comparison → Bool
is_equal paths_are_equal = true
is_equal _ = false

-- PATHS_ARE_EQUAL or PATH1_IS_PREFIX
abbrev pub contains : Comparison → Bool
contains paths_are_equal = true
contains path1_is_prefix = true
contains _ = false

abbrev pub last_binding : List Binding → Option Binding
last_binding [] = none
last_binding (b ∷ []) = some b
last_binding (b ∷ c ∷ bs) = last_binding (c ∷ bs)

-- The pending list must end in the binding of "/"; the guest list does, by an assertion of the code.
unfoldable pub get_root : Bindings → Option Bytes
get_root fs = elim fs.guest [
  | none ↦ elim fs.pending [
    | none ↦ none
    | some pending ↦ elim (last_binding pending) [
      | none ↦ none
      | some b ↦ if is_equal (compare_paths b.guest (slash ∷ [])) then some b.host else none
    ]
  ]
  | some bs ↦ elim (last_binding bs) [ none ↦ none | some b ↦ some b.host ]
]

unfoldable pub belongs_to_guestfs : Bindings → Bytes → Result Bool
belongs_to_guestfs fs host_path = elim (get_root fs) [
  | none ↦ err null_pointer
  | some root ↦ ok (contains (compare_paths root host_path))
]

-- The loop of get_binding() over the guest list.
unfoldable pub find_guest : List Binding → Bytes → Option Binding
find_guest [] path = none
find_guest (b ∷ bs) path =
    if contains (compare_paths b.guest path) then some b else find_guest bs path

-- The same over the host list. A binding is passed over where the rootfs is not "/" and the path
-- belongs to it.
pub host_match : Option Bytes → Bytes → Binding → Result (Option Binding) → Result (Option Binding)
host_match none path b further = err null_pointer
host_match (some root) path b further =
    if not (is_equal (compare_paths root (slash ∷ []))) && contains (compare_paths root path)
    then further
    else ok (some b)

unfoldable pub find_host : List Binding → Option Bytes → Bytes → Result (Option Binding)
unfolding host_match
find_host [] root path = ok none
find_host (b ∷ bs) root path =
    let further = find_host bs root path in
    if contains (compare_paths b.host path) then host_match root path b further else further

-- The pending side is refused by an assertion.
unfoldable pub get_binding : Bindings → Side → Bytes → Result (Option Binding)
unfolding find_guest find_host get_root
get_binding fs guest_side path = elim fs.guest [
  | none ↦ err null_pointer
  | some bs ↦ ok (find_guest bs path)
]
get_binding fs host_side path = elim fs.host [
  | none ↦ err null_pointer
  | some bs ↦ find_host bs (get_root fs) path
]
get_binding fs pending_side path = err assertion

-- The side's path of a binding.
abbrev pub side_path : Side → Binding → Bytes
side_path host_side b = b.host
side_path _ b = b.guest

abbrev pub reverse_path : Side → Binding → Bytes
reverse_path host_side b = b.guest
reverse_path _ b = b.host

unfoldable pub get_path_binding : Bindings → Side → Bytes → Result (Option Bytes)
get_path_binding fs side path = get_binding fs side path >>= λ found.
    ok (elim found [ none ↦ none | some b ↦ some (side_path side b) ])

-- The path that substitute_path_prefix() leaves: the old one where it fails.
abbrev pub left_by : Bytes → Result Bytes → Bytes
left_by path (ok path') = path'
left_by path (err e) = path

-- The path, and the returned status: `false` is 0 ("symmetric"), `true` is 1.
unfoldable pub substitute_binding : Bindings → Side → Bytes → Result (Bytes × Bool)
substitute_binding fs side path = get_binding fs side path >>= λ found. elim found [
  | none ↦ err enoent
  | some b ↦
      if not b.need_substitution
      then ok (path, false)
      else ok (
        left_by path (
            substitute_path_prefix path (length (side_path side b)) (reverse_path side b)
              (length (reverse_path side b))),
        true,
      )
]
