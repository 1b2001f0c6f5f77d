-- ===== src/FilePaths/Detranslate.antt =====
-- detranslate_path of path/path.c and readlink_proc2 of path/proc.c.
use vm_forge.Prelude.{
  ℕ, ◌+◌, ◌-◌, Bool, true, false, not, [], ◌∷◌, leb, ◌==◌, if◌then◌else◌, length, drop, Option,
  some, none,
}
use vm_forge.Prelude.Bytes.{Bytes, slash, codes, char_at, path_max}
use vm_forge.Prelude.Errors.{Result, ok, err, eperm, null_pointer, assertion, enametoolong, ◌>>=◌}
use vm_forge.FilePaths.Compare.{paths_are_equal, path1_is_prefix, compare_paths}
use vm_forge.FilePaths.Binding.{
  Bindings, host_side, get_root, belongs_to_guestfs, get_path_binding, substitute_binding, is_equal,
}
use vm_forge.FilePaths.ProcLinks.{readlink_proc}
use vm_forge.FilePaths.Host.{Host, canonicalize_link}

-- "/proc"
abbrev pub proc : Bytes
proc = codes "/proc"

-- The text before the last separator, and behind it (strrchr); `none` where there is none.
unfoldable pub split_last : Bytes → Option (Bytes × Bytes)
split_last [] = none
split_last (c ∷ s) = elim (split_last s) [
  | some (base, name) ↦ some (c ∷ base, name)
  | none ↦ if c == slash then some ([], s) else none
]

-- The text of the emulated link: "" where it is not emulated. An error of readlink_proc() is taken
-- for that, too.
unfoldable pub readlink_proc2 : Host → Bytes → Result Bytes
unfolding split_last
readlink_proc2 h referrer =
    if leb path_max (length referrer) then err enametoolong else elim (split_last referrer) [
      | none ↦ err assertion
      | some (base, component) ↦
          if length base == 0
          then err assertion
          else if length component == 0
          then ok []
          else elim (readlink_proc h base component path1_is_prefix) [
            | ok action ↦ elim action [ canonicalize_link r ↦ ok r | _ ↦ ok [] ]
            | err e ↦ ok []
          ]
    ]

-- What is done for the path of a symbolic link: it is replaced, or bindings are followed or not.
pub data LinkRule : Type 0 where
  emulated : Bytes → LinkRule
  follow : Bool → LinkRule

unfoldable pub link_rule : Host → Bindings → Bytes → Bytes → Result LinkRule
unfolding readlink_proc2
link_rule h fs path referrer = elim (compare_paths proc referrer) [
  | path1_is_prefix ↦
      readlink_proc2 h referrer >>= λ r. ok (if length r == 0 then follow true else emulated r)
  | _ ↦ belongs_to_guestfs fs referrer >>= λ inside.
      if inside
      then ok (follow false)
      else get_path_binding fs host_side path >>= λ referree_binding.
          get_path_binding fs host_side referrer >>= λ referrer_binding. elim referrer_binding [
            | none ↦ err assertion
            | some there ↦ elim referree_binding [
              | none ↦ ok (follow false)
              | some here ↦ ok (follow (is_equal (compare_paths here there)))
            ]
          ]
]

-- The end of detranslate_path(): the leading root is removed. The number is the returned size.
unfoldable pub strip_root : Bytes → Bool → Bytes → Result (Bytes × ℕ)
strip_root root sanity_check path = elim (compare_paths root path) [
  | path1_is_prefix ↦
      let prefix_length = if length root == 1 then 0 else length root in
      ok (drop prefix_length path, length path - prefix_length + 1)
  | paths_are_equal ↦ ok (slash ∷ [], 2)
  | _ ↦ if sanity_check then err eperm else ok (path, 0)
]

unfoldable pub leave_bindings : Bindings → Bool → Bool → Bytes → Result (Bytes × ℕ)
unfolding strip_root
leave_bindings fs sanity_check follow_binding path =
    let rest : Result (Bytes × ℕ) = elim (get_root fs) [
      | none ↦ err null_pointer
      | some root ↦ strip_root root sanity_check path
    ] in
    elim follow_binding [
      | false ↦ rest
      | true ↦ elim (substitute_binding fs host_side path) [
        | err e ↦ rest
        | ok (path', changed) ↦ if changed then ok (path', length path' + 1) else ok (path, 0)
      ]
    ]

-- The updated path and the returned size: 0 where nothing was to be done.
unfoldable pub detranslate_path : Host → Bindings → Bytes → Option Bytes → Result (Bytes × ℕ)
unfolding link_rule leave_bindings
detranslate_path h fs path referrer =
    if leb path_max (length path)
    then err enametoolong
    else if not (char_at path 0 == slash)
    then ok (path, 0)
    else elim referrer [
      | none ↦ leave_bindings fs true true path
      | some link ↦ link_rule h fs path link >>= λ rule. elim rule [
        | emulated r ↦ ok (r, length r + 1)
        | follow follows ↦ leave_bindings fs false follows path
      ]
    ]
