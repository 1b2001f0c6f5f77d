-- ===== src/FilePaths/Insert.antt =====
-- insort_binding, insort_binding2, insort_binding3 and remove_binding_from_all_lists of
-- path/binding.c.
pub mod Order
use vm_forge.Prelude.{ℕ, false, not, List, [], ◌∷◌, ◌++◌, ◌==◌, if◌then◌else◌, Option, some, none}
use vm_forge.Prelude.Bytes.{Bytes}
use vm_forge.Prelude.Errors.{Result, ok, err, null_pointer, ◌>>=◌}
use vm_forge.FilePaths.Compare.{
  paths_are_equal, path1_is_prefix, path2_is_prefix, paths_are_not_comparable, compare_paths,
}
use vm_forge.FilePaths.Binding.{
  Binding, Bindings, Side, guest_side, host_side, pending_side, head_list, side_path, is_equal,
}

-- CIRCLEQ_REMOVE_ of the binding, where the list is there and holds it.
unfoldable pub remove_binding : ℕ → List Binding → List Binding
remove_binding id [] = []
remove_binding id (b ∷ bs) = if b.id == id then bs else b ∷ remove_binding id bs

abbrev remove_from : ℕ → Option (List Binding) → Option (List Binding)
remove_from id none = none
remove_from id (some bs) = some (remove_binding id bs)

unfoldable pub remove_binding_from_all_lists : Bindings → ℕ → Bindings
unfolding remove_binding
remove_binding_from_all_lists fs id = record {
  guest = remove_from id fs.guest;
  host = remove_from id fs.host;
  pending = remove_from id fs.pending;
}

-- A pointer into a list: what stands before the place, and what behind it.
abbrev pub Place : Type 0
Place = List Binding × List Binding

-- Where the loop of insort_binding() ends: at an equal binding, or with `previous` and `next`.
pub data Scan : Type 0 where
  replace : Place → Binding → Scan
  insert : Option Place → Option Place → Scan

abbrev or_first : Option Place → Place → Option Place
or_first none place = some place
or_first (some place) _ = some place

-- `previous` is the place behind that element, `next` the place before it. `next` starts at the
-- first element, so that no element of the list takes its place.
unfoldable pub scan :
    Side → Binding → List Binding → List Binding → Option Place → Option Place → Scan
scan side b seen [] previous next = insert previous next
scan side b seen (it ∷ rest) previous next =
    elim (compare_paths (side_path side b) (side_path side it)) [
      | paths_are_equal ↦ elim side [
        | host_side ↦ scan side b (seen ++ it ∷ []) rest (some (seen ++ it ∷ [], rest)) next
        | _ ↦ replace (seen ++ it ∷ [], rest) it
      ]
      | path1_is_prefix ↦ scan side b (seen ++ it ∷ []) rest (some (seen ++ it ∷ [], rest)) next
      | path2_is_prefix ↦
          scan side b (seen ++ it ∷ []) rest previous (or_first next (seen, it ∷ rest))
      | paths_are_not_comparable ↦ scan side b (seen ++ it ∷ []) rest previous next
    ]

abbrev put_at : Binding → Place → List Binding
put_at b (before, after) = before ++ b ∷ after

-- The insertion into one list.
abbrev pub placed : Binding → List Binding → Option Place → Option Place → List Binding
placed b bs (some place) next = put_at b place
placed b bs none (some place) = put_at b place
placed b bs none none = b ∷ bs

abbrev set_list : Bindings → Side → List Binding → Bindings
set_list fs guest_side bs = record fs { guest = some bs }
set_list fs host_side bs = record fs { host = some bs }
set_list fs pending_side bs = record fs { pending = some bs }

-- CIRCLEQ_FIRST: the place before the first element; the head itself, `none`, in an empty list.
abbrev pub first_place : List Binding → Option Place
first_place [] = none
first_place (b ∷ bs) = some ([], b ∷ bs)

unfoldable pub insort_binding : Bindings → Side → Binding → Result Bindings
unfolding scan remove_binding_from_all_lists
insort_binding fs side b = elim (head_list fs side) [
  | none ↦ err null_pointer
  | some bs ↦ elim (scan side b [] bs none (first_place bs)) [
    | replace place it ↦
        ok (remove_binding_from_all_lists (set_list fs side (put_at b place)) it.id)
    | insert previous next ↦ ok (set_list fs side (placed b bs previous next))
  ]
]

unfoldable pub insort_binding2 : Bindings → Binding → Result Bindings
unfolding insort_binding
insort_binding2 fs b =
    let b' = record b { need_substitution = not (is_equal (compare_paths b.host b.guest)) } in
    insort_binding fs guest_side b' >>= λ fs'. insort_binding fs' host_side b'

-- The allocation is given a fresh address.
unfoldable pub insort_binding3 : Bindings → ℕ → Bytes → Bytes → Result Bindings
unfolding insort_binding2
insort_binding3 fs id host_path guest_path =
    insort_binding2 fs
      (record { id = id; host = host_path; guest = guest_path; need_substitution = false })
