-- ===== src/FilePaths/Canon/Callees.antt =====
-- The functions that canonicalize() calls end: none runs out of fuel.
use vm_forge.Prelude.{
  Bool, true, false, not, ◌&&◌, List, [], ◌∷◌, arith, leb, ◌==◌, length, Option, some, none,
}
use vm_forge.Prelude.Bytes.{Bytes, slash, char_at, path_max}
use vm_forge.Prelude.Errors.{Result, Ends, Ends-bind, Ends-if, Ends-ne, ne-Ends}
use vm_forge.FilePaths.Compare.{compare_paths}
use vm_forge.FilePaths.Join.{join_two, join_paths, join_step}
use vm_forge.FilePaths.Component.{next_component}
use vm_forge.FilePaths.Binding.{
  Binding, Bindings, Side, guest_side, host_side, pending_side, get_binding, find_host, host_match,
  is_equal, get_path_binding, belongs_to_guestfs, substitute_binding, contains,
}
use vm_forge.FilePaths.Host.{Host}
use vm_forge.FilePaths.Detranslate.{
  detranslate_path, link_rule, readlink_proc2, leave_bindings, emulated, follow,
}

pub join_step-Ends : (result path : Bytes) → Ends (join_step result path)
unfolding join_step
join_step-Ends result path = ne-Ends _ (ground arith)

pub join_two-Ends : (a b : Bytes) → Ends (join_two a b)
unfolding join_paths
join_two-Ends a b = ne-Ends _ (ground arith)

pub host_match-Ends :
    (root : Option Bytes) (path : Bytes) (b : Binding) (further : Result (Option Binding))
    → Ends further
    → Ends (host_match root path b further)
unfolding find_host
host_match-Ends none path b further h = tt
host_match-Ends (some root) path b further h =
    Ends-if (not (is_equal (compare_paths root (slash ∷ []))) && contains (compare_paths root path))
      _ _ (λ _. h) (λ _. tt {0})

pub find_host-Ends :
    (bs : List Binding) (root : Option Bytes) (path : Bytes) → Ends (find_host bs root path)
unfolding find_host
find_host-Ends [] root path = tt
find_host-Ends (b ∷ bs) root path =
    Ends-if (contains (compare_paths b.host path)) _ _
      (λ _. host_match-Ends root path b _ (find_host-Ends bs root path))
      (λ _. find_host-Ends bs root path)

pub get_binding-Ends :
    (fs : Bindings) (side : Side) (path : Bytes) → Ends (get_binding fs side path)
unfolding get_binding
get_binding-Ends fs guest_side path = ne-Ends _ (ground arith)
get_binding-Ends fs host_side path =
    elim fs.host as (λ l. Ends (get_binding (record fs { host = l }) host_side path)) [
      | none ↦ tt
      | some bs ↦ find_host-Ends bs _ path
    ]
get_binding-Ends fs pending_side path = tt

pub next_component-Ends : (cursor : Bytes) → Ends (next_component cursor)
unfolding next_component
next_component-Ends cursor = ne-Ends _ (ground arith)

pub substitute_binding-Ends :
    (fs : Bindings) (side : Side) (path : Bytes) → Ends (substitute_binding fs side path)
unfolding substitute_binding
substitute_binding-Ends fs side path =
    Ends-bind (get_binding fs side path) _ (get_binding-Ends fs side path) (elim [
      | none ↦ λ e. tt
      | some b ↦ λ e. Ends-if (not b.need_substitution) _ _ (λ _. tt {0}) (λ _. tt {0})
    ])

pub get_path_binding-Ends :
    (fs : Bindings) (side : Side) (path : Bytes) → Ends (get_path_binding fs side path)
unfolding get_path_binding
get_path_binding-Ends fs side path =
    Ends-bind (get_binding fs side path) _ (get_binding-Ends fs side path) (λ found e. tt)

pub belongs_to_guestfs-Ends : (fs : Bindings) (path : Bytes) → Ends (belongs_to_guestfs fs path)
unfolding belongs_to_guestfs
belongs_to_guestfs-Ends fs path = ne-Ends _ (ground arith)

pub readlink_proc2-Ends : (h : Host) (referrer : Bytes) → Ends (readlink_proc2 h referrer)
unfolding readlink_proc2
readlink_proc2-Ends h referrer = ne-Ends _ (ground arith)

pub link_rule-Ends :
    (h : Host) (fs : Bindings) (path referrer : Bytes) → Ends (link_rule h fs path referrer)
unfolding link_rule
link_rule-Ends h fs path referrer = ne-Ends _ (
    ground (
      arith,
      Ends-ne _ (readlink_proc2-Ends h referrer),
      Ends-ne _ (belongs_to_guestfs-Ends fs referrer),
      Ends-ne _ (get_path_binding-Ends fs host_side path),
      Ends-ne _ (get_path_binding-Ends fs host_side referrer),
    ))

pub leave_bindings-Ends :
    (fs : Bindings) (check follows : Bool) (path : Bytes)
    → Ends (leave_bindings fs check follows path)
unfolding leave_bindings
leave_bindings-Ends fs check follows path = ne-Ends _ (ground arith)

pub detranslate_path-Ends :
    (h : Host) (fs : Bindings) (path : Bytes) (referrer : Option Bytes)
    → Ends (detranslate_path h fs path referrer)
unfolding detranslate_path
detranslate_path-Ends h fs path none =
    ne-Ends _ (ground (arith, Ends-ne _ (leave_bindings-Ends fs true true path)))
detranslate_path-Ends h fs path (some link) =
    Ends-if (leb path_max (length path)) _ _ (λ _. tt {0})
      λ _.
        Ends-if (not (char_at path 0 == slash)) _ _ (λ _. tt {0})
          λ _. Ends-bind (link_rule h fs path link) _ (link_rule-Ends h fs path link) (elim [
            | emulated r ↦ λ e. tt
            | follow follows ↦ λ e. leave_bindings-Ends fs false follows path
          ])
