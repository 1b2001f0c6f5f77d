-- ===== src/Tests/Paths.antt =====
-- Paths of a small guest: its rootfs is /rootfs, /host/data is bound to /data, /link is a link.
use vm_forge.Prelude.{
  ◌⊎◌, ◌≡◌, ◌≢◌, refl, true, false, arith, List, [], ◌∷◌, Option, some, none, ◌==◌, if◌then◌else◌,
  inl, inr, ◌<◌, ◌+◌, length,
}
use vm_forge.Prelude.Bytes.{char_at, dot, Bytes, codes, str_equal, name_max}
use vm_forge.Prelude.Errors.{ok, err, einval, eloop, enoent, out_of_fuel, ◌>>=◌}
use vm_forge.FilePaths.Compare.{
  path1_is_prefix, compare_paths, compare_paths-Relates, Relates, stripped,
}
use vm_forge.FilePaths.Prefix.{substitute_path_prefix}
use vm_forge.FilePaths.Join.{join_paths}
use vm_forge.FilePaths.Canonical.{IsName, root-IsGuest, IsResult, NoSlash}
use vm_forge.FilePaths.Component.{
  pop_component, next_component, next_component_lem, is_final, not_final,
}
use vm_forge.FilePaths.Binding.{
  Binding, Bindings, substitute_binding, guest_side, host_side, get_binding, get_root,
  belongs_to_guestfs,
}
use vm_forge.FilePaths.Binding.Roundtrip.{IsFirst, IsOutside, substitute_binding_roundtrip}
use vm_forge.FilePaths.Insert.{insort_binding}
use vm_forge.FilePaths.Insert.Order.{NoneEqual, Inserted, insort_binding-Inserted}
use vm_forge.FilePaths.Detranslate.{detranslate_path}
use vm_forge.FilePaths.Host.{Host, KnownTracee, directory, symlink, dont_canonicalize}
use vm_forge.FilePaths.ProcLinks.{readlink_proc}
use vm_forge.FilePaths.Canon.{canonicalize, max_symlinks, substitute_binding_stat, link_target}
use vm_forge.FilePaths.Canon.Safety.{canonicalize-IsResult}
use vm_forge.FilePaths.Canon.Termination.{Answers, canonicalize-Ends}
use vm_forge.FilePaths.Finality.{chop_finality_lem}
use vm_forge.FilePaths.Translate.{
  chop_finality, Tracee, at_cwd, translate_path, translate_path-Confined, Confined,
}

abbrev rootfs : Binding
rootfs = record { id = 1; host = codes "/rootfs"; guest = codes "/"; need_substitution = true }

abbrev data_dir : Binding
data_dir = record {
  id = 2;
  host = codes "/host/data";
  guest = codes "/data";
  need_substitution = true;
}

abbrev name_space : Bindings
name_space = record {
  guest = some (data_dir ∷ rootfs ∷ []);
  host = some (data_dir ∷ rootfs ∷ []);
  pending = none;
}

-- The tracee with the pid 7.
abbrev shell : KnownTracee
shell = record { exe = some (codes "/bin/sh"); cwd = codes "/a"; fs = name_space }

abbrev small_host : Host
small_host = record {
  lstat = λ path.
      if str_equal path (codes "/rootfs/link")
      then ok symlink
      else if str_equal path (codes "/rootfs/loop")
      then ok symlink
      else ok directory;
  readlink = λ path.
      if str_equal path (codes "/rootfs/link")
      then ok (codes "dir/../../data")
      else if str_equal path (codes "/rootfs/loop")
      then ok (codes "/loop")
      else err einval;
  skipped = λ path. false;
  notify_host_path = λ path last. ok path;
  pid = 7;
  known_tracee = λ pid. if pid == 7 then some shell else none;
  glue = none;
}

small_host-Answers : Answers small_host
small_host-Answers = record { notify = λ path last. tt }

-- A descriptor's link is kept.
keeps_fd :
    readlink_proc small_host (codes "/proc/7/fd") (codes "3") path1_is_prefix
    ≡ ok (dont_canonicalize (codes "/proc/7/fd/3"))
unfolding readlink_proc compare_paths
keeps_fd = refl

follows_link :
    canonicalize small_host name_space 22 (codes "/a/../link/./x/") true (codes "/") 0
    ≡ ok (codes "/data/x/")
unfolding canonicalize next_component str_equal join_paths substitute_binding_stat
    substitute_binding get_binding compare_paths substitute_path_prefix pop_component link_target
    detranslate_path belongs_to_guestfs
follows_link = refl

link_loop : canonicalize small_host name_space 22 (codes "/loop") true (codes "/") 0 ≡ err eloop
unfolding canonicalize next_component str_equal join_paths substitute_binding_stat
    substitute_binding get_binding compare_paths substitute_path_prefix pop_component link_target
    detranslate_path belongs_to_guestfs
link_loop = refl

canonicalize-IsResult_example : IsResult (codes "/data/x/")
canonicalize-IsResult_example =
    canonicalize-IsResult small_host name_space 22 (codes "/a/../link/./x/") true (codes "/")
      (codes "/data/x/") root-IsGuest follows_link

canonicalize-Ends_example :
    canonicalize small_host name_space (max_symlinks + 2) (codes "/loop") true (codes "/") 0
    ≢ err out_of_fuel
canonicalize-Ends_example =
    canonicalize-Ends small_host name_space (codes "/loop") true (codes "/") small_host-Answers

abbrev tracee : Tracee
tracee = record {
  fs = name_space;
  cwd = codes "/a/..";
  host = small_host;
  fd_target = λ fd. err enoent;
  notify_guest_path = λ base path. ok (base, false);
  notify_translated_path = λ path. ok path;
}

translated : translate_path tracee at_cwd (codes "link/x") true ≡ ok (codes "/host/data/x")
unfolding translate_path join_paths canonicalize next_component str_equal substitute_binding_stat
    substitute_binding get_binding compare_paths substitute_path_prefix pop_component link_target
    detranslate_path
translated = refl

translate_path-Confined_example :
    (host_path : Bytes) × Confined tracee host_path × (ok host_path ≡ ok (codes "/host/data/x"))
translate_path-Confined_example =
    translate_path-Confined tracee at_cwd (codes "link/x") true (codes "/host/data/x")
      (λ base answer e. cc) translated

compare_paths-Relates_example :
    Relates
      (compare_paths (codes "/data") (codes "/data/x/"))
      (stripped (codes "/data"))
      (stripped (codes "/data/x/"))
compare_paths-Relates_example =
    compare_paths-Relates (codes "/data") (codes "/data/x/") (omega arith) (omega arith)
      (ground arith) (ground arith)

etc-IsName : IsName (codes "etc")
etc-IsName = record {
  nonempty = omega arith;
  no_slash = ground arith;
  not_dot = λ e. cc;
  not_dot_dot = λ e. cc;
}

next_of_two : next_component (codes "//etc/passwd") ≡ ok (codes "etc", not_final, codes "passwd")
unfolding next_component
next_of_two = refl

next_component_lem_example :
    NoSlash (codes "etc")
    × (length (codes "etc") < name_max)
    × ((is_final not_final ≡ true) ⊎ (length (codes "passwd") < length (codes "//etc/passwd")))
next_component_lem_example = next_component_lem (codes "//etc/passwd") next_of_two

abbrev three : List (Option Bytes)
three = some (codes "/etc") ∷ none ∷ some (codes "passwd") ∷ []

joined : join_paths three ≡ ok (codes "/etc/passwd")
unfolding join_paths
joined = refl

-- A directory whose name ends in '.' loses two bytes.
chop_name : chop_finality (codes "/a/b.") ≡ ok (codes "/a/")
unfolding chop_finality
chop_name = refl

chop_finality_lem_example :
    (chop_finality (codes "/etc/") ≡ ok (codes "/etc"))
    × (chop_finality (codes "/etc/.") ≡ ok (codes "/etc"))
    × ((char_at (codes "/etc") 3 ≡ dot) ⊎ (chop_finality (codes "/etc") ≡ ok (codes "/etc")))
chop_finality_lem_example = chop_finality_lem (codes "etc" ∷ []) (etc-IsName, tt)

data_dir-IsFirst : IsFirst (λ (x : Binding). x.guest) name_space.guest data_dir (codes "/data/x")
unfolding compare_paths
data_dir-IsFirst = ([], rootfs ∷ [], refl, tt, refl)

data_dir-IsFirst_host :
    IsFirst (λ (x : Binding). x.host) name_space.host data_dir (codes "/host/data/x")
unfolding compare_paths
data_dir-IsFirst_host = ([], rootfs ∷ [], refl, tt, refl)

data_dir-IsOutside : IsOutside name_space (codes "/host/data/x")
unfolding compare_paths get_root
data_dir-IsOutside = (codes "/rootfs", refl, refl)

substitute_binding_roundtrip_example :
    (substitute_binding name_space guest_side (codes "/data/x") >>= λ (path, changed).
    substitute_binding name_space host_side path)
    ≡ ok (codes "/data/x", true)
substitute_binding_roundtrip_example =
    substitute_binding_roundtrip name_space data_dir (codes "/x") (inr (omega arith))
      (inr (omega arith)) (inr (omega arith)) (inl (omega arith)) (omega arith) (omega arith) refl
      data_dir-IsFirst data_dir-IsFirst_host data_dir-IsOutside

abbrev deep : Binding
deep = record { id = 3; host = codes "/host"; guest = codes "/data/x/y"; need_substitution = true }

abbrev around : Binding
around = record { id = 4; host = codes "/z"; guest = codes "/data/x"; need_substitution = true }

abbrev nested : Bindings
nested = record { guest = some (deep ∷ rootfs ∷ []); host = some (rootfs ∷ []); pending = none }

-- It goes behind what it contains, before the root.
put_between :
    insort_binding nested guest_side around
    ≡ ok (record nested { guest = some (deep ∷ around ∷ rootfs ∷ []) })
unfolding insort_binding compare_paths
put_between = refl

none_equal : NoneEqual around (deep ∷ rootfs ∷ [])
unfolding compare_paths
none_equal = (refl, (refl, tt))

insort_binding-Inserted_example :
    (new : List Binding) × (some (deep ∷ around ∷ rootfs ∷ []) ≡ some new)
    × Inserted around (deep ∷ rootfs ∷ []) new
insort_binding-Inserted_example =
    insort_binding-Inserted nested (record nested { guest = some (deep ∷ around ∷ rootfs ∷ []) })
      around (deep ∷ rootfs ∷ []) refl none_equal put_between
