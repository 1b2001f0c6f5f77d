-- ===== src/Tests/MetaFiles.antt =====
-- Meta files of the fake identifiers: a file of root's with the mode 0750.
use Prim.Native.Nat.{bit_or}
use vm_forge.Prelude.{
  ℕ, ◌≡◌, refl, Bool, true, false, [], ◌∷◌, arith, ◌==◌, if◌then◌else◌, Option, some,
}
use vm_forge.Prelude.Bytes.{Bytes, codes, str_equal}
use vm_forge.Prelude.Errors.{ok, Ends}
use vm_forge.FilePaths.Canonical.{IsName, render}
use vm_forge.FilePaths.Component.{skip_back}
use vm_forge.FakeId.{Ids, Config}
use vm_forge.FakeId.Helpers.{
  dtoo, dtoo_loop, otod, otod_loop, meta_of, strrchr, get_name, get_dir_path, with_separator,
  get_meta_path, get_permissions, permissions_of, read_meta_file, check_dir_perms, search_dirs,
}
use vm_forge.FakeId.Modes.{class_bits, class_of, get_permissions-class_bits}
use vm_forge.FakeId.MetaPaths.{get_meta_path-injective}
use vm_forge.FakeId.Climb.{check_dir_perms-Ends}

abbrev ids_all : ℕ → Ids
ids_all id = record { real = id; effective = id; saved = id; file_system = id }

-- A user in the group 100.
abbrev user : Config
user = record {
  user = ids_all 1000;
  group = ids_all 100;
  umask = 18;
  caps_active = false;
  keep_caps = false;
}

-- 0750 in every meta file.
abbrev group_readable : Bytes → Option (ℕ × ℕ × ℕ)
group_readable path = some (meta_of 488 0 100 false 18)

written_mode : dtoo 488 ≡ 750
unfolding dtoo dtoo_loop
written_mode = refl

read_mode : otod 755 ≡ 493
unfolding otod otod_loop
read_mode = refl

group_may_search : get_permissions group_readable [] user false ≡ 5
unfolding get_permissions permissions_of read_meta_file meta_of dtoo dtoo_loop otod otod_loop
group_may_search = refl

get_permissions-class_bits_example : get_permissions group_readable [] user true ≡ (
    if 1000 == 0
    then bit_or (class_bits 488 (class_of 1000 100 0 100)) 6
    else class_bits 488 (class_of 1000 100 0 100))
get_permissions-class_bits_example =
    get_permissions-class_bits group_readable [] user true 488 0 100 18 (omega arith) refl

etc-IsName : IsName (codes "etc")
etc-IsName = record {
  nonempty = omega arith;
  no_slash = ground arith;
  not_dot = λ e. cc;
  not_dot_dot = λ e. cc;
}

meta_of_etc : get_meta_path (codes "/etc/etc") ≡ ok (codes "/etc/.proot-meta-file.etc")
unfolding get_meta_path with_separator get_dir_path get_name strrchr skip_back str_equal
meta_of_etc = refl

get_meta_path-injective_example :
    render (codes "etc" ∷ codes "etc" ∷ []) ≡ render (codes "etc" ∷ codes "etc" ∷ [])
get_meta_path-injective_example =
    get_meta_path-injective (codes "etc") (codes "etc") (codes "etc" ∷ []) (codes "etc" ∷ [])
      (codes "/etc/.proot-meta-file.etc") (etc-IsName, (etc-IsName, tt))
      (etc-IsName, (etc-IsName, tt)) meta_of_etc meta_of_etc

abbrev everything : Bytes → Bool
everything path = true

may_read :
    check_dir_perms group_readable everything b'r' (codes "/etc/etc/etc") (codes "/") user ≡ ok tt
unfolding check_dir_perms search_dirs get_meta_path with_separator get_dir_path get_name strrchr
    skip_back str_equal get_permissions permissions_of read_meta_file meta_of dtoo dtoo_loop otod
    otod_loop
may_read = refl

check_dir_perms-Ends_example :
    Ends (check_dir_perms group_readable everything b'r' (codes "/etc/etc/etc") (codes "/") user)
check_dir_perms-Ends_example =
    check_dir_perms-Ends group_readable everything b'r' (codes "/etc/etc/etc") (codes "/") user
      (omega arith)
