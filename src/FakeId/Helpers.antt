-- ===== src/FakeId/Helpers.antt =====
-- extension/fake_id0/helper_functions.c: the meta files that keep the mode and the owner of a file, their
-- paths and the permissions that follow from them. What a meta file holds is a parameter; numbers are ints
-- that are not negative.
use Prim.Native.Nat.{bit_and, bit_or}
use vm_forge.Prelude.{
  ℕ, zero, suc, ◌+◌, ◌-◌, ◌*◌, ◌/◌, ◌%◌, Bool, false, not, ◌&&◌, ◌||◌, [], ◌∷◌, ◌++◌, length, take,
  drop, ltb, leb, ◌==◌, if◌then◌else◌, Option, none, some,
}
use vm_forge.Prelude.Bytes.{Bytes, codes, str_equal, slash, path_max}
use vm_forge.Prelude.Errors.{Result, ok, err, enametoolong, eacces, out_of_fuel, ◌>>=◌}
use vm_forge.FilePaths.Component.{skip_back, is_slash, not_slash}
use vm_forge.FakeId.{Config}

-- The octal digits of a number as decimal ones. A round divides by 8, so `n` rounds are enough.
unfoldable pub dtoo_loop : ℕ → ℕ → ℕ → ℕ → ℕ
dtoo_loop zero n i octal = octal
dtoo_loop (suc fuel) n i octal =
    let rest = dtoo_loop fuel (n / 8) (i * 10) (octal + n % 8 * i) in if n == 0 then octal else rest

unfoldable pub dtoo : ℕ → ℕ
dtoo n = dtoo_loop n n 1 0

-- And back; `power` is 8 to the number of digits that are read.
unfoldable pub otod_loop : ℕ → ℕ → ℕ → ℕ → ℕ
otod_loop zero n power decimal = decimal
otod_loop (suc fuel) n power decimal =
    let rest = otod_loop fuel (n / 10) (power * 8) (decimal + n % 10 * power) in
    if n == 0 then decimal else rest

unfoldable pub otod : ℕ → ℕ
otod n = otod_loop n n 1 0

-- strrchr(s, c)
unfoldable pub strrchr : Bytes → ℕ → Option Bytes
strrchr [] c = none
strrchr (x ∷ s) c = elim (strrchr s c) [
  | some found ↦ some found
  | none ↦ if x == c then some (x ∷ s) else none
]

unfoldable pub get_name : Bytes → Bytes
get_name path = elim (strrchr path slash) [ none ↦ path | some found ↦ drop 1 found ]

unfoldable pub get_dir_path : Bytes → Bytes
get_dir_path path =
    let offset = length path - 1 in
    if ltb 0 offset
    then take (skip_back not_slash path (skip_back is_slash path offset)) path
    else path

-- META_TAG
abbrev pub meta_tag : Bytes
meta_tag = codes ".proot-meta-file."

unfoldable pub with_separator : Bytes → Bytes
with_separator dir = if str_equal dir (slash ∷ []) then dir else dir ++ (slash ∷ [])

unfoldable pub get_meta_path : Bytes → Result Bytes
get_meta_path orig_path =
    let dir = with_separator (get_dir_path orig_path) in
    let filename = get_name orig_path in
    if leb path_max (length dir + length filename + length meta_tag)
    then err enametoolong
    else ok (dir ++ (meta_tag ++ filename))

-- What read_meta_file() reads: the mode as it is written, the owner and the group; none where there is no
-- meta file.
abbrev pub MetaFiles : Type 0
MetaFiles = Bytes → Option (ℕ × ℕ × ℕ)

abbrev pub meta_or_default : Config → Option (ℕ × ℕ × ℕ) → ℕ × ℕ × ℕ
meta_or_default config none = (otod 755, config.user.effective, config.group.effective)
meta_or_default config (some (mode, owner, group)) = (otod mode, owner, group)

unfoldable pub read_meta_file : MetaFiles → Bytes → Config → ℕ × ℕ × ℕ
read_meta_file files path config = meta_or_default config (files path)

-- What write_meta_file() writes, under the umask where the file is created.
unfoldable pub meta_of : ℕ → ℕ → ℕ → Bool → ℕ → ℕ × ℕ × ℕ
meta_of mode owner group is_creat umask =
    let kept = if is_creat then bit_and (bit_and mode (4294967295 - umask)) 511 else mode in
    (dtoo kept, owner, group)

abbrev pub nth_digit : ℕ → ℕ → ℕ
nth_digit omode zero = omode % 10
nth_digit omode (suc n) = nth_digit (omode / 10) n

-- The `else` of the code has no braces: the group is the effective one in both cases.
unfoldable pub permissions_of : ℕ × ℕ × ℕ → Config → Bool → ℕ
permissions_of (mode, owner, group) config uses_real =
    let emulated_uid = if uses_real then config.user.real else config.user.effective in
    let emulated_gid = config.group.effective in
    let perms : ℕ =
      if emulated_uid == owner || emulated_uid == 0
      then 2
      else if emulated_gid == group
      then 1
      else 0 in
    let omode = nth_digit (dtoo mode) perms in if emulated_uid == 0 then bit_or omode 6 else omode

unfoldable pub get_permissions : MetaFiles → Bytes → Config → Bool → ℕ
get_permissions files meta_path config uses_real =
    permissions_of (read_meta_file files meta_path config) config uses_real

abbrev pub lacks : ℕ → ℕ → Bool
lacks perms bit = not (bit_and perms bit == bit)

-- The loop of check_dir_perms() over the directories above, each of which has to be searchable.
unfoldable pub search_dirs :
    ℕ → MetaFiles → (Bytes → Bool) → Bytes → Bytes → Config → Result (Unit {0})
search_dirs zero files belongs dir rel_path config = err out_of_fuel
search_dirs (suc fuel) files belongs dir rel_path config =
    let parent = get_dir_path dir in
    let rest = search_dirs fuel files belongs parent rel_path config in
    if str_equal dir rel_path || leb (length dir) (length rel_path)
    then ok tt
    else if not (belongs parent)
    then ok tt
    else get_meta_path parent >>= λ meta_path.
        (if lacks (get_permissions files meta_path config false) 1 then err eacces else rest)

-- `type` is 'r' or 'w'.
unfoldable pub check_dir_perms :
    MetaFiles → (Bytes → Bool) → ℕ → Bytes → Bytes → Config → Result (Unit {0})
check_dir_perms files belongs type path rel_path config =
    let dir = get_dir_path path in
    get_meta_path dir >>= λ meta_path.
    let perms = get_permissions files meta_path config false in
    if type == b'w' && lacks perms 2
    then err eacces
    else if type == b'r' && lacks perms 1
    then err eacces
    else search_dirs (length dir + 1) files belongs dir rel_path config
