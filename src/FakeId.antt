-- ===== src/FakeId.antt =====
-- The fake user and group identifiers that extension/fake_id0/fake_id0.c keeps for a tracee, as the
-- set*id(2) family and prctl(PR_SET_KEEPCAPS) change them. Registers are words; an identifier is
-- their low 32 bits. A macro that stands for the call on users and on groups is one definition.
pub mod Drop
pub mod Helpers
pub mod Modes
pub mod MetaPaths
pub mod Climb
use vm_forge.Prelude.{
  ℕ, ◌%◌, Bool, true, false, not, ◌&&◌, ◌||◌, List, [], ◌∷◌, Option, some, none, ◌==◌,
  if◌then◌else◌,
}
use vm_forge.Prelude.Errors.{Result, ok, err, eperm}

-- ruid, euid, suid and fsuid, or those of the group.
pub record Ids : Type 0 where
  pub real : ℕ
  pub effective : ℕ
  pub saved : ℕ
  pub file_system : ℕ

pub record Config : Type 0 where
  pub user : Ids
  pub group : Ids
  pub umask : ℕ
  pub caps_active : Bool
  pub keep_caps : Bool

pub data Kind : Type 0 where
  user_id : Kind
  group_id : Kind

abbrev pub ids_of : Kind → Config → Ids
ids_of user_id c = c.user
ids_of group_id c = c.group

abbrev pub with_ids : Kind → Config → Ids → Config
with_ids user_id c ids = record {
  user = ids;
  group = c.group;
  umask = c.umask;
  caps_active = c.caps_active;
  keep_caps = c.keep_caps;
}
with_ids group_id c ids = record {
  user = c.user;
  group = ids;
  umask = c.umask;
  caps_active = c.caps_active;
  keep_caps = c.keep_caps;
}

-- config->euid == 0 || config->caps_active
abbrev pub is_privileged : Config → Bool
is_privileged c = (c.user.effective == 0) || c.caps_active

-- prev_root
abbrev pub has_root : Config → Bool
has_root c = (c.user.real == 0) || (c.user.effective == 0) || (c.user.saved == 0)

-- MAYBE_DROP_CAPS
unfoldable pub maybe_drop_caps : Bool → Config → Config
maybe_drop_caps prev_root c =
    if prev_root && not c.keep_caps && not (has_root c)
    then record {
      user = c.user;
      group = c.group;
      umask = c.umask;
      caps_active = false;
      keep_caps = c.keep_caps;
    }
    else c

abbrev pub unset_id : ℕ → Bool
unset_id id = id == 4294967295

-- UNCHANGED_ID, with the field's present value.
abbrev pub unchanged_id : ℕ → ℕ → Bool
unchanged_id id now = unset_id id || (id == now)

abbrev pub equals_any_id : ℕ → Ids → Bool
equals_any_id id ids = (id == ids.real) || (id == ids.effective) || (id == ids.saved)

-- What a macro does with the identifiers of its kind; `none` is EPERM.
unfoldable pub setxid_ids : Bool → ℕ → Ids → Option Ids
setxid_ids privileged id ids =
    if not (privileged || equals_any_id id ids)
    then none
    else if privileged
    then some (record { real = id; effective = id; saved = id; file_system = id })
    else some (record { real = ids.real; effective = id; saved = ids.saved; file_system = id })

-- The identifiers after the new effective one has been handled, then after the new real one.
abbrev pub reset_effective : ℕ → Ids → Ids
reset_effective e ids = if unset_id e then ids else record {
  real = ids.real;
  effective = e;
  saved = if e == ids.real then ids.saved else e;
  file_system = e;
}

abbrev pub reset_real : ℕ → ℕ → Ids → Ids
reset_real r e ids = if unset_id r then ids else record {
  real = r;
  effective = ids.effective;
  saved = if unset_id e then ids.saved else e;
  file_system = ids.file_system;
}

abbrev pub setrexid_allowed : ℕ → ℕ → Ids → Bool
setrexid_allowed r e ids =
    (unchanged_id e ids.effective && unchanged_id r ids.real)
    || ((r == ids.effective) && ((e == ids.real) || unchanged_id e ids.effective))
    || ((e == ids.real) && ((r == ids.effective) || unchanged_id r ids.real))
    || ((e == ids.saved) && unchanged_id r ids.real)

unfoldable pub setrexid_ids : Bool → ℕ → ℕ → Ids → Option Ids
setrexid_ids privileged r e ids =
    if not (privileged || setrexid_allowed r e ids)
    then none
    else some (reset_real r e (reset_effective e ids))

abbrev pub setresxid_allowed : ℕ → Ids → Bool
setresxid_allowed id ids = unset_id id || equals_any_id id ids

unfoldable pub setresxid_ids : Bool → ℕ → ℕ → ℕ → Ids → Option Ids
setresxid_ids privileged r e s ids =
    if not (
      privileged || (setresxid_allowed r ids && setresxid_allowed e ids && setresxid_allowed s ids))
    then none
    else some (record {
      real = if unset_id r then ids.real else r;
      effective = if unset_id e then ids.effective else e;
      saved = if unset_id s then ids.saved else s;
      file_system = if unset_id e then ids.file_system else e;
    })

unfoldable pub setfsxid_ids : Bool → ℕ → Ids → Ids
setfsxid_ids privileged id ids =
    if privileged || (id == ids.file_system) || equals_any_id id ids
    then record { real = ids.real; effective = ids.effective; saved = ids.saved; file_system = id }
    else ids

-- The end that the first three macros share, with the result that the tracee sees.
unfoldable pub settle_ids : Kind → Config → Option Ids → Config × Result ℕ
settle_ids kind c none = (c, err eperm)
settle_ids kind c (some ids) = (maybe_drop_caps (has_root c) (with_ids kind c ids), ok 0)

abbrev pub low32 : ℕ → ℕ
low32 word = word % 4294967296

unfoldable pub setxid : Kind → ℕ → Config → Config × Result ℕ
setxid kind word c = settle_ids kind c (setxid_ids (is_privileged c) (low32 word) (ids_of kind c))

unfoldable pub setrexid : Kind → ℕ → ℕ → Config → Config × Result ℕ
setrexid kind r e c =
    settle_ids kind c (setrexid_ids (is_privileged c) (low32 r) (low32 e) (ids_of kind c))

unfoldable pub setresxid : Kind → ℕ → ℕ → ℕ → Config → Config × Result ℕ
setresxid kind r e s c =
    settle_ids kind c
      (setresxid_ids (is_privileged c) (low32 r) (low32 e) (low32 s) (ids_of kind c))

unfoldable pub setfsxid : Kind → ℕ → Config → Config × Result ℕ
setfsxid kind word c = (
  with_ids kind c (setfsxid_ids (is_privileged c) (low32 word) (ids_of kind c)),
  ok (ids_of kind c).file_system,
)

-- PR_SET_KEEPCAPS is 8. The call's result, an int as the host returned it, stays.
unfoldable pub prctl : ℕ → ℕ → ℕ → Config → Config × Result ℕ
prctl op arg result c =
    if (low32 result == 0) && (low32 op == 8)
    then (
      record {
        user = c.user;
        group = c.group;
        umask = c.umask;
        caps_active = c.caps_active;
        keep_caps = not (arg == 0);
      },
      ok result,
    )
    else (c, ok result)

-- The calls that handle_sysexit_end() dispatches to those macros.
pub data Call : Type 0 where
  set_id : Kind → ℕ → Call
  set_re_id : Kind → ℕ → ℕ → Call
  set_res_id : Kind → ℕ → ℕ → ℕ → Call
  set_fs_id : Kind → ℕ → Call
  keep_caps_flag : ℕ → ℕ → ℕ → Call

unfoldable pub handle : Call → Config → Config × Result ℕ
handle (set_id kind id) c = setxid kind id c
handle (set_re_id kind r e) c = setrexid kind r e c
handle (set_res_id kind r e s) c = setresxid kind r e s c
handle (set_fs_id kind id) c = setfsxid kind id c
handle (keep_caps_flag op arg result) c = prctl op arg result c

-- A tracee's calls, one after the other.
unfoldable pub handle_all : List Call → Config → Config
handle_all [] c = c
handle_all (k ∷ ks) c = handle_all ks (handle k c).0
