-- ===== src/FakeId/Drop.antt =====
-- What the set*id(2) family cannot do: gain an identifier, or undo a permanent drop of privileges.
use vm_forge.Prelude.{
  ℕ, ◌<◌, ◌≡◌, Bool, true, false, ◌||◌, List, [], ◌∷◌, Option, some, none, ◌==◌, arith,
}
use vm_forge.FakeId.{
  Ids, Config, Kind, user_id, group_id, ids_of, with_ids, is_privileged, has_root, maybe_drop_caps,
  equals_any_id, setxid_ids, setrexid_ids, setresxid_ids, setfsxid_ids, settle_ids, low32, setxid,
  setrexid, setresxid, setfsxid, prctl, Call, set_id, set_re_id, set_res_id, set_fs_id,
  keep_caps_flag, handle, handle_all,
}

-- The new identifiers are old ones: none but the file system's may be the old file system's.
abbrev pub IsWithin : Ids → Ids → Type 0
IsWithin old new =
    equals_any_id new.real old ≡ true
    × equals_any_id new.effective old ≡ true
    × equals_any_id new.saved old ≡ true
    × ((new.file_system == old.file_system) || equals_any_id new.file_system old) ≡ true

-- The identifiers that a macro without privileges yields, if it yields any.
abbrev YieldsWithin : Ids → Option Ids → Type 0
YieldsWithin old none = Unit
YieldsWithin old (some new) = IsWithin old new

setxid_ids-IsWithin : (id : ℕ) (ids : Ids) → YieldsWithin ids (setxid_ids false id ids)
unfolding setxid_ids
setxid_ids-IsWithin id ids = ground arith

setrexid_ids-IsWithin : (r e : ℕ) (ids : Ids) → YieldsWithin ids (setrexid_ids false r e ids)
unfolding setrexid_ids
setrexid_ids-IsWithin r e ids = ground arith

setresxid_ids-IsWithin : (r e s : ℕ) (ids : Ids) → YieldsWithin ids (setresxid_ids false r e s ids)
unfolding setresxid_ids
setresxid_ids-IsWithin r e s ids = ground arith

setfsxid_ids-IsWithin : (id : ℕ) (ids : Ids) → IsWithin ids (setfsxid_ids false id ids)
unfolding setfsxid_ids
setfsxid_ids-IsWithin id ids = ground arith

same-IsWithin : (ids : Ids) → IsWithin ids ids
same-IsWithin ids = ground arith

ids_of-maybe_drop_caps :
    (kind : Kind) (b : Bool) (c : Config) → ids_of kind (maybe_drop_caps b c) ≡ ids_of kind c
unfolding maybe_drop_caps
ids_of-maybe_drop_caps kind b c = ground arith

settle_ids-IsWithin :
    (k kind : Kind) (c : Config) (ids : Option Ids)
    → YieldsWithin (ids_of k c) ids
    → IsWithin (ids_of kind c) (ids_of kind (settle_ids k c ids).0)
unfolding settle_ids
settle_ids-IsWithin k kind c none h = same-IsWithin (ids_of kind c)
settle_ids-IsWithin user_id user_id c (some new) h =
    rw (ids_of-maybe_drop_caps user_id (has_root c) (with_ids user_id c new)) h
settle_ids-IsWithin user_id group_id c (some new) h =
    rw (ids_of-maybe_drop_caps group_id (has_root c) (with_ids user_id c new))
      (same-IsWithin c.group)
settle_ids-IsWithin group_id user_id c (some new) h =
    rw (ids_of-maybe_drop_caps user_id (has_root c) (with_ids group_id c new))
      (same-IsWithin c.user)
settle_ids-IsWithin group_id group_id c (some new) h =
    rw (ids_of-maybe_drop_caps group_id (has_root c) (with_ids group_id c new)) h

-- Without privileges no call gains an identifier: the real, effective and saved identifier that it
-- leaves, of users and of groups, each were one of these three before, and that of the file system
-- was one of these or the file system's.
pub handle-IsWithin :
    (k : Call) (c : Config) (kind : Kind)
    → is_privileged c ≡ false
    → IsWithin (ids_of kind c) (ids_of kind (handle k c).0)
unfolding handle setxid setrexid setresxid setfsxid prctl
handle-IsWithin (set_id k id) c kind h =
    settle_ids-IsWithin k kind c _ (rw h (setxid_ids-IsWithin (low32 id) (ids_of k c)))
handle-IsWithin (set_re_id k r e) c kind h =
    settle_ids-IsWithin k kind c _ (rw h (setrexid_ids-IsWithin (low32 r) (low32 e) (ids_of k c)))
handle-IsWithin (set_res_id k r e s) c kind h =
    settle_ids-IsWithin k kind c _
      (rw h (setresxid_ids-IsWithin (low32 r) (low32 e) (low32 s) (ids_of k c)))
handle-IsWithin (set_fs_id user_id id) c user_id h = rw h (setfsxid_ids-IsWithin (low32 id) c.user)
handle-IsWithin (set_fs_id user_id id) c group_id h = same-IsWithin c.group
handle-IsWithin (set_fs_id group_id id) c user_id h = same-IsWithin c.user
handle-IsWithin (set_fs_id group_id id) c group_id h =
    rw h (setfsxid_ids-IsWithin (low32 id) c.group)
handle-IsWithin (keep_caps_flag op arg result) c kind h = ground arith

-- No user identifier is root's, and the capabilities are gone.
abbrev pub IsDropped : Config → Type 0
IsDropped c =
    c.caps_active ≡ false
    × 0 < c.user.real
    × 0 < c.user.effective
    × 0 < c.user.saved
    × 0 < c.user.file_system

IsWithin-nonzero :
    (old new : Ids)
    → IsWithin old new
    → 0 < old.real
    → 0 < old.effective
    → 0 < old.saved
    → 0 < old.file_system
    → (0 < new.real) × (0 < new.effective) × (0 < new.saved) × (0 < new.file_system)
IsWithin-nonzero old new h r e s f = ground arith

-- No call raises the capabilities.
handle-caps_active :
    (k : Call) (c : Config) → c.caps_active ≡ false → (handle k c).0.caps_active ≡ false
unfolding handle setxid setrexid setresxid setfsxid prctl settle_ids maybe_drop_caps
handle-caps_active k c h = ground arith

handle-IsDropped : (k : Call) (c : Config) → IsDropped c → IsDropped (handle k c).0
handle-IsDropped k c (caps, r, e, s, f) =
    let ids =
      IsWithin-nonzero c.user (handle k c).0.user (handle-IsWithin k c user_id (ground arith)) r e s
        f in
    (handle-caps_active k c caps, ids.0, ids.1, ids.2, ids.3)

handle_all-IsDropped : (ks : List Call) (c : Config) → IsDropped c → IsDropped (handle_all ks c)
unfolding handle_all
handle_all-IsDropped [] c h = h
handle_all-IsDropped (k ∷ ks) c h = handle_all-IsDropped ks (handle k c).0 (handle-IsDropped k c h)

setxid-IsDropped :
    (word : ℕ) (c : Config)
    → is_privileged c ≡ true
    → has_root c ≡ true
    → c.keep_caps ≡ false
    → 0 < low32 word
    → IsDropped (setxid user_id word c).0
unfolding setxid settle_ids setxid_ids maybe_drop_caps
setxid-IsDropped word c h root keep nonzero = ground arith

-- A privileged tracee that holds root's identifier and does not keep its capabilities drops its
-- privileges for good by setuid() with another identifier: whatever calls of the family and of
-- prctl() follow, none of its four user identifiers is root's again and its capabilities stay gone.
pub setuid_irreversible :
    (word : ℕ) (c : Config) (ks : List Call)
    → is_privileged c ≡ true
    → has_root c ≡ true
    → c.keep_caps ≡ false
    → 0 < low32 word
    → IsDropped (handle_all ks (handle (set_id user_id word) c).0)
unfolding handle
setuid_irreversible word c ks h root keep nonzero =
    handle_all-IsDropped ks (setxid user_id word c).0 (setxid-IsDropped word c h root keep nonzero)
