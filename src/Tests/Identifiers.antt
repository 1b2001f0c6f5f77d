-- ===== src/Tests/Identifiers.antt =====
-- Identifiers: a process of root that becomes the user 1000, and tries to come back.
use vm_forge.Prelude.{ℕ, ◌≡◌, refl, true, false, arith, [], ◌∷◌}
use vm_forge.Prelude.Errors.{err, eperm}
use vm_forge.FakeId.{
  Ids, Config, user_id, set_id, set_re_id, set_res_id, keep_caps_flag, handle, handle_all,
  setresxid, settle_ids, setresxid_ids, maybe_drop_caps, setxid, setxid_ids,
}
use vm_forge.FakeId.Drop.{IsWithin, IsDropped, handle-IsWithin, setuid_irreversible}

abbrev ids_all : ℕ → Ids
ids_all id = record { real = id; effective = id; saved = id; file_system = id }

abbrev root : Config
root = record {
  user = ids_all 0;
  group = ids_all 0;
  umask = 18;
  caps_active = true;
  keep_caps = false;
}

abbrev user_with_saved : Config
user_with_saved = record root {
  user = record { real = 1000; effective = 1000; saved = 33; file_system = 1000 };
  caps_active = false;
}

-- seteuid() to the saved identifier
swaps :
    (handle (set_res_id user_id 4294967295 33 4294967295) user_with_saved).0.user
    ≡ record { real = 1000; effective = 33; saved = 33; file_system = 33 }
unfolding handle setresxid settle_ids setresxid_ids maybe_drop_caps
swaps = refl

refused : handle (set_id user_id 0) user_with_saved ≡ (user_with_saved, err eperm)
unfolding handle setxid settle_ids setxid_ids
refused = refl

handle-IsWithin_example :
    IsWithin user_with_saved.user (handle (set_re_id user_id 1000 33) user_with_saved).0.user
handle-IsWithin_example = handle-IsWithin (set_re_id user_id 1000 33) user_with_saved user_id refl

setuid_irreversible_example : IsDropped (
    handle_all
      (keep_caps_flag 8 1 0 ∷ set_res_id user_id 0 0 0 ∷ [])
      (handle (set_id user_id 1000) root).0)
setuid_irreversible_example =
    setuid_irreversible 1000 root (keep_caps_flag 8 1 0 ∷ set_res_id user_id 0 0 0 ∷ []) refl refl
      refl (omega arith)
