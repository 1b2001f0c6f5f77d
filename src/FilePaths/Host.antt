-- ===== src/FilePaths/Host.antt =====
-- What the path translation asks of the kernel and of the parts that are modelled apart: lstat(2),
-- readlink(2), the extensions' callbacks, the list of tracees, the glue of bindings.
use vm_forge.Prelude.{ℕ, Bool, Option}
use vm_forge.Prelude.Bytes.{Bytes}
use vm_forge.Prelude.Errors.{Result}
use vm_forge.FilePaths.Binding.{Bindings}
use vm_forge.FilePaths.Component.{Finality}

-- The file types that st_mode is tested for.
pub data FileType : Type 0 where
  directory symlink other : FileType

-- enum action of path/proc.h with the link's text.
pub data Action : Type 0 where
  default_action : Action
  canonicalize_link : Bytes → Action
  dont_canonicalize : Bytes → Action

-- What is read of a tracee with a known pid: tracee->exe may be null.
pub record KnownTracee : Type 0 where
  pub exe : Option Bytes
  pub cwd : Bytes
  pub fs : Bindings

pub record Host : Type 0 where
  -- lstat(2)
  pub lstat : Bytes → Result FileType
  -- readlink(2), the whole text of the link
  pub readlink : Bytes → Result Bytes
  -- should_skip_file_access_due_to_f2fs_bug()
  pub skipped : Bytes → Bool
  -- notify_extensions(HOST_PATH): the path that the extensions leave
  pub notify_host_path : Bytes → Bool → Result Bytes
  -- tracee->pid, as an int's word
  pub pid : ℕ
  -- get_tracee(tracee, pid, false)
  pub known_tracee : ℕ → Option KnownTracee
  -- build_glue() where tracee->glue_type is not 0: guest path, host path, finality
  pub glue : Option (Bytes → Bytes → Finality → Option FileType)
