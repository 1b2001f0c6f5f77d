-- ===== src/Ipc/Task.antt =====
-- The state of the tracees that sysvipc_internal.h keeps (struct SysVIpcConfig), as far as semaphores
-- and message queues use it, and sysvipc_wake_tracee of sysvipc.c.
use vm_forge.Prelude.{ℕ, Bool, true, false, not, ◌&&◌, List, [], ◌∷◌, ◌==◌, if◌then◌else◌}
use vm_forge.Prelude.Errors.{Result, Errno, ok, err, assertion, ◌>>=◌}
use vm_forge.Prelude.Int.{ℤ}

pub data WaitReason : Type 0 where
  not_waiting wait_queue_recv wait_semop wait_shmat_helper_busy : WaitReason

pub data WaitState : Type 0 where
  idle restarted_into_ppoll_canceled restarted_into_ppoll entered_ppoll signaled_ppoll : WaitState
  entered_getpid : WaitState

pub data ChainState : Type 0 where
  not_chained single shmat_socket shmat_connect shmat_recvmsg shmat_mmap msgrcv_retry : ChainState

-- struct SysVIpcSembuf; of sem_flg the code reads IPC_NOWAIT.
pub record Sembuf : Type 0 where
  pub sem_num : ℕ
  pub sem_op : ℤ
  pub nowait : Bool

-- The flags of msgrcv(2), and whether any other bit is set.
pub record RecvFlags : Type 0 where
  pub nowait : Bool
  pub noerror : Bool
  pub copy : Bool
  pub except : Bool
  pub unknown : Bool

-- `tid` tells a tracee from another; a namespace is told by a number.
pub record Task : Type 0 where
  pub tid : ℕ
  pub ipc_namespace : ℕ
  pub wait_reason : WaitReason
  pub wait_state : WaitState
  pub chain_state : ChainState
  pub status_after_wait : Result ℕ
  pub waiting_object_index : ℕ
  pub semop_sops : List Sembuf
  pub msgrcv_msgsz : ℕ
  pub msgrcv_msgtyp : ℤ
  pub msgrcv_msgflg : RecvFlags

abbrev pub is_waiting : WaitReason → Bool
is_waiting not_waiting = false
is_waiting _ = true

abbrev pub waits_semop : WaitReason → Bool
waits_semop wait_semop = true
waits_semop _ = false

abbrev pub waits_recv : WaitReason → Bool
waits_recv wait_queue_recv = true
waits_recv _ = false

-- The next state of the waiting mechanism: a tracee in ppoll() is sent a signal, and one that has
-- not entered it does not wait.
abbrev pub woken_state : WaitState → Result WaitState
woken_state entered_ppoll = ok signaled_ppoll
woken_state restarted_into_ppoll = ok restarted_into_ppoll_canceled
woken_state _ = err assertion

unfoldable pub wake_tracee : Task → Result ℕ → Result Task
wake_tracee t status =
    if not (is_waiting t.wait_reason)
    then err assertion
    else woken_state t.wait_state >>= λ state.
        ok (record t { wait_reason = not_waiting; status_after_wait = status; wait_state = state })

-- A tracee that waits for the object `index` of its namespace, other than `self`.
abbrev pub waits_on : (WaitReason → Bool) → ℕ → ℕ → Task → Bool
waits_on reason namespace index t =
    t.ipc_namespace == namespace && reason t.wait_reason && t.waiting_object_index == index

-- IPC_RMID: every tracee that waits for the object is woken.
unfoldable pub wake_all : (WaitReason → Bool) → ℕ → ℕ → Errno → List Task → Result (List Task)
wake_all reason namespace index e [] = ok []
wake_all reason namespace index e (t ∷ ts) =
    (if waits_on reason namespace index t then wake_tracee t (err e) else ok t) >>= λ t'.
    wake_all reason namespace index e ts >>= λ ts'. ok (t' ∷ ts')

-- The change of one tracee's configuration.
unfoldable pub update_task : ℕ → (Task → Task) → List Task → List Task
update_task tid f [] = []
update_task tid f (t ∷ ts) = (if t.tid == tid then f t else t) ∷ update_task tid f ts
