-- ===== src/Ipc/Semaphore.antt =====
-- extension/sysvipc/sysvipc_sem.c: the semaphores, and semop(2) with the wake-up of the tracees that
-- wait. Bounds are those of the file's head.
use vm_forge.Prelude.{
  ℕ, zero, suc, ◌+◌, ◌-◌, ◌*◌, ◌/◌, ◌%◌, ◌≤◌, ◌<◌, ◌≡◌, ◌≢◌, ◌↔◌, ◌⊎◌, refl, sym, ap, ◌∙◌, Bool,
  true, false, not, ◌&&◌, ◌||◌, List, [], ◌∷◌, ◌++◌, append-nil, append_assoc, arith, ltb, leb,
  ltb→lt, lt→ltb, leb→le, ◌==◌, if◌then◌else◌, Bool-cases, inl, inr, length, length-append,
  take-length_append, take, drop, get_or, replicate, set, length-set, get_elem?-set_self, Option,
  some, none, get_elem?,
}
use vm_forge.Prelude.Bytes.{
  Bytes, slash, dot, codes, char_at, str_equal, str_equal_iff, IsText, path_max, name_max,
}
use vm_forge.Prelude.Errors.{
  Result, ok, err, Errno, einval, enoent, eexist, enospc, e2big, efbig, eagain, erange, eidrm,
  enametoolong, Ensures, ◌>>=◌,
}
pub mod Control
pub mod Values
pub mod Invariant
pub mod Keys
pub mod Waking
use vm_forge.Prelude.Int.{ℤ, pos, negsuc}
use vm_forge.Ipc.Object.{IpcObject, lookup_object, search_key, object_id, next_generation}
use vm_forge.Ipc.Task.{
  Task, Sembuf, WaitReason, not_waiting, wait_semop, waits_semop, waits_on, wake_tracee,
  update_task,
}

abbrev pub max_sems : ℕ
max_sems = 512

abbrev pub max_nsems : ℕ
max_nsems = 512

abbrev pub max_nsops : ℕ
max_nsops = 512

abbrev pub max_semval : ℕ
max_semval = 28672

pub record Semaphore : Type 0 where
  pub common : IpcObject
  pub sems : List ℕ
  pub nsems : ℕ

-- What sysvipc_sem_check() finds: the new values, that the tracee has to wait (for an increase, or
-- for zero), or an error.
pub data WaitType : Type 0 where
  wait_n wait_z : WaitType

pub data Check : Type 0 where
  performed : List ℕ → Check
  waits : WaitType → Check
  fails : Errno → Check

-- One operation on the copy of the values.
unfoldable pub perform_op : ℤ → ℕ → Bool → List ℕ → Check
perform_op (pos n) sem_num nowait sems =
    let value = get_or sems sem_num 0 in
    if n == 0
    then (if value == 0 then performed sems else if nowait then fails eagain else waits wait_z)
    else if ltb max_semval (value + n)
    then fails erange
    else performed (set sems sem_num (value + n))
perform_op (negsuc n) sem_num nowait sems =
    let value = get_or sems sem_num 0 in
    if ltb value (suc n)
    then (if nowait then fails eagain else waits wait_n)
    else if ltb max_semval (value - suc n)
    then fails erange
    else performed (set sems sem_num (value - suc n))

abbrev pub perform : Sembuf → List ℕ → Check
perform s sems = perform_op s.sem_op s.sem_num s.nowait sems

-- The loop: the first operation that cannot be performed decides.
unfoldable pub check_ops : List Sembuf → List ℕ → Check
unfolding perform_op
check_ops [] sems = performed sems
check_ops (s ∷ ops) sems = elim (perform s sems) [
  | performed sems' ↦ check_ops ops sems'
  | waits w ↦ waits w
  | fails e ↦ fails e
]

-- The semaphore's values change only where all operations are performed.
abbrev pub committed : Check → List ℕ → List ℕ
committed (performed sems) old = sems
committed _ old = old

-- The answer of the check to a tracee that need not wait any longer.
abbrev pub answer : Check → Option (Result ℕ)
answer (performed sems) = some (ok 0)
answer (waits w) = none
answer (fails e) = some (err e)

abbrev pub wake_if : Task → Option (Result ℕ) → Result Task
wake_if t none = ok t
wake_if t (some status) = wake_tracee (record t { semop_sops = [] }) status

-- The loop over the other tracees: each that waits for the semaphore is checked once, in order.
unfoldable pub check_others : ℕ → ℕ → ℕ → List Task → List ℕ → Result (List Task × List ℕ)
unfolding check_ops
check_others self namespace index [] sems = ok ([], sems)
check_others self namespace index (t ∷ ts) sems =
    if not (t.tid == self) && waits_on waits_semop namespace index t
    then (wake_if t (answer (check_ops t.semop_sops sems)) >>= λ t'.
        check_others self namespace index ts (committed (check_ops t.semop_sops sems) sems)
        >>= λ (ts', sems'). ok (t' ∷ ts', sems'))
    else (check_others self namespace index ts sems >>= λ (ts', sems'). ok (t ∷ ts', sems'))

pub record SemState : Type 0 where
  pub tasks : List Task
  pub semaphores : List Semaphore

-- A system call's new state and its status; the outer result is the process's own, which an
-- assertion may stop.
abbrev pub Call : Type 0
Call = Result (SemState × Result ℕ)

abbrev pub fail : SemState → Errno → Call
fail st e = ok (st, err e)

-- The end of sysvipc_semop(): the tracee waits, with status 0, or has its answer.
abbrev pub settle : Task → Option (Result ℕ) → Task
settle t none = t
settle t (some status) = record t { semop_sops = []; wait_reason = not_waiting }

abbrev pub status_of : Option (Result ℕ) → Result ℕ
status_of none = ok 0
status_of (some status) = status

-- The tracee waits until the check has answered.
abbrev pub enqueue : SemState → ℕ → ℕ → List Sembuf → List Task
enqueue st self index sops =
    update_task self
      (λ t. record t { wait_reason = wait_semop; waiting_object_index = index; semop_sops = sops })
      st.tasks

-- The operations on a semaphore that was found.
unfoldable pub semop_at : SemState → ℕ → ℕ → ℕ → Semaphore → List Sembuf → Call
unfolding check_others update_task
semop_at st self namespace index s sops =
    let checked = check_ops sops s.sems in
    check_others self namespace index (enqueue st self index sops) (committed checked s.sems)
    >>= λ (tasks, sems). ok (
      record {
        tasks = update_task self (λ t. settle t (answer checked)) tasks;
        semaphores = set st.semaphores index (record s { sems = sems });
      },
      status_of (answer checked),
    )

-- Every operation names a semaphore of the set.
unfoldable pub in_range : ℕ → List Sembuf → Bool
in_range nsems [] = true
in_range nsems (s ∷ ops) = ltb s.sem_num nsems && in_range nsems ops

-- `read` is what the tracee's memory holds at the address of the operations.
unfoldable pub semop_checked : SemState → ℕ → ℕ → ℕ → Semaphore → Result (List Sembuf) → Call
unfolding semop_at in_range
semop_checked st self namespace index s (err e) = fail st e
semop_checked st self namespace index s (ok sops) =
    if in_range s.nsems sops then semop_at st self namespace index s sops else fail st efbig

unfoldable pub semop_found :
    SemState → ℕ → ℕ → ℕ → Result (List Sembuf) → Result (ℕ × Semaphore) → Call
unfolding semop_checked
semop_found st self namespace nsops read (err e) = fail st e
semop_found st self namespace nsops read (ok (index, s)) =
    if ltb max_nsops nsops
    then fail st e2big
    else if nsops == 0
    then fail st einval
    else semop_checked st self namespace index s read

unfoldable pub semop : SemState → ℕ → ℕ → ℕ → ℕ → Result (List Sembuf) → Call
unfolding semop_found
semop st self namespace id nsops read =
    semop_found st self namespace nsops read
      (lookup_object (λ (s : Semaphore). s.common) st.semaphores id)

-- A ppoll() that ended by itself.
unfoldable pub semop_timedout : Task → Task
semop_timedout t = record t { semop_sops = []; wait_reason = not_waiting }
