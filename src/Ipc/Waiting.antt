-- ===== src/Ipc/Waiting.antt =====
-- extension/sysvipc/sysvipc.c: how a tracee is made to wait. A call that waits becomes a ppoll(2) that
-- sysvipc_wake_tracee ends. The switch over the calls is passed as what its handler left; the events of
-- the shared memory are only named.
pub mod Consistent
pub mod Exit
pub mod Handlers
pub mod Wake
use vm_forge.Prelude.{
  ℕ, ◌≡◌, refl, Bool, true, false, not, ◌&&◌, ◌||◌, List, [], ◌∷◌, ◌==◌, if◌then◌else◌, length,
  Option, some, none,
}
use vm_forge.Prelude.Errors.{Result, ok, err, Errno, assertion, eintr, efault, ◌>>=◌}
use vm_forge.Ipc.Task.{
  Task, WaitReason, WaitState, ChainState, not_waiting, idle, restarted_into_ppoll_canceled,
  restarted_into_ppoll, entered_ppoll, signaled_ppoll, entered_getpid, not_chained, single,
  shmat_socket, shmat_connect, shmat_recvmsg, shmat_mmap, wait_semop, is_waiting,
}
use vm_forge.Ipc.Semaphore.{semop_timedout}
use vm_forge.Ipc.Queue.Receive.{
  Receiving, Receipt, Received, blocked, message, returned, retries, retry_msgrcv,
}

-- What the tracer does to the tracee's registers.
pub data Action : Type 0 where
  -- nothing
  goes_on : Action
  -- the call that a handler put there is made
  chains : Action
  -- ppoll(2) with this timeout
  polls : ℕ → Action
  -- getpid(2), whose result is replaced at its exit
  gets_pid : Action
  -- no call any more, with this result; or a call's result replaced
  results : Result ℕ → Action
  -- sysvipc_shmat_chain()
  runs_shmat_chain : Action

-- The ints that an outcome of msgrcv(2) is.
abbrev pub received_status : Result Received → Result ℕ
received_status (err e) = err e
received_status (ok blocked) = ok 0
received_status (ok (message mtype text)) = ok (length text)
received_status (ok (returned n)) = ok n

-- What the handler of a call left: the tracee, its status, and the timeout of semtimedop(2), or 0.
pub record Handled : Type 0 where
  pub task : Task
  pub status : Result ℕ
  pub timeout : ℕ

abbrev pub in_state : WaitState → Task → Task
in_state s t = record t { wait_state = s }

abbrev pub is_idle : WaitState → Bool
is_idle idle = true
is_idle _ = false

abbrev pub starts_chain : ChainState → Bool
starts_chain single = true
starts_chain shmat_socket = true
starts_chain _ = false

abbrev pub is_chained : ChainState → Bool
is_chained not_chained = false
is_chained _ = true

abbrev pub after_start : ChainState → ChainState
after_start single = not_chained
after_start c = c

-- The end of sysvipc_syscall_common(), after its switch.
abbrev pub after_handler : Handled → Bool → Result (Task × Action)
after_handler h from_sigsys =
    let t = h.task in
    if is_chained t.chain_state
    then (if starts_chain t.chain_state
        then ok (record t { chain_state = after_start t.chain_state }, chains)
        else err assertion)
    else if is_waiting t.wait_reason
    then ok
        (in_state (if from_sigsys then restarted_into_ppoll else entered_ppoll) t, polls h.timeout)
    else if from_sigsys
    then ok (t, results h.status)
    else ok (in_state entered_getpid (record t { status_after_wait = h.status }), gets_pid)

-- `none` stands for a call that is none of the extension's.
unfoldable pub syscall_common : Task → Option Handled → Bool → Result (Task × Action)
syscall_common t handled from_sigsys =
    if not (is_idle t.wait_state)
    then err assertion
    else elim handled [ none ↦ ok (t, goes_on) | some h ↦ after_handler h from_sigsys ]

-- The status of a wait, from the retry where there is to be one.
unfoldable pub wait_status : Receiving → Receipt → Result (Receiving × Result ℕ)
wait_status r w =
    if retries r.task.chain_state
    then (retry_msgrcv r w >>= λ (r', received). ok (r', received_status received))
    else ok (r, r.task.status_after_wait)

abbrev pub with_task : Receiving → Result (Task × Action) → Result (Receiving × Action)
with_task r m = m >>= λ (t, action). ok (record r { task = t }, action)

abbrev pub ends_wait : Receiving → Receipt → Result (Receiving × Action)
ends_wait r w = wait_status r w >>= λ (r', status).
    ok (record r' { task = in_state idle r'.task }, results status)

-- SYSCALL_ENTER_START; `is_ppoll` is whether the call is ppoll(2).
abbrev pub enter_start_in :
    WaitState → Receiving → Option Handled → Bool → Receipt → Result (Receiving × Action)
enter_start_in idle r handled is_ppoll w = with_task r (syscall_common r.task handled false)
enter_start_in restarted_into_ppoll r handled is_ppoll w =
    if is_ppoll
    then ok (record r { task = in_state entered_ppoll r.task }, chains)
    else err assertion
enter_start_in restarted_into_ppoll_canceled r handled is_ppoll w = ends_wait r w
enter_start_in _ r handled is_ppoll w = err assertion

unfoldable pub enter_start :
    Receiving → Option Handled → Bool → Receipt → Result (Receiving × Action)
unfolding syscall_common wait_status
enter_start r handled is_ppoll w = enter_start_in r.task.wait_state r handled is_ppoll w

-- SIGSYS_OCC
unfoldable pub sigsys_occ : Receiving → Option Handled → Result (Receiving × Action)
unfolding syscall_common
sigsys_occ r handled = with_task r (syscall_common r.task handled true)

abbrev pub is_shmat : ChainState → Bool
is_shmat shmat_socket = true
is_shmat shmat_connect = true
is_shmat shmat_recvmsg = true
is_shmat shmat_mmap = true
is_shmat _ = false

abbrev pub is_shmat_socket : ChainState → Bool
is_shmat_socket shmat_socket = true
is_shmat_socket _ = false

-- A ppoll(2) that ended by itself.
abbrev pub stops_waiting : WaitReason → Task → Result Task
stops_waiting not_waiting t = err assertion
stops_waiting wait_semop t = ok (semop_timedout t)
stops_waiting _ t = ok (record t { wait_reason = not_waiting })

abbrev pub poll_result : Result ℕ → Action
poll_result (err efault) = results (err efault)
poll_result (err e) = results (err eintr)
poll_result (ok n) = results (err eintr)

-- `result` is the result that the call has.
abbrev pub exit_start_in : WaitState → Receiving → Result ℕ → Receipt → Result (Receiving × Action)
exit_start_in idle r result w = ok (r, goes_on)
exit_start_in entered_ppoll r result w =
    stops_waiting r.task.wait_reason (in_state idle r.task) >>= λ t.
    ok (record r { task = t }, poll_result result)
exit_start_in signaled_ppoll r result w =
    if is_waiting r.task.wait_reason
    then err assertion
    else ends_wait (record r { task = in_state idle r.task }) w
exit_start_in entered_getpid r result w =
    if is_waiting r.task.wait_reason
    then err assertion
    else ends_wait (record r { task = in_state idle r.task }) w
exit_start_in _ r result w = err assertion

-- SYSCALL_EXIT_START
unfoldable pub exit_start : Receiving → Result ℕ → Receipt → Result (Receiving × Action)
unfolding wait_status semop_timedout
exit_start r result w =
    if is_shmat r.task.chain_state
    then (if is_shmat_socket r.task.chain_state then ok (r, runs_shmat_chain) else err assertion)
    else exit_start_in r.task.wait_state r result w

-- SYSCALL_CHAINED_ENTER
abbrev pub chained_enter_in : WaitState → Task → Result (Task × Action)
chained_enter_in idle t = ok (t, goes_on)
chained_enter_in restarted_into_ppoll_canceled t = ok (in_state signaled_ppoll t, polls 1)
chained_enter_in _ t = err assertion

unfoldable pub chained_enter : Task → Result (Task × Action)
chained_enter t = chained_enter_in t.wait_state t

-- SYSCALL_CHAINED_EXIT
abbrev pub chained_exit_in : WaitState → Task → Result (Task × Action)
chained_exit_in idle t = ok (t, if is_shmat t.chain_state then runs_shmat_chain else goes_on)
chained_exit_in signaled_ppoll t = ok (in_state idle t, goes_on)
chained_exit_in _ t = err assertion

unfoldable pub chained_exit : Task → Result (Task × Action)
chained_exit t = chained_exit_in t.wait_state t
