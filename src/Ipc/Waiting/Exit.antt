-- ===== src/Ipc/Waiting/Exit.antt =====
-- The exit of a call in sysvipc_callback() of extension/sysvipc/sysvipc.c.
use vm_forge.Prelude.{ℕ, ◌≡◌, refl, true, false, if◌then◌else◌}
use vm_forge.Prelude.Errors.{Result, ok, err, assertion}
use vm_forge.Ipc.Task.{
  Task, WaitReason, WaitState, not_waiting, wait_queue_recv, wait_semop, wait_shmat_helper_busy,
  idle, restarted_into_ppoll_canceled, restarted_into_ppoll, entered_ppoll, signaled_ppoll,
  entered_getpid, is_waiting,
}
use vm_forge.Ipc.Semaphore.{semop_timedout}
use vm_forge.Ipc.Queue.Receive.{Receiving, Receipt, retries}
use vm_forge.Ipc.Waiting.{
  Action, goes_on, poll_result, is_shmat, ends_wait, exit_start, exit_start_in, in_state,
  stops_waiting,
}
use vm_forge.Ipc.Waiting.Consistent.{
  outside, inside, Fits, IsConsistent, IsConsistent-of, QueueStays, QueueStays-RetryEnds,
  ends_wait-Ends,
}

stops_waiting-ok :
    (reason : WaitReason) (t : Task)
    → is_waiting reason ≡ true
    → (t' : Task) × (stops_waiting reason t ≡ ok t')
      × (is_waiting t'.wait_reason ≡ false)
      × (t'.wait_state ≡ t.wait_state)
      × (t'.chain_state ≡ t.chain_state)
unfolding semop_timedout
stops_waiting-ok not_waiting t h = absurd (cc)
stops_waiting-ok wait_semop t h = (semop_timedout t, refl, refl, refl, refl)
stops_waiting-ok wait_queue_recv t h =
    (record t { wait_reason = not_waiting }, refl, refl, refl, refl)
stops_waiting-ok wait_shmat_helper_busy t h =
    (record t { wait_reason = not_waiting }, refl, refl, refl, refl)

-- At the exit of a call, in a state that a tracee may then have and where no shmat(2) is under way, no
-- assertion of the extension fails, and the tracee is left in a state that it may have at the entry of
-- its next call: not waiting, with no wait under way and no retry pending. Where a woken receiver is to
-- look for a message again its queue is still in use (where it was removed, the retry's assertion fails).
pub exit_start-IsConsistent :
    (r : Receiving) (result : Result ℕ) (w : Receipt)
    → IsConsistent inside r.task
    → is_shmat r.task.chain_state ≡ false
    → QueueStays r
    → (r' : Receiving) × (a : Action) × (exit_start r result w ≡ ok (r', a))
      × (r'.task.wait_state ≡ idle)
      × IsConsistent outside r'.task
unfolding exit_start
exit_start-IsConsistent r result w fits no_shmat stays =
    rw no_shmat (by_state r.task.wait_state refl fits)
  where
    ended :
        is_waiting r.task.wait_reason ≡ false
        → (r' : Receiving) × (a : Action) × ((if is_waiting r.task.wait_reason
              then err assertion
              else ends_wait (record r { task = in_state idle r.task }) w)
            ≡ ok (r', a))
          × (r'.task.wait_state ≡ idle)
          × IsConsistent outside r'.task
    ended awake =
        let (r', a, k, state, awake', no_retry) =
          ends_wait-Ends (record r { task = in_state idle r.task }) w awake
            (QueueStays-RetryEnds (record r { task = in_state idle r.task }) w stays) in
        (r', a, rw awake k, state, IsConsistent-of outside r'.task idle state (awake', no_retry))

    by_state :
        (s : WaitState)
        → r.task.wait_state ≡ s
        → Fits inside s (is_waiting r.task.wait_reason) (retries r.task.chain_state)
        → (r' : Receiving) × (a : Action) × (exit_start_in s r result w ≡ ok (r', a))
          × (r'.task.wait_state ≡ idle)
          × IsConsistent outside r'.task
    by_state idle e f = (r, goes_on, refl, e, IsConsistent-of outside r.task idle e f)
    by_state entered_ppoll e (waits, no_retry) =
        let (t', k, awake, state, chain) =
          stops_waiting-ok r.task.wait_reason (in_state idle r.task) waits in
        (
          record r { task = t' },
          poll_result result,
          rw k refl,
          state,
          IsConsistent-of outside t' idle state (awake, rw chain no_retry),
        )
    by_state signaled_ppoll e awake = ended awake
    by_state entered_getpid e (awake, no_retry) = ended awake
    by_state restarted_into_ppoll e f = absurd f
    by_state restarted_into_ppoll_canceled e f = absurd f
