-- ===== src/Ipc/Waiting/Wake.antt =====
-- Wake-ups: sysvipc_wake_tracee of extension/sysvipc/sysvipc.c and the calls of sysvipc_msg.c and
-- sysvipc_sem.c that use it.
use vm_forge.Prelude.{
  ℕ, ◌≡◌, refl, Bool, true, false, ◌&&◌, ◌||◌, List, [], ◌∷◌, ◌==◌, arith, Bool-cases, inl, inr,
  set,
}
use vm_forge.Prelude.Errors.{Result, ok, err, Errno, eagain, eidrm, einval, ◌>>=◌}
use vm_forge.Prelude.Bytes.{Bytes}
use vm_forge.Prelude.Int.{ℤ}
use vm_forge.Ipc.Object.{lookup_object}
use vm_forge.Ipc.Task.{
  Task, WaitReason, WaitState, ChainState, idle, restarted_into_ppoll_canceled,
  restarted_into_ppoll, entered_ppoll, signaled_ppoll, entered_getpid, not_waiting, wait_queue_recv,
  wait_semop, wait_shmat_helper_busy, is_waiting, msgrcv_retry, waits_on, waits_recv, wake_tracee,
  wake_all, woken_state,
}
use vm_forge.Ipc.Queue.{
  Item, MsgQueue, queue_common, QueueState, Stats, with_item, msg_match, read_item, wake_receiver,
  msgsnd, msgsnd_at,
}
use vm_forge.Ipc.Queue.Receive.{retries}
use vm_forge.Ipc.Queue.Control.{removed_queue, msgctl, msgctl_at}
use vm_forge.Ipc.Waiting.Consistent.{Phase, outside, inside, Fits, IsConsistent}

-- Every tracee is in a state that it may have.
abbrev pub AllConsistent : List Task → Type 0
AllConsistent [] = Unit
AllConsistent (t ∷ ts) = ((p : Phase) × IsConsistent p t) × AllConsistent ts

-- A tracee that waits is woken with no failed assertion, and is in a state of its phase; a retry may
-- be pending then.
pub wake_tracee-ok :
    (t : Task) (p : Phase) (status : Result ℕ) (chain : ChainState)
    → IsConsistent p t
    → is_waiting t.wait_reason ≡ true
    → (t' : Task) × (wake_tracee (record t { chain_state = chain }) status ≡ ok t')
      × IsConsistent p t'
unfolding wake_tracee
wake_tracee-ok t p status chain fits waits = rw waits (by_state p t.wait_state fits)
  where
    woken : WaitState → Task
    woken s = record t {
      chain_state = chain;
      wait_reason = not_waiting;
      status_after_wait = status;
      wait_state = s;
    }

    by_state :
        (p : Phase) (s : WaitState)
        → Fits p s (is_waiting t.wait_reason) (retries t.chain_state)
        → (t' : Task) × ((woken_state s >>= λ state. ok (woken state)) ≡ ok t') × IsConsistent p t'
    by_state outside idle (awake, _) = absurd (cc)
    by_state outside restarted_into_ppoll f = (woken restarted_into_ppoll_canceled, refl, refl)
    by_state outside restarted_into_ppoll_canceled awake = absurd (cc)
    by_state outside entered_ppoll f = absurd f
    by_state outside signaled_ppoll f = absurd f
    by_state outside entered_getpid f = absurd f
    by_state inside idle (awake, _) = absurd (cc)
    by_state inside restarted_into_ppoll f = absurd f
    by_state inside restarted_into_ppoll_canceled f = absurd f
    by_state inside entered_ppoll f = (woken signaled_ppoll, refl, refl)
    by_state inside signaled_ppoll awake = absurd (cc)
    by_state inside entered_getpid (awake, _) = absurd (cc)

-- The answer to whether a tracee waits on an object implies that it waits.
waits_on-is_waiting :
    (reason : WaitReason → Bool) (namespace index : ℕ) (t : Task)
    → reason not_waiting ≡ false
    → waits_on reason namespace index t ≡ true
    → is_waiting t.wait_reason ≡ true
waits_on-is_waiting reason namespace index t none_waits on = by_reason t.wait_reason (ground arith)
  where
    by_reason : (w : WaitReason) → reason w ≡ true → is_waiting w ≡ true
    by_reason not_waiting h = absurd (cc)
    by_reason wait_queue_recv h = refl
    by_reason wait_semop h = refl
    by_reason wait_shmat_helper_busy h = refl

wake_receiver-ok :
    (namespace index : ℕ) (x : Item) (ts : List Task)
    → AllConsistent ts
    → (ts' : List Task) × (wake_receiver namespace index x ts ≡ ok ts') × AllConsistent ts'
unfolding wake_receiver
wake_receiver-ok namespace index x [] all = ([], refl, tt)
wake_receiver-ok namespace index x (t ∷ ts) ((p, fits), all) =
    let passes = msg_match x.mtype t.msgrcv_msgtyp t.msgrcv_msgflg in
    elim (Bool-cases (waits_on waits_recv namespace index t && passes)) [
      | inl on ↦
          let waits = waits_on-is_waiting waits_recv namespace index t refl (ground arith) in
          let (t', e, fits') = wake_tracee-ok t p (err eagain) msgrcv_retry fits waits in
          (t' ∷ ts, rw (on, e) refl, ((p, fits'), all))
      | inr off ↦
          let (ts', e, all') = wake_receiver-ok namespace index x ts all in
          (t ∷ ts', rw (off, e) refl, ((p, fits), all'))
    ]

wake_all-ok :
    (reason : WaitReason → Bool) (namespace index : ℕ) (e : Errno) (ts : List Task)
    → reason not_waiting ≡ false
    → AllConsistent ts
    → (ts' : List Task) × (wake_all reason namespace index e ts ≡ ok ts') × AllConsistent ts'
unfolding wake_all
wake_all-ok reason namespace index e [] none_waits all = ([], refl, tt)
wake_all-ok reason namespace index e (t ∷ ts) none_waits ((p, fits), all) =
    let (ts', rest, all') = wake_all-ok reason namespace index e ts none_waits all in
    elim (Bool-cases (waits_on reason namespace index t)) [
      | inl on ↦
          let waits = waits_on-is_waiting reason namespace index t none_waits on in
          let (t', k, fits') = wake_tracee-ok t p (err e) t.chain_state fits waits in
          (t' ∷ ts', rw (on, k, rest) refl, ((p, fits'), all'))
      | inr off ↦ (t ∷ ts', rw (off, rest) refl, ((p, fits), all'))
    ]

-- While every tracee is in a state that it may have, msgsnd(2) comes to an end with no failed
-- assertion, whatever it is given, and every tracee is again in such a state.
pub msgsnd-AllConsistent :
    (st : QueueState) (pid namespace id msgsz : ℕ) (read_type : Result ℤ)
    (read_text : ℕ → Result Bytes) (time : ℕ)
    → AllConsistent st.tasks
    → (st' : QueueState) × (r : Result ℕ) × (msgsnd st pid namespace id msgsz read_type read_text
          time
        ≡ ok (st', r))
      × AllConsistent st'.tasks
unfolding msgsnd msgsnd_at
msgsnd-AllConsistent st pid namespace id msgsz read_type read_text time all =
    by_lookup (lookup_object queue_common st.queues id)
  where
    at_item :
        (index : ℕ) (q : MsgQueue) (x : Result Item)
        → (st' : QueueState) × (r : Result ℕ) × (msgsnd_at st pid namespace index q x time
            ≡ ok (st', r))
          × AllConsistent st'.tasks
    at_item index q (err e) = (st, err e, refl, all)
    at_item index q (ok x) =
        let (tasks, e, all') = wake_receiver-ok namespace index x st.tasks all in
        (
          record { tasks = tasks; queues = set st.queues index (with_item q x pid time) },
          ok 0,
          rw e refl,
          all',
        )

    by_lookup :
        (found : Result (ℕ × MsgQueue))
        → (st' : QueueState) × (r : Result ℕ) × ((elim found
              as (λ _. Result (QueueState × Result ℕ)) [
                | err e ↦ ok (st, err e)
                | ok (index, q) ↦
                    msgsnd_at st pid namespace index q (read_item msgsz read_type read_text) time
              ])
            ≡ ok (st', r))
          × AllConsistent st'.tasks
    by_lookup (err e) = (st, err e, refl, all)
    by_lookup (ok (index, q)) = at_item index q (read_item msgsz read_type read_text)

-- So does msgctl(2), with the removal of a queue on which tracees wait.
pub msgctl-AllConsistent :
    (st : QueueState) (namespace id cmd : ℕ) (write : Stats → Result (Unit {0}))
    → AllConsistent st.tasks
    → (st' : QueueState) × (r : Result ℕ) × (msgctl st namespace id cmd write ≡ ok (st', r))
      × AllConsistent st'.tasks
unfolding msgctl msgctl_at
msgctl-AllConsistent st namespace id cmd write all =
    by_lookup (lookup_object queue_common st.queues id)
  where
    at_write :
        (d : Result (Unit {0}))
        → (st' : QueueState) × (r : Result ℕ) × ((elim d as (λ _. Result (QueueState × Result ℕ)) [
          | err e ↦ ok (st, err e)
          | ok _ ↦ ok (st, ok 0)
        ])
            ≡ ok (st', r))
          × AllConsistent st'.tasks
    at_write (err e) = (st, err e, refl, all)
    at_write (ok _) = (st, ok 0, refl, all)

    at_queue :
        (index : ℕ) (q : MsgQueue)
        → (st' : QueueState) × (r : Result ℕ) × (msgctl_at st namespace index q cmd write
            ≡ ok (st', r))
          × AllConsistent st'.tasks
    at_queue index q = elim (Bool-cases (cmd == 0 || cmd == 256)) [
      | inl rmid ↦
          let (tasks, e, all') = wake_all-ok waits_recv namespace index eidrm st.tasks refl all in
          (
            record { tasks = tasks; queues = set st.queues index (removed_queue q) },
            ok 0,
            rw (rmid, e) refl,
            all',
          )
      | inr other ↦ elim (Bool-cases (cmd == 2 || cmd == 258)) [
        | inl stat ↦ rw (other, stat) (at_write (write q.stats))
        | inr unknown ↦ (st, err einval, rw (other, unknown) refl, all)
      ]
    ]

    by_lookup :
        (found : Result (ℕ × MsgQueue))
        → (st' : QueueState) × (r : Result ℕ) × ((elim found
              as (λ _. Result (QueueState × Result ℕ)) [
                | err e ↦ ok (st, err e)
                | ok (index, q) ↦ msgctl_at st namespace index q cmd write
              ])
            ≡ ok (st', r))
          × AllConsistent st'.tasks
    by_lookup (err e) = (st, err e, refl, all)
    by_lookup (ok (index, q)) = at_queue index q
