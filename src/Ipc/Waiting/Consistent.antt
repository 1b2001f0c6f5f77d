-- ===== src/Ipc/Waiting/Consistent.antt =====
-- The waiting mechanism of extension/sysvipc/sysvipc.c: which states a tracee has between its stops.
use vm_forge.Prelude.{
  ℕ, ◌≡◌, ◌⊎◌, refl, Bool, true, false, not, Bool-cases, inl, inr, Option, some, none, get_elem?,
}
use vm_forge.Prelude.Errors.{Result, ok, err, assertion, eagain, Ensures, Ensures-if, Ensures-elim}
use vm_forge.Ipc.Task.{
  Task, WaitState, ChainState, idle, restarted_into_ppoll_canceled, restarted_into_ppoll,
  entered_ppoll, signaled_ppoll, entered_getpid, not_chained, single, shmat_socket, shmat_connect,
  shmat_recvmsg, shmat_mmap, msgrcv_retry, is_waiting,
}
use vm_forge.Ipc.Queue.{MsgQueue}
use vm_forge.Ipc.Queue.Receive.{
  Receiving, Receipt, Received, retries, retry_msgrcv, retry_status, retry_at, unchained, not_again,
  do_msgrcv,
}
use vm_forge.Ipc.Waiting.{
  Action, goes_on, chains, polls, gets_pid, results, Handled, starts_chain, is_chained,
  after_handler, syscall_common, wait_status, ends_wait, enter_start, enter_start_in,
  received_status, with_task, in_state,
}

-- Whether the next stop of the tracee is the entry of a call or the exit of one.
pub data Phase : Type 0 where
  outside inside : Phase

-- The states of a phase, by whether the tracee waits and whether a retry is pending.
abbrev pub Fits : Phase → WaitState → Bool → Bool → Type 0
Fits outside idle waiting retry = (waiting ≡ false) × (retry ≡ false)
Fits outside restarted_into_ppoll waiting retry = (waiting ≡ true) × (retry ≡ false)
Fits outside restarted_into_ppoll_canceled waiting retry = waiting ≡ false
Fits inside idle waiting retry = (waiting ≡ false) × (retry ≡ false)
Fits inside entered_ppoll waiting retry = (waiting ≡ true) × (retry ≡ false)
Fits inside signaled_ppoll waiting retry = waiting ≡ false
Fits inside entered_getpid waiting retry = (waiting ≡ false) × (retry ≡ false)
Fits _ _ waiting retry = ⊥

abbrev pub IsConsistent : Phase → Task → Type 0
IsConsistent p t = Fits p t.wait_state (is_waiting t.wait_reason) (retries t.chain_state)

-- What a handler may leave: it starts a wait or a chain of calls, not both.
abbrev pub Leaves : Task → Task → Type 0
Leaves t t' =
    (t'.wait_state ≡ t.wait_state)
    × ((t'.chain_state ≡ not_chained)
        ⊎ ((starts_chain t'.chain_state ≡ true) × (is_waiting t'.wait_reason ≡ false)))

abbrev pub MayLeave : Task → Option Handled → Type 0
MayLeave t none = Unit
MayLeave t (some h) = Leaves t h.task

-- A retry that is pending ends with no failed assertion.
abbrev pub RetryEnds : Receiving → Receipt → Type 0
RetryEnds r w =
    (retries r.task.chain_state ≡ false)
    ⊎ ((r' : Receiving) × (reply : Result Received) × (retry_msgrcv r w ≡ ok (r', reply)))

abbrev Ended : Receiving × Result Received → Type 0
Ended p = (is_waiting p.0.task.wait_reason ≡ false) × (retries p.0.task.chain_state ≡ false)

unchained-Ended :
    (d : Receiving × Result Received)
    → is_waiting d.0.task.wait_reason ≡ false
    → Ended (unchained d)
unchained-Ended (r, reply) h = (h, refl)

not_again_awake :
    (d : Receiving × Result Received) → is_waiting (not_again d).0.task.wait_reason ≡ false
not_again_awake (r, reply) = elim (Bool-cases (is_waiting r.task.wait_reason)) [
  | inl e ↦ rw e refl
  | inr e ↦ rw e e
]

retry_at-Ended :
    (r : Receiving) (w : Receipt) (o : Option MsgQueue) → Ensures Ended (retry_at r w o)
retry_at-Ended r w none = tt
retry_at-Ended r w (some q) =
    Ensures-if Ended (not q.common.valid) (err assertion) _ (λ _. tt)
      λ _.
        let d = do_msgrcv r r.task.waiting_object_index q w in
        unchained-Ended (not_again d) (not_again_awake d)

retry_status-Ended :
    (r : Receiving) (w : Receipt) (s : Result ℕ)
    → is_waiting r.task.wait_reason ≡ false
    → Ensures Ended (retry_status r w s)
unfolding retry_status
retry_status-Ended r w (err eagain) h = retry_at-Ended r w _
retry_status-Ended r w (err _) h = (h, refl)
retry_status-Ended r w (ok n) h = (h, refl)

retry_msgrcv-Ended :
    (r : Receiving) (w : Receipt)
    → is_waiting r.task.wait_reason ≡ false
    → Ensures Ended (retry_msgrcv r w)
unfolding retry_msgrcv
retry_msgrcv-Ended r w h =
    Ensures-if Ended (retries r.task.chain_state) _ (err assertion)
      (λ _. retry_status-Ended r w r.task.status_after_wait h) (λ _. tt)

-- The queue that a woken receiver waited for is still in use where it is to look for a message again.
abbrev pub QueueStays : Receiving → Type 0
QueueStays r =
    (retries r.task.chain_state ≡ true)
    → (r.task.status_after_wait ≡ err eagain)
    → (q : MsgQueue) × (get_elem? r.queues r.task.waiting_object_index ≡ some q)
      × (q.common.valid ≡ true)

abbrev Replies : Result (Receiving × Result Received) → Type 0
Replies m = (r' : Receiving) × (reply : Result Received) × (m ≡ ok (r', reply))

retry_status-Replies :
    (r : Receiving) (w : Receipt) (s : Result ℕ)
    → ((s ≡ err eagain)
        → (q : MsgQueue) × (get_elem? r.queues r.task.waiting_object_index ≡ some q)
          × (q.common.valid ≡ true))
    → Replies (retry_status r w s)
unfolding retry_status
retry_status-Replies r w (err eagain) stays =
    let (q, there, valid) = stays refl in
    let d = unchained (not_again (do_msgrcv r r.task.waiting_object_index q w)) in
    (d.0, d.1, rw (there, valid) refl)
retry_status-Replies r w (err e) stays = (_, _, refl)
retry_status-Replies r w (ok n) stays = (_, _, refl)

pub QueueStays-RetryEnds : (r : Receiving) (w : Receipt) → QueueStays r → RetryEnds r w
unfolding retry_msgrcv
QueueStays-RetryEnds r w stays = elim (Bool-cases (retries r.task.chain_state)) [
  | inl on ↦
      let (r', reply, e) = retry_status-Replies r w r.task.status_after_wait (stays on) in
      inr (r', reply, rw on e)
  | inr off ↦ inl off
]

-- A wait that ended.
pub ends_wait-Ends :
    (r : Receiving) (w : Receipt)
    → is_waiting r.task.wait_reason ≡ false
    → RetryEnds r w
    → (r' : Receiving) × (a : Action) × (ends_wait r w ≡ ok (r', a))
      × (r'.task.wait_state ≡ idle)
      × (is_waiting r'.task.wait_reason ≡ false)
      × (retries r'.task.chain_state ≡ false)
unfolding wait_status
ends_wait-Ends r w awake (inl no_retry) = (
  record r { task = in_state idle r.task },
  results r.task.status_after_wait,
  rw no_retry refl,
  refl,
  awake,
  no_retry,
)
ends_wait-Ends r w awake (inr (r', reply, e)) =
    let (awake', unchained') =
      Ensures-elim Ended (retry_msgrcv r w) (retry_msgrcv-Ended r w awake) e in
    elim (Bool-cases (retries r.task.chain_state)) [
      | inl on ↦ (
        record r' { task = in_state idle r'.task },
        results (received_status reply),
        rw (on, e) refl,
        refl,
        awake',
        unchained',
      )
      | inr off ↦ (
        record r { task = in_state idle r.task },
        results r.task.status_after_wait,
        rw off refl,
        refl,
        awake,
        off,
      )
    ]

-- A ppoll(2) that was restarted is what is entered.
abbrev pub EntersPpoll : WaitState → Bool → Type 0
EntersPpoll restarted_into_ppoll is_ppoll = is_ppoll ≡ true
EntersPpoll _ is_ppoll = Unit

after_handler-Fits :
    (t : Task) (h : Handled)
    → t.wait_state ≡ idle
    → Leaves t h.task
    → (t' : Task) × (a : Action) × (after_handler h false ≡ ok (t', a)) × IsConsistent inside t'
after_handler-Fits t h state (same, inl plain) =
    let off : is_chained h.task.chain_state ≡ false = rw plain refl in
    let no_retry : retries h.task.chain_state ≡ false = rw plain refl in
    elim (Bool-cases (is_waiting h.task.wait_reason)) [
      | inl waits ↦
          (in_state entered_ppoll h.task, polls h.timeout, rw (off, waits) refl, (waits, no_retry))
      | inr awake ↦ (
        in_state entered_getpid (record h.task { status_after_wait = h.status }),
        gets_pid,
        rw (off, awake) refl,
        (awake, no_retry),
      )
    ]
after_handler-Fits t h state (same, inr (starts, awake)) = by_chain h.task.chain_state refl starts
  where
    idle_inside :
        (c : ChainState)
        → retries c ≡ false
        → IsConsistent inside (record h.task { chain_state = c })
    idle_inside c no_retry = rw (same, state) (awake, no_retry)

    by_chain :
        (c : ChainState)
        → h.task.chain_state ≡ c
        → starts_chain c ≡ true
        → (t' : Task) × (a : Action) × (after_handler h false ≡ ok (t', a)) × IsConsistent inside t'
    by_chain single e s = (
      record h.task { chain_state = not_chained },
      chains,
      rw e refl,
      idle_inside not_chained refl,
    )
    by_chain shmat_socket e s = (
      record h.task { chain_state = shmat_socket },
      chains,
      rw e refl,
      idle_inside shmat_socket refl,
    )
    by_chain not_chained e s = absurd (cc)
    by_chain shmat_connect e s = absurd (cc)
    by_chain shmat_recvmsg e s = absurd (cc)
    by_chain shmat_mmap e s = absurd (cc)
    by_chain msgrcv_retry e s = absurd (cc)

pub IsConsistent-of :
    (p : Phase) (t : Task) (s : WaitState)
    → t.wait_state ≡ s
    → Fits p s (is_waiting t.wait_reason) (retries t.chain_state)
    → IsConsistent p t
IsConsistent-of p t s e f = rw e f

with_task_ok :
    (r : Receiving) (m : Result (Task × Action)) (t : Task) (a : Action)
    → m ≡ ok (t, a)
    → with_task r m ≡ ok (record r { task = t }, a)
with_task_ok r m t a e = rw e refl

syscall_common-Fits :
    (t : Task) (handled : Option Handled)
    → t.wait_state ≡ idle
    → IsConsistent outside t
    → MayLeave t handled
    → (t' : Task) × (a : Action) × (syscall_common t handled false ≡ ok (t', a))
      × IsConsistent inside t'
unfolding syscall_common
syscall_common-Fits t none state fits leaves =
    (t, goes_on, rw state refl, IsConsistent-of inside t idle state (rw state at fits))
syscall_common-Fits t (some h) state fits leaves =
    let (t', a, e, f) = after_handler-Fits t h state leaves in (t', a, rw state e, f)

-- At the entry of a call, in a state that a tracee may then have, no assertion of the extension fails,
-- and the tracee is left in a state that it may have at the call's exit: it waits exactly in ppoll(2),
-- with no retry pending. A handler leaves the state as it was and starts a wait or a chain but not both, a
-- call that was restarted is ppoll(2), and where a woken receiver is to look for a message again its queue
-- is still in use (where it was removed, the retry's assertion fails).
pub enter_start-IsConsistent :
    (r : Receiving) (handled : Option Handled) (is_ppoll : Bool) (w : Receipt)
    → IsConsistent outside r.task
    → MayLeave r.task handled
    → EntersPpoll r.task.wait_state is_ppoll
    → QueueStays r
    → (r' : Receiving) × (a : Action) × (enter_start r handled is_ppoll w ≡ ok (r', a))
      × IsConsistent inside r'.task
unfolding enter_start
enter_start-IsConsistent r handled is_ppoll w fits leaves ppoll stays =
    by_state r.task.wait_state refl fits ppoll
  where
    by_state :
        (s : WaitState)
        → r.task.wait_state ≡ s
        → Fits outside s (is_waiting r.task.wait_reason) (retries r.task.chain_state)
        → EntersPpoll s is_ppoll
        → (r' : Receiving) × (a : Action) × (enter_start_in s r handled is_ppoll w ≡ ok (r', a))
          × IsConsistent inside r'.task
    by_state idle e f p =
        let (t', a, k, g) = syscall_common-Fits r.task handled e fits leaves in
        (record r { task = t' }, a, with_task_ok r _ t' a k, g)
    by_state restarted_into_ppoll e (waits, no_retry) p =
        (record r { task = in_state entered_ppoll r.task }, chains, rw p refl, (waits, no_retry))
    by_state restarted_into_ppoll_canceled e f p =
        let (r', a, k, state, awake, no_retry) =
          ends_wait-Ends r w f (QueueStays-RetryEnds r w stays) in
        (r', a, k, IsConsistent-of inside r'.task idle state (awake, no_retry))
    by_state entered_ppoll e f p = absurd f
    by_state signaled_ppoll e f p = absurd f
    by_state entered_getpid e f p = absurd f
