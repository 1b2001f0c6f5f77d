-- ===== src/Tests/Queues.antt =====
-- Message queues: a tracee that sends, and one that waits in msgrcv(2).
use vm_forge.Prelude.{ℕ, ◌≡◌, refl, true, false, List, [], ◌∷◌, none, set}
use vm_forge.Prelude.Bytes.{Bytes}
use vm_forge.Prelude.Int.{pos}
use vm_forge.Prelude.Errors.{Result, ok, err, eagain, eintr, assertion}
use vm_forge.Ipc.Object.{object_id, lookup_object, search_key}
use vm_forge.Ipc.Task.{
  Task, RecvFlags, WaitState, restarted_into_ppoll_canceled, not_waiting, wait_queue_recv, idle,
  entered_ppoll, signaled_ppoll, not_chained, msgrcv_retry, wake_all,
}
use vm_forge.Ipc.Queue.{Item, MsgQueue, QueueState, queue_common, msgsnd}
use vm_forge.Ipc.Queue.Receive.{Receiving, Receipt, blocked, message, msgrcv, retry_msgrcv, asking}
use vm_forge.Ipc.Queue.Control.{fresh_stats, fresh_queue, msgget, msgctl, removed_queue}
use vm_forge.Ipc.Queue.Order.{Takes, msgrcv-Takes}
use vm_forge.Ipc.Queue.Counts.{AllCounted}
use vm_forge.Ipc.Queue.Reach.{start, step, gets, sends, Reachable-AllCounted}
use vm_forge.Ipc.Queue.Removal.{msgctl-retry_msgrcv}
use vm_forge.Ipc.Waiting.{Action, enter_start, exit_start}
use vm_forge.Ipc.Waiting.Consistent.{outside, inside, IsConsistent, enter_start-IsConsistent}
use vm_forge.Ipc.Waiting.Exit.{exit_start-IsConsistent}
use vm_forge.Ipc.Waiting.Wake.{AllConsistent, msgsnd-AllConsistent}

abbrev no_flags : RecvFlags
no_flags = record { nowait = false; noerror = false; copy = false; except = false; unknown = false }

abbrev sender : Task
sender = record {
  tid = 1;
  ipc_namespace = 0;
  wait_reason = not_waiting;
  wait_state = idle;
  chain_state = not_chained;
  status_after_wait = ok 0;
  waiting_object_index = 0;
  semop_sops = [];
  msgrcv_msgsz = 0;
  msgrcv_msgtyp = pos 0;
  msgrcv_msgflg = no_flags;
}

-- It waits for a message of type 2, of at most 10 bytes.
abbrev receiver : Task
receiver = record sender {
  tid = 2;
  wait_reason = wait_queue_recv;
  wait_state = entered_ppoll;
  msgrcv_msgsz = 10;
  msgrcv_msgtyp = pos 2;
}

abbrev woken : Task
woken = record receiver {
  wait_reason = not_waiting;
  wait_state = signaled_ppoll;
  chain_state = msgrcv_retry;
  status_after_wait = err eagain;
}

abbrev three : Item
three = record { mtype = 3; mtext = 1 ∷ []; mtext_length = 1 }

abbrev two : Item
two = record { mtype = 2; mtext = 7 ∷ 8 ∷ []; mtext_length = 2 }

abbrev holding : List Item → ℕ → ℕ → ℕ → MsgQueue
holding items qnum cbytes pid = record {
  common = record { key = 9; generation = 5; valid = true };
  items = items;
  stats = record fresh_stats {
    msg_qnum = qnum;
    msg_cbytes = cbytes;
    msg_lspid = pid;
    msg_stime = pid;
  };
}

abbrev receipt : Receipt
receipt = record { write_type = ok tt; write_text = ok tt; time = 4 }

abbrev waiting_state : QueueState
waiting_state = record { tasks = sender ∷ receiver ∷ []; queues = holding (three ∷ []) 1 1 0 ∷ [] }

abbrev sent_state : QueueState
sent_state = record { tasks = sender ∷ woken ∷ []; queues = holding (three ∷ two ∷ []) 2 3 1 ∷ [] }

abbrev text : ℕ → Result Bytes
text n = ok (7 ∷ 8 ∷ [])

found_queue :
    lookup_object queue_common sent_state.queues (object_id 0 5)
    ≡ ok (0, holding (three ∷ two ∷ []) 2 3 1)
unfolding lookup_object object_id
found_queue = refl

abbrev after_receipt : MsgQueue
after_receipt = record (holding (three ∷ []) 1 1 1) {
  stats = record (holding (three ∷ []) 1 1 1).stats { msg_lrpid = 1; msg_rtime = 4 };
}

receives_two :
    msgrcv
      (record { task = sender; queues = sent_state.queues })
      (object_id 0 5)
      10
      (pos 2)
      no_flags
      receipt
    ≡ (
      record { task = asking sender 10 (pos 2) no_flags; queues = after_receipt ∷ [] },
      ok (message 2 (7 ∷ 8 ∷ [])),
    )
unfolding msgrcv lookup_object object_id
receives_two = refl

msgrcv-Takes_example :
    (q' : MsgQueue) × (◌≡◌ {A = List MsgQueue} (after_receipt ∷ []) (set sent_state.queues 0 q'))
    × Takes (asking sender 10 (pos 2) no_flags) (holding (three ∷ two ∷ []) 2 3 1) q' 2 (7 ∷ 8 ∷ [])
msgrcv-Takes_example =
    msgrcv-Takes (record { task = sender; queues = sent_state.queues })
      (record { task = asking sender 10 (pos 2) no_flags; queues = after_receipt ∷ [] })
      (object_id 0 5) 0 10 (holding (three ∷ two ∷ []) 2 3 1) (pos 2) no_flags receipt 2
      (7 ∷ 8 ∷ []) found_queue refl receives_two

abbrev waits_now : Receiving
waits_now = record {
  task = record (asking sender 10 (pos 2) no_flags) { wait_reason = wait_queue_recv };
  queues = waiting_state.queues;
}

waits_for_two :
    msgrcv
      (record { task = sender; queues = waiting_state.queues })
      (object_id 0 5)
      10
      (pos 2)
      no_flags
      receipt
    ≡ (waits_now, ok blocked)
unfolding msgrcv lookup_object object_id
waits_for_two = refl

found_first :
    lookup_object queue_common waiting_state.queues (object_id 0 5)
    ≡ ok (0, holding (three ∷ []) 1 1 0)
unfolding lookup_object object_id
found_first = refl

abbrev removed_state : QueueState
removed_state = record {
  tasks = sender ∷ woken ∷ [];
  queues = removed_queue (holding (three ∷ two ∷ []) 2 3 1) ∷ [];
}

removal : msgctl sent_state 0 (object_id 0 5) 0 (λ s. ok tt) ≡ ok (removed_state, ok 0)
unfolding msgctl lookup_object object_id wake_all
removal = refl

msgctl-retry_msgrcv_example :
    retry_msgrcv (record { task = woken; queues = removed_state.queues }) receipt ≡ err assertion
msgctl-retry_msgrcv_example =
    msgctl-retry_msgrcv sent_state removed_state 0 (object_id 0 5) 0
      (holding (three ∷ two ∷ []) 2 3 1) (λ s. ok tt) woken receipt found_queue removal refl refl
      refl

abbrev nothing_yet : QueueState
nothing_yet = record { tasks = sender ∷ []; queues = [] }

abbrev one_queue : QueueState
one_queue = record { tasks = sender ∷ []; queues = fresh_queue 9 0 ∷ [] }

abbrev one_message : QueueState
one_message = record one_queue {
  queues =
      record (fresh_queue 9 0) {
        items = two ∷ [];
        stats = record fresh_stats { msg_qnum = 1; msg_cbytes = 2; msg_lspid = 1; msg_stime = 1 };
      }
      ∷ [];
}

got_queue : one_queue ≡ record nothing_yet { queues = (msgget [] 9 true false).0 }
unfolding msgget search_key
got_queue = refl

sent_message : msgsnd one_queue 1 0 (object_id 0 0) 2 (ok (pos 2)) text 1 ≡ ok (one_message, ok 0)
unfolding msgsnd lookup_object object_id
sent_message = refl

Reachable-AllCounted_example : AllCounted one_message.queues
Reachable-AllCounted_example = Reachable-AllCounted one_message (
    step {st = one_queue} (step {st = nothing_yet} (start refl) (gets 9 true false got_queue))
      (sends 1 0 (object_id 0 0) 2 (ok (pos 2)) text 1 (ok 0) sent_message))

-- The receiver when a msgsnd() has woken it and it is to look for its message again.
abbrev looks_again : WaitState → Receiving
looks_again state = record {
  task = record receiver {
    wait_reason = not_waiting;
    wait_state = state;
    chain_state = msgrcv_retry;
    status_after_wait = err eagain;
  };
  queues = waiting_state.queues;
}

enter_start-IsConsistent_example :
    (r' : Receiving) × (a : Action) × (enter_start
        (looks_again restarted_into_ppoll_canceled)
        none
        true
        receipt
      ≡ ok (r', a))
    × IsConsistent inside r'.task
enter_start-IsConsistent_example =
    enter_start-IsConsistent (looks_again restarted_into_ppoll_canceled) none true receipt refl tt
      tt (λ retry status. (_, refl, refl))

exit_start-IsConsistent_example :
    (r' : Receiving) × (a : Action) × (exit_start (looks_again signaled_ppoll) (err eintr) receipt
      ≡ ok (r', a))
    × (r'.task.wait_state ≡ idle)
    × IsConsistent outside r'.task
exit_start-IsConsistent_example =
    exit_start-IsConsistent (looks_again signaled_ppoll) (err eintr) receipt refl refl
      (λ retry status. (_, refl, refl))

msgsnd-AllConsistent_example :
    (st' : QueueState) × (r : Result ℕ) × (msgsnd waiting_state 1 0
        (object_id 0 5)
        2
        (ok (pos 2))
        text
        1
      ≡ ok (st', r))
    × AllConsistent st'.tasks
msgsnd-AllConsistent_example =
    msgsnd-AllConsistent waiting_state 1 0 (object_id 0 5) 2 (ok (pos 2)) text 1
      ((outside, (refl, refl)), ((inside, (refl, refl)), tt))
