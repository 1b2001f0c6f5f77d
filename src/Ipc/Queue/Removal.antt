-- ===== src/Ipc/Queue/Removal.antt =====
-- The removal of a queue of extension/sysvipc/sysvipc_msg.c while a retry is pending.
use vm_forge.Prelude.{ℕ, ◌≡◌, refl, set, get_elem?-set_self, length-get_elem?, arith}
use vm_forge.Prelude.Errors.{Result, ok, err, assertion, eagain, eidrm, >>=-eq-ok}
use vm_forge.Ipc.Object.{lookup_object, lookup_inv}
use vm_forge.Ipc.Task.{Task, msgrcv_retry, waits_recv, wake_all}
use vm_forge.Ipc.Queue.{MsgQueue, QueueState, Stats, queue_common}
use vm_forge.Ipc.Queue.Receive.{Receipt, retry_msgrcv, retry_status}
use vm_forge.Ipc.Queue.Control.{msgctl, msgctl_at, removed_queue}

-- A tracee that a msgsnd(2) woke and that has not yet tried again when its queue is removed stops the
-- process: its retry fails the assertion that the queue is valid.
pub msgctl-retry_msgrcv :
    (st st' : QueueState) (namespace id index : ℕ) (q : MsgQueue)
    (write : Stats → Result (Unit {0})) (t : Task) (w : Receipt)
    → lookup_object queue_common st.queues id ≡ ok (index, q)
    → msgctl st namespace id 0 write ≡ ok (st', ok 0)
    → t.chain_state ≡ msgrcv_retry
    → t.status_after_wait ≡ err eagain
    → t.waiting_object_index ≡ index
    → retry_msgrcv (record { task = t; queues = st'.queues }) w ≡ err assertion
unfolding msgctl msgctl_at retry_msgrcv retry_status
msgctl-retry_msgrcv st st' namespace id index q write t w found removes chain status object =
    let (at_i, valid) = lookup_inv queue_common st.queues id index q found in
    let at_queue : msgctl_at st namespace index q 0 write ≡ ok (st', ok 0) =
      ground (arith, found, removes) in
    let (tasks, e, done) =
      >>=-eq-ok (wake_all waits_recv namespace index eidrm st.tasks) _ at_queue in
    let gone : st'.queues ≡ set st.queues index (removed_queue q) = ground arith in
    let put =
      get_elem?-set_self st.queues index (removed_queue q)
        (length-get_elem? st.queues index at_i) in
    rw (chain, status, gone, object, put) refl
