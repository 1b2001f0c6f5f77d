-- ===== src/Ipc/Queue/Retry.antt =====
-- The wait of msgrcv(2) and its end by a msgsnd(2), in extension/sysvipc/sysvipc_msg.c.
use vm_forge.Prelude.{ℕ, ◌%◌, ◌≡◌, refl, false, arith, leb, Option, some, none}
use vm_forge.Prelude.Bytes.{Bytes}
use vm_forge.Prelude.Errors.{Result, ok, err}
use vm_forge.Prelude.Int.{ℤ}
use vm_forge.Ipc.Object.{lookup_object}
use vm_forge.Ipc.Task.{Task, RecvFlags, wait_queue_recv}
use vm_forge.Ipc.Queue.{Item, MsgQueue, queue_common}
use vm_forge.Ipc.Queue.Receive.{
  Received, blocked, Receipt, Receiving, asking, find_item, deliver, do_msgrcv, chosen_item,
  by_item, taken, msgrcv, refused_flags,
}
use vm_forge.Ipc.Queue.Order.{NonePasses, deliver_inv}
use vm_forge.Ipc.Queue.Served.{MayWait, find_item-NonePasses}

by_item_blocked :
    (r r' : Receiving) (index : ℕ) (q : MsgQueue) (w : Receipt) (choice : Option (ℕ × Item))
    → by_item r index q w choice ≡ (r', ok blocked)
    → (choice ≡ none)
      × (r.task.msgrcv_msgflg.nowait ≡ false)
      × (r'.queues ≡ r.queues)
      × (r'.task.wait_reason ≡ wait_queue_recv)
      × (r'.task.waiting_object_index ≡ index)
by_item_blocked r r' index q w none h = ground arith
by_item_blocked r r' index q w (some (i, x)) h = by_delivery (deliver r.task q x w) refl h
  where
    by_delivery :
        (d : Result (MsgQueue × Received))
        → deliver r.task q x w ≡ d
        → taken r index i x d ≡ (r', ok blocked)
        → (◌≡◌ {A = Option (ℕ × Item)} (some (i, x)) none)
          × (r.task.msgrcv_msgflg.nowait ≡ false)
          × (r'.queues ≡ r.queues)
          × (r'.task.wait_reason ≡ wait_queue_recv)
          × (r'.task.waiting_object_index ≡ index)
    by_delivery (err e) eq k = absurd (cc)
    by_delivery (ok (q', received)) eq k =
        let (_, is, _, _) = deliver_inv r.task q q' x w received eq in
        let none_left : received ≡ blocked = cc in absurd (cc)

-- Where msgrcv(2) makes a tracee wait, no message of its queue is one that it asks for, its request is
-- one that may wait, the queues are as before, and it waits for a message of that queue.
pub msgrcv_waits :
    (r r' : Receiving) (id index msgsz : ℕ) (q : MsgQueue) (msgtyp : ℤ) (msgflg : RecvFlags)
    (w : Receipt)
    → lookup_object queue_common r.queues id ≡ ok (index, q)
    → msgrcv r id msgsz msgtyp msgflg w ≡ (r', ok blocked)
    → NonePasses (asking r.task msgsz msgtyp msgflg) q.items
      × MayWait (asking r.task msgsz msgtyp msgflg)
      × (r'.queues ≡ r.queues)
      × (r'.task.wait_reason ≡ wait_queue_recv)
      × (r'.task.waiting_object_index ≡ index)
unfolding msgrcv do_msgrcv
msgrcv_waits r r' id index msgsz q msgtyp msgflg w found h =
    let t = asking r.task msgsz msgtyp msgflg in
    let r1 = record r { task = t } in
    let size : leb 2147483648 (msgsz % 4294967296) ≡ false = ground (arith, found, h) in
    let flags : refused_flags msgflg ≡ false = ground (arith, found, h) in
    let (none_chosen, nowait, kept, reason, object) =
      by_item_blocked r1 r' index q w (chosen_item t q) (ground (arith, found, h)) in
    let none_found : find_item t q.items 0 ≡ none = ground arith in
    (find_item-NonePasses t q.items 0 none_found, (size, flags, nowait), kept, reason, object)
