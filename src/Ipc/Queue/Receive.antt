-- ===== src/Ipc/Queue/Receive.antt =====
-- msgrcv(2) of extension/sysvipc/sysvipc_msg.c, and its retry after a wait.
use vm_forge.Prelude.{
  ℕ, zero, suc, ◌+◌, ◌%◌, Bool, true, false, not, ◌&&◌, ◌||◌, List, [], ◌∷◌, ltb, leb,
  if◌then◌else◌, take, set, Option, some, none, get_elem?,
}
use vm_forge.Prelude.Bytes.{Bytes}
use vm_forge.Prelude.Errors.{
  Result, ok, err, einval, e2big, enomsg, eagain, eintr, assertion, ◌>>=◌,
}
use vm_forge.Prelude.Int.{ℤ, pos, negsuc}
use vm_forge.Ipc.Object.{lookup_object}
use vm_forge.Ipc.Task.{
  Task, RecvFlags, ChainState, not_chained, msgrcv_retry, not_waiting, wait_queue_recv, is_waiting,
}
use vm_forge.Ipc.Queue.{Item, MsgQueue, queue_common, sub64, msg_match}

-- What msgrcv(2) comes to where it is no error: the tracee waits, or its memory has the type and the
-- text of a message; the status is then the text's length.
pub data Received : Type 0 where
  blocked : Received
  message : ℕ → Bytes → Received
  -- A status that a wake-up left.
  returned : ℕ → Received

-- The two writes to the tracee's memory, and the time of the call.
pub record Receipt : Type 0 where
  pub write_type : Result (Unit {0})
  pub write_text : Result (Unit {0})
  pub time : ℕ

abbrev pub delivered : MsgQueue → Task → Receipt → MsgQueue
delivered q t w = record q { stats = record q.stats { msg_lrpid = t.tid; msg_rtime = w.time } }

unfoldable pub deliver : Task → MsgQueue → Item → Receipt → Result (MsgQueue × Received)
deliver t q msg w =
    if ltb t.msgrcv_msgsz msg.mtext_length && not t.msgrcv_msgflg.noerror
    then err e2big
    else let msgsz =
        if ltb t.msgrcv_msgsz msg.mtext_length then t.msgrcv_msgsz else msg.mtext_length in
      w.write_type >>= λ _.
      w.write_text >>= λ _. ok (delivered q t w, message msg.mtype (take msgsz msg.mtext))

-- The first item that the receiver's filter lets pass, and its place.
unfoldable pub find_item : Task → List Item → ℕ → Option (ℕ × Item)
unfolding msg_match
find_item t [] i = none
find_item t (x ∷ xs) i =
    let rest = find_item t xs (i + 1) in
    if msg_match x.mtype t.msgrcv_msgtyp t.msgrcv_msgflg then some (i, x) else rest

-- MSG_COPY: the item at a place.
unfoldable pub copy_item : ℤ → List Item → Option (ℕ × Item)
copy_item (negsuc n) items = none
copy_item (pos n) items = elim (get_elem? items n) [ none ↦ none | some x ↦ some (n, x) ]

abbrev pub remove_at : List Item → ℕ → List Item
remove_at [] i = []
remove_at (x ∷ xs) zero = xs
remove_at (x ∷ xs) (suc i) = x ∷ remove_at xs i

abbrev pub without_item : MsgQueue → ℕ → Item → MsgQueue
without_item q i x = record q {
  items = remove_at q.items i;
  stats = record q.stats {
    msg_qnum = sub64 q.stats.msg_qnum 1;
    msg_cbytes = sub64 q.stats.msg_cbytes x.mtext_length;
  };
}

-- A tracee that receives: its own configuration and the queues.
pub record Receiving : Type 0 where
  pub task : Task
  pub queues : List MsgQueue

abbrev pub wait_for : Task → ℕ → Task
wait_for t index = record t { wait_reason = wait_queue_recv; waiting_object_index = index }

abbrev pub refused_flags : RecvFlags → Bool
refused_flags f = f.unknown || (f.copy && (not f.nowait || f.except))

abbrev pub chosen_item : Task → MsgQueue → Option (ℕ × Item)
chosen_item t q =
    if t.msgrcv_msgflg.copy then copy_item t.msgrcv_msgtyp q.items else find_item t q.items 0

abbrev pub taken :
    Receiving → ℕ → ℕ → Item → Result (MsgQueue × Received) → Receiving × Result Received
taken r index i x (err e) = (r, err e)
taken r index i x (ok (q, received)) = (
  record r {
    queues = set r.queues index (if r.task.msgrcv_msgflg.copy then q else without_item q i x);
  },
  ok received,
)

abbrev pub by_item :
    Receiving → ℕ → MsgQueue → Receipt → Option (ℕ × Item) → Receiving × Result Received
by_item r index q w none =
    if r.task.msgrcv_msgflg.nowait
    then (r, err enomsg)
    else (record r { task = wait_for r.task index }, ok blocked)
by_item r index q w (some (i, x)) = taken r index i x (deliver r.task q x w)

unfoldable pub do_msgrcv : Receiving → ℕ → MsgQueue → Receipt → Receiving × Result Received
unfolding deliver find_item copy_item
do_msgrcv r index q w =
    if leb 2147483648 (r.task.msgrcv_msgsz % 4294967296)
    then (r, err einval)
    else if refused_flags r.task.msgrcv_msgflg
    then (r, err einval)
    else by_item r index q w (chosen_item r.task q)

abbrev pub asking : Task → ℕ → ℤ → RecvFlags → Task
asking t msgsz msgtyp msgflg = record t {
  msgrcv_msgsz = msgsz;
  msgrcv_msgtyp = msgtyp;
  msgrcv_msgflg = msgflg;
}

unfoldable pub msgrcv : Receiving → ℕ → ℕ → ℤ → RecvFlags → Receipt → Receiving × Result Received
unfolding do_msgrcv
msgrcv r id msgsz msgtyp msgflg w = elim (lookup_object queue_common r.queues id) [
  | err e ↦ (r, err e)
  | ok (index, q) ↦ do_msgrcv (record r { task = asking r.task msgsz msgtyp msgflg }) index q w
]

-- A retry that would wait again is a spurious wake-up.
abbrev pub not_again : Receiving × Result Received → Receiving × Result Received
not_again (r, status) =
    if is_waiting r.task.wait_reason
    then (record r { task = record r.task { wait_reason = not_waiting } }, err eintr)
    else (r, status)

abbrev pub unchained : Receiving × Result Received → Receiving × Result Received
unchained (r, status) = (record r { task = record r.task { chain_state = not_chained } }, status)

abbrev pub retries : ChainState → Bool
retries msgrcv_retry = true
retries _ = false

abbrev pub retry_at : Receiving → Receipt → Option MsgQueue → Result (Receiving × Result Received)
retry_at r w none = err assertion
retry_at r w (some q) =
    if not q.common.valid
    then err assertion
    else ok (unchained (not_again (do_msgrcv r r.task.waiting_object_index q w)))

-- By the status that a wake-up left. An outer `err assertion` is an assertion that fails.
unfoldable pub retry_status : Receiving → Receipt → Result ℕ → Result (Receiving × Result Received)
unfolding do_msgrcv
retry_status r w (err eagain) = retry_at r w (get_elem? r.queues r.task.waiting_object_index)
retry_status r w (err e) = ok (unchained (r, err e))
retry_status r w (ok n) = ok (unchained (r, ok (returned n)))

unfoldable pub retry_msgrcv : Receiving → Receipt → Result (Receiving × Result Received)
unfolding retry_status
retry_msgrcv r w =
    if retries r.task.chain_state then retry_status r w r.task.status_after_wait else err assertion
