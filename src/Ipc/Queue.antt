-- ===== src/Ipc/Queue.antt =====
-- extension/sysvipc/sysvipc_msg.c: the message queues. Words of 64 bits keep their wrap-around; the
-- filter -2147483648, whose negation is no int, is not told from the integer.
pub mod Receive
pub mod Control
pub mod Order
pub mod Counts
pub mod Receipts
pub mod Reach
pub mod Removal
pub mod Served
pub mod Retry
use vm_forge.Prelude.{
  ℕ, zero, suc, ◌+◌, ◌-◌, ◌*◌, ◌%◌, ◌≤◌, ◌<◌, ◌≡◌, refl, Bool, true, false, not, ◌&&◌, ◌||◌, List,
  [], ◌∷◌, ◌++◌, arith, ltb, leb, ◌==◌, if◌then◌else◌, length, take, set, Option, some, none,
  get_elem?,
}
use vm_forge.Prelude.Bytes.{Bytes}
use vm_forge.Prelude.Errors.{
  Result, ok, err, Errno, einval, enoent, eexist, e2big, enomsg, eagain, eintr, eidrm, assertion,
  ◌>>=◌,
}
use vm_forge.Prelude.Int.{ℤ, pos, negsuc, pos_part, ltb_ℤ}
use vm_forge.Ipc.Object.{IpcObject, lookup_object, search_key, object_id, next_generation}
use vm_forge.Ipc.Task.{
  Task, RecvFlags, ChainState, not_chained, msgrcv_retry, not_waiting, wait_queue_recv, is_waiting,
  waits_recv, waits_on, wake_tracee, wake_all,
}

abbrev pub max_msg_size : ℕ
max_msg_size = 65535

-- struct SysVIpcMsgQueueItem; an item is made only for a positive type.
pub record Item : Type 0 where
  pub mtype : ℕ
  pub mtext : Bytes
  pub mtext_length : ℕ

-- struct msqid_ds, as far as the code writes it.
pub record Stats : Type 0 where
  pub msg_qnum : ℕ
  pub msg_cbytes : ℕ
  pub msg_qbytes : ℕ
  pub msg_lspid : ℕ
  pub msg_lrpid : ℕ
  pub msg_stime : ℕ
  pub msg_rtime : ℕ

pub record MsgQueue : Type 0 where
  pub common : IpcObject
  pub items : List Item
  pub stats : Stats

abbrev pub queue_common : MsgQueue → IpcObject
queue_common q = q.common

abbrev pub add64 : ℕ → ℕ → ℕ
add64 a b = (a + b) % 18446744073709551616

abbrev pub sub64 : ℕ → ℕ → ℕ
sub64 a b = (a + (18446744073709551616 - b % 18446744073709551616)) % 18446744073709551616

-- A long that becomes an int.
unfoldable pub to_int : ℕ → ℤ
to_int n = let w = n % 4294967296 in if ltb w 2147483648 then pos w else negsuc (4294967295 - w)

abbrev pub equal_int : ℤ → ℤ → Bool
equal_int (pos a) (pos b) = a == b
equal_int (negsuc a) (negsuc b) = a == b
equal_int _ _ = false

abbrev pub in_filter : ℤ → ℤ → Bool
in_filter sender (pos n) = n == 0 || equal_int sender (pos n)
in_filter sender (negsuc n) = equal_int sender (negsuc n) || ltb_ℤ sender (pos (suc (suc n)))

unfoldable pub msg_match : ℕ → ℤ → RecvFlags → Bool
unfolding to_int
msg_match mtype filter flags =
    if flags.except then not (in_filter (to_int mtype) filter) else in_filter (to_int mtype) filter

-- msgsnd(2): what the tracee's memory holds.
unfoldable pub read_item : ℕ → Result ℤ → (ℕ → Result Bytes) → Result Item
read_item msgsz read_type read_text =
    if ltb max_msg_size msgsz
    then err einval
    else read_type >>= λ mtype.
        (if ltb_ℤ mtype (pos 1)
          then err einval
          else read_text msgsz >>= λ mtext.
              ok (record { mtype = pos_part mtype; mtext = mtext; mtext_length = msgsz }))

-- The first tracee that waits for such a message is woken to try again.
unfoldable pub wake_receiver : ℕ → ℕ → Item → List Task → Result (List Task)
unfolding msg_match
wake_receiver namespace index x [] = ok []
wake_receiver namespace index x (t ∷ ts) =
    if waits_on waits_recv namespace index t && msg_match x.mtype t.msgrcv_msgtyp t.msgrcv_msgflg
    then (wake_tracee (record t { chain_state = msgrcv_retry }) (err eagain) >>= λ t'. ok (t' ∷ ts))
    else (wake_receiver namespace index x ts >>= λ ts'. ok (t ∷ ts'))

abbrev pub with_item : MsgQueue → Item → ℕ → ℕ → MsgQueue
with_item q x pid time = record q {
  items = q.items ++ x ∷ [];
  stats = record q.stats {
    msg_lspid = pid;
    msg_stime = time;
    msg_qnum = add64 q.stats.msg_qnum 1;
    msg_cbytes = add64 q.stats.msg_cbytes x.mtext_length;
  };
}

pub record QueueState : Type 0 where
  pub tasks : List Task
  pub queues : List MsgQueue

-- As for semaphores, the outer result is that of the process.
abbrev pub Call : Type 0
Call = Result (QueueState × Result ℕ)

unfoldable pub msgsnd_at : QueueState → ℕ → ℕ → ℕ → MsgQueue → Result Item → ℕ → Call
unfolding wake_receiver
msgsnd_at st pid namespace index q (err e) time = ok (st, err e)
msgsnd_at st pid namespace index q (ok x) time =
    wake_receiver namespace index x st.tasks >>= λ tasks.
    ok (record { tasks = tasks; queues = set st.queues index (with_item q x pid time) }, ok 0)

unfoldable pub msgsnd : QueueState → ℕ → ℕ → ℕ → ℕ → Result ℤ → (ℕ → Result Bytes) → ℕ → Call
unfolding msgsnd_at read_item
msgsnd st pid namespace id msgsz read_type read_text time =
    elim (lookup_object queue_common st.queues id) [
      | err e ↦ ok (st, err e)
      | ok (index, q) ↦
          msgsnd_at st pid namespace index q (read_item msgsz read_type read_text) time
    ]
