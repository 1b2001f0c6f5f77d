-- ===== src/Ipc/Queue/Control.antt =====
-- msgget(2) and msgctl(2) of extension/sysvipc/sysvipc_msg.c.
use vm_forge.Prelude.{
  ℕ, ◌%◌, Bool, true, false, not, ◌&&◌, ◌||◌, List, [], ◌∷◌, ◌++◌, ◌==◌, if◌then◌else◌, length, set,
  Option, some, none, get_elem?,
}
use vm_forge.Prelude.Errors.{Result, ok, err, einval, enoent, eexist, eidrm, ◌>>=◌}
use vm_forge.Ipc.Object.{lookup_object, search_key, object_id, next_generation}
use vm_forge.Ipc.Task.{waits_recv, wake_all}
use vm_forge.Ipc.Queue.{Stats, MsgQueue, queue_common, QueueState, Call}

abbrev pub fresh_stats : Stats
fresh_stats = record {
  msg_qnum = 0;
  msg_cbytes = 0;
  msg_qbytes = 65536;
  msg_lspid = 0;
  msg_lrpid = 0;
  msg_stime = 0;
  msg_rtime = 0;
}

abbrev pub fresh_queue : ℕ → ℕ → MsgQueue
fresh_queue word generation = record {
  common = record { key = word % 4294967296; generation = generation; valid = true };
  items = [];
  stats = fresh_stats;
}

abbrev pub generation_at : List MsgQueue → ℕ → ℕ
generation_at queues i = elim (get_elem? queues i) [ none ↦ 0 | some q ↦ q.common.generation ]

-- The end of msgget() by what the search found.
unfoldable pub msgget_at :
    List MsgQueue → ℕ → Bool → Bool → Option ℕ → Option ℕ → List MsgQueue × Result ℕ
msgget_at queues word creat excl (some i) unused =
    if creat && excl
    then (queues, err eexist)
    else (queues, ok (object_id i (generation_at queues i)))
msgget_at queues word creat excl none (some i) = if not creat then (queues, err enoent) else (
  set queues i (fresh_queue word (generation_at queues i)),
  ok (object_id i (generation_at queues i)),
)
msgget_at queues word creat excl none none =
    if not creat
    then (queues, err enoent)
    else (queues ++ fresh_queue word 0 ∷ [], ok (object_id (length queues) 0))

-- IPC_CREAT and IPC_EXCL are passed as Booleans.
unfoldable pub msgget : List MsgQueue → ℕ → Bool → Bool → List MsgQueue × Result ℕ
unfolding msgget_at
msgget queues word creat excl =
    let (found, unused) = search_key queue_common word queues 0 none in
    msgget_at queues word creat excl found unused

abbrev pub removed_queue : MsgQueue → MsgQueue
removed_queue q = record q {
  common = record q.common { valid = false; generation = next_generation q.common.generation };
  items = [];
}

-- `write` stores the statistics in the tracee's memory.
unfoldable pub msgctl_at : QueueState → ℕ → ℕ → MsgQueue → ℕ → (Stats → Result (Unit {0})) → Call
msgctl_at st namespace index q cmd write =
    if cmd == 0 || cmd == 256
    then (wake_all waits_recv namespace index eidrm st.tasks >>= λ tasks.
        ok (record { tasks = tasks; queues = set st.queues index (removed_queue q) }, ok 0))
    else if cmd == 2 || cmd == 258
    then elim (write q.stats) [ err e ↦ ok (st, err e) | ok _ ↦ ok (st, ok 0) ]
    else ok (st, err einval)

unfoldable pub msgctl : QueueState → ℕ → ℕ → ℕ → (Stats → Result (Unit {0})) → Call
unfolding msgctl_at
msgctl st namespace id cmd write = elim (lookup_object queue_common st.queues id) [
  | err e ↦ ok (st, err e)
  | ok (index, q) ↦ msgctl_at st namespace index q cmd write
]
