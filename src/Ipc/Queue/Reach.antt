-- ===== src/Ipc/Queue/Reach.antt =====
-- The states that the system calls of extension/sysvipc/sysvipc_msg.c lead to.
use vm_forge.Prelude.{ℕ, ◌≡◌, Bool, List, [], set, some, get_elem?}
use vm_forge.Prelude.Bytes.{Bytes}
use vm_forge.Prelude.Errors.{Result, ok, Ensures-elim}
use vm_forge.Prelude.Int.{ℤ}
use vm_forge.Ipc.Task.{Task, RecvFlags}
use vm_forge.Ipc.Queue.{QueueState, Stats, msgsnd}
use vm_forge.Ipc.Queue.Receive.{Receiving, Received, Receipt, msgrcv, retry_msgrcv}
use vm_forge.Ipc.Queue.Control.{msgget, msgctl}
use vm_forge.Ipc.Queue.Counts.{AllCounted, msgsnd-AllCounted, msgctl-AllCounted, msgget-AllCounted}
use vm_forge.Ipc.Queue.Receipts.{KeepsReceived, msgrcv-AllCounted, retry_msgrcv-Ensures}

-- The tracee at a place received.
abbrev pub after_receipt : QueueState → ℕ → Receiving → QueueState
after_receipt st k r = record { tasks = set st.tasks k r.task; queues = r.queues }

-- One call; what else the extension does to the tracees changes no queue.
pub data Step : QueueState → QueueState → Type 0 where
  gets :
      {st st' : QueueState} (word : ℕ) (creat excl : Bool)
      → st' ≡ record st { queues = (msgget st.queues word creat excl).0 }
      → Step st st'
  sends :
      {st st' : QueueState} (pid namespace id msgsz : ℕ) (read_type : Result ℤ)
      → (read_text : ℕ → Result Bytes) (time : ℕ) (r : Result ℕ)
      → msgsnd st pid namespace id msgsz read_type read_text time ≡ ok (st', r)
      → Step st st'
  receives :
      {st st' : QueueState} (k id msgsz : ℕ) (t : Task) (msgtyp : ℤ) (msgflg : RecvFlags)
      (w : Receipt)
      → get_elem? st.tasks k ≡ some t
      → st'
        ≡ after_receipt st k
            (msgrcv (record { task = t; queues = st.queues }) id msgsz msgtyp msgflg w).0
      → Step st st'
  retries_receipt :
      {st st' : QueueState} (k : ℕ) (t : Task) (w : Receipt) (r : Receiving)
      (reply : Result Received)
      → get_elem? st.tasks k ≡ some t
      → retry_msgrcv (record { task = t; queues = st.queues }) w ≡ ok (r, reply)
      → st' ≡ after_receipt st k r
      → Step st st'
  controls :
      {st st' : QueueState} (namespace id cmd : ℕ) (write : Stats → Result (Unit {0}))
      (r : Result ℕ)
      → msgctl st namespace id cmd write ≡ ok (st', r)
      → Step st st'
  others :
      {st st' : QueueState} (tasks : List Task) → st' ≡ record st { tasks = tasks } → Step st st'

-- Reached from a namespace that has no queue yet.
pub data Reachable : QueueState → Type 0 where
  start : {st : QueueState} → st.queues ≡ [] → Reachable st
  step : {st st' : QueueState} → Reachable st → Step st st' → Reachable st'

Step-AllCounted : (st st' : QueueState) → Step st st' → AllCounted st.queues → AllCounted st'.queues
Step-AllCounted st st' (gets word creat excl is) a =
    rw is (msgget-AllCounted st.queues word creat excl a)
Step-AllCounted st st' (sends pid namespace id msgsz read_type read_text time r is) a =
    msgsnd-AllCounted st st' pid namespace id msgsz read_type read_text time r a is
Step-AllCounted st st' (receives k id msgsz t msgtyp msgflg w at_k is) a =
    rw is (msgrcv-AllCounted (record { task = t; queues = st.queues }) id msgsz msgtyp msgflg w a)
Step-AllCounted st st' (retries_receipt k t w r reply at_k e is) a = rw is (
    Ensures-elim KeepsReceived _
      (retry_msgrcv-Ensures (record { task = t; queues = st.queues }) w a) e)
Step-AllCounted st st' (controls namespace id cmd write r is) a =
    msgctl-AllCounted st st' namespace id cmd write r a is
Step-AllCounted st st' (others tasks is) a = rw is a

-- In every state that the calls msgget, msgsnd, msgrcv and its retry, and msgctl lead to, in any order
-- and with any arguments, the statistics of every queue that is in use count its messages and their
-- bytes, as words of 64 bits.
pub Reachable-AllCounted : (st : QueueState) → Reachable st → AllCounted st.queues
Reachable-AllCounted st (start e) = rw e tt
Reachable-AllCounted st' (step {st} reached s) =
    Step-AllCounted st st' s (Reachable-AllCounted st reached)
