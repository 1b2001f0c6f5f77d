-- ===== src/Ipc/Queue/Counts.antt =====
-- The statistics of the queues of extension/sysvipc/sysvipc_msg.c count what the queues hold.
use vm_forge.Prelude.{
  ℕ, suc, ◌+◌, ◌%◌, ◌≡◌, refl, ap, ◌∙◌, Bool, true, false, ◌||◌, List, [], ◌∷◌, ◌++◌, arith, ◌==◌,
  length, length-append, Option, some, none,
}
use vm_forge.Prelude.Bytes.{Bytes}
use vm_forge.Prelude.Errors.{
  Result, ok, err, eidrm, Ensures, Ensures-if, Ensures-bind, Ensures-elim,
}
use vm_forge.Prelude.Int.{ℤ}
use vm_forge.Ipc.Object.{lookup_object, lookup_inv, search_key}
use vm_forge.Ipc.Object.InUse.{AllInUse, AllInUse-get, AllInUse-set, AllInUse-append, in_use}
use vm_forge.Ipc.Task.{Task, waits_recv, wake_all}
use vm_forge.Ipc.Queue.{
  Item, MsgQueue, queue_common, Stats, QueueState, with_item, wake_receiver, msgsnd, msgsnd_at,
  read_item,
}
use vm_forge.Ipc.Queue.Receive.{find_item, remove_at, without_item}
use vm_forge.Ipc.Queue.Control.{
  msgget, msgget_at, msgctl, msgctl_at, fresh_queue, generation_at, removed_queue,
}
use vm_forge.Ipc.Queue.Order.{find_item_split, remove_at_split}

pub total : List Item → ℕ
total [] = 0
total (x ∷ xs) = x.mtext_length + total xs

total-append : (xs ys : List Item) → total (xs ++ ys) ≡ total xs + total ys
unfolding total
total-append [] ys = omega arith
total-append (x ∷ xs) ys = omega (arith, total-append xs ys)

-- msg_qnum and msg_cbytes, as words of 64 bits.
abbrev pub IsCounted : MsgQueue → Type 0
IsCounted q =
    (q.stats.msg_qnum ≡ length q.items % 18446744073709551616)
    × (q.stats.msg_cbytes ≡ total q.items % 18446744073709551616)

abbrev pub AllCounted : List MsgQueue → Type 0
AllCounted queues = AllInUse queue_common IsCounted queues

with_item-IsCounted :
    (q : MsgQueue) (x : Item) (pid time : ℕ) → IsCounted q → IsCounted (with_item q x pid time)
unfolding total
with_item-IsCounted q x pid time (n, b) =
    (omega (arith, length-append q.items (x ∷ [])), omega (arith, total-append q.items (x ∷ [])))

pub without_item-IsCounted :
    (q : MsgQueue) (i : ℕ) (x : Item) (t : Task)
    → find_item t q.items 0 ≡ some (i, x)
    → IsCounted q
    → IsCounted (without_item q i x)
unfolding total
without_item-IsCounted q i x t found (n, b) =
    let (before, after, split, at_i, _, _) = find_item_split t q.items 0 {j = i} {x = x} found in
    let place : i ≡ length before = omega arith in
    let left : remove_at q.items i ≡ before ++ after =
      rw (split, place) (remove_at_split before x after) in
    let count : length q.items ≡ length before + suc (length after) =
      ap length split ∙ length-append before (x ∷ after) in
    let count' : length (remove_at q.items i) ≡ length before + length after =
      ap length left ∙ length-append before after in
    let bytes : total q.items ≡ total before + (x.mtext_length + total after) =
      ap total split ∙ total-append before (x ∷ after) in
    let bytes' : total (remove_at q.items i) ≡ total before + total after =
      ap total left ∙ total-append before after in
    (omega arith, omega arith)

abbrev Keeps : QueueState × Result ℕ → Type 0
Keeps p = AllCounted p.0.queues

module _ (st : QueueState) (all : AllCounted st.queues) (namespace : ℕ) where
  msgsnd_at-Keeps :
      (pid index : ℕ) (q : MsgQueue) (x : Result Item) (time : ℕ)
      → IsCounted q
      → Ensures Keeps (msgsnd_at st pid namespace index q x time)
  unfolding msgsnd_at
  msgsnd_at-Keeps pid index q (err e) time c = all
  msgsnd_at-Keeps pid index q (ok x) time c =
      Ensures-bind Keeps (wake_receiver namespace index x st.tasks) _ λ tasks _.
        AllInUse-set queue_common IsCounted st.queues index (with_item q x pid time) all
          (in_use q.common.valid (with_item-IsCounted q x pid time c))

  msgctl_at-Keeps :
      (index : ℕ) (q : MsgQueue) (cmd : ℕ) (write : Stats → Result (Unit {0}))
      → Ensures Keeps (msgctl_at st namespace index q cmd write)
  unfolding msgctl_at
  msgctl_at-Keeps index q cmd write =
      Ensures-if Keeps (cmd == 0 || cmd == 256) _ _
        (λ _.
          Ensures-bind Keeps (wake_all waits_recv namespace index eidrm st.tasks) _
            λ tasks _. AllInUse-set queue_common IsCounted st.queues index (removed_queue q) all tt)
        (λ _.
          Ensures-if Keeps (cmd == 2 || cmd == 258) _ _
            (λ _.
              elim (write q.stats)
                as (λ (d : Result (Unit {0})).
                  Ensures Keeps (elim d [ err e ↦ ok (st, err e) | ok _ ↦ ok (st, ok 0) ])) [
                    | err e ↦ all
                    | ok _ ↦ all
                  ])
            (λ _. all))

-- What a successful lookup in counted queues found.
pub found-IsCounted :
    (queues : List MsgQueue) (id index : ℕ) (q : MsgQueue)
    → AllCounted queues
    → lookup_object queue_common queues id ≡ ok (index, q)
    → IsCounted q
found-IsCounted queues id index q a e =
    let (at_i, v) = lookup_inv queue_common queues id index q e in
    AllInUse-get queue_common IsCounted queues index q a at_i v

pub msgsnd-AllCounted :
    (st st' : QueueState) (pid namespace id msgsz : ℕ) (read_type : Result ℤ)
    (read_text : ℕ → Result Bytes)
    → (time : ℕ) (r : Result ℕ) → AllCounted st.queues
    → msgsnd st pid namespace id msgsz read_type read_text time ≡ ok (st', r)
    → AllCounted st'.queues
unfolding msgsnd
msgsnd-AllCounted st st' pid namespace id msgsz read_type read_text time r a h =
    Ensures-elim Keeps _ (by_lookup (lookup_object queue_common st.queues id) refl) h
  where
    by_lookup :
        (found : Result (ℕ × MsgQueue))
        → lookup_object queue_common st.queues id ≡ found
        → Ensures Keeps (elim found as (λ _. Result (QueueState × Result ℕ)) [
          | err e ↦ ok (st, err e)
          | ok (index, q) ↦
              msgsnd_at st pid namespace index q (read_item msgsz read_type read_text) time
        ])
    by_lookup (err e) eq = a
    by_lookup (ok (index, q)) eq =
        msgsnd_at-Keeps st a namespace pid index q (read_item msgsz read_type read_text) time
          (found-IsCounted st.queues id index q a eq)

pub msgctl-AllCounted :
    (st st' : QueueState) (namespace id cmd : ℕ) (write : Stats → Result (Unit {0})) (r : Result ℕ)
    → AllCounted st.queues
    → msgctl st namespace id cmd write ≡ ok (st', r)
    → AllCounted st'.queues
unfolding msgctl
msgctl-AllCounted st st' namespace id cmd write r a h =
    Ensures-elim Keeps _ (by_lookup (lookup_object queue_common st.queues id)) h
  where
    by_lookup :
        (found : Result (ℕ × MsgQueue))
        → Ensures Keeps (elim found as (λ _. Result (QueueState × Result ℕ)) [
          | err e ↦ ok (st, err e)
          | ok (index, q) ↦ msgctl_at st namespace index q cmd write
        ])
    by_lookup (err e) = a
    by_lookup (ok (index, q)) = msgctl_at-Keeps st a namespace index q cmd write

msgget_at-AllCounted :
    (queues : List MsgQueue) (word : ℕ) (creat excl : Bool) (found unused : Option ℕ)
    → AllCounted queues
    → AllCounted (msgget_at queues word creat excl found unused).0
unfolding msgget_at total
msgget_at-AllCounted queues word creat excl (some i) unused a = ground arith
msgget_at-AllCounted queues word false excl none (some i) a = a
msgget_at-AllCounted queues word true excl none (some i) a =
    AllInUse-set queue_common IsCounted queues i (fresh_queue word (generation_at queues i)) a
      (omega arith, omega arith)
msgget_at-AllCounted queues word false excl none none a = a
msgget_at-AllCounted queues word true excl none none a =
    AllInUse-append queue_common IsCounted queues (fresh_queue word 0) a (omega arith, omega arith)

pub msgget-AllCounted :
    (queues : List MsgQueue) (word : ℕ) (creat excl : Bool)
    → AllCounted queues
    → AllCounted (msgget queues word creat excl).0
unfolding msgget
msgget-AllCounted queues word creat excl a =
    let found = search_key queue_common word queues 0 none in
    msgget_at-AllCounted queues word creat excl found.0 found.1 a
