-- ===== src/Ipc/Queue/Receipts.antt =====
-- The msgrcv of extension/sysvipc/sysvipc_msg.c keeps the statistics of the queues.
use vm_forge.Prelude.{
  ℕ, ◌≡◌, refl, Bool, true, false, arith, not, leb, ◌%◌, Bool-cases, inl, inr, Option, some, none,
  get_elem?, if◌then◌else◌,
}
use vm_forge.Prelude.Errors.{Result, ok, err, eagain, assertion, Ensures, Ensures-if}
use vm_forge.Prelude.Int.{ℤ}
use vm_forge.Ipc.Object.{lookup_object}
use vm_forge.Ipc.Object.InUse.{AllInUse-get, AllInUse-set, in_use}
use vm_forge.Ipc.Task.{Task, RecvFlags, is_waiting}
use vm_forge.Ipc.Queue.{Item, MsgQueue, queue_common}
use vm_forge.Ipc.Queue.Receive.{
  Received, Receipt, Receiving, asking, find_item, deliver, do_msgrcv, chosen_item, by_item, taken,
  without_item, msgrcv, refused_flags, not_again, retry_at, retry_status, retry_msgrcv, retries,
}
use vm_forge.Ipc.Queue.Counts.{IsCounted, AllCounted, without_item-IsCounted, found-IsCounted}

delivered-IsCounted :
    (t : Task) (q q' : MsgQueue) (x : Item) (w : Receipt) (received : Received)
    → deliver t q x w ≡ ok (q', received)
    → IsCounted q
    → IsCounted q' × (q'.items ≡ q.items) × (q'.common ≡ q.common)
unfolding deliver
delivered-IsCounted t q q' x w received h c = ground arith

module _ (r : Receiving) (all : AllCounted r.queues) (index : ℕ) (q : MsgQueue)
    (counted : IsCounted q) (w : Receipt) where
  taken-AllCounted :
      (i : ℕ) (x : Item)
      → chosen_item r.task q ≡ some (i, x)
      → AllCounted (taken r index i x (deliver r.task q x w)).0.queues
  taken-AllCounted i x chosen = by_delivery (deliver r.task q x w) refl
    where
      without :
          (q' : MsgQueue) (copy : Bool)
          → r.task.msgrcv_msgflg.copy ≡ copy
          → IsCounted q'
          → (q'.items ≡ q.items)
          → IsCounted (if copy then q' else without_item q' i x)
      without q' true e c same = c
      without q' false e c same =
          let found : find_item r.task q.items 0 ≡ some (i, x) = ground arith in
          without_item-IsCounted q' i x r.task (rw same found) c

      by_delivery :
          (d : Result (MsgQueue × Received))
          → deliver r.task q x w ≡ d
          → AllCounted (taken r index i x d).0.queues
      by_delivery (err e) eq = all
      by_delivery (ok (q', received)) eq =
          let (c, same, _) = delivered-IsCounted r.task q q' x w received eq counted in
          let q2 = if r.task.msgrcv_msgflg.copy then q' else without_item q' i x in
          AllInUse-set queue_common IsCounted r.queues index q2 all
            (in_use q2.common.valid (without q' r.task.msgrcv_msgflg.copy refl c same))

  by_item-AllCounted :
      (choice : Option (ℕ × Item))
      → chosen_item r.task q ≡ choice
      → AllCounted (by_item r index q w choice).0.queues
  by_item-AllCounted none e = elim (Bool-cases r.task.msgrcv_msgflg.nowait) [
    | inl n ↦ rw n all
    | inr n ↦ rw n all
  ]
  by_item-AllCounted (some (i, x)) e = taken-AllCounted i x e

  do_msgrcv-AllCounted : AllCounted (do_msgrcv r index q w).0.queues
  unfolding do_msgrcv
  do_msgrcv-AllCounted = elim (Bool-cases (leb 2147483648 (r.task.msgrcv_msgsz % 4294967296))) [
    | inl e ↦ rw e all
    | inr e ↦ elim (Bool-cases (refused_flags r.task.msgrcv_msgflg)) [
      | inl f ↦ rw (e, f) all
      | inr f ↦ rw (e, f) (by_item-AllCounted (chosen_item r.task q) refl)
    ]
  ]

pub msgrcv-AllCounted :
    (r : Receiving) (id msgsz : ℕ) (msgtyp : ℤ) (msgflg : RecvFlags) (w : Receipt)
    → AllCounted r.queues
    → AllCounted (msgrcv r id msgsz msgtyp msgflg w).0.queues
unfolding msgrcv
msgrcv-AllCounted r id msgsz msgtyp msgflg w a =
    by_lookup (lookup_object queue_common r.queues id) refl
  where
    by_lookup :
        (found : Result (ℕ × MsgQueue))
        → lookup_object queue_common r.queues id ≡ found
        → AllCounted
            (elim found as (λ _. Receiving × Result Received) [
              | err e ↦ (r, err e)
              | ok (index, q) ↦
                  do_msgrcv (record r { task = asking r.task msgsz msgtyp msgflg }) index q w
            ]).0.queues
    by_lookup (err e) eq = a
    by_lookup (ok (index, q)) eq =
        do_msgrcv-AllCounted (record r { task = asking r.task msgsz msgtyp msgflg }) a index q
          (found-IsCounted r.queues id index q a eq) w

abbrev pub KeepsReceived : Receiving × Result Received → Type 0
KeepsReceived p = AllCounted p.0.queues

not_again_keeps :
    (d : Receiving × Result Received) → AllCounted d.0.queues → AllCounted (not_again d).0.queues
not_again_keeps (r, reply) a = elim (Bool-cases (is_waiting r.task.wait_reason)) [
  | inl e ↦ rw e a
  | inr e ↦ rw e a
]

retry_at-Ensures :
    (r : Receiving) (w : Receipt) (o : Option MsgQueue)
    → get_elem? r.queues r.task.waiting_object_index ≡ o
    → AllCounted r.queues
    → Ensures KeepsReceived (retry_at r w o)
retry_at-Ensures r w none e a = tt
retry_at-Ensures r w (some q) e a =
    Ensures-if KeepsReceived (not q.common.valid) (err assertion) _ (λ _. tt)
      λ valid.
        let used : q.common.valid ≡ true = ground arith in
        let counted =
          AllInUse-get queue_common IsCounted r.queues r.task.waiting_object_index q a e used in
        not_again_keeps (do_msgrcv r r.task.waiting_object_index q w)
          (do_msgrcv-AllCounted r a r.task.waiting_object_index q counted w)

retry_status-Ensures :
    (r : Receiving) (w : Receipt) (s : Result ℕ)
    → AllCounted r.queues
    → Ensures KeepsReceived (retry_status r w s)
unfolding retry_status
retry_status-Ensures r w (err eagain) a = retry_at-Ensures r w _ refl a
retry_status-Ensures r w (err _) a = a
retry_status-Ensures r w (ok n) a = a

pub retry_msgrcv-Ensures :
    (r : Receiving) (w : Receipt) → AllCounted r.queues → Ensures KeepsReceived (retry_msgrcv r w)
unfolding retry_msgrcv
retry_msgrcv-Ensures r w a =
    Ensures-if KeepsReceived (retries r.task.chain_state) _ (err assertion)
      (λ _. retry_status-Ensures r w r.task.status_after_wait a) (λ _. tt)
