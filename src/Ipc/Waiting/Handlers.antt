-- ===== src/Ipc/Waiting/Handlers.antt =====
-- What the msgrcv of extension/sysvipc/sysvipc_msg.c leaves for sysvipc_syscall_common in sysvipc.c.
use vm_forge.Prelude.{ℕ, ◌%◌, ◌≡◌, refl, ◌∙◌, leb, Bool-cases, inl, inr, Option, none, some}
use vm_forge.Prelude.Errors.{Result, ok, err}
use vm_forge.Prelude.Int.{ℤ}
use vm_forge.Ipc.Object.{lookup_object}
use vm_forge.Ipc.Task.{Task, RecvFlags, not_chained}
use vm_forge.Ipc.Queue.{Item, MsgQueue, queue_common}
use vm_forge.Ipc.Queue.Receive.{
  Receiving, Received, Receipt, asking, deliver, chosen_item, refused_flags, taken, by_item,
  do_msgrcv, msgrcv,
}
use vm_forge.Ipc.Waiting.Consistent.{Leaves}

-- The fields that the waiting mechanism has for itself.
abbrev KeepsStates : Task → Task → Type 0
KeepsStates t t' = (t'.wait_state ≡ t.wait_state) × (t'.chain_state ≡ t.chain_state)

module _ (r : Receiving) (index : ℕ) (q : MsgQueue) (w : Receipt) where
  taken-KeepsStates :
      (i : ℕ) (x : Item) (d : Result (MsgQueue × Received))
      → KeepsStates r.task (taken r index i x d).0.task
  taken-KeepsStates i x (err e) = (refl, refl)
  taken-KeepsStates i x (ok (q', received)) = (refl, refl)

  by_item-KeepsStates :
      (choice : Option (ℕ × Item)) → KeepsStates r.task (by_item r index q w choice).0.task
  by_item-KeepsStates none = elim (Bool-cases r.task.msgrcv_msgflg.nowait) [
    | inl e ↦ simp e (refl, refl)
    | inr e ↦ simp e (refl, refl)
  ]
  by_item-KeepsStates (some (i, x)) = taken-KeepsStates i x (deliver r.task q x w)

  do_msgrcv-KeepsStates : KeepsStates r.task (do_msgrcv r index q w).0.task
  unfolding do_msgrcv
  do_msgrcv-KeepsStates = elim (Bool-cases (leb 2147483648 (r.task.msgrcv_msgsz % 4294967296))) [
    | inl e ↦ simp e (refl, refl)
    | inr e ↦ elim (Bool-cases (refused_flags r.task.msgrcv_msgflg)) [
      | inl f ↦ simp (e, f) (refl, refl)
      | inr f ↦ simp (e, f) (by_item-KeepsStates (chosen_item r.task q))
    ]
  ]

pub msgrcv-Leaves :
    (r : Receiving) (id msgsz : ℕ) (msgtyp : ℤ) (msgflg : RecvFlags) (w : Receipt)
    → r.task.chain_state ≡ not_chained
    → Leaves r.task (msgrcv r id msgsz msgtyp msgflg w).0.task
unfolding msgrcv
msgrcv-Leaves r id msgsz msgtyp msgflg w plain = by_lookup (lookup_object queue_common r.queues id)
  where
    by_lookup :
        (found : Result (ℕ × MsgQueue))
        → Leaves r.task
            (elim found as (λ _. Receiving × Result Received) [
              | err e ↦ (r, err e)
              | ok (index, q) ↦
                  do_msgrcv (record r { task = asking r.task msgsz msgtyp msgflg }) index q w
            ]).0.task
    by_lookup (err e) = (refl, inl plain)
    by_lookup (ok (index, q)) =
        let (state, chain) =
          do_msgrcv-KeepsStates (record r { task = asking r.task msgsz msgtyp msgflg }) index q w in
        (state, inl (chain ∙ plain))
