-- ===== src/Ipc/Queue/Order.antt =====
-- Which message the msgrcv of extension/sysvipc/sysvipc_msg.c takes.
use vm_forge.Prelude.{
  ℕ, ◌+◌, ◌≤◌, ◌≡◌, refl, ap, Bool, true, false, List, [], ◌∷◌, ◌++◌, arith, ltb, if◌then◌else◌,
  Bool-cases, inl, inr, length, take, length-take, set, Option, some, none,
}
use vm_forge.Prelude.Bytes.{Bytes}
use vm_forge.Prelude.Errors.{Result, ok, err}
use vm_forge.Prelude.Int.{ℤ}
use vm_forge.Ipc.Object.{lookup_object}
use vm_forge.Ipc.Task.{Task, RecvFlags}
use vm_forge.Ipc.Queue.{Item, MsgQueue, queue_common, msg_match}
use vm_forge.Ipc.Queue.Receive.{
  Received, message, Receipt, Receiving, asking, msgrcv, find_item, remove_at, deliver, do_msgrcv,
  by_item, taken, without_item,
}

abbrev pub passes : Task → Item → Bool
passes t x = msg_match x.mtype t.msgrcv_msgtyp t.msgrcv_msgflg

-- No item of a list passes.
abbrev pub NonePasses : Task → List Item → Type 0
NonePasses t [] = Unit
NonePasses t (x ∷ xs) = (passes t x ≡ false) × NonePasses t xs

pub find_item_split :
    (t : Task) (xs : List Item) (i : ℕ) {j : ℕ} {x : Item}
    → find_item t xs i ≡ some (j, x)
    → (before : List Item) × (after : List Item) × (xs ≡ before ++ x ∷ after)
      × (j ≡ i + length before)
      × NonePasses t before
      × (passes t x ≡ true)
unfolding find_item
find_item_split t [] i h = absurd (cc)
find_item_split t (y ∷ ys) i {j} {x} h = elim (Bool-cases (passes t y)) [
  | inl e ↦
      let both : ◌≡◌ {A = Option (ℕ × Item)} (some (i, y)) (some (j, x)) = rw e at h in
      let same : y ≡ x = cc in
      let at_i : i ≡ j = cc in ([], ys, rw same refl, omega arith, tt, rw same at e)
  | inr e ↦
      let (before, after, split, at_j, none_passes, hit) =
        find_item_split t ys (i + 1) {j = j} {x = x} (rw e at h) in
      (y ∷ before, after, ap (λ l. y ∷ l) split, omega arith, (e, none_passes), hit)
]

pub remove_at_split :
    (before : List Item) (x : Item) (after : List Item)
    → remove_at (before ++ x ∷ after) (length before) ≡ before ++ after
remove_at_split [] x after = refl
remove_at_split (y ∷ before) x after = ap (λ l. y ∷ l) (remove_at_split before x after)

-- What a delivery hands over.
pub deliver_inv :
    (t : Task) (q q' : MsgQueue) (x : Item) (w : Receipt) (received : Received)
    → deliver t q x w ≡ ok (q', received)
    → (n : ℕ) × (received ≡ message x.mtype (take n x.mtext))
      × (n ≤ t.msgrcv_msgsz)
      × (q'.items ≡ q.items)
unfolding deliver
deliver_inv t q q' x w received h =
    let msgsz = if ltb t.msgrcv_msgsz x.mtext_length then t.msgrcv_msgsz else x.mtext_length in
    (msgsz, ground arith, ground arith, ground arith)

-- A queue before and after a message was taken from it.
abbrev pub Takes : Task → MsgQueue → MsgQueue → ℕ → Bytes → Type 0
Takes t q q' mtype text =
    (before : List Item) × (x : Item) × (after : List Item) × (q.items ≡ before ++ x ∷ after)
    × NonePasses t before
    × (passes t x ≡ true)
    × (q'.items ≡ before ++ after)
    × (mtype ≡ x.mtype)
    × ((n : ℕ) × (text ≡ take n x.mtext) × (length text ≤ t.msgrcv_msgsz))

pub taken-Takes :
    (r r' : Receiving) (index i : ℕ) (q : MsgQueue) (x : Item) (w : Receipt) (mtype : ℕ)
    (text : Bytes)
    → r.task.msgrcv_msgflg.copy ≡ false
    → find_item r.task q.items 0 ≡ some (i, x)
    → taken r index i x (deliver r.task q x w) ≡ (r', ok (message mtype text))
    → (q' : MsgQueue) × (r'.queues ≡ set r.queues index q') × Takes r.task q q' mtype text
taken-Takes r r' index i q x w mtype text plain found h = by_delivery (deliver r.task q x w) refl h
  where
    by_delivery :
        (d : Result (MsgQueue × Received))
        → deliver r.task q x w ≡ d
        → taken r index i x d ≡ (r', ok (message mtype text))
        → (q' : MsgQueue) × (r'.queues ≡ set r.queues index q') × Takes r.task q q' mtype text
    by_delivery (err e) eq k = absurd (cc)
    by_delivery (ok (q1, received)) eq k =
        let (n, is, fits, kept) = deliver_inv r.task q q1 x w received eq in
        let (before, after, split, at_i, none_passes, hit) =
          find_item_split r.task q.items 0 {j = i} {x = x} found in
        let shape : received ≡ message mtype text = cc in
        let text_is : text ≡ take n x.mtext = cc in
        let mtype_is : mtype ≡ x.mtype = cc in
        let new_queues : r'.queues
            ≡ set r.queues index (if r.task.msgrcv_msgflg.copy then q1 else without_item q1 i x) =
          cc in
        let place : i ≡ length before = omega arith in
        (
          without_item q1 i x,
          rw plain at new_queues,
          (
            before,
            x,
            after,
            split,
            none_passes,
            hit,
            rw (kept, split, place) (remove_at_split before x after),
            mtype_is,
            (n, text_is, rw text_is (omega (arith, length-take n x.mtext))),
          ),
        )

-- Where msgrcv(2) returns a message and has no MSG_COPY, that message is the first of the queue that
-- the type and the flags let pass, no other one leaves the queue, the order of the others is kept, and
-- the text that is written is the beginning of the message's and not longer than the receiver's buffer.
pub msgrcv-Takes :
    (r r' : Receiving) (id index msgsz : ℕ) (q : MsgQueue) (msgtyp : ℤ) (msgflg : RecvFlags)
    (w : Receipt)
    → (mtype : ℕ) (text : Bytes) → lookup_object queue_common r.queues id ≡ ok (index, q)
    → msgflg.copy ≡ false
    → msgrcv r id msgsz msgtyp msgflg w ≡ (r', ok (message mtype text))
    → (q' : MsgQueue) × (r'.queues ≡ set r.queues index q')
      × Takes (asking r.task msgsz msgtyp msgflg) q q' mtype text
unfolding msgrcv do_msgrcv
msgrcv-Takes r r' id index msgsz q msgtyp msgflg w mtype text found plain h =
    by_item_found (find_item t q.items 0) refl at_item
  where
    t : Task
    t = asking r.task msgsz msgtyp msgflg

    at_item :
        by_item (record r { task = t }) index q w (find_item t q.items 0)
        ≡ (r', ok (message mtype text))
    at_item = ground (arith, found, plain, h)

    by_item_found :
        (choice : Option (ℕ × Item))
        → find_item t q.items 0 ≡ choice
        → by_item (record r { task = t }) index q w choice ≡ (r', ok (message mtype text))
        → (q' : MsgQueue) × (r'.queues ≡ set r.queues index q') × Takes t q q' mtype text
    by_item_found none e k = absurd (ground arith)
    by_item_found (some (i, x)) e k =
        taken-Takes (record r { task = t }) r' index i q x w mtype text plain e k
