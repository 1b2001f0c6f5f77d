-- ===== src/Ipc/Queue/Served.antt =====
-- What a receiver of extension/sysvipc/sysvipc_msg.c gets that a message wakes.
use vm_forge.Prelude.{
  ℕ, zero, suc, ◌+◌, ◌%◌, ◌≡◌, ◌⊎◌, refl, ap, ◌∙◌, true, false, ◌&&◌, not, List, [], ◌∷◌, ◌++◌,
  arith, leb, ltb, Bool-cases, inl, inr, Option, some, none, get_elem?, if◌then◌else◌,
}
use vm_forge.Prelude.Bytes.{Bytes}
use vm_forge.Prelude.Errors.{Result, ok, err, assertion, e2big, eagain, >>=-eq-ok}
use vm_forge.Ipc.Task.{
  Task, ChainState, is_waiting, not_waiting, not_chained, msgrcv_retry, waits_on, waits_recv,
  wake_tracee,
}
use vm_forge.Ipc.Queue.{Item, MsgQueue, wake_receiver}
use vm_forge.Ipc.Queue.Receive.{
  Received, message, Receipt, Receiving, find_item, deliver, do_msgrcv, chosen_item, taken,
  refused_flags, unchained, not_again, retries, retry_msgrcv, retry_status, retry_at,
}
use vm_forge.Ipc.Queue.Order.{passes, NonePasses}

-- A request that msgrcv(2) does not refuse and that may wait.
abbrev pub MayWait : Task → Type 0
MayWait t =
    (leb 2147483648 (t.msgrcv_msgsz % 4294967296) ≡ false)
    × (refused_flags t.msgrcv_msgflg ≡ false)
    × (t.msgrcv_msgflg.nowait ≡ false)

pub find_item-NonePasses :
    (t : Task) (xs : List Item) (i : ℕ) → find_item t xs i ≡ none → NonePasses t xs
unfolding find_item
find_item-NonePasses t [] i h = tt
find_item-NonePasses t (x ∷ xs) i h = elim (Bool-cases (passes t x)) [
  | inl e ↦ absurd (ground arith)
  | inr e ↦ (e, find_item-NonePasses t xs (i + 1) (rw e at h))
]

pub find_item_hit :
    (t : Task) (xs : List Item) (x : Item) (i : ℕ)
    → passes t x ≡ true
    → (j : ℕ) × (y : Item) × (find_item t (xs ++ x ∷ []) i ≡ some (j, y))
unfolding find_item
find_item_hit t [] x i hit = (i, x, rw hit refl)
find_item_hit t (y ∷ ys) x i hit = elim (Bool-cases (passes t y)) [
  | inl e ↦ (i, y, rw e refl)
  | inr e ↦ let (j, z, k) = find_item_hit t ys x (i + 1) hit in (j, z, rw e k)
]

-- The tracees that msgsnd(2) wakes.
pub wake_receiver_inv :
    (namespace index : ℕ) (x : Item) (ts ts' : List Task) (k : ℕ) (t t' : Task)
    → wake_receiver namespace index x ts ≡ ok ts'
    → get_elem? ts k ≡ some t
    → get_elem? ts' k ≡ some t'
    → (t' ≡ t)
      ⊎ ((waits_on waits_recv namespace index t ≡ true)
          × (passes t x ≡ true)
          × (wake_tracee (record t { chain_state = msgrcv_retry }) (err eagain) ≡ ok t'))
unfolding wake_receiver
wake_receiver_inv namespace index x [] ts' k t t' h at_k at_k' = absurd (cc)
wake_receiver_inv namespace index x (s ∷ ss) ts' k t t' h at_k at_k' =
    elim (Bool-cases (waits_on waits_recv namespace index s && passes s x)) [
      | inl on ↦
          let (s', e, rest) =
            >>=-eq-ok (wake_tracee (record s { chain_state = msgrcv_retry }) (err eagain)) _
              (rw on at h) in
          woken k s' e (let k : ◌≡◌ {A = Result (List Task)} (ok (s' ∷ ss)) (ok ts') = rest in cc)
            at_k at_k' on
      | inr off ↦
          let (ss', e, rest) = >>=-eq-ok (wake_receiver namespace index x ss) _ (rw off at h) in
          passed k ss' (let k : ◌≡◌ {A = Result (List Task)} (ok (s ∷ ss')) (ok ts') = rest in cc)
            at_k at_k' (λ k' a a'. wake_receiver_inv namespace index x ss ss' k' t t' e a a')
    ]
  where
    End : Type 0
    End =
        (t' ≡ t)
        ⊎ ((waits_on waits_recv namespace index t ≡ true)
            × (passes t x ≡ true)
            × (wake_tracee (record t { chain_state = msgrcv_retry }) (err eagain) ≡ ok t'))

    woken :
        (j : ℕ) (s' : Task)
        → wake_tracee (record s { chain_state = msgrcv_retry }) (err eagain) ≡ ok s'
        → ts' ≡ s' ∷ ss
        → get_elem? (s ∷ ss) j ≡ some t
        → get_elem? ts' j ≡ some t'
        → (waits_on waits_recv namespace index s && passes s x) ≡ true
        → End
    woken zero s' e shape a a' on =
        let same : s ≡ t = cc in
        let same' : s' ≡ t' = let b : get_elem? (s' ∷ ss) zero ≡ some t' = rw shape at a' in cc in
        let on' : (waits_on waits_recv namespace index t && passes t x) ≡ true = rw same at on in
        inr (ground arith, ground arith, rw (same, same') at e)
    woken (suc j) s' e shape a a' on = let b : get_elem? ss j ≡ some t' = rw shape at a' in inl (cc)

    passed :
        (j : ℕ) (ss' : List Task)
        → ts' ≡ s ∷ ss'
        → get_elem? (s ∷ ss) j ≡ some t
        → get_elem? ts' j ≡ some t'
        → ((k' : ℕ) → get_elem? ss k' ≡ some t → get_elem? ss' k' ≡ some t' → End)
        → End
    passed zero ss' shape a a' rest =
        let b : get_elem? (s ∷ ss') zero ≡ some t' = rw shape at a' in inl (cc)
    passed (suc j) ss' shape a a' rest = rest j a (rw shape at a')

-- What a receiver whose memory can be written gets.
abbrev pub IsServed : Result Received → Type 0
IsServed reply = ((m : ℕ) × (text : Bytes) × (reply ≡ ok (message m text))) ⊎ (reply ≡ err e2big)

pub taken-IsServed :
    (r : Receiving) (index i : ℕ) (q : MsgQueue) (x : Item) (w : Receipt)
    → w.write_type ≡ ok tt
    → w.write_text ≡ ok tt
    → ((taken r index i x (deliver r.task q x w)).0.task ≡ r.task)
      × IsServed (taken r index i x (deliver r.task q x w)).1
unfolding deliver
taken-IsServed r index i q x w a b =
    elim (Bool-cases (ltb r.task.msgrcv_msgsz x.mtext_length && not r.task.msgrcv_msgflg.noerror)) [
      | inl e ↦ rw e (refl, inr refl)
      | inr e ↦ rw (e, a, b) (refl, inl (_, _, refl))
    ]

pub do_msgrcv-IsServed :
    (r : Receiving) (index : ℕ) (q : MsgQueue) (w : Receipt) (i : ℕ) (x : Item)
    → MayWait r.task
    → find_item r.task q.items 0 ≡ some (i, x)
    → w.write_type ≡ ok tt
    → w.write_text ≡ ok tt
    → ((do_msgrcv r index q w).0.task ≡ r.task) × IsServed (do_msgrcv r index q w).1
unfolding do_msgrcv
do_msgrcv-IsServed r index q w i x (size, flags, waits) found a b =
    let chosen : chosen_item r.task q ≡ some (i, x) = ground arith in
    rw (size, flags, chosen) (taken-IsServed r index i q x w a b)

-- A wake-up changes these fields and no other.
pub wake_tracee_inv :
    (t t' : Task)
    → wake_tracee (record t { chain_state = msgrcv_retry }) (err eagain) ≡ ok t'
    → (t'.chain_state ≡ msgrcv_retry)
      × (t'.status_after_wait ≡ err eagain)
      × (t'.wait_reason ≡ not_waiting)
      × (t'.waiting_object_index ≡ t.waiting_object_index)
      × (t'.msgrcv_msgsz ≡ t.msgrcv_msgsz)
      × (t'.msgrcv_msgtyp ≡ t.msgrcv_msgtyp)
      × (t'.msgrcv_msgflg ≡ t.msgrcv_msgflg)
unfolding wake_tracee
wake_tracee_inv t t' h = (
  ground arith,
  ground arith,
  ground arith,
  ground arith,
  ground arith,
  ground arith,
  ground arith,
)

pub not_again_awake :
    (d : Receiving × Result Received)
    → is_waiting d.0.task.wait_reason ≡ false
    → unchained (not_again d)
      ≡ (record d.0 { task = record d.0.task { chain_state = not_chained } }, d.1)
not_again_awake (r, reply) h = rw h refl

pub retry_at_found :
    (r : Receiving) (w : Receipt) (o : Option MsgQueue) (q : MsgQueue)
    → o ≡ some q
    → q.common.valid ≡ true
    → retry_at r w o ≡ ok (unchained (not_again (do_msgrcv r r.task.waiting_object_index q w)))
retry_at_found r w none q e valid = absurd (cc)
retry_at_found r w (some p) q e valid =
    let same : p ≡ q = cc in
    rw same (elim (Bool-cases q.common.valid) [
      | inl yes_valid ↦ simp yes_valid refl
      | inr no_valid ↦ absurd (cc)
    ])

pub retry_status_eagain :
    (r : Receiving) (w : Receipt) (c : ChainState) (s : Result ℕ)
    → c ≡ msgrcv_retry
    → s ≡ err eagain
    → (if retries c then retry_status r w s else err assertion)
      ≡ retry_at r w (get_elem? r.queues r.task.waiting_object_index)
unfolding retry_status
retry_status_eagain r w c s e f = rw (e, f) refl

-- The retry in a state where its queue has a message for it.
pub retry-IsServed :
    (r : Receiving) (q : MsgQueue) (w : Receipt) (i : ℕ) (x : Item)
    → r.task.chain_state ≡ msgrcv_retry
    → r.task.status_after_wait ≡ err eagain
    → r.task.wait_reason ≡ not_waiting
    → get_elem? r.queues r.task.waiting_object_index ≡ some q
    → q.common.valid ≡ true
    → MayWait r.task
    → find_item r.task q.items 0 ≡ some (i, x)
    → w.write_type ≡ ok tt
    → w.write_text ≡ ok tt
    → (r' : Receiving) × (reply : Result Received) × (retry_msgrcv r w ≡ ok (r', reply))
      × (r'.task.wait_reason ≡ not_waiting)
      × (r'.task.chain_state ≡ not_chained)
      × IsServed reply
unfolding retry_msgrcv
retry-IsServed r q w i x chain status reason at_q valid may found a b =
    let d = do_msgrcv r r.task.waiting_object_index q w in
    let (same, served) = do_msgrcv-IsServed r r.task.waiting_object_index q w i x may found a b in
    let awake : d.0.task.wait_reason ≡ not_waiting = rw same reason in
    (
      record d.0 { task = record d.0.task { chain_state = not_chained } },
      d.1,
      retry_status_eagain r w r.task.chain_state r.task.status_after_wait chain status
          ∙ retry_at_found r w (get_elem? r.queues r.task.waiting_object_index) q at_q valid
          ∙ ap ok (not_again_awake d (rw awake refl)),
      awake,
      refl,
      served,
    )
