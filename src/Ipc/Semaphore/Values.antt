-- ===== src/Ipc/Semaphore/Values.antt =====
-- The values of a semaphore set: their bound, and what the operations add and take.
use vm_forge.Prelude.{
  ℕ, zero, suc, ◌+◌, ◌-◌, ◌≤◌, ◌<◌, ◌≡◌, ◌⊎◌, refl, ◌∙◌, Bool, true, not, ◌&&◌, List, [], ◌∷◌,
  arith, ◌==◌, if◌then◌else◌, inl, inr, length, get_or, set, length-set,
}
use vm_forge.Prelude.Errors.{ok, Ensures, Ensures-if, Ensures-bind, Ensures-elim, ◌>>=◌}
use vm_forge.Prelude.Int.{ℤ, pos, negsuc, pos_part, neg_part}
use vm_forge.Ipc.Task.{Task, Sembuf, waits_on, waits_semop}
use vm_forge.Ipc.Semaphore.{
  max_semval, Check, performed, waits, fails, perform, perform_op, check_ops, check_others, wake_if,
  committed, answer, in_range,
}

-- A set of `n` values within SEMVMX.
abbrev pub Within : List ℕ → Type 0
Within [] = Unit
Within (v ∷ vs) = (v ≤ max_semval) × Within vs

abbrev pub IsSetOf : ℕ → List ℕ → Type 0
IsSetOf n sems = (length sems ≡ n) × Within sems

pub Within-set : (vs : List ℕ) (i v : ℕ) → v ≤ max_semval → Within vs → Within (set vs i v)
Within-set [] i v h w = tt
Within-set (x ∷ vs) zero v h w = (h, w.1)
Within-set (x ∷ vs) (suc i) v h w = (w.0, Within-set vs i v h w.1)

-- The value that an operation gives to its semaphore.
abbrev new_value : ℤ → ℕ → ℕ
new_value (pos n) v = v + n
new_value (negsuc n) v = v - suc n

perform_cases :
    (op : ℤ) (k : ℕ) (nowait : Bool) (sems sems' : List ℕ)
    → perform_op op k nowait sems ≡ performed sems'
    → ((sems' ≡ sems) × (op ≡ pos 0))
      ⊎ ((new_value op (get_or sems k 0) ≤ max_semval)
          × (sems' ≡ set sems k (new_value op (get_or sems k 0))))
unfolding perform_op
perform_cases (pos n) k nowait sems sems' h = ground arith
perform_cases (negsuc n) k nowait sems sems' h = ground arith

perform-IsSetOf :
    (n : ℕ) (s : Sembuf) (sems sems' : List ℕ)
    → IsSetOf n sems
    → perform s sems ≡ performed sems'
    → IsSetOf n sems'
perform-IsSetOf n s sems sems' w h = elim (perform_cases s.sem_op s.sem_num s.nowait sems sems' h) [
  | inl e ↦ rw e.0 w
  | inr (small, e) ↦ rw e (length-set sems s.sem_num _ ∙ w.0, Within-set sems s.sem_num _ small w.1)
]

-- Inversion of the loop's step.
check_step :
    (s : Sembuf) (ops : List Sembuf) (sems sems' : List ℕ)
    → check_ops (s ∷ ops) sems ≡ performed sems'
    → (middle : List ℕ) × (perform s sems ≡ performed middle)
      × (check_ops ops middle ≡ performed sems')
unfolding check_ops
check_step s ops sems sems' h = by_result (perform s sems) refl h
  where
    by_result :
        (c : Check)
        → perform s sems ≡ c
        → elim c as (λ _. Check) [
          | performed m ↦ check_ops ops m
          | waits w ↦ waits w
          | fails e ↦ fails e
        ]
          ≡ performed sems'
        → (middle : List ℕ) × (perform s sems ≡ performed middle)
          × (check_ops ops middle ≡ performed sems')
    by_result (performed m) e k = (m, e, k)
    by_result (waits w) e k = cc
    by_result (fails x) e k = cc

check_ops-IsSetOf :
    (n : ℕ) (ops : List Sembuf) (sems sems' : List ℕ)
    → IsSetOf n sems
    → check_ops ops sems ≡ performed sems'
    → IsSetOf n sems'
unfolding check_ops
check_ops-IsSetOf n [] sems sems' w h = let e : sems ≡ sems' = cc in rw (← e) w
check_ops-IsSetOf n (s ∷ ops) sems sems' w h =
    let (middle, p, r) = check_step s ops sems sems' h in
    check_ops-IsSetOf n ops middle sems' (perform-IsSetOf n s sems middle w p) r

-- What the operations on the semaphore `k` add to it, and what they take.
pub raised : ℕ → List Sembuf → ℕ
raised k [] = 0
raised k (s ∷ ops) = (if s.sem_num == k then pos_part s.sem_op else 0) + raised k ops

pub lowered : ℕ → List Sembuf → ℕ
lowered k [] = 0
lowered k (s ∷ ops) = (if s.sem_num == k then neg_part s.sem_op else 0) + lowered k ops

get_or-set :
    (vs : List ℕ) (i k v : ℕ)
    → i < length vs
    → get_or (set vs i v) k 0 ≡ (if i == k then v else get_or vs k 0)
get_or-set [] i k v h = absurd (omega arith)
get_or-set (x ∷ vs) zero zero v h = refl
get_or-set (x ∷ vs) zero (suc k) v h = ground arith
get_or-set (x ∷ vs) (suc i) zero v h = ground arith
get_or-set (x ∷ vs) (suc i) (suc k) v h = ground (arith, get_or-set vs i k v)

perform_balance :
    (op : ℤ) (i : ℕ) (nowait : Bool) (sems sems' : List ℕ) (k : ℕ)
    → i < length sems
    → perform_op op i nowait sems ≡ performed sems'
    → get_or sems' k 0 + (if i == k then neg_part op else 0)
      ≡ get_or sems k 0 + (if i == k then pos_part op else 0)
unfolding perform_op
perform_balance (pos n) i nowait sems sems' k l h =
    ground (arith, get_or-set sems i k (get_or sems i 0 + n))
perform_balance (negsuc n) i nowait sems sems' k l h =
    ground (arith, get_or-set sems i k (get_or sems i 0 - suc n))

-- The operations of one call are performed together: each semaphore ends with its old value, plus
-- what they add to it, less what they take. Every operation names a semaphore of the set.
pub check_ops-balance :
    (n : ℕ) (ops : List Sembuf) (sems sems' : List ℕ) (k : ℕ)
    → IsSetOf n sems
    → in_range n ops ≡ true
    → check_ops ops sems ≡ performed sems'
    → get_or sems' k 0 + lowered k ops ≡ get_or sems k 0 + raised k ops
unfolding check_ops raised lowered in_range
check_ops-balance n [] sems sems' k w r h = ground arith
check_ops-balance n (s ∷ ops) sems sems' k w r h =
    let (middle, p, q) = check_step s ops sems sems' h in
    let inside : s.sem_num < length sems = ground arith in
    let rest =
      check_ops-balance n ops middle sems' k (perform-IsSetOf n s sems middle w p) (ground arith)
        q in
    omega (arith, perform_balance s.sem_op s.sem_num s.nowait sems middle k inside p, rest)

pub committed-IsSetOf :
    (n : ℕ) (ops : List Sembuf) (sems : List ℕ)
    → IsSetOf n sems
    → IsSetOf n (committed (check_ops ops sems) sems)
committed-IsSetOf n ops sems w = by_check (check_ops ops sems) refl
  where
    by_check : (c : Check) → check_ops ops sems ≡ c → IsSetOf n (committed c sems)
    by_check (performed sems') e = check_ops-IsSetOf n ops sems sems' w e
    by_check (waits t) e = w
    by_check (fails x) e = w

pub check_others-IsSetOf :
    (self namespace index n : ℕ) (ts : List Task) (sems : List ℕ)
    → IsSetOf n sems
    → Ensures (λ r. IsSetOf n r.1) (check_others self namespace index ts sems)
unfolding check_others
check_others-IsSetOf self namespace index n [] sems w = w
check_others-IsSetOf self namespace index n (t ∷ ts) sems w =
    Ensures-if (λ r. IsSetOf n r.1) (not (t.tid == self) && waits_on waits_semop namespace index t)
      _ (check_others self namespace index ts sems >>= λ (ts', sems'). ok (t ∷ ts', sems'))
      (λ _.
        Ensures-bind (λ r. IsSetOf n r.1) (wake_if t (answer (check_ops t.semop_sops sems))) _
          λ t' _.
            Ensures-bind (λ r. IsSetOf n r.1)
              (check_others self namespace index ts (committed (check_ops t.semop_sops sems) sems))
              _
              λ r e.
                Ensures-elim (λ r. IsSetOf n r.1) _
                  (check_others-IsSetOf self namespace index n ts _
                    (committed-IsSetOf n t.semop_sops sems w))
                  e)
      (λ _.
        Ensures-bind (λ r. IsSetOf n r.1) (check_others self namespace index ts sems)
          (λ (ts', sems'). ok (t ∷ ts', sems'))
          λ r e.
            Ensures-elim (λ r. IsSetOf n r.1) _
              (check_others-IsSetOf self namespace index n ts sems w) e)
