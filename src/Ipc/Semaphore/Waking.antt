-- ===== src/Ipc/Semaphore/Waking.antt =====
-- Which tracees the loop of sysvipc_semop in extension/sysvipc/sysvipc_sem.c lets go on.
use vm_forge.Prelude.{
  ℕ, ◌≡◌, ◌⊎◌, refl, true, false, not, ◌&&◌, List, [], ◌∷◌, ◌==◌, Option, some, none, arith, inl,
  inr,
}
use vm_forge.Prelude.Errors.{Result, ok, Ensures, Ensures-if, Ensures-bind, Ensures-elim}
use vm_forge.Ipc.Task.{Task, not_waiting, wake_tracee, waits_on, waits_semop}
use vm_forge.Ipc.Semaphore.{check_others, check_ops, committed, answer, wake_if}

-- A tracee is as before, or it is another one that waited for the set and waits no longer.
abbrev pub LetGo : ℕ → ℕ → ℕ → Task → Task → Type 0
LetGo self namespace index t t' =
    (t' ≡ t)
    ⊎ ((t.tid == self) ≡ false
        × waits_on waits_semop namespace index t ≡ true
        × t'.wait_reason ≡ not_waiting
        × t'.semop_sops ≡ [])

abbrev pub AllLetGo : ℕ → ℕ → ℕ → List Task → List Task → Type 0
AllLetGo self namespace index [] [] = Unit
AllLetGo self namespace index (t ∷ ts) (t' ∷ ts') =
    LetGo self namespace index t t' × AllLetGo self namespace index ts ts'
AllLetGo self namespace index _ _ = true ≡ false

wake_if_inv :
    (t t' : Task) (status : Option (Result ℕ))
    → wake_if t status ≡ ok t'
    → (t' ≡ t) ⊎ ((t'.wait_reason ≡ not_waiting) × (t'.semop_sops ≡ []))
unfolding wake_tracee
wake_if_inv t t' none h = inl (cc)
wake_if_inv t t' (some status) h = inr (ground arith)

woken_LetGo :
    (self namespace index : ℕ) (t t' : Task) (status : Option (Result ℕ))
    → (not (t.tid == self) && waits_on waits_semop namespace index t) ≡ true
    → wake_if t status ≡ ok t'
    → LetGo self namespace index t t'
woken_LetGo self namespace index t t' status on h = elim (wake_if_inv t t' status h) [
  | inl same ↦ inl same
  | inr (reason, sops) ↦ inr (ground arith, ground arith, reason, sops)
]

check_others-Ensures :
    (self namespace index : ℕ) (ts : List Task) (sems : List ℕ)
    → Ensures
        (λ r. AllLetGo self namespace index ts r.0)
        (check_others self namespace index ts sems)
unfolding check_others
check_others-Ensures self namespace index [] sems = tt
check_others-Ensures self namespace index (t ∷ ts) sems =
    let Q : List Task × List ℕ → Type 0 = λ r. AllLetGo self namespace index (t ∷ ts) r.0 in
    let R : List Task × List ℕ → Type 0 = λ r. AllLetGo self namespace index ts r.0 in
    let checked = check_ops t.semop_sops sems in
    Ensures-if Q (not (t.tid == self) && waits_on waits_semop namespace index t) _ _
      (λ on. Ensures-bind Q (wake_if t (answer checked)) _ λ t' e.
        Ensures-bind Q (check_others self namespace index ts (committed checked sems)) _
          λ (ts', sems') k. (
            woken_LetGo self namespace index t t' (answer checked) on e,
            Ensures-elim R _ (check_others-Ensures self namespace index ts (committed checked sems))
                k,
          ))
      (λ off. Ensures-bind Q (check_others self namespace index ts sems) _ λ (ts', sems') k.
        (inl refl, Ensures-elim R _ (check_others-Ensures self namespace index ts sems) k))

-- The loop over the other tracees changes none but those that wait for an operation on the set, and
-- one that it changes waits no longer and has no operations left. No tracee is lost.
pub check_others-AllLetGo :
    (self namespace index : ℕ) (ts ts' : List Task) (sems sems' : List ℕ)
    → check_others self namespace index ts sems ≡ ok (ts', sems')
    → AllLetGo self namespace index ts ts'
check_others-AllLetGo self namespace index ts ts' sems sems' h =
    Ensures-elim (λ r. AllLetGo self namespace index ts r.0) _
      (check_others-Ensures self namespace index ts sems) h
