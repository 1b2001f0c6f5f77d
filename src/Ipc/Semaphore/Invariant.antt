-- ===== src/Ipc/Semaphore/Invariant.antt =====
-- The sets that are in use stay well formed under semop(2), semget(2) and semctl(2).
use vm_forge.Prelude.{
  ℕ, zero, suc, ◌≡◌, ◌≢◌, ◌⊎◌, refl, ap, ◌∙◌, Bool, true, false, ◌||◌, List, arith, ltb, leb, ◌==◌,
  Bool-cases, inl, inr, length, replicate, set, length-set, get_elem?, get_elem?-set_self,
  length-get_elem?, Option, some, none,
}
use vm_forge.Prelude.Errors.{
  Errno, Result, ok, err, Ensures, Ensures-if, Ensures-bind, Ensures-elim,
}
use vm_forge.Ipc.Object.{lookup_object, lookup_inv}
use vm_forge.Ipc.Object.{IpcObject}
use vm_forge.Ipc.Object.InUse.{AllInUse, AllInUse-get, AllInUse-set, AllInUse-append, in_use}
use vm_forge.Ipc.Task.{Sembuf}
use vm_forge.Ipc.Semaphore.{
  max_sems, max_nsems, fail, Call, enqueue, max_nsops, max_semval, check_ops, check_others,
  Semaphore, SemState, semop, semop_found, semop_checked, committed, in_range,
}
use vm_forge.Ipc.Semaphore.Values.{Within-set, IsSetOf, committed-IsSetOf, check_others-IsSetOf}
use vm_forge.Ipc.Object.{search_key}
use vm_forge.Ipc.Semaphore.Control.{
  fresh_semaphore, generation_at, semget, semget_at, semctl, semctl_at, Output, removed,
  without_ipc_64,
}

-- Every set that is in use has as many values as it says, none above SEMVMX.
abbrev pub HoldsValues : Semaphore → Type 0
HoldsValues s = IsSetOf s.nsems s.sems

abbrev pub sem_common : Semaphore → IpcObject
sem_common s = s.common

abbrev pub AllSets : List Semaphore → Type 0
AllSets ss = AllInUse sem_common HoldsValues ss

abbrev Keeps : SemState × Result ℕ → Type 0
Keeps p = AllSets p.0.semaphores

module _ (st : SemState) (all : AllSets st.semaphores) (self namespace : ℕ) where
  semop_checked-Keeps :
      (index : ℕ) (s : Semaphore) (read : Result (List Sembuf))
      → IsSetOf s.nsems s.sems
      → Ensures Keeps (semop_checked st self namespace index s read)
  unfolding semop_checked
  semop_checked-Keeps index s (err e) w = all
  semop_checked-Keeps index s (ok sops) w =
      Ensures-if Keeps (in_range s.nsems sops) _ _
        (λ _.
          Ensures-bind Keeps
            (check_others self namespace index (enqueue st self index sops)
              (committed (check_ops sops s.sems) s.sems))
            _
            λ (tasks, sems) e.
              AllInUse-set sem_common HoldsValues st.semaphores index (record s { sems = sems }) all
                (in_use s.common.valid (
                  Ensures-elim (λ r. IsSetOf s.nsems r.1) _
                    (check_others-IsSetOf self namespace index s.nsems (enqueue st self index sops)
                      _ (committed-IsSetOf s.nsems sops s.sems w))
                    e)))
        (λ _. all)

  semop_found-Keeps :
      (nsops : ℕ) (read : Result (List Sembuf)) (found : Result (ℕ × Semaphore))
      → ((i : ℕ) (s : Semaphore) → found ≡ ok (i, s) → IsSetOf s.nsems s.sems)
      → Ensures Keeps (semop_found st self namespace nsops read found)
  unfolding semop_found
  semop_found-Keeps nsops read (err e) w = all
  semop_found-Keeps nsops read (ok (index, s)) w =
      Ensures-if Keeps (ltb max_nsops nsops) _ _ (λ _. all)
        λ _.
          Ensures-if Keeps (nsops == 0) _ _ (λ _. all)
            λ _. semop_checked-Keeps index s read (w index s refl)

-- semop(2) keeps every set that is in use well formed, whichever tracees it lets go on: as many
-- values as the set says, and none above SEMVMX.
pub semop-AllSets :
    (st st' : SemState) (self namespace id nsops : ℕ) (read : Result (List Sembuf)) (r : Result ℕ)
    → AllSets st.semaphores
    → semop st self namespace id nsops read ≡ ok (st', r)
    → AllSets st'.semaphores
unfolding semop
semop-AllSets st st' self namespace id nsops read r a h =
    Ensures-elim Keeps _
      (semop_found-Keeps st a self namespace nsops read
        (lookup_object (λ (s : Semaphore). s.common) st.semaphores id)
        λ i s e.
          let (at_i, v) = lookup_inv (λ (s : Semaphore). s.common) st.semaphores id i s e in
          AllInUse-get sem_common HoldsValues st.semaphores i s a at_i v)
      h

IsSetOf-replicate : (n : ℕ) → IsSetOf n (replicate n 0)
IsSetOf-replicate zero = (refl, tt)
IsSetOf-replicate (suc n) = let (l, w) = IsSetOf-replicate n in (ap suc l, (omega arith, w))

semget_at-AllSets :
    (ss : List Semaphore) (word nsems : ℕ) (creat excl : Bool) (found unused : Option ℕ)
    → AllSets ss
    → AllSets (semget_at ss word nsems creat excl found unused).0
unfolding semget_at
semget_at-AllSets ss word nsems creat excl (some i) unused a = ground arith
semget_at-AllSets ss word nsems false excl none (some i) a = a
semget_at-AllSets ss word nsems true excl none (some i) a =
    AllInUse-set sem_common HoldsValues ss i (fresh_semaphore word (generation_at ss i) nsems) a
      (IsSetOf-replicate nsems)
semget_at-AllSets ss word nsems false excl none none a = a
semget_at-AllSets ss word nsems true excl none none a =
    elim (Bool-cases (leb max_sems (length ss))) [
      | inl e ↦ rw e a
      | inr e ↦ rw e (
          AllInUse-append sem_common HoldsValues ss (fresh_semaphore word 0 nsems) a
            (IsSetOf-replicate nsems))
    ]

-- semget(2) keeps every set that is in use well formed, on every branch.
pub semget-AllSets :
    (ss : List Semaphore) (word nsems : ℕ) (creat excl : Bool)
    → AllSets ss
    → AllSets (semget ss word nsems creat excl).0
unfolding semget
semget-AllSets ss word nsems creat excl a = elim (Bool-cases (nsems == 0 || ltb max_nsems nsems)) [
  | inl e ↦ rw e a
  | inr e ↦
      let found = search_key (λ (s : Semaphore). s.common) word ss 0 none in
      rw e (semget_at-AllSets ss word nsems creat excl found.0 found.1 a)
]

module _ (st : SemState) (all : AllSets st.semaphores) (namespace : ℕ) where
  -- The commands that change a set: SETVAL and IPC_RMID.
  set_value-AllSets :
      (index : ℕ) (s : Semaphore) (semnum arg : ℕ)
      → IsSetOf s.nsems s.sems
      → ltb max_semval arg ≡ false
      → AllSets (set st.semaphores index (record s { sems = set s.sems semnum arg }))
  set_value-AllSets index s semnum arg w small =
      AllInUse-set sem_common HoldsValues st.semaphores index
        (record s { sems = set s.sems semnum arg }) all
        (in_use s.common.valid
          (length-set s.sems semnum arg ∙ w.0, Within-set s.sems semnum arg (ground arith) w.1))

  remove-AllSets : (index : ℕ) (s : Semaphore) → AllSets (set st.semaphores index (removed s))
  remove-AllSets index s =
      AllInUse-set sem_common HoldsValues st.semaphores index (removed s) all tt

  semctl_at-Keeps :
      (index : ℕ) (s : Semaphore) (semnum cmd arg : ℕ) (write : Output → Result (Unit {0}))
      → IsSetOf s.nsems s.sems
      → Ensures Keeps (semctl_at st namespace index s semnum cmd arg write)
  unfolding semctl_at
  semctl_at-Keeps index s semnum cmd arg write w =
      ground (arith, set_value-AllSets index s semnum arg w, remove-AllSets index s, all)

-- The command is not IPC_RMID, or it fails, or the slot of the identifier's set holds one that is not in use.
abbrev pub IsRemoved : SemState → SemState → ℕ → ℕ → Result ℕ → Type 0
IsRemoved st st' id cmd r =
    (without_ipc_64 cmd ≢ 0)
    ⊎ (((e : Errno) × (r ≡ err e))
        ⊎ ((i : ℕ) × (s : Semaphore) × (s' : Semaphore) × (lookup_object
                (λ (x : Semaphore). x.common) st.semaphores id
              ≡ ok (i, s))
            × (get_elem? st'.semaphores i ≡ some s')
            × (s'.common.valid ≡ false)))

semctl_at-removed :
    (st st' : SemState) (namespace i semnum cmd arg : ℕ) (s : Semaphore)
    (write : Output → Result (Unit {0})) (r : Result ℕ)
    → without_ipc_64 cmd ≡ 0
    → semctl_at st namespace i s semnum cmd arg write ≡ ok (st', r)
    → st'.semaphores ≡ set st.semaphores i (removed s)
unfolding semctl_at
semctl_at-removed st st' namespace i semnum cmd arg s write r rmid h = ground arith

semctl-IsRemoved :
    (st st' : SemState) (namespace id semnum cmd arg : ℕ) (write : Output → Result (Unit {0}))
    (r : Result ℕ)
    → semctl st namespace id semnum cmd arg write ≡ ok (st', r)
    → IsRemoved st st' id cmd r
unfolding semctl
semctl-IsRemoved st st' namespace id semnum cmd arg write r h =
    elim (Bool-cases (without_ipc_64 cmd == 0)) [
      | inl rmid ↦
          by_lookup (ground arith) (lookup_object (λ (x : Semaphore). x.common) st.semaphores id)
            refl h
      | inr other ↦ inl (ground arith)
    ]
  where
    by_lookup :
        without_ipc_64 cmd ≡ 0
        → (found : Result (ℕ × Semaphore))
        → lookup_object (λ (x : Semaphore). x.common) st.semaphores id ≡ found
        → elim found as (λ _. Call) [
          | err e ↦ fail st e
          | ok (index, s) ↦ semctl_at st namespace index s semnum cmd arg write
        ]
          ≡ ok (st', r)
        → IsRemoved st st' id cmd r
    by_lookup rmid (err x) e k = inr (inl (x, ground arith))
    by_lookup rmid (ok (i, s)) e k =
        let (at_i, v) = lookup_inv (λ (x : Semaphore). x.common) st.semaphores id i s e in
        let after = semctl_at-removed st st' namespace i semnum cmd arg s write r rmid k in
        let now : get_elem? st'.semaphores i ≡ some (removed s) = rw after (
          get_elem?-set_self st.semaphores i (removed s) (length-get_elem? st.semaphores i at_i)) in
        inr (inr (i, s, removed s, e, now, refl))

semctl-AllSets_kept :
    (st st' : SemState) (namespace id semnum cmd arg : ℕ) (write : Output → Result (Unit {0}))
    (r : Result ℕ)
    → AllSets st.semaphores
    → semctl st namespace id semnum cmd arg write ≡ ok (st', r)
    → AllSets st'.semaphores
unfolding semctl
semctl-AllSets_kept st st' namespace id semnum cmd arg write r a h =
    by_lookup (lookup_object (λ (s : Semaphore). s.common) st.semaphores id) refl h
  where
    by_lookup :
        (found : Result (ℕ × Semaphore))
        → lookup_object (λ (s : Semaphore). s.common) st.semaphores id ≡ found
        → elim found as (λ _. Call) [
          | err e ↦ fail st e
          | ok (index, s) ↦ semctl_at st namespace index s semnum cmd arg write
        ]
          ≡ ok (st', r)
        → AllSets st'.semaphores
    by_lookup (err x) e k = let same : st.semaphores ≡ st'.semaphores = ground arith in rw same at a
    by_lookup (ok (i, s)) e k =
        let (at_i, v) = lookup_inv (λ (s : Semaphore). s.common) st.semaphores id i s e in
        Ensures-elim Keeps _
          (semctl_at-Keeps st a namespace i s semnum cmd arg write
            (AllInUse-get sem_common HoldsValues st.semaphores i s a at_i v))
          k

-- semctl(2) keeps every set that is in use well formed, whatever the command and its argument are,
-- and IPC_RMID, where it succeeds, takes the identifier's set out of use.
pub semctl-AllSets :
    (st st' : SemState) (namespace id semnum cmd arg : ℕ) (write : Output → Result (Unit {0}))
    (r : Result ℕ)
    → AllSets st.semaphores
    → semctl st namespace id semnum cmd arg write ≡ ok (st', r)
    → AllSets st'.semaphores × IsRemoved st st' id cmd r
semctl-AllSets st st' namespace id semnum cmd arg write r a h = (
  semctl-AllSets_kept st st' namespace id semnum cmd arg write r a h,
  semctl-IsRemoved st st' namespace id semnum cmd arg write r h,
)
