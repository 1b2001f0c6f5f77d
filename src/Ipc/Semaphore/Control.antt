-- ===== src/Ipc/Semaphore/Control.antt =====
-- semget(2) and semctl(2) of extension/sysvipc/sysvipc_sem.c.
use vm_forge.Prelude.{
  ℕ, ◌+◌, ◌-◌, ◌/◌, ◌%◌, Bool, true, false, not, ◌&&◌, ◌||◌, List, [], ◌∷◌, ◌++◌, ltb, leb, ◌==◌,
  if◌then◌else◌, length, get_or, replicate, set, Option, some, none, get_elem?,
}
use vm_forge.Prelude.Errors.{Result, ok, err, einval, enoent, eexist, enospc, erange, eidrm, ◌>>=◌}
use vm_forge.Ipc.Object.{lookup_object, search_key, object_id, next_generation}
use vm_forge.Ipc.Task.{waits_semop, wake_all}
use vm_forge.Ipc.Semaphore.{max_sems, max_nsems, max_semval, Semaphore, SemState, Call, fail}

abbrev pub fresh_semaphore : ℕ → ℕ → ℕ → Semaphore
fresh_semaphore word generation nsems = record {
  common = record { key = word % 4294967296; generation = generation; valid = true };
  sems = replicate nsems 0;
  nsems = nsems;
}

-- The generation that a slot keeps from the object that it held.
abbrev pub generation_at : List Semaphore → ℕ → ℕ
generation_at semaphores i = elim (get_elem? semaphores i) [
  | none ↦ 0
  | some s ↦ s.common.generation
]

-- The end of semget() by what the search found.
unfoldable pub semget_at :
    List Semaphore → ℕ → ℕ → Bool → Bool → Option ℕ → Option ℕ → List Semaphore × Result ℕ
semget_at semaphores word nsems creat excl (some i) unused =
    if creat && excl then (semaphores, err eexist) else elim (get_elem? semaphores i) [
      | none ↦ (semaphores, err einval)
      | some s ↦
          if ltb s.nsems nsems
          then (semaphores, err einval)
          else (semaphores, ok (object_id i s.common.generation))
    ]
semget_at semaphores word nsems creat excl none (some i) =
    if not creat then (semaphores, err enoent) else (
      set semaphores i (fresh_semaphore word (generation_at semaphores i) nsems),
      ok (object_id i (generation_at semaphores i)),
    )
semget_at semaphores word nsems creat excl none none =
    if not creat
    then (semaphores, err enoent)
    else if leb max_sems (length semaphores)
    then (semaphores, err enospc)
    else (semaphores ++ fresh_semaphore word 0 nsems ∷ [], ok (object_id (length semaphores) 0))

-- IPC_CREAT and IPC_EXCL are passed as Booleans; `nsems` is an int, a pattern of 32 bits.
unfoldable pub semget : List Semaphore → ℕ → ℕ → Bool → Bool → List Semaphore × Result ℕ
unfolding semget_at
semget semaphores word nsems creat excl =
    if nsems == 0 || ltb max_nsems nsems
    then (semaphores, err einval)
    else let (found, unused) = search_key (λ (s : Semaphore). s.common) word semaphores 0 none in
      semget_at semaphores word nsems creat excl found unused

abbrev pub removed : Semaphore → Semaphore
removed s = record {
  common = record s.common { valid = false; generation = next_generation s.common.generation };
  sems = [];
  nsems = s.nsems;
}

-- cmd & ~SYSVIPC_IPC_64
abbrev pub without_ipc_64 : ℕ → ℕ
without_ipc_64 cmd = if cmd / 256 % 2 == 1 then cmd - 256 else cmd

-- What semctl() writes to the tracee's memory.
pub data Output : Type 0 where
  all_values : List ℕ → Output
  -- struct SysVIpcSeminfo, with the fields semusz and semaem
  seminfo : ℕ → ℕ → Output

abbrev sum_nsems : List Semaphore → ℕ
sum_nsems [] = 0
sum_nsems (s ∷ ss) = s.nsems + sum_nsems ss

abbrev written : SemState → Result (Unit {0}) → Call
written st (ok _) = ok (st, ok 0)
written st (err e) = ok (st, err e)

-- `write` stores the output at the address that the argument holds.
unfoldable pub semctl_at :
    SemState → ℕ → ℕ → Semaphore → ℕ → ℕ → ℕ → (Output → Result (Unit {0})) → Call
unfolding wake_all
semctl_at st namespace index s semnum cmd arg write =
    let command = without_ipc_64 cmd in
    if command == 12
    then (if leb s.nsems semnum then fail st einval else ok (st, ok (get_or s.sems semnum 0)))
    else if command == 16
    then (if ltb max_semval arg
        then fail st erange
        else if leb s.nsems semnum
        then fail st einval
        else ok (
          record st {
            semaphores = set st.semaphores index (record s { sems = set s.sems semnum arg });
          },
          ok 0,
        ))
    else if command == 13
    then written st (write (all_values s.sems))
    else if command == 0
    then (wake_all waits_semop namespace index eidrm st.tasks >>= λ tasks.
        ok (record { tasks = tasks; semaphores = set st.semaphores index (removed s) }, ok 0))
    else if command == 3 || command == 19
    then written st (
        write (
          if cmd == 19
          then seminfo (length st.semaphores) (sum_nsems st.semaphores)
          else seminfo 0 0))
    else fail st einval

unfoldable pub semctl : SemState → ℕ → ℕ → ℕ → ℕ → ℕ → (Output → Result (Unit {0})) → Call
unfolding semctl_at
semctl st namespace id semnum cmd arg write =
    elim (lookup_object (λ (s : Semaphore). s.common) st.semaphores id) [
      | err e ↦ fail st e
      | ok (index, s) ↦ semctl_at st namespace index s semnum cmd arg write
    ]
