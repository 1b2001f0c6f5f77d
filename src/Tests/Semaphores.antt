-- ===== src/Tests/Semaphores.antt =====
-- Semaphores: a set of two values, a tracee that raises one and a tracee that waits for it.
use vm_forge.Prelude.{◌+◌, ◌≡◌, refl, true, false, arith, List, [], ◌∷◌, none, get_or, set}
use vm_forge.Prelude.Int.{pos, negsuc}
use vm_forge.Prelude.Errors.{ok, err, einval}
use vm_forge.Ipc.Object.{object_id, next_generation, lookup_object, search_key}
use vm_forge.Ipc.Task.{
  Task, Sembuf, RecvFlags, not_waiting, wait_semop, idle, entered_ppoll, signaled_ppoll,
  not_chained, wake_tracee,
}
use vm_forge.Ipc.Semaphore.{
  check_others, Semaphore, SemState, check_ops, performed, in_range, semop,
}
use vm_forge.Ipc.Semaphore.Control.{semget, semctl, semctl_at, removed, fresh_semaphore}
use vm_forge.Ipc.Semaphore.Values.{raised, lowered, check_ops-balance}
use vm_forge.Ipc.Semaphore.Invariant.{AllSets, IsRemoved, semop-AllSets, semctl-AllSets}
use vm_forge.Ipc.Semaphore.Waking.{AllLetGo, check_others-AllLetGo}
use vm_forge.Ipc.Semaphore.Keys.{common, semget_again, rmid_stale}

abbrev flags : RecvFlags
flags = record { nowait = false; noerror = false; copy = false; except = false; unknown = false }

abbrev runner : Task
runner = record {
  tid = 1;
  ipc_namespace = 0;
  wait_reason = not_waiting;
  wait_state = idle;
  chain_state = not_chained;
  status_after_wait = ok 0;
  waiting_object_index = 0;
  semop_sops = [];
  msgrcv_msgsz = 0;
  msgrcv_msgtyp = pos 0;
  msgrcv_msgflg = flags;
}

abbrev take_two : Sembuf
take_two = record { sem_num = 0; sem_op = negsuc 1; nowait = false }

abbrev add_three : Sembuf
add_three = record { sem_num = 0; sem_op = pos 3; nowait = true }

abbrev waiter : Task
waiter = record runner {
  tid = 2;
  wait_reason = wait_semop;
  wait_state = entered_ppoll;
  semop_sops = take_two ∷ [];
}

abbrev pair_set : Semaphore
pair_set = record {
  common = record { key = 7; generation = 5; valid = true };
  sems = 1 ∷ 0 ∷ [];
  nsems = 2;
}

abbrev before : SemState
before = record { tasks = runner ∷ waiter ∷ []; semaphores = pair_set ∷ [] }

-- The waiter takes two of the four and is woken.
abbrev after : SemState
after = record {
  tasks =
      runner
      ∷ record waiter { wait_reason = not_waiting; wait_state = signaled_ppoll; semop_sops = [] }
      ∷ [];
  semaphores = record pair_set { sems = 2 ∷ 0 ∷ [] } ∷ [];
}

wakes_waiter : semop before 1 0 (object_id 0 5) 1 (ok (add_three ∷ [])) ≡ ok (after, ok 0)
unfolding semop lookup_object object_id wake_tracee
wakes_waiter = refl

semop-AllSets_example : AllSets after.semaphores
semop-AllSets_example =
    semop-AllSets before after 1 0 (object_id 0 5) 1 (ok (add_three ∷ [])) (ok 0) (ground arith)
      wakes_waiter

balanced : check_ops (add_three ∷ take_two ∷ []) (1 ∷ 0 ∷ []) ≡ performed (2 ∷ 0 ∷ [])
unfolding check_ops
balanced = refl

both_in_range : in_range 2 (add_three ∷ take_two ∷ []) ≡ true
unfolding in_range
both_in_range = refl

check_ops-balance_example :
    get_or (2 ∷ 0 ∷ []) 0 0 + lowered 0 (add_three ∷ take_two ∷ [])
    ≡ get_or (1 ∷ 0 ∷ []) 0 0 + raised 0 (add_three ∷ take_two ∷ [])
check_ops-balance_example =
    check_ops-balance 2 (add_three ∷ take_two ∷ []) (1 ∷ 0 ∷ []) (2 ∷ 0 ∷ []) 0 (ground arith)
      both_in_range balanced

no_such_key : (search_key common 9 (pair_set ∷ []) 0 none).0 ≡ none
unfolding search_key
no_such_key = refl

abbrev two_sets : List Semaphore
two_sets = pair_set ∷ fresh_semaphore 9 0 4 ∷ []

created : semget (pair_set ∷ []) 9 4 true false ≡ (two_sets, ok (object_id 1 0))
unfolding semget search_key
created = refl

semget_again_example : semget two_sets 9 4 false false ≡ (two_sets, ok (object_id 1 0))
semget_again_example =
    semget_again (pair_set ∷ []) two_sets 9 4 (object_id 1 0) false (omega arith) no_such_key
      created

abbrev without_set : SemState
without_set = record { tasks = runner ∷ runner ∷ []; semaphores = removed pair_set ∷ [] }

removal :
    semctl_at (record before { tasks = runner ∷ runner ∷ [] }) 0 0 pair_set 0 0 0 (λ out. ok tt)
    ≡ ok (without_set, ok 0)
unfolding semctl_at
removal = refl

abbrev reused : Semaphore
reused = fresh_semaphore 7 6 1

next_is_six : 6 ≡ (removed pair_set).common.generation
unfolding next_generation
next_is_six = refl

rmid_stale_example :
    lookup_object common (set without_set.semaphores 0 reused) (object_id 0 5) ≡ err einval
rmid_stale_example =
    rmid_stale (record before { tasks = runner ∷ runner ∷ [] }) without_set 0 0 0 0 pair_set reused
      0 (λ out. ok tt) (ok 0) refl (omega arith) (omega arith) refl removal next_is_six

-- SETVAL of the second value to the largest one.
abbrev after_setval : SemState
after_setval = record before { semaphores = record pair_set { sems = 1 ∷ 28672 ∷ [] } ∷ [] }

sets_value : semctl before 0 (object_id 0 5) 1 16 28672 (λ out. ok tt) ≡ ok (after_setval, ok 0)
unfolding semctl lookup_object object_id
sets_value = refl

removes_set :
    semctl (record before { tasks = runner ∷ runner ∷ [] }) 0 (object_id 0 5) 0 0 0 (λ out. ok tt)
    ≡ ok (without_set, ok 0)
unfolding semctl lookup_object object_id
removes_set = refl

semctl-AllSets_example :
    AllSets without_set.semaphores
    × IsRemoved
        (record before { tasks = runner ∷ runner ∷ [] })
        without_set
        (object_id 0 5)
        0
        (ok 0)
semctl-AllSets_example =
    semctl-AllSets (record before { tasks = runner ∷ runner ∷ [] }) without_set 0 (object_id 0 5) 0
      0 0 (λ out. ok tt) (ok 0) (ground arith) removes_set

others_checked :
    check_others 1 0 0 (runner ∷ waiter ∷ []) (4 ∷ 0 ∷ []) ≡ ok (after.tasks, 2 ∷ 0 ∷ [])
unfolding check_others wake_tracee
others_checked = refl

check_others-AllLetGo_example : AllLetGo 1 0 0 (runner ∷ waiter ∷ []) after.tasks
check_others-AllLetGo_example =
    check_others-AllLetGo 1 0 0 (runner ∷ waiter ∷ []) after.tasks (4 ∷ 0 ∷ []) (2 ∷ 0 ∷ [])
      others_checked
