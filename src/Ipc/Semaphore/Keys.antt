-- ===== src/Ipc/Semaphore/Keys.antt =====
-- The keys and identifiers of semaphore sets, over their life from semget() to IPC_RMID.
use vm_forge.Prelude.{
  ℕ, ◌+◌, ◌≤◌, ◌<◌, ◌≡◌, ◌≢◌, refl, ap, Bool, true, false, ◌||◌, List, [], ◌∷◌, ◌++◌, arith, ltb,
  leb, ◌==◌, Bool-cases, inl, inr, length, set, get_elem?-set_self, length-get_elem?, Option, some,
  none, get_elem?,
}
use vm_forge.Prelude.Errors.{Result, ok, err, einval}
use vm_forge.Ipc.Object.{
  IpcObject, lookup_object, lookup_stale, search_key, object_id, next_generation_lem,
}
use vm_forge.Ipc.Object.Search.{search_slot, search-set, search-append}
use vm_forge.Ipc.Semaphore.{max_sems, Semaphore, SemState, max_nsems}
use vm_forge.Ipc.Semaphore.Control.{
  fresh_semaphore, generation_at, without_ipc_64, removed, Output, semget, semget_at, semctl_at,
}

abbrev pub common : Semaphore → IpcObject
common s = s.common

get_elem?-set_here :
    (xs : List Semaphore) (i : ℕ) (v : Semaphore)
    → i < length xs
    → get_elem? (set xs i v) i ≡ some v
get_elem?-set_here xs i v h = get_elem?-set_self xs i v h

get_elem?-append_end :
    (xs : List Semaphore) (v : Semaphore) → get_elem? (xs ++ v ∷ []) (length xs) ≡ some v
get_elem?-append_end [] v = refl
get_elem?-append_end (x ∷ xs) v = get_elem?-append_end xs v

-- The call for a key that a set has.
semget_existing :
    (ss : List Semaphore) (word nsems i : ℕ) (creat : Bool) (s : Semaphore)
    → (nsems == 0 || ltb max_nsems nsems) ≡ false
    → (search_key common word ss 0 none).0 ≡ some i
    → get_elem? ss i ≡ some s
    → nsems ≤ s.nsems
    → semget ss word nsems creat false ≡ (ss, ok (object_id i s.common.generation))
unfolding semget
semget_existing ss word nsems i creat s fits at_key at_i enough =
    rw (fits, at_key, at_i) (ground arith)

-- A set that semget() created is found again by its key: the second call returns the identifier of
-- the first and changes nothing. The key is not IPC_PRIVATE, and the second call is not exclusive.
pub semget_again :
    (ss ss' : List Semaphore) (word nsems id : ℕ) (creat : Bool)
    → 0 < word
    → (search_key common word ss 0 none).0 ≡ none
    → semget ss word nsems true false ≡ (ss', ok id)
    → semget ss' word nsems creat false ≡ (ss', ok id)
unfolding semget
semget_again ss ss' word nsems id creat nonzero absent h =
    elim (Bool-cases (nsems == 0 || ltb max_nsems nsems)) [
      | inl bad ↦ absurd (ground arith)
      | inr fits ↦ by_slot fits (search_key common word ss 0 none).1 refl (rw (fits, absent) at h)
    ]
  where
    by_slot :
        (nsems == 0 || ltb max_nsems nsems) ≡ false
        → (unused : Option ℕ) → (search_key common word ss 0 none).1 ≡ unused
        → semget_at ss word nsems true false none (search_key common word ss 0 none).1
          ≡ (ss', ok id)
        → semget ss' word nsems creat false ≡ (ss', ok id)
    by_slot fits none e k = elim (Bool-cases (leb max_sems (length ss))) [
      | inl full ↦ absurd (ground (arith, rw e at k))
      | inr room ↦
          let s = fresh_semaphore word 0 nsems in
          let made = rw (e, room) at k in
          let states : ss ++ s ∷ [] ≡ ss' = ap (λ (p : List Semaphore × Result ℕ). p.0) made in
          let ids : ok (object_id (length ss) 0) ≡ ok id =
            ap (λ (p : List Semaphore × Result ℕ). p.1) made in
          rw (← states, ← ids)
            (semget_existing (ss ++ s ∷ []) word nsems (length ss) creat s fits
              (search-append common word s nonzero (refl, refl) ss absent)
              (get_elem?-append_end ss s) (omega arith))
    ]
    by_slot fits (some i) e k =
        let s = fresh_semaphore word (generation_at ss i) nsems in
        let made = rw e at k in
        let states : set ss i s ≡ ss' = ap (λ (p : List Semaphore × Result ℕ). p.0) made in
        let ids : ok (object_id i (generation_at ss i)) ≡ ok id =
          ap (λ (p : List Semaphore × Result ℕ). p.1) made in
        let inside : i < length ss =
          ground (arith, search_slot common word ss 0 none i (λ d. (absent d, e d))) in
        rw (← states, ← ids)
          (semget_existing (set ss i s) word nsems i creat s fits
            (search-set common word s nonzero (refl, refl) ss i absent inside)
            (get_elem?-set_self ss i s inside) (omega arith))

-- IPC_RMID ends the identifier of its set: a lookup by it fails, now and whatever is put into the
-- slot, as long as that keeps the slot's generation. The index has 12 bits and the generation has
-- not wrapped.
pub rmid_stale :
    (st st' : SemState) (namespace i semnum arg : ℕ) (s s' : Semaphore) (cmd : ℕ)
    (write : Output → Result (Unit {0})) (r : Result ℕ)
    → get_elem? st.semaphores i ≡ some s
    → i + 1 < 4096
    → s.common.generation < 32767
    → without_ipc_64 cmd ≡ 0
    → semctl_at st namespace i s semnum cmd arg write ≡ ok (st', r)
    → s'.common.generation ≡ generation_at st'.semaphores i
    → lookup_object common (set st'.semaphores i s') (object_id i s.common.generation) ≡ err einval
unfolding semctl_at
rmid_stale st st' namespace i semnum arg s s' cmd write r at_i small fresh rmid h kept =
    let after : st'.semaphores ≡ set st.semaphores i (removed s) = ground arith in
    let inside : i < length st.semaphores = length-get_elem? st.semaphores i at_i in
    let there : get_elem? st'.semaphores i ≡ some (removed s) =
      rw after (get_elem?-set_self st.semaphores i (removed s) inside) in
    let other : s'.common.generation ≢ s.common.generation =
      grind (arith, rw (there, generation_at) at kept, next_generation_lem s.common.generation) in
    lookup_stale common (set st'.semaphores i s') i s' s.common.generation
      (get_elem?-set_self st'.semaphores i s' (length-get_elem? st'.semaphores i there)) small
      (omega arith) other
