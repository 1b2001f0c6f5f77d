-- ===== src/Ipc/Object/Search.antt =====
-- The search of a key finds the object that a get call puts into the array.
use vm_forge.Prelude.{
  ℕ, zero, suc, ◌+◌, ◌%◌, ◌≤◌, ◌<◌, ◌≡◌, ◌⊎◌, refl, sym, ap, ◌∙◌, true, not, ◌&&◌, List, [], ◌∷◌,
  ◌++◌, arith, ◌==◌, if◌then◌else◌, inl, length, set, Option, some, none,
}
use vm_forge.Ipc.Object.{IpcObject, search_key}

-- Whether an object is the one that the key's word names.
abbrev IsNamed : ℕ → IpcObject → Type 0
IsNamed word c = (c.valid ≡ true) × (c.key ≡ word % 4294967296)

module _ {A : Type 0} (common : A → IpcObject) (word : ℕ) where
  -- The slot that the search gives is one of the array.
  pub search_slot :
      (objects : List A) (start : ℕ) (unused : Option ℕ) (i : ℕ)
      → search_key common word objects start unused ≡ (none, some i)
      → (unused ≡ some i) ⊎ ((start ≤ i) × (i < start + length objects))
  unfolding search_key
  search_slot [] start unused i h = inl (ap (λ (p : Option ℕ × Option ℕ). p.1) h)
  search_slot (x ∷ xs) start unused i h =
      ground (arith, search_slot xs (start + 1) unused i, search_slot xs (start + 1) (some start) i)

  -- The first component of the search, by itself.
  find_key : List A → ℕ → Option ℕ
  find_key [] i = none
  find_key (o ∷ os) i =
      let next = find_key os (i + 1) in
      if (common o).valid && (not (word == 0) && ((common o).key == word % 4294967296))
      then some i
      else next

  search-find_key :
      (objects : List A) (start : ℕ) (unused : Option ℕ)
      → (search_key common word objects start unused).0 ≡ find_key objects start
  unfolding search_key find_key
  search-find_key [] start unused = refl
  search-find_key (x ∷ xs) start unused =
      ground
        (arith, search-find_key xs (start + 1) unused, search-find_key xs (start + 1) (some start))

  module _ (o : A) (nonzero : 0 < word) (named : IsNamed word (common o)) where
    find-set :
        (objects : List A) (start j : ℕ)
        → find_key objects start ≡ none
        → j < length objects
        → find_key (set objects j o) start ≡ some (start + j)
    unfolding find_key
    find-set [] start j h l = absurd (omega arith)
    find-set (x ∷ xs) start zero h l = ground arith
    find-set (x ∷ xs) start (suc j) h l = ground (arith, find-set xs (start + 1) j)

    find-append :
        (objects : List A) (start : ℕ)
        → find_key objects start ≡ none
        → find_key (objects ++ o ∷ []) start ≡ some (start + length objects)
    unfolding find_key
    find-append [] start h = ground arith
    find-append (x ∷ xs) start h = ground (arith, find-append xs (start + 1))

    -- Where no object has the key, the search finds one of that key that is put into the array.
    pub search-set :
        (objects : List A) (j : ℕ)
        → (search_key common word objects 0 none).0 ≡ none
        → j < length objects
        → (search_key common word (set objects j o) 0 none).0 ≡ some j
    search-set objects j h l =
        search-find_key (set objects j o) 0 none
        ∙ find-set objects 0 j (sym (search-find_key objects 0 none) ∙ h) l
        ∙ ap some (omega arith)

    -- The same for an object that is put at the end.
    pub search-append :
        (objects : List A)
        → (search_key common word objects 0 none).0 ≡ none
        → (search_key common word (objects ++ o ∷ []) 0 none).0 ≡ some (length objects)
    search-append objects h =
        search-find_key (objects ++ o ∷ []) 0 none
        ∙ find-append objects 0 (sym (search-find_key objects 0 none) ∙ h)
        ∙ ap some (omega arith)
