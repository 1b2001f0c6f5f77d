-- ===== src/Ipc/Object/InUse.antt =====
-- A property of every object of an array that is in use.
use vm_forge.Prelude.{
  ℕ, zero, suc, ◌≡◌, ◌++◌, Bool, true, false, List, [], ◌∷◌, set, some, get_elem?,
}
use vm_forge.Ipc.Object.{IpcObject}

abbrev pub WhereTrue : Bool → Type 0 → Type 0
WhereTrue true P = P
WhereTrue false P = Unit

pub in_use : {P : Type 0} (b : Bool) → P → WhereTrue b P
in_use true p = p
in_use false p = tt

module _ {A : Type 0} (common : A → IpcObject) (P : A → Type 0) where
  abbrev pub AllInUse : List A → Type 0
  AllInUse [] = Unit
  AllInUse (o ∷ os) = WhereTrue (common o).valid (P o) × AllInUse os

module _ {A : Type 0} (common : A → IpcObject) (P : A → Type 0) where
  pub AllInUse-get :
      (os : List A) (i : ℕ) (o : A)
      → AllInUse common P os
      → get_elem? os i ≡ some o
      → (common o).valid ≡ true
      → P o
  AllInUse-get [] i o a h v = absurd (cc)
  AllInUse-get (x ∷ xs) zero o a h v =
      let e : x ≡ o = cc in let k : WhereTrue (common o).valid (P o) = rw e at a.0 in rw v at k
  AllInUse-get (x ∷ xs) (suc i) o a h v = AllInUse-get xs i o a.1 h v

  pub AllInUse-set :
      (os : List A) (i : ℕ) (o : A)
      → AllInUse common P os
      → WhereTrue (common o).valid (P o)
      → AllInUse common P (set os i o)
  AllInUse-set [] i o a h = tt
  AllInUse-set (x ∷ xs) zero o a h = (h, a.1)
  AllInUse-set (x ∷ xs) (suc i) o a h = (a.0, AllInUse-set xs i o a.1 h)

  pub AllInUse-append :
      (os : List A) (o : A)
      → AllInUse common P os
      → WhereTrue (common o).valid (P o)
      → AllInUse common P (os ++ o ∷ [])
  AllInUse-append [] o a h = (h, tt)
  AllInUse-append (x ∷ xs) o a h = (a.0, AllInUse-append xs o a.1 h)
