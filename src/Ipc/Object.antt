-- ===== src/Ipc/Object.antt =====
-- The arrays of IPC objects of sysvipc_internal.h: identifiers, LOOKUP_IPC_OBJECT, and the search of
-- a key that sysvipc_semget and sysvipc_msgget share. Words are bit patterns.
use vm_forge.Prelude.{
  ℕ, zero, suc, ◌+◌, ◌-◌, ◌*◌, ◌/◌, ◌%◌, ◌≤◌, ◌<◌, ◌≡◌, ◌≢◌, ◌⊎◌, refl, sym, ap, ◌∙◌, Bool, true,
  not, ◌&&◌, ◌||◌, List, [], ◌∷◌, ◌++◌, arith, ltb, ◌==◌, if◌then◌else◌, inl, length, set, Option,
  some, none, get_elem?, length-get_elem?,
}
use vm_forge.Prelude.Errors.{Result, ok, err, einval}
use vm_forge.Prelude.Bits.{bit_or_fields}
pub mod Search
pub mod InUse
use Prim.Native.Nat.{bit_or, digits, bit_or-bitwise, max}

-- The two fields and the key that every kind of object has. `generation` is an int16_t.
pub record IpcObject : Type 0 where
  pub key : ℕ
  pub generation : ℕ
  pub valid : Bool

-- An int16_t as the int that it becomes, a pattern of 32 bits.
abbrev pub extend16 : ℕ → ℕ
extend16 g = if ltb g 32768 then g else g + (4294967296 - 65536)

-- (index + 1) | (generation << 12), returned as an int
unfoldable pub object_id : ℕ → ℕ → ℕ
object_id index generation =
    bit_or (index + 1) (extend16 generation * 4096 % 4294967296) % 4294967296

-- object->generation++
unfoldable pub next_generation : ℕ → ℕ
next_generation g = (g + 1) % 65536

pub next_generation_lem : (g : ℕ) → g < 65535 → next_generation g ≡ g + 1
unfolding next_generation
next_generation_lem g h = omega arith

-- object->generation == ((object_id >> 12) & 0xFFFF): a negative generation equals none.
abbrev pub same_generation : ℕ → ℕ → Bool
same_generation g id = ltb g 32768 && (g == id / 4096 % 65536)

module _ {A : Type 0} (common : A → IpcObject) where
  unfoldable pub lookup_object : List A → ℕ → Result (ℕ × A)
  lookup_object objects id =
      let object_index = id % 4096 in
      if object_index == 0 || ltb (length objects) object_index
      then err einval
      else elim (get_elem? objects (object_index - 1)) [
        | none ↦ err einval
        | some o ↦
            if not (common o).valid || not (same_generation (common o).generation id)
            then err einval
            else ok (object_index - 1, o)
      ]

  -- The loop over the array: the index of the key's object, and the first slot that is not in use.
  unfoldable pub search_key : ℕ → List A → ℕ → Option ℕ → Option ℕ × Option ℕ
  search_key word [] i unused = (none, unused)
  search_key word (o ∷ os) i unused =
      let found = not (word == 0) && ((common o).key == word % 4294967296) in
      let here : Option ℕ = elim unused [ none ↦ some i | some j ↦ some j ] in
      let next = search_key word os (i + 1) (if (common o).valid then unused else here) in
      if (common o).valid && found then (some i, unused) else next

-- The identifier of a generation that has not wrapped.
pub object_id_lem : (i g : ℕ) → i + 1 < 4096 → g < 32768 → object_id i g ≡ i + 1 + g * 4096
unfolding object_id
object_id_lem i g hi hg =
    let e : extend16 g * 4096 % 4294967296 ≡ g * 4096 = ground arith in
    rw (e, bit_or_fields (i + 1) g hi) (omega arith)

-- The two fields of such an identifier.
index_field : (i g : ℕ) → i + 1 < 4096 → g < 32768 → object_id i g % 4096 ≡ i + 1
index_field i g hi hg = rw (object_id_lem i g hi hg) (omega arith)

generation_field : (i g : ℕ) → i + 1 < 4096 → g < 32768 → object_id i g / 4096 % 65536 ≡ g
generation_field i g hi hg = rw (object_id_lem i g hi hg) (omega arith)

minus_one : (i : ℕ) → i + 1 - 1 ≡ i
minus_one i = omega arith

module _ {A : Type 0} (common : A → IpcObject) (objects : List A) (i : ℕ) (o : A) where
  -- The identifier that a get call returned finds its object, for as long as the object is there.
  -- The index has 12 bits and the generation has not wrapped.
  pub lookup-object_id :
      (g : ℕ)
      → get_elem? objects i ≡ some o
      → i + 1 < 4096
      → g < 32768
      → (common o).valid ≡ true
      → (common o).generation ≡ g
      → lookup_object common objects (object_id i g) ≡ ok (i, o)
  unfolding lookup_object
  lookup-object_id g at_i small fresh valid same =
      rw (index_field i g small fresh, minus_one i, at_i, valid, same)
        (ground (
          arith,
          index_field i g small fresh,
          generation_field i g small fresh,
          length-get_elem? objects i at_i,
        ))

  -- An identifier of another generation is refused: so is one whose object was removed, also when
  -- its slot is in use again.
  pub lookup_stale :
      (g : ℕ)
      → get_elem? objects i ≡ some o
      → i + 1 < 4096
      → g < 32768
      → (common o).generation ≢ g
      → lookup_object common objects (object_id i g) ≡ err einval
  unfolding lookup_object
  lookup_stale g at_i small fresh differs =
      rw (index_field i g small fresh, minus_one i, at_i)
        (ground (arith, generation_field i g small fresh, length-get_elem? objects i at_i))

-- What a successful lookup found.
pub lookup_inv :
    {A : Type 0} (common : A → IpcObject) (objects : List A) (id i : ℕ) (o : A)
    → lookup_object common objects id ≡ ok (i, o)
    → (get_elem? objects i ≡ some o) × ((common o).valid ≡ true)
unfolding lookup_object
lookup_inv common objects id i o h = ground arith
