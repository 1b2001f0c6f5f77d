-- ===== src/Syscalls/Netlink/Scan.antt =====
-- The loop over the attributes of a request, and the name that it copies.
use mathlib.Core.Path.{subst}
use vm_forge.Prelude.{
  ℕ, suc, ◌+◌, ◌-◌, ◌≤◌, ◌<◌, ◌≡◌, refl, sym, inl, inr, false, [], ◌∷◌, ◌++◌, arith, length,
  length-append, take, drop, replicate, ltb, ◌==◌, if◌then◌else◌, append_assoc, Bool-cases, Option,
  some, take-length_self, drop-length_append,
}
use vm_forge.Prelude.Bytes.{Bytes, IsText}
use vm_forge.Syscalls.Netlink.{bytes32, rta_length, rta_space, with_nul}
use vm_forge.Syscalls.Netlink.Request.{read16, read32, until_nul, copied_name, scan_attrs}
use vm_forge.Syscalls.Netlink.Stores.{attr, length-attr}

pub read32-bytes32 : (n : ℕ) (rest : Bytes) → n < 4294967296 → read32 (bytes32 n ++ rest) ≡ n
read32-bytes32 n rest h = omega arith

-- The C string of a buffer that was filled with a text, or with a text and its NUL.
pub until_nul-take :
    (name rest : Bytes) → IsText name → until_nul (take (length name) (name ++ rest)) ≡ name
until_nul-take [] rest text = refl
until_nul-take (c ∷ name) rest (p, text) =
    let not_nul : (c == 0) ≡ false = ground (arith, p) in
    rw (not_nul, until_nul-take name rest text) refl

pub until_nul-take_nul :
    (name rest : Bytes)
    → IsText name
    → until_nul (take (length name + 1) (name ++ (0 ∷ rest))) ≡ name
until_nul-take_nul [] rest text = refl
until_nul-take_nul (c ∷ name) rest (p, text) =
    let not_nul : (c == 0) ≡ false = ground (arith, p) in
    let next : suc (length name) + 1 ≡ suc (length name + 1) = omega arith in
    rw next (rw (not_nul, until_nul-take_nul name rest text) refl)

-- A round of the loop passes over one attribute.
pub scan_attrs-attr :
    (fuel type dlen : ℕ) (payload rest : Bytes) (name : Option Bytes)
    → dlen ≤ length payload
    → dlen < 65532
    → type < 65536
    → scan_attrs (suc fuel) (attr type dlen payload ++ rest) name
      ≡ scan_attrs fuel rest (
          if type == 3
          then some (copied_name (attr type dlen payload ++ rest) (rta_length dlen))
          else name)
unfolding scan_attrs
scan_attrs-attr fuel type dlen payload rest name read small narrow =
    let all = attr type dlen payload ++ rest in
    let rlen : read16 all ≡ rta_length dlen = omega arith in
    let kind : read16 (drop 2 all) ≡ type = omega arith in
    let size = length-attr type dlen payload read in
    let total = length-append (attr type dlen payload) rest in
    let header : ltb (length all) 4 ≡ false = ground (arith, size, total) in
    let long : ltb (rta_length dlen) 4 ≡ false = ground arith in
    let whole : ltb (length all) (rta_length dlen) ≡ false = ground (arith, size, total) in
    let next : drop (rta_space dlen) all ≡ rest =
      subst (λ (n : ℕ). drop n all ≡ rest) (size)
        (drop-length_append (attr type dlen payload) rest) in
    rw (rlen, kind, header, long, whole, next) refl

pub copied_name-attr :
    (name rest : Bytes)
    → IsText name
    → length name ≤ 15
    → copied_name (attr 3 (length name + 1) (with_nul name) ++ rest) (rta_length (length name + 1))
      ≡ name
unfolding copied_name
copied_name-attr name rest text short =
    let dlen : rta_length (length name + 1) - 4 ≡ length name + 1 = omega arith in
    let whole : take (length name + 1) (with_nul name) ≡ with_nul name =
      subst (λ (n : ℕ). take n (with_nul name) ≡ with_nul name) (length-append name (0 ∷ []))
        (take-length_self (with_nul name)) in
    let zeros = replicate (rta_space (length name + 1) - rta_length (length name + 1)) 0 in
    let joined : name ++ (0 ∷ []) ++ zeros ++ rest ≡ name ++ (0 ∷ (zeros ++ rest)) =
      simp append_assoc refl in
    elim (Bool-cases (ltb (length name + 1) 16)) [
      | inl room ↦ rw (dlen, whole, room, joined) (until_nul-take_nul name (zeros ++ rest) text)
      | inr full ↦
          let exact : 15 ≡ length name = ground arith in
          rw (dlen, whole, full, joined)
            (subst (λ (n : ℕ). until_nul (take n (name ++ (0 ∷ (zeros ++ rest)))) ≡ name)
              (sym exact) (until_nul-take name (0 ∷ (zeros ++ rest)) text))
    ]
