-- ===== src/Syscalls/Netlink/Stores.antt =====
-- Writes to a buffer, one behind the other and one before the other, and an attribute as bytes.
use vm_forge.Prelude.{
  ℕ, zero, suc, ◌+◌, ◌-◌, ◌%◌, ◌≤◌, ◌≡◌, refl, ap, ◌∙◌, true, false, [], ◌∷◌, ◌++◌, arith, length,
  length-append, length-take, length-drop, length-replicate, take, drop, replicate, ltb, leb,
  if◌then◌else◌, append_assoc, take-length_append,
}
use vm_forge.Prelude.Bytes.{Bytes}
use vm_forge.Prelude.Errors.{ok}
use vm_forge.Syscalls.Netlink.{bytes16, rta_length, rta_space, written, store, load, Built}

zero_add : (n : ℕ) → 0 + n ≡ n
zero_add n = omega arith

suc_add : (m n : ℕ) → suc m + n ≡ suc (m + n)
suc_add m n = omega arith

pub drop-drop : (m n : ℕ) (b : Bytes) → drop n (drop m b) ≡ drop (m + n) b
drop-drop zero n b = rw (zero_add n) refl
drop-drop (suc m) zero [] = simp suc_add refl
drop-drop (suc m) (suc n) [] = simp suc_add refl
drop-drop (suc m) n (x ∷ b) = simp suc_add (drop-drop m n b)

pub drop-length_add : (a r : Bytes) (n : ℕ) → drop (length a + n) (a ++ r) ≡ drop n r
drop-length_add [] r n = rw (zero_add n) refl
drop-length_add (x ∷ a) r n = simp suc_add (drop-length_add a r n)

pub drop-take_append : (n : ℕ) (buf r : Bytes) → n ≤ length buf → drop n (take n buf ++ r) ≡ r
drop-take_append zero buf r h = refl
drop-take_append (suc n) [] r h = absurd (omega arith)
drop-take_append (suc n) (x ∷ buf) r h = drop-take_append n buf r (omega arith)

pub length-written :
    (buf : Bytes) (off : ℕ) (new : Bytes)
    → off + length new ≤ length buf
    → length (written buf off new) ≡ length buf
length-written buf off new fits = omega (
  arith,
  length-append {0} (take off buf) (new ++ drop (off + length new) buf),
  length-append {0} new (drop (off + length new) buf),
  length-take {0} off buf,
  length-drop {0} (off + length new) buf,
)

-- A write behind another.
pub written-behind :
    (buf : Bytes) (off : ℕ) (a b : Bytes)
    → off + length a + length b ≤ length buf
    → written (written buf off a) (off + length a) b ≡ written buf off (a ++ b)
written-behind buf zero a b fits =
    simp
      (
        zero_add,
        take-length_append a (drop (length a) buf),
        drop-length_add a (drop (length a) buf) (length b),
        drop-drop (length a) (length b) buf,
        length-append a b,
        append_assoc,
      )
      refl
written-behind [] (suc off) a b fits = absurd (omega arith)
written-behind (x ∷ buf) (suc off) a b fits =
    simp suc_add (ap (λ t. x ∷ t) (written-behind buf off a b (omega arith)))

-- A write of a header before what is there.
pub written-before :
    (buf : Bytes) (off : ℕ) (h body : Bytes)
    → off + length h + length body ≤ length buf
    → written (written buf (off + length h) body) off h ≡ written buf off (h ++ body)
written-before buf zero h body fits =
    let rest = body ++ drop (length h + length body) buf in
    let behind : drop (length h) (take (length h) buf ++ rest) ≡ rest =
      drop-take_append (length h) buf rest (omega arith) in
    simp (zero_add, behind, length-append h body, append_assoc) refl
written-before [] (suc off) h body fits = absurd (omega arith)
written-before (x ∷ buf) (suc off) h body fits =
    simp suc_add (ap (λ t. x ∷ t) (written-before buf off h body (omega arith)))

-- What a reader of the bytes up to the new offset finds.
pub take-written :
    (buf : Bytes) (off : ℕ) (new : Bytes)
    → off ≤ length buf
    → take (off + length new) (written buf off new) ≡ take off buf ++ new
take-written buf zero new fits =
    simp (zero_add, take-length_append new (drop (length new) buf)) refl
take-written [] (suc off) new fits = absurd (omega arith)
take-written (x ∷ buf) (suc off) new fits =
    simp suc_add (ap (λ t. x ∷ t) (take-written buf off new (omega arith)))

-- A buffer with `body` built in it at an offset.
abbrev pub grown : Bytes → ℕ → Bytes → Built
grown buf off body = (written buf off body, off + length body)

-- An attribute, and the attributes with one that is left out where there is no room.
abbrev pub attr : ℕ → ℕ → Bytes → Bytes
attr type dlen payload =
    bytes16 (rta_length dlen)
    ++ (bytes16 type ++ (take dlen payload ++ replicate (rta_space dlen - rta_length dlen) 0))

unfoldable pub fit : ℕ → Bytes → Bytes → Bytes
fit room body a = if ltb room (length body + length a) then body else body ++ a

pub length-attr :
    (type dlen : ℕ) (payload : Bytes)
    → dlen ≤ length payload
    → length (attr type dlen payload) ≡ rta_space dlen
length-attr type dlen payload h = omega (
  arith,
  length-append {0} (take dlen payload) (replicate (rta_space dlen - rta_length dlen) 0),
  length-take {0} dlen payload,
  length-replicate {0} {A = ℕ} (rta_space dlen - rta_length dlen) 0,
)

pub length-fit : (room : ℕ) (body a : Bytes) → length body ≤ room → length (fit room body a) ≤ room
unfolding fit
length-fit room body a h = ground (arith, length-append body a)

pub length-fit_le : (room : ℕ) (body a : Bytes) → length (fit room body a) ≤ length body + length a
unfolding fit
length-fit_le room body a = ground (arith, length-append body a)

pub length-fit_mod :
    (room : ℕ) (body a : Bytes)
    → length body % 4 ≡ 0
    → length a % 4 ≡ 0
    → length (fit room body a) % 4 ≡ 0
unfolding fit
length-fit_mod room body a h k = ground (arith, length-append body a)

pub fit-fits :
    (room : ℕ) (body a : Bytes) → length body + length a ≤ room → fit room body a ≡ body ++ a
unfolding fit
fit-fits room body a h =
    let e : ltb room (length body + length a) ≡ false = ground arith in rw e refl

pub store-ok :
    (buf : Bytes) (off : ℕ) (new : Bytes)
    → off + length new ≤ length buf
    → store buf off new ≡ ok (written buf off new)
unfolding store
store-ok buf off new h =
    let e : leb (off + length new) (length buf) ≡ true = ground arith in rw e refl

pub load-ok : (source : Bytes) (n : ℕ) → n ≤ length source → load source n ≡ ok (take n source)
unfolding load
load-ok source n h = let e : leb n (length source) ≡ true = ground arith in rw e refl

-- Bytes that are stored behind those that were stored last.
pub store-grown :
    (buf : Bytes) (off : ℕ) (body new : Bytes)
    → off + length body + length new ≤ length buf
    → store (written buf off body) (off + length body) new ≡ ok (written buf off (body ++ new))
store-grown buf off body new h =
    let same = length-written buf off body (omega arith) in
    store-ok (written buf off body) (off + length body) new (omega (arith, same))
    ∙ ap ok (written-behind buf off body new h)
