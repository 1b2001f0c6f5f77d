-- ===== src/Syscalls/Netlink/Routes.antt =====
-- The relay of the host's routes copies whole messages, with the tracee's sequence number and port, and
-- ends with a terminator.
use mathlib.Core.Path.{subst}
use vm_forge.Prelude.{
  ℕ, zero, suc, ◌+◌, ◌-◌, ◌≤◌, ◌≡◌, refl, ap, sym, [], ◌∷◌, ◌++◌, arith, length, length-append,
  length-take, length-drop, length-replicate, take, drop, replicate, append_assoc,
}
use vm_forge.Prelude.Bytes.{Bytes}
use vm_forge.Prelude.Errors.{ok, ◌>>=◌}
use vm_forge.Syscalls.Netlink.{bytes32, align4, written, store}
use vm_forge.Syscalls.Netlink.Request.{read16, read32}
use vm_forge.Syscalls.Netlink.Relay.{stamped, copy_message}
use vm_forge.Syscalls.Netlink.Stores.{grown, load-ok, store-grown, drop-take_append}
use vm_forge.Syscalls.Netlink.Chains.{IsMessage}

-- The first eight bytes of a message are kept.
take-take : (n k : ℕ) (b : Bytes) → k ≤ n → take k (take n b) ≡ take k b
take-take n zero b h = refl
take-take zero (suc k) b h = absurd (omega arith)
take-take (suc n) (suc k) [] h = refl
take-take (suc n) (suc k) (x ∷ b) h = ap (λ t. x ∷ t) (take-take n k b (omega arith))

read-take :
    (b rest : Bytes)
    → 8 ≤ length b
    → (read32 (take 8 b ++ rest) ≡ read32 b)
      × (read16 (drop 4 (take 8 b ++ rest)) ≡ read16 (drop 4 b))
read-take [] rest h = absurd (omega arith)
read-take (a ∷ []) rest h = absurd (omega arith)
read-take (a ∷ b ∷ []) rest h = absurd (omega arith)
read-take (a ∷ b ∷ c ∷ []) rest h = absurd (omega arith)
read-take (a ∷ b ∷ c ∷ d ∷ []) rest h = absurd (omega arith)
read-take (a ∷ b ∷ c ∷ d ∷ e ∷ []) rest h = absurd (omega arith)
read-take (a ∷ b ∷ c ∷ d ∷ e ∷ f ∷ []) rest h = absurd (omega arith)
read-take (a ∷ b ∷ c ∷ d ∷ e ∷ f ∷ g ∷ []) rest h = absurd (omega arith)
read-take (a ∷ b ∷ c ∷ d ∷ e ∷ f ∷ g ∷ i ∷ more) rest h = (refl, refl)

-- A message of the kernel's with its padding, as it is copied.
unfoldable pub padding : Bytes → Bytes
padding rest = replicate (align4 (read32 rest) - read32 rest) 0

unfoldable pub copied : ℕ → ℕ → Bytes → Bytes
copied seq pid rest = stamped seq pid (take (read32 rest) rest) ++ padding rest

-- Bytes and their padding, stored one behind the other.
two_copies :
    (out sofar m zeros : Bytes) (mlen aligned : ℕ)
    → length m ≡ mlen
    → mlen + length zeros ≡ aligned
    → length sofar + aligned ≤ length out
    → (store (written out 0 sofar) (0 + length sofar) m >>= λ copied.
        store copied (0 + length sofar + mlen) zeros >>= λ padded.
        ok (padded, 0 + length sofar + aligned))
      ≡ ok (grown out 0 (sofar ++ (m ++ zeros)))
two_copies out sofar m zeros mlen aligned size pad fits =
    let one = length-append sofar m in
    let two = length-append (sofar ++ m) zeros in
    let first = store-grown out 0 sofar m (omega arith) in
    let second = store-grown out 0 (sofar ++ m) zeros (omega arith) in
    let at_zeros : 0 + length sofar + mlen ≡ 0 + length (sofar ++ m) = omega arith in
    let end : 0 + length sofar + aligned ≡ 0 + length (sofar ++ m ++ zeros) = omega arith in
    let joined : sofar ++ m ++ zeros ≡ sofar ++ (m ++ zeros) = simp append_assoc refl in
    rw (first, at_zeros, second, end, joined) refl

module _ (seq pid : ℕ) (rest : Bytes) (long : 16 ≤ read32 rest)
    (whole : read32 rest ≤ length rest) where
  length-stamped : length (stamped seq pid (take (read32 rest) rest)) ≡ read32 rest
  length-stamped =
      let m = take (read32 rest) rest in
      let size : length m ≡ read32 rest = omega (arith, length-take {0} (read32 rest) rest) in
      let tail = bytes32 seq ++ (bytes32 pid ++ drop 16 m) in
      omega
        (arith, size, length-append {0} (take 8 m) tail, length-take {0} 8 m, length-drop {0} 16 m)

  pub length-copied : length (copied seq pid rest) ≡ align4 (read32 rest)
  unfolding copied padding
  length-copied = omega (
    arith,
    length-stamped,
    length-append {0} (stamped seq pid (take (read32 rest) rest)) (padding rest),
    length-replicate {0} {A = ℕ} (align4 (read32 rest) - read32 rest) 0,
  )

  copied-head :
      (tail : Bytes) × (copied seq pid rest ≡ take 8 rest ++ (bytes32 seq ++ (bytes32 pid ++ tail)))
  unfolding copied
  copied-head =
      let m = take (read32 rest) rest in
      let head = take-take (read32 rest) 8 rest (omega arith) in
      (drop 16 m ++ padding rest, rw head (simp append_assoc refl))

  pub copied-IsMessage :
      IsMessage seq pid (copied seq pid rest)
      × (read16 (drop 4 (copied seq pid rest)) ≡ read16 (drop 4 rest))
  copied-IsMessage =
      let (tail, e) = copied-head in
      let behind = bytes32 seq ++ (bytes32 pid ++ tail) in
      let (len, kind) = read-take rest behind (omega arith) in
      let size = length-copied in
      let skip = drop-take_append 8 rest behind (omega arith) in
      (
        (
          rw (e, len) long,
          subst (λ (b : Bytes). length (copied seq pid rest) ≡ align4 (read32 b)) (sym e)
              (rw len size),
          rw (e, skip) refl,
        ),
        rw (e, kind) refl,
      )

  pub copy_message-grown :
      (out sofar : Bytes)
      → length sofar + align4 (read32 rest) ≤ length out
      → copy_message seq pid rest (grown out 0 sofar)
        ≡ ok (grown out 0 (sofar ++ copied seq pid rest))
  unfolding copy_message copied padding
  copy_message-grown out sofar fits = rw (load-ok rest (read32 rest) whole) (
      two_copies out sofar (stamped seq pid (take (read32 rest) rest)) (padding rest) (read32 rest)
        (align4 (read32 rest)) length-stamped
        (omega (arith, length-replicate {0} {A = ℕ} (align4 (read32 rest) - read32 rest) 0)) fits)
