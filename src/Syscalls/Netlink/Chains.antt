-- ===== src/Syscalls/Netlink/Chains.antt =====
-- A reply as a chain of messages that carry a sequence number and a port, built in a buffer from its start.
use vm_forge.Prelude.{
  ℕ, zero, suc, ◌+◌, ◌%◌, ◌≤◌, ◌<◌, ◌≡◌, refl, sym, inl, inr, Bool, true, false, [], ◌++◌, arith,
  length, length-append, length-drop, take, drop, ltb, ◌==◌, if◌then◌else◌, append_assoc,
  append-nil, Bool-cases, Option, some, none,
}
use vm_forge.Prelude.Bytes.{Bytes}
use vm_forge.Prelude.Errors.{ok}
use vm_forge.Syscalls.Netlink.{bytes32, align4, written}
use vm_forge.Syscalls.Netlink.Request.{
  read16, read32, copied_name, scan_attrs, link_of, nl_request_link_target, nl_request_is_loopback,
  is_loopback, name_or_empty,
}
use vm_forge.Syscalls.Netlink.Stores.{written-behind, grown}
use vm_forge.Syscalls.Netlink.Messages.{message}

-- The bytes of one message with its padding, that carries the sequence number and the port.
abbrev pub IsMessage : ℕ → ℕ → Bytes → Type 0
IsMessage seq pid m =
    (16 ≤ read32 m)
    × (length m ≡ align4 (read32 m))
    × (take 8 (drop 8 m) ≡ bytes32 seq ++ bytes32 pid)

-- A message has bytes.
pub message_filled : (m : Bytes) → 16 ≤ read32 m → length m ≡ align4 (read32 m) → 0 < length m
message_filled m long size = omega (arith, size)

-- Messages one behind the other, with nothing between or behind them.
pub data Chain (seq pid : ℕ) : Bytes → Type 0 where
  no_message : Chain seq pid []
  one_more :
      {bs : Bytes} (m rest : Bytes)
      → IsMessage seq pid m
      → Chain seq pid rest
      → bs ≡ m ++ rest
      → Chain seq pid bs

pub append-Chain :
    {seq pid : ℕ} (a b : Bytes) → Chain seq pid a → Chain seq pid b → Chain seq pid (a ++ b)
append-Chain _ b no_message chain = chain
append-Chain a b (one_more m rest is more e) chain =
    one_more m (rest ++ b) is (append-Chain rest b more chain) (rw e (simp append_assoc refl))

pub single-Chain : {seq pid : ℕ} (m : Bytes) → IsMessage seq pid m → Chain seq pid m
single-Chain m is = one_more m [] is no_message (sym (append-nil m))

-- A chain whose last message is NLMSG_DONE.
abbrev pub Terminated : ℕ → ℕ → Bytes → Type 0
Terminated seq pid bs =
    (front : Bytes) × (last : Bytes) × Chain seq pid front
    × IsMessage seq pid last
    × (read16 (drop 4 last) ≡ 3)
    × (bs ≡ front ++ last)

pub Terminated-Chain : {seq pid : ℕ} (bs : Bytes) → Terminated seq pid bs → Chain seq pid bs
Terminated-Chain bs (front, last, chain, is, kind, e) =
    rw e (append-Chain front last chain (single-Chain last is))

pub message-IsMessage :
    (type flags seq pid : ℕ) (body : Bytes)
    → length body % 4 ≡ 0
    → length body < 65536
    → IsMessage seq pid (message type flags seq pid body)
message-IsMessage type flags seq pid body even small = (omega arith, omega arith, refl)

-- What is built from the start of a buffer, with one more message.
pub grown-grown :
    (out : Bytes) (sofar new : Bytes)
    → length sofar + length new ≤ length out
    → grown (written out 0 sofar) (0 + length sofar) new ≡ grown out 0 (sofar ++ new)
grown-grown out sofar new fits =
    let bytes = written-behind out 0 sofar new (omega arith) in
    let end : 0 + length sofar + length new ≡ 0 + length (sofar ++ new) =
      omega (arith, length-append sofar new) in
    rw (bytes, end) refl

-- Both parsers of a request return: a round of their loop passes over four bytes at least.
scan_attrs-returns :
    (fuel : ℕ) (rest : Bytes) (name : Option Bytes)
    → length rest < fuel
    → (found : Option Bytes) × (scan_attrs fuel rest name ≡ ok found)
unfolding scan_attrs
scan_attrs-returns zero rest name h = absurd (omega arith)
scan_attrs-returns (suc fuel) rest name h =
    let rlen = read16 rest in
    let found = if read16 (drop 2 rest) == 3 then some (copied_name rest rlen) else name in
    let shorter : ltb (length rest) 4 ≡ false
        → ltb rlen 4 ≡ false
        → length (drop (align4 rlen) rest) < fuel =
      λ long wide. ground (arith, length-drop (align4 rlen) rest) in
    elim (Bool-cases (ltb (length rest) 4)) [
      | inl end ↦ (name, rw end refl)
      | inr long ↦ elim (Bool-cases (ltb rlen 4)) [
        | inl bad ↦ (name, rw (long, bad) refl)
        | inr wide ↦ elim (Bool-cases (ltb (length rest) rlen)) [
          | inl over ↦ (name, rw (long, wide, over) refl)
          | inr whole ↦
              let (last, e) =
                scan_attrs-returns fuel (drop (align4 rlen) rest) found (shorter long wide) in
              (last, rw (long, wide, whole) e)
        ]
      ]
    ]

link_of-returns :
    (req : Bytes) → (index : ℕ) × (name : Option Bytes) × (link_of req ≡ ok (index, name))
link_of-returns req =
    let (name, e) =
      scan_attrs-returns (length req + 1) (drop 32 req) none (omega (arith, length-drop 32 req)) in
    (read32 (drop 20 req), name, rw e refl)

pub nl_request_link_target-returns :
    (req : Bytes) → (index : ℕ) × (name : Bytes) × (nl_request_link_target req ≡ ok (index, name))
unfolding nl_request_link_target
nl_request_link_target-returns req =
    let (index, name, e) = link_of-returns req in
    elim (Bool-cases (ltb (length req) 32)) [
      | inl short ↦ (0, [], rw short refl)
      | inr long ↦ (index, name_or_empty name, rw (long, e) refl)
    ]

pub nl_request_is_loopback-returns :
    (req : Bytes) → (loopback : Bool) × (nl_request_is_loopback req ≡ ok loopback)
unfolding nl_request_is_loopback
nl_request_is_loopback-returns req =
    let (index, name, e) = link_of-returns req in
    elim (Bool-cases (ltb (length req) 32)) [
      | inl short ↦ (true, rw short refl)
      | inr long ↦ (is_loopback index name, rw (long, e) refl)
    ]
