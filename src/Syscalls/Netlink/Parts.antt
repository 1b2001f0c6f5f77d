-- ===== src/Syscalls/Netlink/Parts.antt =====
-- The parts of a reply: a chain of messages with room for a terminator, and the loopback interface.

use vm_forge.Prelude.{
  ℕ, ◌+◌, ◌≤◌, ◌<◌, ◌≡◌, ◌≢◌, ◌⊎◌, refl, inl, inr, true, false, [], ◌++◌, arith, length,
  length-append, take, if◌then◌else◌, Bool-cases,
}
use vm_forge.Prelude.Bytes.{Bytes}
use vm_forge.Prelude.Errors.{Result, ok, ◌>>=◌}
use vm_forge.Syscalls.Netlink.{af_inet, af_inet6, bytes32, Built, nl_build_error}
use vm_forge.Syscalls.Netlink.Hosts.{loopback_link, nl_build_loopback_link}
use vm_forge.Syscalls.Netlink.Reply.{
  type_of, family_of, seq_of, is_dump, enodev, done_if, loopback_links,
}
use vm_forge.Syscalls.Netlink.Stores.{grown, length-written, take-written}
use vm_forge.Syscalls.Netlink.Messages.{message}
use vm_forge.Syscalls.Netlink.Builders.{nl_build_error-grown, error_body}
use vm_forge.Syscalls.Netlink.Chains.{
  Chain, single-Chain, Terminated, Terminated-Chain, message-IsMessage, message_filled,
  nl_request_is_loopback-returns,
}
use vm_forge.Syscalls.Netlink.Steps.{nl_build_link-Adds, done_message, nl_build_done-Adds}

-- The only requests that get no message: the addresses of one interface, not a dump, of a family other than
-- AF_INET and AF_INET6.
abbrev pub IsOfOtherFamily : Bytes → Type 0
IsOfOtherFamily req =
    (type_of req ≡ 22)
    × (is_dump req ≡ false)
    × (family_of req ≢ 0)
    × (family_of req ≢ af_inet)
    × (family_of req ≢ af_inet6)

-- A buffer of `size` bytes whose first bytes are a reply: one message at least where the request is not of
-- that kind, each with the number of the request and the tracee's port, the last of them NLMSG_DONE where
-- the request is a dump.
abbrev pub IsReply : Bytes → ℕ → ℕ → Built → Type 0
IsReply req pid size b =
    (length b.0 ≡ size)
    × (b.1 ≤ size)
    × Chain (seq_of req) pid (take b.1 b.0)
    × ((is_dump req ≡ false) ⊎ Terminated (seq_of req) pid (take b.1 b.0))
    × ((0 < b.1) ⊎ IsOfOtherFamily req)

pub grown-IsReply :
    (req : Bytes) (pid : ℕ) (out bs : Bytes)
    → length bs ≤ length out
    → Chain (seq_of req) pid bs
    → (is_dump req ≡ false) ⊎ Terminated (seq_of req) pid bs
    → (0 < length bs) ⊎ IsOfOtherFamily req
    → IsReply req pid (length out) (grown out 0 bs)
grown-IsReply req pid out bs fits chain end filled =
    let back = take-written out 0 bs (omega arith) in
    (
      length-written out 0 bs (omega arith),
      omega arith,
      rw back chain,
      rw back end,
      by_length filled,
    )
  where
    by_length : (0 < length bs) ⊎ IsOfOtherFamily req → (0 < 0 + length bs) ⊎ IsOfOtherFamily req
    by_length (inl some_bytes) = inl (omega arith)
    by_length (inr other) = inr other

-- A part of a reply, with room for the terminator, that is empty only for a reason.
abbrev pub PartOr : Type 0 → Bytes → ℕ → ℕ → Result Built → Type 0
PartOr Reason out seq pid r =
    (bs : Bytes) × (r ≡ ok (grown out 0 bs))
    × Chain seq pid bs
    × (length bs + 20 ≤ length out)
    × ((0 < length bs) ⊎ Reason)

abbrev pub Part : Bytes → ℕ → ℕ → Result Built → Type 0
Part = PartOr ⊥

-- A terminated chain has bytes.
pub Terminated-filled : {seq pid : ℕ} (bs : Bytes) → Terminated seq pid bs → 0 < length bs
Terminated-filled bs (front, last, chain, is, kind, e) =
    let filled = message_filled last is.0 is.1 in rw e (omega (arith, length-append {0} front last))

-- Addresses that are asked for, of a family that is neither AF_INET nor AF_INET6.
abbrev pub IsAddrOfOther : Bytes → Type 0
IsAddrOfOther req =
    (type_of req ≡ 22)
    × (family_of req ≢ 0)
    × (family_of req ≢ af_inet)
    × (family_of req ≢ af_inet6)

-- What the kernel would have answered, as the code returns it.
abbrev pub Answers : Bytes → ℕ → ℕ → Result Built → Type 0
Answers req pid size r = (b : Built) × (r ≡ ok b) × IsReply req pid size b

pub done-Terminated :
    (seq pid : ℕ) (bs : Bytes) → Chain seq pid bs → Terminated seq pid (bs ++ done_message seq pid)
done-Terminated seq pid bs chain = (
  bs,
  done_message seq pid,
  chain,
  message-IsMessage 3 2 seq pid (bytes32 0) refl (omega arith),
  refl,
  refl,
)

pub done_if-Answers :
    (req : Bytes) (pid : ℕ) (out : Bytes) (part : Result Built)
    → PartOr (IsAddrOfOther req) out (seq_of req) pid part
    → Answers req pid
        (length out)
        (part >>= λ b. done_if (is_dump req) (length out) (seq_of req) pid b)
unfolding done_if
done_if-Answers req pid out part (bs, e, chain, room, filled) =
    let last = done-Terminated (seq_of req) pid bs chain in
    let all = bs ++ done_message (seq_of req) pid in
    elim (Bool-cases (is_dump req)) [
      | inl dump ↦ (
        grown out 0 all,
        rw (e, dump) (nl_build_done-Adds out bs (seq_of req) pid room),
        grown-IsReply req pid out all
            (omega (arith, length-append {0} bs (done_message (seq_of req) pid)))
            (Terminated-Chain all last) (inr last) (inl (Terminated-filled all last)),
      )
      | inr single ↦ (
        grown out 0 bs,
        rw (e, single) refl,
        grown-IsReply req pid out bs (omega arith) chain (inl single) (by_reason single filled),
      )
    ]
  where
    by_reason :
        is_dump req ≡ false
        → (0 < length bs) ⊎ IsAddrOfOther req
        → (0 < length bs) ⊎ IsOfOtherFamily req
    by_reason single (inl some_bytes) = inl some_bytes
    by_reason single (inr (addr, one, two, three)) = inr (addr, single, one, two, three)

pub link-Part :
    (out : Bytes) (seq pid flags : ℕ)
    → 256 ≤ length out
    → Part out seq pid (nl_build_loopback_link (out, 0) (length out) seq pid flags)
unfolding nl_build_loopback_link
link-Part out seq pid flags room =
    let (m, e, adds) =
      nl_build_link-Adds out [] seq pid flags loopback_link (omega arith, omega arith, omega arith)
        (omega arith) room in
    let (is, size, inside) = adds in
    (m, e, single-Chain m is, omega arith, inl (message_filled m is.0 is.1))

pub error-Part :
    (out : Bytes) (seq pid error : ℕ)
    → 256 ≤ length out
    → Part out seq pid (nl_build_error (out, 0) (length out) seq pid error)
error-Part out seq pid error room =
    let m = message 2 0 seq pid (error_body error) in
    let is = message-IsMessage 2 0 seq pid (error_body error) refl (omega arith) in
    (
      m,
      nl_build_error-grown out 0 seq pid error (omega arith),
      single-Chain m is,
      omega arith,
      inl (message_filled m is.0 is.1),
    )

pub loopback_links-Part :
    (req : Bytes) (pid : ℕ) (out : Bytes)
    → 256 ≤ length out
    → Part out (seq_of req) pid (loopback_links req (length out) pid out)
unfolding loopback_links
loopback_links-Part req pid out room =
    let (loopback, e) = nl_request_is_loopback-returns req in
    elim (Bool-cases (is_dump req)) [
      | inl dump ↦ rw dump (link-Part out (seq_of req) pid 2 room)
      | inr single ↦
          rw (single, e)
            (elim loopback
              as (λ l. Part out (seq_of req) pid (
                if l
                then nl_build_loopback_link (out, 0) (length out) (seq_of req) pid 0
                else nl_build_error (out, 0) (length out) (seq_of req) pid enodev)) [
                  | true ↦ link-Part out (seq_of req) pid 0 room
                  | false ↦ error-Part out (seq_of req) pid enodev room
                ])
    ]
