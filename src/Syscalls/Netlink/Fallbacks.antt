-- ===== src/Syscalls/Netlink/Fallbacks.antt =====
-- The replies to RTM_GETLINK and RTM_GETADDR, from the host's interfaces or from the loopback one.
use mathlib.Core.Path.{subst}
use vm_forge.Prelude.{
  ℕ, ◌+◌, ◌≤◌, ◌<◌, ◌≡◌, ◌⊎◌, refl, inl, inr, Bool, true, false, ◌||◌, [], ◌++◌, arith, length,
  length-append, ◌==◌, if◌then◌else◌, Bool-cases,
}
use vm_forge.Prelude.Bytes.{Bytes}
use vm_forge.Prelude.Errors.{Result, ok, ◌>>=◌}
use vm_forge.Syscalls.Netlink.{written, Built, af_inet, af_inet6}
use vm_forge.Syscalls.Netlink.Hosts.{
  Host, multi, loopback_addr4, loopback_addr6, nl_build_loopback_addr,
}
use vm_forge.Syscalls.Netlink.Reply.{
  type_of, seq_of, is_dump, family_of, want_family, done_if, loopback_links, reply_links,
  loopback_addrs, reply_addrs,
}
use vm_forge.Syscalls.Netlink.Stores.{grown, length-written}
use vm_forge.Syscalls.Netlink.Chains.{
  Chain, message_filled, no_message, append-Chain, single-Chain, nl_request_link_target-returns,
}
use vm_forge.Syscalls.Netlink.Steps.{nl_build_addr-Adds}
use vm_forge.Syscalls.Netlink.Interfaces.{IsHost, build_host_links-Reaches}
use vm_forge.Syscalls.Netlink.Addresses.{build_host_addrs-Reaches}
use vm_forge.Syscalls.Netlink.Parts.{
  PartOr, IsAddrOfOther, Answers, done_if-Answers, loopback_links-Part,
}

-- What is built where the host tells of no interface, in the buffer as the loop has left it.
pub fallback-Answers :
    (req : Bytes) (pid : ℕ) (out bs : Bytes) (part : ℕ → Bytes → Result Built)
    → 512 ≤ length out
    → length bs ≤ length out
    → ((o : Bytes)
        → 512 ≤ length o
        → PartOr (IsAddrOfOther req) o (seq_of req) pid (part (length o) o))
    → Answers req pid (length out) (
        part (length out) (written out 0 bs) >>= λ b.
        done_if (is_dump req) (length out) (seq_of req) pid b)
fallback-Answers req pid out bs part room fits parts =
    let o = written out 0 bs in
    let size : length o ≡ length out = length-written out 0 bs (omega arith) in
    subst
      (λ (n : ℕ). Answers req pid n (part n o >>= λ b. done_if (is_dump req) n (seq_of req) pid b))
      size (done_if-Answers req pid o (part (length o) o) (parts o (omega (arith, size))))

-- The interfaces that were found, or the fallback.
pub found-Answers :
    (req : Bytes) (pid : ℕ) (out bs : Bytes) (n : ℕ) (part : ℕ → Bytes → Result Built)
    → 512 ≤ length out
    → Chain (seq_of req) pid bs
    → length bs + 156 ≤ length out
    → n ≤ length bs
    → ((o : Bytes)
        → 512 ≤ length o
        → PartOr (IsAddrOfOther req) o (seq_of req) pid (part (length o) o))
    → Answers req pid (length out) (
        (if n == 0 then part (length out) (written out 0 bs) else ok (grown out 0 bs)) >>= λ b.
        done_if (is_dump req) (length out) (seq_of req) pid b)
found-Answers req pid out bs n part room chain left many parts = elim (Bool-cases (n == 0)) [
  | inl nothing ↦ rw nothing (fallback-Answers req pid out bs part room (omega arith) parts)
  | inr some_links ↦ rw some_links (
      done_if-Answers req pid out (ok (grown out 0 bs))
        (bs, refl, chain, omega arith, inl (ground arith)))
]

pub reply_links-Answers :
    (host : Host) (req : Bytes) (pid : ℕ) (out : Bytes)
    → IsHost host.interfaces
    → 512 ≤ length out
    → Answers req pid (length out) (reply_links host req (length out) pid out)
unfolding reply_links
reply_links-Answers host req pid out is room =
    let (index, name, target) = nl_request_link_target-returns req in
    let (bs, n, e, chain, left, many) =
      build_host_links-Reaches host out (seq_of req) pid (if is_dump req then [] else name)
        (if is_dump req then 0 else index) (is_dump req) is (omega arith) in
    rw (target, e)
      (found-Answers req pid out bs n (λ (max : ℕ) (o : Bytes). loopback_links req max pid o) room
        chain left many
        (λ (o : Bytes) (r : 512 ≤ length o).
          let (bs, e, c, fits, filled) = loopback_links-Part req pid o (omega arith) in
          (bs, e, c, fits, weaker bs filled)))
  where
    weaker : (bs : Bytes) → (0 < length bs) ⊎ ⊥ → (0 < length bs) ⊎ IsAddrOfOther req
    weaker bs (inl some_bytes) = inl some_bytes
    weaker bs (inr never) = absurd never

-- A message of a loopback address behind what is there.
pub addr-Adds :
    (out : Bytes) (seq pid family flags : ℕ) (sofar : Bytes)
    → Chain seq pid sofar
    → length sofar + 256 ≤ length out
    → (bs : Bytes) × (nl_build_loopback_addr (grown out 0 sofar) (length out) seq pid family flags
        ≡ ok (grown out 0 bs))
      × Chain seq pid bs
      × (length bs ≤ length sofar + 84)
      × (0 < length bs)
unfolding nl_build_loopback_addr
addr-Adds out seq pid family flags sofar chain room = elim (Bool-cases (family == af_inet6)) [
  | inl v6 ↦ rw v6 (
      let (m, e, adds) =
        nl_build_addr-Adds out sofar seq pid flags loopback_addr6 (omega arith, tt) (omega arith) tt
          room in
      let (is, size, inside) = adds in
      (
        sofar ++ m,
        e,
        append-Chain sofar m chain (single-Chain m is),
        omega (arith, length-append {0} sofar m),
        omega (arith, length-append {0} sofar m, message_filled m is.0 is.1),
      ))
  | inr v4 ↦ rw v4 (
      let (m, e, adds) =
        nl_build_addr-Adds out sofar seq pid flags loopback_addr4 (omega arith, omega arith)
          (omega arith) (omega arith) room in
      let (is, size, inside) = adds in
      (
        sofar ++ m,
        e,
        append-Chain sofar m chain (single-Chain m is),
        omega (arith, length-append {0} sofar m),
        omega (arith, length-append {0} sofar m, message_filled m is.0 is.1),
      ))
]

pub loopback_addrs-Part :
    (req : Bytes) (pid : ℕ) (out : Bytes)
    → type_of req ≡ 22
    → 512 ≤ length out
    → PartOr (IsAddrOfOther req) out (seq_of req) pid (loopback_addrs req (length out) pid out)
unfolding loopback_addrs
loopback_addrs-Part req pid out addr room =
    let seq = seq_of req in
    let flags = multi (is_dump req) in
    elim (Bool-cases (family_of req == 0 || family_of req == af_inet)) [
      | inl v4 ↦
          let (bs, e, chain, few, filled) =
            addr-Adds out seq pid af_inet flags [] no_message (omega arith) in
          rw (v4, e)
            (by_family (family_of req == 0 || family_of req == af_inet6) af_inet6 bs chain
              (omega arith) (λ _. inl filled))
      | inr other ↦ rw other (
          by_family (family_of req == 0 || family_of req == af_inet6) af_inet6 [] no_message
            (omega arith) (λ neither. inr (addr, ground arith, ground arith, ground arith)))
    ]
  where
    by_family :
        (wanted : Bool) (family : ℕ) (bs : Bytes)
        → Chain (seq_of req) pid bs
        → length bs ≤ 84
        → ((wanted ≡ false) → (0 < length bs) ⊎ IsAddrOfOther req)
        → PartOr (IsAddrOfOther req) out (seq_of req) pid (
            if wanted
            then nl_build_loopback_addr
                (grown out 0 bs)
                (length out)
                (seq_of req)
                pid
                family
                (multi (is_dump req))
            else ok (grown out 0 bs))
    by_family true family bs chain few filled =
        let (all, e, chain', more, some_bytes) =
          addr-Adds out (seq_of req) pid family (multi (is_dump req)) bs chain (omega arith) in
        (all, e, chain', omega arith, inl some_bytes)
    by_family false family bs chain few filled = (bs, refl, chain, omega arith, filled refl)

pub reply_addrs-Answers :
    (host : Host) (req : Bytes) (pid : ℕ) (out : Bytes)
    → IsHost host.interfaces
    → type_of req ≡ 22
    → 512 ≤ length out
    → Answers req pid (length out) (reply_addrs host req (length out) pid out)
unfolding reply_addrs
reply_addrs-Answers host req pid out is addr room =
    let (bs, n, e, chain, left, many) =
      build_host_addrs-Reaches host out (seq_of req) pid (want_family req) (is_dump req) is
        (omega arith) in
    rw e (
      found-Answers req pid out bs n (λ (max : ℕ) (o : Bytes). loopback_addrs req max pid o) room
        chain left many (λ (o : Bytes). loopback_addrs-Part req pid o addr))
