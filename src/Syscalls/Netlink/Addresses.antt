-- ===== src/Syscalls/Netlink/Addresses.antt =====
-- The loop over the addresses of the host's interfaces appends messages, one behind the other, and leaves
-- room for a terminator.
use vm_forge.Prelude.{
  ℕ, suc, ◌+◌, ◌≤◌, refl, inl, inr, Bool, true, false, List, [], ◌∷◌, ◌++◌, arith, length,
  length-append, ltb, ◌==◌, ◌||◌, Bool-cases, Option, some, none,
}
use vm_forge.Prelude.Bytes.{Bytes}
use vm_forge.Prelude.Errors.{ok, ◌>>=◌}
use vm_forge.Syscalls.Netlink.{Address, af_inet, af_inet6, nl_build_addr}
use vm_forge.Syscalls.Netlink.Hosts.{
  Sockaddr, packet, inet, inet6, other_family, Ifaddrs, Host, multi,
}
use vm_forge.Syscalls.Netlink.HostAddrs.{
  wanted_addr, address_of, named_addr, visit_addr, each_addr, build_host_addrs,
}
use vm_forge.Syscalls.Netlink.Stores.{grown}
use vm_forge.Syscalls.Netlink.Messages.{IsAddress}
use vm_forge.Syscalls.Netlink.Chains.{Chain, no_message, append-Chain, single-Chain, message_filled}
use vm_forge.Syscalls.Netlink.Steps.{IsShort, nl_build_addr-Adds}
use vm_forge.Syscalls.Netlink.Interfaces.{IsSockaddr, AreIfaddrs, IsHost, Reaches}

-- The bytes that are read of an address are there.
abbrev pub Reads : Option (ℕ × Bytes × ℕ) → Type 0
Reads none = Unit
Reads (some (family, addr, addrlen)) = (addrlen ≤ length addr) × (addrlen ≤ 16)

pub wanted_addr-Reads :
    (want_family : ℕ) (a : Option Sockaddr) → IsSockaddr a → Reads (wanted_addr want_family a)
unfolding wanted_addr
wanted_addr-Reads want_family none is = tt
wanted_addr-Reads want_family (some (packet i t a)) is = tt
wanted_addr-Reads want_family (some (other_family f)) is = tt
wanted_addr-Reads want_family (some (inet a)) is =
    elim (Bool-cases (want_family == 0 || want_family == af_inet)) [
      | inl wants ↦ rw wants (omega arith, omega arith)
      | inr other ↦ rw other tt
    ]
wanted_addr-Reads want_family (some (inet6 a)) is =
    elim (Bool-cases (want_family == 0 || want_family == af_inet6)) [
      | inl wants ↦ rw wants (omega arith, omega arith)
      | inr other ↦ rw other tt
    ]

-- An address that a message can be built of.
abbrev pub Fits : Option Address → Type 0
Fits none = Unit
Fits (some a) = IsAddress a × (a.addrlen ≤ 16) × IsShort a.label

pub named_addr-Fits :
    (host : Host) (ifa : Ifaddrs) (name : Option Bytes) (wanted : Option (ℕ × Bytes × ℕ))
    → IsShort name
    → Reads wanted
    → Fits (named_addr host ifa name wanted)
unfolding named_addr address_of
named_addr-Fits host ifa none wanted short reads = tt
named_addr-Fits host ifa (some name) none short reads = tt
named_addr-Fits host ifa (some name) (some (family, addr, addrlen)) short (there, few) =
    ((there, omega arith), few, short)

pub visit_addr-Fits :
    (host : Host) (want_family : ℕ) (ifa : Ifaddrs)
    → IsShort ifa.ifa_name
    → IsSockaddr ifa.ifa_addr
    → Fits (visit_addr host want_family ifa)
unfolding visit_addr
visit_addr-Fits host want_family ifa short is =
    named_addr-Fits host ifa ifa.ifa_name (wanted_addr want_family ifa.ifa_addr) short
      (wanted_addr-Reads want_family ifa.ifa_addr is)

pub each_addr-Reaches :
    (host : Host) (out : Bytes) (seq pid want_family : ℕ) (dump : Bool) (ifas : List Ifaddrs)
    (sofar : Bytes) (built : ℕ)
    → AreIfaddrs ifas
    → Chain seq pid sofar
    → length sofar + 156 ≤ length out
    → built ≤ length sofar
    → Reaches out seq pid
        (each_addr host (length out) seq pid want_family dump ifas (grown out 0 sofar) built)
unfolding each_addr
each_addr-Reaches host out seq pid want_family dump [] sofar built are chain room many =
    (sofar, built, refl, chain, room, many)
each_addr-Reaches host out seq pid want_family dump (ifa ∷ ifas) sofar built (short, addr, are)
      chain room many =
    by_visit (visit_addr host want_family ifa) (visit_addr-Fits host want_family ifa short addr)
      (λ (bs : Bytes) (n : ℕ) (c : Chain seq pid bs) (fits : length bs + 156 ≤ length out)
          (m : n ≤ length bs).
        each_addr-Reaches host out seq pid want_family dump ifas bs n are c fits m)
  where
    by_visit :
        (v : Option Address)
        → Fits v
        → ((bs : Bytes) (n : ℕ)
            → Chain seq pid bs
            → length bs + 156 ≤ length out
            → n ≤ length bs
            → Reaches out seq pid
                (each_addr host (length out) seq pid want_family dump ifas (grown out 0 bs) n))
        → Reaches out seq pid (elim v [
          | none ↦
              each_addr host (length out) seq pid want_family dump ifas (grown out 0 sofar) built
          | some a ↦ elim (ltb (length out) (0 + length sofar + 256)) [
            | true ↦ ok (grown out 0 sofar, built)
            | false ↦
                nl_build_addr (grown out 0 sofar) (length out) seq pid (multi dump) a >>= λ b'.
                each_addr host (length out) seq pid want_family dump ifas b' (suc built)
          ]
        ])
    by_visit none fits ih = ih sofar built chain room many
    by_visit (some a) (is, few, named) ih =
        elim (Bool-cases (ltb (length out) (0 + length sofar + 256))) [
          | inl full ↦ rw full (sofar, built, refl, chain, room, many)
          | inr left ↦
              let there : length sofar + 256 ≤ length out = ground arith in
              let (m, e, adds) =
                nl_build_addr-Adds out sofar seq pid (multi dump) a is few named there in
              let (message, size, inside) = adds in
              let longer = length-append sofar m in
              let chain' = append-Chain sofar m chain (single-Chain m message) in
              let filled = message_filled m message.0 message.1 in
              rw (left, e) (ih (sofar ++ m) (suc built) chain' (omega arith) (omega arith))
        ]

pub build_host_addrs-Reaches :
    (host : Host) (out : Bytes) (seq pid want_family : ℕ) (dump : Bool)
    → IsHost host.interfaces
    → 156 ≤ length out
    → Reaches out seq pid (build_host_addrs host out (length out) seq pid want_family dump)
unfolding build_host_addrs
build_host_addrs-Reaches host out seq pid want_family dump is room =
    elim host.interfaces
        as (λ o.
          IsHost o
          → Reaches out seq pid (elim o [
            | none ↦ ok ((out, 0), 0)
            | some ifas ↦ each_addr host (length out) seq pid want_family dump ifas (out, 0) 0
          ])) [
            | none ↦ λ _. ([], 0, refl, no_message, room, omega arith)
            | some ifas ↦ λ are.
                each_addr-Reaches host out seq pid want_family dump ifas [] 0 are no_message room
                  (omega arith)
          ]
      is
