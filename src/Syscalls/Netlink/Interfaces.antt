-- ===== src/Syscalls/Netlink/Interfaces.antt =====
-- The loops over the host's interfaces append messages, one behind the other, and leave room for a
-- terminator.
use vm_forge.Prelude.{
  ℕ, suc, ◌+◌, ◌≤◌, ◌≡◌, refl, inl, inr, Bool, true, false, ◌&&◌, List, [], ◌∷◌, ◌++◌, arith,
  length, length-append, length-take, take, replicate, ltb, leb, ◌==◌, Bool-cases, Option, some,
  none,
}
use vm_forge.Prelude.Bytes.{Bytes}
use vm_forge.Prelude.Errors.{Result, ok, ◌>>=◌}
use vm_forge.Syscalls.Netlink.{Built, Link, nl_build_link}
use vm_forge.Syscalls.Netlink.Hosts.{
  Sockaddr, packet, inet, inet6, other_family, Ifaddrs, Host, multi, add_seen, is_seen, is_unwanted,
  padded8, link_by_flags, link_by_packet, link_by_mtu, link_by_hwaddr, link_of_host, Visit, skip,
  stop, emit, visit_named, visit_link, each_link, build_host_links,
}
use vm_forge.Syscalls.Netlink.Stores.{grown}
use vm_forge.Syscalls.Netlink.Messages.{IsLink}
use vm_forge.Syscalls.Netlink.Chains.{Chain, no_message, append-Chain, single-Chain, message_filled}
use vm_forge.Syscalls.Netlink.Steps.{IsShort, nl_build_link-Adds}

-- A socket address has the bytes of its family; an interface's name fits IFNAMSIZ.
abbrev pub IsSockaddr : Option Sockaddr → Type 0
IsSockaddr none = Unit
IsSockaddr (some (inet a)) = 4 ≤ length a
IsSockaddr (some (inet6 a)) = 16 ≤ length a
IsSockaddr (some _) = Unit

abbrev pub AreIfaddrs : List Ifaddrs → Type 0
AreIfaddrs [] = Unit
AreIfaddrs (ifa ∷ ifas) = IsShort ifa.ifa_name × IsSockaddr ifa.ifa_addr × AreIfaddrs ifas

abbrev pub IsHost : Option (List Ifaddrs) → Type 0
IsHost none = Unit
IsHost (some ifas) = AreIfaddrs ifas

-- A link as the stages of link_of_host() leave it.
abbrev Named : Bytes → Link → Type 0
Named name l = (l.name ≡ name) × (l.hwlen ≤ 8) × (length l.hwaddr ≡ 8)

length-padded8 : (a : Bytes) → length (padded8 a) ≡ 8
length-padded8 a =
    omega (arith, length-take {0} 8 (a ++ replicate 8 0), length-append {0} a (replicate 8 0))

packet-Named :
    (name : Bytes) (l : Link) (a : Option Sockaddr) → Named name l → Named name (link_by_packet l a)
unfolding link_by_packet
packet-Named name l none is = is
packet-Named name l (some (inet a)) is = is
packet-Named name l (some (inet6 a)) is = is
packet-Named name l (some (other_family f)) is = is
packet-Named name l (some (packet index type a)) (same, few, all) =
    let eight = length-padded8 a in
    elim (Bool-cases (ltb 0 (length a) && leb (length a) 8)) [
      | inl fits ↦ rw fits (same, ground (arith, fits), eight)
      | inr other ↦ rw other (same, few, all)
    ]

mtu-Named : (name : Bytes) (l : Link) (m : Option ℕ) → Named name l → Named name (link_by_mtu l m)
unfolding link_by_mtu
mtu-Named name l none is = is
mtu-Named name l (some mtu) is = is

hwaddr-Named :
    (name : Bytes) (l : Link) (h : Option (ℕ × Bytes))
    → Named name l
    → Named name (link_by_hwaddr l h)
unfolding link_by_hwaddr
hwaddr-Named name l none is = is
hwaddr-Named name l (some (family, a)) (same, few, all) =
    let eight = length-padded8 (take 6 a) in
    elim (Bool-cases (l.hwlen == 0)) [
      | inl unset ↦ rw unset (same, omega arith, eight)
      | inr set ↦ rw set (same, few, all)
    ]

link_of_host-Named :
    (host : Host) (ifa : Ifaddrs) (name : Bytes) → Named name (link_of_host host ifa name)
unfolding link_of_host link_by_flags
link_of_host-Named host ifa name =
    let ioctl_name = take 15 name in
    let l = link_by_packet (link_by_flags host name ifa.ifa_flags) ifa.ifa_addr in
    let is : Named name l =
      packet-Named name (link_by_flags host name ifa.ifa_flags) ifa.ifa_addr
        (refl, omega arith, refl) in
    elim (Bool-cases host.has_socket) [
      | inl yes_socket ↦ rw yes_socket (
          hwaddr-Named name (link_by_mtu l (host.siocgifmtu ioctl_name))
            (host.siocgifhwaddr ioctl_name) (mtu-Named name l (host.siocgifmtu ioctl_name) is))
      | inr no_socket ↦ rw no_socket is
    ]

-- What a round builds: a link that can be built, only where there is room for it.
abbrev Emits : ℕ → ℕ → Visit → Type 0
Emits max off (skip seen) = Unit
Emits max off stop = Unit
Emits max off (emit l) = IsLink l × (length l.name ≤ 15) × (off + 256 ≤ max)

visit_named-Emits :
    (host : Host) (max : ℕ) (want_name : Bytes) (want_index : ℕ) (dump : Bool) (ifa : Ifaddrs)
    (seen : List Bytes) (off : ℕ) (name : Bytes)
    → length name ≤ 15
    → Emits max off (visit_named host max want_name want_index dump ifa seen off name)
unfolding visit_named
visit_named-Emits host max want_name want_index dump ifa seen off name short =
    let l = link_of_host host ifa name in
    let (same, few, all) = link_of_host-Named host ifa name in
    let fits : length l.name ≤ 15 = rw same short in
    elim (Bool-cases (is_seen seen name)) [
      | inl again ↦ rw again tt
      | inr fresh ↦ elim (Bool-cases (is_unwanted dump want_name want_index l)) [
        | inl unwanted ↦ rw (fresh, unwanted) tt
        | inr wanted ↦ elim (Bool-cases (ltb max (off + 256))) [
          | inl full ↦ rw (fresh, wanted, full) tt
          | inr room ↦
              rw (fresh, wanted, room) ((omega arith, omega arith, few), fits, ground (arith, room))
        ]
      ]
    ]

visit_link-Emits :
    (host : Host) (max : ℕ) (want_name : Bytes) (want_index : ℕ) (dump : Bool) (ifa : Ifaddrs)
    (seen : List Bytes) (off : ℕ)
    → IsShort ifa.ifa_name
    → Emits max off (visit_link host max want_name want_index dump ifa seen off)
unfolding visit_link
visit_link-Emits host max want_name want_index dump ifa seen off short =
    elim ifa.ifa_name
        as (λ o.
          IsShort o
          → Emits max off (elim o [
            | none ↦ skip seen
            | some name ↦ visit_named host max want_name want_index dump ifa seen off name
          ])) [
            | none ↦ λ _. tt
            | some name ↦
                λ s. visit_named-Emits host max want_name want_index dump ifa seen off name s
          ]
      short

-- A loop that has appended messages and left room for a terminator.
abbrev pub Reaches : Bytes → ℕ → ℕ → Result (Built × ℕ) → Type 0
Reaches out seq pid r =
    (bs : Bytes) × (n : ℕ) × (r ≡ ok (grown out 0 bs, n))
    × Chain seq pid bs
    × (length bs + 156 ≤ length out)
    × (n ≤ length bs)

each_link-Reaches :
    (host : Host) (out : Bytes) (seq pid : ℕ) (want_name : Bytes) (want_index : ℕ)
    (ifas : List Ifaddrs) (dump : Bool) (seen : List Bytes) (sofar : Bytes) (built : ℕ)
    → AreIfaddrs ifas
    → Chain seq pid sofar
    → length sofar + 156 ≤ length out
    → built ≤ length sofar
    → Reaches out seq pid (
        each_link host
          (length out)
          seq
          pid
          want_name
          want_index
          dump
          ifas
          seen
          (grown out 0 sofar)
          built)
unfolding each_link
each_link-Reaches host out seq pid want_name want_index [] dump seen sofar built are chain room
      many =
    (sofar, built, refl, chain, room, many)
each_link-Reaches host out seq pid want_name want_index (ifa ∷ ifas) dump seen sofar built
      (short, addr, are) chain room many =
    by_visit (visit_link host (length out) want_name want_index dump ifa seen (0 + length sofar))
      (visit_link-Emits host (length out) want_name want_index dump ifa seen (0 + length sofar)
        short)
      (λ (d : Bool) (seen' : List Bytes) (bs : Bytes) (n : ℕ) (c : Chain seq pid bs)
          (fits : length bs + 156 ≤ length out) (m : n ≤ length bs).
        each_link-Reaches host out seq pid want_name want_index ifas d seen' bs n are c fits m)
  where
    by_visit :
        (v : Visit)
        → Emits (length out) (0 + length sofar) v
        → ((d : Bool) (seen' : List Bytes) (bs : Bytes) (n : ℕ)
            → Chain seq pid bs
            → length bs + 156 ≤ length out
            → n ≤ length bs
            → Reaches out seq pid (
                each_link host
                  (length out)
                  seq
                  pid
                  want_name
                  want_index
                  d
                  ifas
                  seen'
                  (grown out 0 bs)
                  n))
        → Reaches out seq pid (elim v [
          | skip seen' ↦
              each_link host
                (length out)
                seq
                pid
                want_name
                want_index
                dump
                ifas
                seen'
                (grown out 0 sofar)
                built
          | stop ↦ ok (grown out 0 sofar, built)
          | emit l ↦ nl_build_link (grown out 0 sofar) (length out) seq pid (multi dump) l >>= λ b'.
              elim dump [
                | true ↦
                    each_link host
                      (length out)
                      seq
                      pid
                      want_name
                      want_index
                      true
                      ifas
                      (add_seen seen l.name)
                      b'
                      (suc built)
                | false ↦ ok (b', suc built)
              ]
        ])
    by_visit (skip seen') emits ih = ih dump seen' sofar built chain room many
    by_visit stop emits ih = (sofar, built, refl, chain, room, many)
    by_visit (emit l) (is, named, fits) ih =
        let (m, e, adds) =
          nl_build_link-Adds out sofar seq pid (multi dump) l is named (omega arith) in
        let (message, size, inside) = adds in
        let longer = length-append sofar m in
        let chain' = append-Chain sofar m chain (single-Chain m message) in
        let filled = message_filled m message.0 message.1 in
        let many' : suc built ≤ length (sofar ++ m) = omega arith in
        let room' : length (sofar ++ m) + 156 ≤ length out = omega arith in
        rw e
          (elim dump
            as (λ d. Reaches out seq pid (elim d [
              | true ↦
                  each_link host (length out) seq pid want_name want_index true ifas
                    (add_seen seen l.name) (grown out 0 (sofar ++ m)) (suc built)
              | false ↦ ok (grown out 0 (sofar ++ m), suc built)
            ])) [
              | true ↦ ih true (add_seen seen l.name) (sofar ++ m) (suc built) chain' room' many'
              | false ↦ (sofar ++ m, suc built, refl, chain', room', many')
            ])

pub build_host_links-Reaches :
    (host : Host) (out : Bytes) (seq pid : ℕ) (want_name : Bytes) (want_index : ℕ) (dump : Bool)
    → IsHost host.interfaces
    → 156 ≤ length out
    → Reaches out seq pid (build_host_links host out (length out) seq pid want_name want_index dump)
unfolding build_host_links
build_host_links-Reaches host out seq pid want_name want_index dump is room =
    elim host.interfaces
        as (λ o.
          IsHost o
          → Reaches out seq pid (elim o [
            | none ↦ ok ((out, 0), 0)
            | some ifas ↦
                each_link host (length out) seq pid want_name want_index dump ifas [] (out, 0) 0
          ])) [
            | none ↦ λ _. ([], 0, refl, no_message, room, omega arith)
            | some ifas ↦ λ are.
                each_link-Reaches host out seq pid want_name want_index ifas dump [] [] 0 are
                  no_message room (omega arith)
          ]
      is
