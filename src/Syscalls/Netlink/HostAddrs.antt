-- ===== src/Syscalls/Netlink/HostAddrs.antt =====
-- syscall/enter.c: the addresses of the host's interfaces as netlink messages.
use vm_forge.Prelude.{
  ℕ, suc, ◌+◌, Bool, true, false, ◌||◌, List, [], ◌∷◌, take, ltb, ◌==◌, if◌then◌else◌, Option, none,
  some,
}
use vm_forge.Prelude.Bytes.{Bytes}
use vm_forge.Prelude.Errors.{Result, ok, ◌>>=◌}
use vm_forge.Syscalls.Netlink.{Built, Address, af_inet, af_inet6, nl_build_addr}
use vm_forge.Syscalls.Netlink.Request.{nl_prefixlen, nl_addr_scope}
use vm_forge.Syscalls.Netlink.Hosts.{Sockaddr, Ifaddrs, Host, multi, inet, inet6}

-- The address of an interface that a request for a family, or for any (0), asks for.
unfoldable pub wanted_addr : ℕ → Option Sockaddr → Option (ℕ × Bytes × ℕ)
wanted_addr want_family (some (inet a)) =
    if want_family == 0 || want_family == af_inet then some (af_inet, a, 4) else none
wanted_addr want_family (some (inet6 a)) =
    if want_family == 0 || want_family == af_inet6 then some (af_inet6, a, 16) else none
wanted_addr want_family (some _) = none
wanted_addr want_family none = none

unfoldable pub address_of : Host → Ifaddrs → Bytes → ℕ → Bytes → ℕ → Address
address_of host ifa name family addr addrlen = record {
  family = family;
  ifindex = host.if_nametoindex name;
  addr = addr;
  addrlen = addrlen;
  prefixlen = elim ifa.ifa_netmask [
    | none ↦ if family == af_inet then 32 else 128
    | some mask ↦ nl_prefixlen (take addrlen mask)
  ];
  scope = nl_addr_scope family addr;
  label = some name;
}

-- The address that a round of the loop builds a message of.
unfoldable pub named_addr : Host → Ifaddrs → Option Bytes → Option (ℕ × Bytes × ℕ) → Option Address
named_addr host ifa none wanted = none
named_addr host ifa (some name) none = none
named_addr host ifa (some name) (some (family, addr, addrlen)) =
    some (address_of host ifa name family addr addrlen)

unfoldable pub visit_addr : Host → ℕ → Ifaddrs → Option Address
visit_addr host want_family ifa =
    named_addr host ifa ifa.ifa_name (wanted_addr want_family ifa.ifa_addr)

unfoldable pub each_addr :
    Host → ℕ → ℕ → ℕ → ℕ → Bool → List Ifaddrs → Built → ℕ → Result (Built × ℕ)
each_addr host max seq pid want_family dump [] b built = ok (b, built)
each_addr host max seq pid want_family dump (ifa ∷ ifas) b built =
    elim (visit_addr host want_family ifa) [
      | none ↦ each_addr host max seq pid want_family dump ifas b built
      | some a ↦ elim (ltb max (b.1 + 256)) [
        | true ↦ ok (b, built)
        | false ↦ nl_build_addr b max seq pid (multi dump) a >>= λ b'.
            each_addr host max seq pid want_family dump ifas b' (suc built)
      ]
    ]

unfoldable pub build_host_addrs : Host → Bytes → ℕ → ℕ → ℕ → ℕ → Bool → Result (Built × ℕ)
build_host_addrs host out max seq pid want_family dump = elim host.interfaces [
  | none ↦ ok ((out, 0), 0)
  | some ifas ↦ each_addr host max seq pid want_family dump ifas (out, 0) 0
]
