-- ===== src/Syscalls/Netlink/Hosts.antt =====
-- syscall/enter.c: the links and the addresses of the host's interfaces as netlink messages. What
-- getifaddrs(3), if_nametoindex(3) and the ioctls return are parameters.
use vm_forge.Prelude.{
  ℕ, suc, ◌+◌, ◌-◌, not, Bool, true, false, ◌&&◌, ◌||◌, List, [], ◌∷◌, ◌++◌, length, take, ltb, leb,
  ◌==◌, if◌then◌else◌, Option, none, some, replicate,
}
use vm_forge.Prelude.Bytes.{Bytes, str_equal, str_equal_n}
use vm_forge.Prelude.Errors.{Result, ok, ◌>>=◌}
use vm_forge.Syscalls.Netlink.{
  Built, Link, Address, has_flag, iff_loopback, arphrd_loopback, af_inet, af_inet6, nl_build_link,
  nl_build_addr,
}
use vm_forge.Syscalls.Netlink.Request.{ifnamsiz, loop6, lo}

-- A socket address: sll_ifindex, sll_hatype and sll_addr's sll_halen bytes; an IPv4, an IPv6 one.
pub data Sockaddr : Type 0 where
  packet : ℕ → ℕ → Bytes → Sockaddr
  inet : Bytes → Sockaddr
  inet6 : Bytes → Sockaddr
  other_family : ℕ → Sockaddr

-- struct ifaddrs; a netmask is the bytes of its address. `none` is NULL.
pub record Ifaddrs : Type 0 where
  pub ifa_name : Option Bytes
  pub ifa_flags : ℕ
  pub ifa_addr : Option Sockaddr
  pub ifa_netmask : Option Bytes

-- `interfaces` is none where getifaddrs(3) fails, `has_socket` whether the socket for the ioctls opens;
-- the ioctls give none where they fail.
pub record Host : Type 0 where
  pub interfaces : Option (List Ifaddrs)
  pub has_socket : Bool
  pub if_nametoindex : Bytes → ℕ
  pub siocgifmtu : Bytes → Option ℕ
  pub siocgifhwaddr : Bytes → Option (ℕ × Bytes)

-- NLM_F_MULTI
abbrev pub multi : Bool → ℕ
multi dump = if dump then 2 else 0

abbrev pub ipv4_loopback : Bytes
ipv4_loopback = 127 ∷ 0 ∷ 0 ∷ 1 ∷ []

abbrev pub loopback_link : Link
loopback_link = record {
  ifindex = 1;
  iftype = arphrd_loopback;
  ifflags = 73;
  mtu = 65536;
  name = lo;
  hwaddr = replicate 6 0;
  hwlen = 6;
}

abbrev pub loopback_addr4 : Address
loopback_addr4 = record {
  family = af_inet;
  ifindex = 1;
  addr = ipv4_loopback;
  addrlen = 4;
  prefixlen = 8;
  scope = 254;
  label = some lo;
}

abbrev pub loopback_addr6 : Address
loopback_addr6 = record {
  family = af_inet6;
  ifindex = 1;
  addr = loop6;
  addrlen = 16;
  prefixlen = 128;
  scope = 254;
  label = none;
}

unfoldable pub nl_build_loopback_link : Built → ℕ → ℕ → ℕ → ℕ → Result Built
nl_build_loopback_link b max seq pid nlflags = nl_build_link b max seq pid nlflags loopback_link

unfoldable pub nl_build_loopback_addr : Built → ℕ → ℕ → ℕ → ℕ → ℕ → Result Built
nl_build_loopback_addr b max seq pid family nlflags =
    nl_build_addr b max seq pid nlflags
      (if family == af_inet6 then loopback_addr6 else loopback_addr4)

-- strncmp(seen[i], name, IFNAMSIZ) == 0 for an i
abbrev pub is_seen : List Bytes → Bytes → Bool
is_seen [] name = false
is_seen (s ∷ seen) name = str_equal_n s name ifnamsiz || is_seen seen name

abbrev pub add_seen : List Bytes → Bytes → List Bytes
add_seen seen name = if ltb (length seen) 64 then seen ++ (take (ifnamsiz - 1) name ∷ []) else seen

abbrev pub padded8 : Bytes → Bytes
padded8 a = take 8 (a ++ replicate 8 0)

-- What the flags tell of a link, then what an AF_PACKET address does, then what the ioctls do.
unfoldable pub link_by_flags : Host → Bytes → ℕ → Link
link_by_flags host name ifflags =
    let is_loopback = has_flag ifflags iff_loopback in
    record {
      ifindex = host.if_nametoindex name;
      iftype = if is_loopback then arphrd_loopback else 1;
      ifflags = ifflags;
      mtu = if is_loopback then 65536 else 1500;
      name = name;
      hwaddr = replicate 8 0;
      hwlen = 0;
    }

unfoldable pub link_by_packet : Link → Option Sockaddr → Link
link_by_packet l (some (packet sll_ifindex sll_hatype sll_addr)) =
    let indexed = record l {
      ifindex = if sll_ifindex == 0 then l.ifindex else sll_ifindex;
      iftype = sll_hatype;
    } in
    if ltb 0 (length sll_addr) && leb (length sll_addr) 8
    then record indexed { hwaddr = padded8 sll_addr; hwlen = length sll_addr }
    else indexed
link_by_packet l (some _) = l
link_by_packet l none = l

unfoldable pub link_by_mtu : Link → Option ℕ → Link
link_by_mtu l (some mtu) = record l { mtu = mtu }
link_by_mtu l none = l

unfoldable pub link_by_hwaddr : Link → Option (ℕ × Bytes) → Link
link_by_hwaddr l (some (family, sa_data)) =
    if l.hwlen == 0
    then record l { iftype = family; hwaddr = padded8 (take 6 sa_data); hwlen = 6 }
    else l
link_by_hwaddr l none = l

unfoldable pub link_of_host : Host → Ifaddrs → Bytes → Link
link_of_host host ifa name =
    let ioctl_name = take (ifnamsiz - 1) name in
    let l = link_by_packet (link_by_flags host name ifa.ifa_flags) ifa.ifa_addr in
    if host.has_socket
    then link_by_hwaddr (link_by_mtu l (host.siocgifmtu ioctl_name)) (host.siocgifhwaddr ioctl_name)
    else l

-- A link that a request for one link does not ask for.
abbrev pub is_unwanted : Bool → Bytes → ℕ → Link → Bool
is_unwanted dump want_name want_index l =
    not dump
    && (if ltb 0 (length want_name)
        then not (str_equal want_name l.name)
        else ltb 0 want_index && ltb want_index 2147483648 && not (l.ifindex == want_index))

-- What a round of the loop does with an interface: pass over it with the names seen, end, or build a link.
pub data Visit : Type 0 where
  skip : List Bytes → Visit
  stop : Visit
  emit : Link → Visit

unfoldable pub visit_named : Host → ℕ → Bytes → ℕ → Bool → Ifaddrs → List Bytes → ℕ → Bytes → Visit
visit_named host max want_name want_index dump ifa seen off name =
    let l = link_of_host host ifa name in
    if is_seen seen name
    then skip seen
    else if is_unwanted dump want_name want_index l
    then skip (add_seen seen name)
    else if ltb max (off + 256)
    then stop
    else emit l

unfoldable pub visit_link : Host → ℕ → Bytes → ℕ → Bool → Ifaddrs → List Bytes → ℕ → Visit
visit_link host max want_name want_index dump ifa seen off = elim ifa.ifa_name [
  | none ↦ skip seen
  | some name ↦ visit_named host max want_name want_index dump ifa seen off name
]

-- The loop over the interfaces, with the names seen and the number of links built.
unfoldable pub each_link :
    Host → ℕ → ℕ → ℕ → Bytes → ℕ → Bool → List Ifaddrs → List Bytes → Built → ℕ → Result (Built × ℕ)
each_link host max seq pid want_name want_index dump [] seen b built = ok (b, built)
each_link host max seq pid want_name want_index dump (ifa ∷ ifas) seen b built =
    elim (visit_link host max want_name want_index dump ifa seen b.1) [
      | skip seen' ↦ each_link host max seq pid want_name want_index dump ifas seen' b built
      | stop ↦ ok (b, built)
      | emit l ↦ nl_build_link b max seq pid (multi dump) l >>= λ b'. elim dump [
        | true ↦
            each_link host max seq pid want_name want_index true ifas (add_seen seen l.name) b'
              (suc built)
        | false ↦ ok (b', suc built)
      ]
    ]

unfoldable pub build_host_links : Host → Bytes → ℕ → ℕ → ℕ → Bytes → ℕ → Bool → Result (Built × ℕ)
build_host_links host out max seq pid want_name want_index dump = elim host.interfaces [
  | none ↦ ok ((out, 0), 0)
  | some ifas ↦ each_link host max seq pid want_name want_index dump ifas [] (out, 0) 0
]
