-- ===== src/Syscalls/Netlink.antt =====
-- syscall/enter.c: the messages of the emulated AF_NETLINK sockets, built in a buffer. A byte outside a
-- buffer that is read or written is an error of the model; words are little-endian, an int is its bit
-- pattern, and a sum of sizes does not reach 2 ^ 64.
pub mod Request
pub mod Hosts
pub mod HostAddrs
pub mod Relay
pub mod Reply
pub mod Stores
pub mod Messages
pub mod Builders
pub mod Roundtrip
pub mod Scan
pub mod Chains
pub mod Steps
pub mod Interfaces
pub mod Addresses
pub mod Routes
pub mod Dumps
pub mod Served
pub mod Parts
pub mod Fallbacks
pub mod Sockets
pub mod Receive
pub mod Fds
pub mod Delivery
use Prim.Native.Nat.{bit_and, bit_or}
use vm_forge.Prelude.{
  ℕ, ◌+◌, ◌-◌, ◌*◌, ◌/◌, ◌%◌, not, Bool, [], ◌∷◌, ◌++◌, length, take, drop, replicate, ltb, leb,
  ◌==◌, if◌then◌else◌, Option, none, some,
}
use vm_forge.Prelude.Bytes.{Bytes}
use vm_forge.Prelude.Errors.{Result, ok, err, ◌>>=◌, out_of_bounds}

abbrev pub bytes16 : ℕ → Bytes
bytes16 n = n % 256 ∷ n / 256 % 256 ∷ []

abbrev pub bytes32 : ℕ → Bytes
bytes32 n = n % 256 ∷ n / 256 % 256 ∷ n / 65536 % 256 ∷ n / 16777216 % 256 ∷ []

-- NLMSG_ALIGN, RTA_ALIGN; RTA_LENGTH and RTA_SPACE of a payload.
abbrev pub align4 : ℕ → ℕ
align4 n = (n + 3) / 4 * 4

abbrev pub rta_length : ℕ → ℕ
rta_length dlen = 4 + dlen

abbrev pub rta_space : ℕ → ℕ
rta_space dlen = align4 (rta_length dlen)

-- The buffer with bytes written over those at an offset, and memcpy() to and from a buffer.
abbrev pub written : Bytes → ℕ → Bytes → Bytes
written buf off new = take off buf ++ (new ++ drop (off + length new) buf)

unfoldable pub store : Bytes → ℕ → Bytes → Result Bytes
store buf off new =
    if leb (off + length new) (length buf) then ok (written buf off new) else err out_of_bounds

unfoldable pub load : Bytes → ℕ → Result Bytes
load source n = if leb n (length source) then ok (take n source) else err out_of_bounds

-- A buffer and the offset behind what is built in it.
abbrev pub Built : Type 0
Built = Bytes × ℕ

unfoldable pub nl_add_attr : Built → ℕ → ℕ → Bytes → ℕ → Result Built
nl_add_attr (buf, off) max type payload dlen =
    let space = rta_space dlen in
    if ltb max (off + space)
    then ok (buf, off)
    else (store buf off (bytes16 (rta_length dlen) ++ bytes16 type) >>= λ with_header.
        load payload dlen >>= λ copied. store with_header (off + 4) copied >>= λ with_payload.
        store with_payload (off + rta_length dlen) (replicate (space - rta_length dlen) 0)
        >>= λ padded. ok (padded, off + space))

abbrev pub nlmsghdr : ℕ → ℕ → ℕ → ℕ → ℕ → Bytes
nlmsghdr len type flags seq pid =
    bytes32 len ++ (bytes16 type ++ (bytes16 flags ++ (bytes32 seq ++ bytes32 pid)))

-- What the last lines of a builder do: the header of the message that begins at `start`.
unfoldable pub nl_close : ℕ → ℕ → ℕ → ℕ → ℕ → Built → Result Built
nl_close start type flags seq pid (buf, off) =
    let len = off - start in
    store buf start (nlmsghdr len type flags seq pid) >>= λ closed. ok (closed, start + align4 len)

-- struct ifinfomsg, struct ifaddrmsg
abbrev pub ifinfomsg : ℕ → ℕ → ℕ → Bytes
ifinfomsg iftype ifindex flags =
    0 ∷ 0 ∷ (bytes16 iftype ++ (bytes32 ifindex ++ (bytes32 flags ++ bytes32 0)))

abbrev pub ifaddrmsg : ℕ → ℕ → ℕ → ℕ → Bytes
ifaddrmsg family prefixlen scope ifindex =
    family % 256 ∷ prefixlen % 256 ∷ 128 ∷ scope % 256 ∷ bytes32 ifindex

abbrev pub has_flag : ℕ → ℕ → Bool
has_flag flags flag = not (bit_and flags flag == 0)

-- IFF_UP, IFF_LOOPBACK, IFF_RUNNING, IFF_LOWER_UP; ARPHRD_LOOPBACK
abbrev pub iff_up : ℕ
iff_up = 1

abbrev pub iff_loopback : ℕ
iff_loopback = 8

abbrev pub iff_running : ℕ
iff_running = 64

abbrev pub iff_lower_up : ℕ
iff_lower_up = 65536

abbrev pub arphrd_loopback : ℕ
arphrd_loopback = 772

abbrev pub af_inet : ℕ
af_inet = 2

abbrev pub af_inet6 : ℕ
af_inet6 = 10

-- An interface as nl_build_link() is told of it, and an address as nl_build_addr() is.
pub record Link : Type 0 where
  pub ifindex : ℕ
  pub iftype : ℕ
  pub ifflags : ℕ
  pub mtu : ℕ
  pub name : Bytes
  pub hwaddr : Bytes
  pub hwlen : ℕ

pub record Address : Type 0 where
  pub family : ℕ
  pub ifindex : ℕ
  pub addr : Bytes
  pub addrlen : ℕ
  pub prefixlen : ℕ
  pub scope : ℕ
  pub label : Option Bytes

-- A C string with its NUL, as a uint16_t length and bytes.
abbrev pub with_nul : Bytes → Bytes
with_nul name = name ++ (0 ∷ [])

unfoldable pub hw_attrs : ℕ → Link → Built → Result Built
hw_attrs max l b =
    if ltb 0 l.hwlen
    then (nl_add_attr b max 1 l.hwaddr l.hwlen >>= λ b.
        nl_add_attr b max 2 (replicate 8 (if l.iftype == arphrd_loopback then 0 else 255)) l.hwlen)
    else ok b

unfoldable pub nl_build_link : Built → ℕ → ℕ → ℕ → ℕ → Link → Result Built
nl_build_link (buf, start) max seq pid nlflags l =
    let flags =
      if has_flag l.ifflags iff_running then bit_or l.ifflags iff_lower_up else l.ifflags in
    if ltb max (start + 16 + align4 16)
    then ok (buf, start)
    else (store buf (start + 16) (ifinfomsg l.iftype l.ifindex flags) >>= λ with_info.
        nl_add_attr (with_info, start + 16 + align4 16) max 3 (with_nul l.name)
          ((length l.name + 1) % 65536)
        >>= λ b. nl_add_attr b max 4 (bytes32 l.mtu) 4 >>= λ b.
            nl_add_attr b max 13 (bytes32 1000) 4 >>= λ b.
            nl_add_attr b max 16 ((if has_flag l.ifflags iff_up then 6 else 2) ∷ []) 1 >>= λ b.
            hw_attrs max l b >>= λ b. nl_close start 16 nlflags seq pid b)

unfoldable pub label_attr : ℕ → ℕ → Option Bytes → Built → Result Built
label_attr max family none b = ok b
label_attr max family (some label) b =
    if family == af_inet
    then nl_add_attr b max 3 (with_nul label) ((length label + 1) % 65536)
    else ok b

unfoldable pub nl_build_addr : Built → ℕ → ℕ → ℕ → ℕ → Address → Result Built
nl_build_addr (buf, start) max seq pid nlflags a =
    if ltb max (start + 16 + align4 8)
    then ok (buf, start)
    else (store buf (start + 16) (ifaddrmsg a.family a.prefixlen a.scope a.ifindex) >>= λ with_info.
        nl_add_attr (with_info, start + 16 + align4 8) max 1 a.addr a.addrlen >>= λ b.
        nl_add_attr b max 2 a.addr a.addrlen >>= λ b.
        label_attr max a.family a.label b >>= λ b. nl_close start 20 nlflags seq pid b)

-- NLMSG_DONE with an error of 0, NLMSG_ERROR with a zeroed header.
unfoldable pub nl_build_done : Built → ℕ → ℕ → ℕ → Result Built
nl_build_done (buf, off) max seq pid =
    let len : ℕ = 20 in
    if ltb max (off + align4 len)
    then ok (buf, off)
    else (store buf (off + 16) (bytes32 0) >>= λ with_error.
        store with_error off (nlmsghdr len 3 2 seq pid) >>= λ closed. ok (closed, off + align4 len))

unfoldable pub nl_build_error : Built → ℕ → ℕ → ℕ → ℕ → Result Built
nl_build_error (buf, off) max seq pid error =
    let len : ℕ = 36 in
    if ltb max (off + align4 len)
    then ok (buf, off)
    else (store buf (off + 16) (bytes32 error ++ replicate 16 0) >>= λ with_error.
        store with_error off (nlmsghdr len 2 0 seq pid) >>= λ closed. ok (closed, off + align4 len))
