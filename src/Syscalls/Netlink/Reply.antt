-- ===== src/Syscalls/Netlink/Reply.antt =====
-- syscall/enter.c: the reply to a request on an emulated AF_NETLINK socket. What the tracee's memory holds
-- and what the host tells of its interfaces and routes are parameters.
use Prim.Native.Nat.{bit_and}
use vm_forge.Prelude.{
  ℕ, Bool, ◌||◌, List, [], length, drop, ltb, ◌==◌, if◌then◌else◌, Option, none, some,
}
use vm_forge.Prelude.Bytes.{Bytes, char_at}
use vm_forge.Prelude.Errors.{Result, ok, ◌>>=◌}
use vm_forge.Syscalls.Netlink.{Built, af_inet, af_inet6, nl_build_done, nl_build_error}
use vm_forge.Syscalls.Netlink.Request.{
  read16, read32, nl_request_link_target, nl_request_is_loopback,
}
use vm_forge.Syscalls.Netlink.Hosts.{
  Host, multi, nl_build_loopback_link, nl_build_loopback_addr, build_host_links,
}
use vm_forge.Syscalls.Netlink.HostAddrs.{build_host_addrs}
use vm_forge.Syscalls.Netlink.Relay.{relay_route_dump}

-- MAX_FAKE_NETLINK_REPLY
abbrev pub max_fake_netlink_reply : ℕ
max_fake_netlink_reply = 8192

-- The header of a request, and the byte of its family.
abbrev pub type_of : Bytes → ℕ
type_of req = read16 (drop 4 req)

abbrev pub seq_of : Bytes → ℕ
seq_of req = read32 (drop 8 req)

abbrev pub is_dump : Bytes → Bool
is_dump req = bit_and (read16 (drop 6 req)) 768 == 768

abbrev pub family_of : Bytes → ℕ
family_of req = if ltb 16 (length req) then char_at req 16 else 0

-- -ENODEV as an int
abbrev pub enodev : ℕ
enodev = 4294967277

unfoldable pub done_if : Bool → ℕ → ℕ → ℕ → Built → Result Built
done_if dump max seq pid b = if dump then nl_build_done b max seq pid else ok b

unfoldable pub loopback_links : Bytes → ℕ → ℕ → Bytes → Result Built
loopback_links req max pid out =
    if is_dump req
    then nl_build_loopback_link (out, 0) max (seq_of req) pid 2
    else (nl_request_is_loopback req >>= λ loopback.
        (if loopback
          then nl_build_loopback_link (out, 0) max (seq_of req) pid 0
          else nl_build_error (out, 0) max (seq_of req) pid enodev))

-- case RTM_GETLINK
unfoldable pub reply_links : Host → Bytes → ℕ → ℕ → Bytes → Result Built
reply_links host req max pid out = nl_request_link_target req >>= λ (want_index, want_name).
    build_host_links host out max (seq_of req) pid (if is_dump req then [] else want_name)
      (if is_dump req then 0 else want_index) (is_dump req)
    >>= λ (b, n). (if n == 0 then loopback_links req max pid b.0 else ok b) >>= λ b.
        done_if (is_dump req) max (seq_of req) pid b

unfoldable pub loopback_addrs : Bytes → ℕ → ℕ → Bytes → Result Built
loopback_addrs req max pid out =
    (if family_of req == 0 || family_of req == af_inet
      then nl_build_loopback_addr (out, 0) max (seq_of req) pid af_inet (multi (is_dump req))
      else ok (out, 0))
    >>= λ b.
        (if family_of req == 0 || family_of req == af_inet6
          then nl_build_loopback_addr b max (seq_of req) pid af_inet6 (multi (is_dump req))
          else ok b)

abbrev pub want_family : Bytes → ℕ
want_family req = if family_of req == af_inet || family_of req == af_inet6 then family_of req else 0

-- case RTM_GETADDR
unfoldable pub reply_addrs : Host → Bytes → ℕ → ℕ → Bytes → Result Built
reply_addrs host req max pid out =
    build_host_addrs host out max (seq_of req) pid (want_family req) (is_dump req) >>= λ (b, n).
    (if n == 0 then loopback_addrs req max pid b.0 else ok b) >>= λ b.
    done_if (is_dump req) max (seq_of req) pid b

-- case RTM_GETROUTE; `routes` is what the host's kernel answers to a dump for a family.
unfoldable pub reply_routes : (ℕ → Option (List Bytes)) → Bytes → ℕ → ℕ → Bytes → Result Built
reply_routes routes req max pid out =
    if is_dump req
    then (relay_route_dump (routes (family_of req)) out max (seq_of req) pid >>= λ b.
        (if b.1 == 0 then nl_build_done b max (seq_of req) pid else ok b))
    else nl_build_error (out, 0) max (seq_of req) pid 0

unfoldable pub reply_other : Bytes → ℕ → ℕ → Bytes → Result Built
reply_other req max pid out =
    if is_dump req
    then nl_build_done (out, 0) max (seq_of req) pid
    else nl_build_error (out, 0) max (seq_of req) pid 0

unfoldable pub reply_to : Host → (ℕ → Option (List Bytes)) → ℕ → Bytes → ℕ → Bytes → Result Built
reply_to host routes pid out max req =
    if type_of req == 18
    then reply_links host req max pid out
    else if type_of req == 22
    then reply_addrs host req max pid out
    else if type_of req == 26
    then reply_routes routes req max pid out
    else reply_other req max pid out

-- The reply buffer and its length. `read_data` gives the bytes at an address, as many as it is asked for,
-- or fails.
unfoldable pub build_fake_netlink_reply :
    Host → (ℕ → Option (List Bytes)) → (ℕ → ℕ → Option Bytes) → ℕ → Bytes → ℕ → ℕ → Result Built
build_fake_netlink_reply host routes read_data pid reply buf_addr buf_len =
    if buf_addr == 0 || ltb buf_len 16
    then ok (reply, 0)
    else elim (read_data buf_addr (if ltb buf_len 256 then buf_len else 256)) [
      | none ↦ ok (reply, 0)
      | some req ↦ reply_to host routes pid reply max_fake_netlink_reply req
    ]
