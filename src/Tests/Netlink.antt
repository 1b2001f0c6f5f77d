-- ===== src/Tests/Netlink.antt =====
-- The emulated AF_NETLINK sockets at concrete requests.
use Prim.Native.Nat.{min}
use vm_forge.Prelude.{
  ℕ, zero, suc, ◌+◌, ◌-◌, ◌≡◌, refl, Bool, true, false, not, ◌&&◌, List, [], ◌∷◌, arith, length,
  length-replicate, take, drop, replicate, ◌==◌, if◌then◌else◌, Option, some, none,
}
use vm_forge.Prelude.Bytes.{Bytes, str_equal, str_equal_n}
use vm_forge.Prelude.Errors.{Result, ok, err}
use vm_forge.Syscalls.Netlink.{
  Built, Link, align4, nl_build_link, nl_build_done, store, load, nl_add_attr, hw_attrs, nl_close,
}
use vm_forge.Syscalls.Netlink.Request.{
  read32, scan_attrs, nl_request_link_target, nl_request_is_loopback, lo,
}
use vm_forge.Syscalls.Netlink.Hosts.{
  Host, inet, packet, ipv4_loopback, build_host_links, each_link, visit_link, visit_named,
  link_of_host, link_by_flags, link_by_packet,
}
use vm_forge.Syscalls.Netlink.Reply.{build_fake_netlink_reply, reply_to, reply_links, done_if}
use vm_forge.Syscalls.Netlink.Roundtrip.{appended, nl_build_link_roundtrip}
use vm_forge.Syscalls.Netlink.Served.{build_fake_netlink_reply-IsReply}
use vm_forge.Syscalls.Netlink.Parts.{IsReply}
use vm_forge.Syscalls.Netlink.Sockets.{
  NetlinkState, is_fake_netlink_fd, close_enter, Event, socket_enters, socket_exits, handle_events,
}
use vm_forge.Syscalls.Netlink.Receive.{Write, scatter}
use vm_forge.Syscalls.Netlink.Fds.{close_enter-is_fake}
use vm_forge.Syscalls.Netlink.Delivery.{capacity, spread, scatter-Delivers}

abbrev eth0 : Bytes
eth0 = b'e' ∷ b't' ∷ b'h' ∷ b'0' ∷ []

if_index : Bytes → ℕ
if_index name = if str_equal name lo then 1 else 2

-- A host with two interfaces, of which lo has two addresses, and with no routes.
abbrev two_interfaces : Host
two_interfaces = record {
  interfaces = some (
      record {
        ifa_name = some lo;
        ifa_flags = 73;
        ifa_addr = some (inet ipv4_loopback);
        ifa_netmask = some (255 ∷ 0 ∷ 0 ∷ 0 ∷ []);
      }
      ∷ record {
        ifa_name = some eth0;
        ifa_flags = 67;
        ifa_addr = some (packet 2 1 (2 ∷ 0 ∷ 0 ∷ 0 ∷ 0 ∷ 1 ∷ []));
        ifa_netmask = none;
      }
      ∷ record { ifa_name = some lo; ifa_flags = 73; ifa_addr = none; ifa_netmask = none }
      ∷ []);
  has_socket = false;
  if_nametoindex = if_index;
  siocgifmtu = λ name. none;
  siocgifhwaddr = λ name. none;
}

abbrev no_routes : ℕ → Option (List Bytes)
no_routes family = none

-- RTM_GETLINK with NLM_F_DUMP and the number 7, and a tracee's memory that holds it everywhere.
abbrev dump_request : Bytes
dump_request = 20 ∷ 0 ∷ 0 ∷ 0 ∷ 18 ∷ 0 ∷ 1 ∷ 3 ∷ 7 ∷ 0 ∷ 0 ∷ 0 ∷ 0 ∷ 0 ∷ 0 ∷ 0 ∷ 0 ∷ 0 ∷ 0 ∷ 0 ∷ []

abbrev read_request : ℕ → ℕ → Option Bytes
read_request address n = some dump_request

abbrev empty_reply : Bytes
empty_reply = replicate 8192 0

build_fake_netlink_reply-IsReply_example :
    (b : Built) × (build_fake_netlink_reply two_interfaces no_routes read_request 42 empty_reply
        4096 20
      ≡ ok b)
    × IsReply dump_request 42 8192 b
build_fake_netlink_reply-IsReply_example =
    build_fake_netlink_reply-IsReply two_interfaces no_routes read_request 42 empty_reply
      dump_request 4096 20 (length-replicate {A = ℕ} 8192 0) (omega arith, omega arith, omega arith)
      tt (omega arith) (omega arith) refl

abbrev ethernet : Link
ethernet = record {
  ifindex = 2;
  iftype = 1;
  ifflags = 67;
  mtu = 1500;
  name = eth0;
  hwaddr = 2 ∷ 0 ∷ 0 ∷ 0 ∷ 0 ∷ 1 ∷ 0 ∷ 0 ∷ [];
  hwlen = 6;
}

abbrev small_buffer : Bytes
small_buffer = replicate 300 0

nl_build_link_roundtrip_example :
    (b : Built) × (nl_build_link (small_buffer, 20) (length small_buffer) 7 42 2 ethernet ≡ ok b)
    × (nl_request_link_target (appended 20 b) ≡ ok (2, eth0))
    × (nl_request_is_loopback (appended 20 b) ≡ ok (str_equal eth0 lo))
nl_build_link_roundtrip_example =
    nl_build_link_roundtrip small_buffer 20 7 42 2 ethernet (omega arith)
      (omega arith, omega arith, omega arith) (omega arith) (omega arith) (omega arith)

abbrev no_sockets : NetlinkState
no_sockets = record { fds = []; pending = false; reply = []; reply_len = 0 }

abbrev three_opened : List Event
three_opened =
    socket_enters 16 3 0
    ∷ socket_exits 5
    ∷ socket_enters 16 3 0
    ∷ socket_exits 6
    ∷ socket_enters 16 3 0
    ∷ socket_exits 7
    ∷ []

close_enter-is_fake_example :
    is_fake_netlink_fd (close_enter (handle_events true no_sockets three_opened) 5).fds 7
    ≡ (is_fake_netlink_fd (handle_events true no_sockets three_opened).fds 7 && not (7 == 5))
close_enter-is_fake_example = close_enter-is_fake true no_sockets three_opened 5 7 (tt, omega arith)

abbrev two_segments : List (ℕ × ℕ)
two_segments = (4096, 2) ∷ (8192, 6) ∷ []

abbrev five_bytes : Bytes
five_bytes = 1 ∷ 2 ∷ 3 ∷ 4 ∷ 5 ∷ []

abbrev succeeds : Write → Bool
succeeds w = true

scatter-Delivers_example :
    ((scatter succeeds five_bytes 5 two_segments 0).0 ≡ 0 + min (capacity two_segments) (5 - 0))
    × ((scatter succeeds five_bytes 5 two_segments 0).1
        ≡ spread two_segments (5 - 0) (drop 0 five_bytes))
scatter-Delivers_example =
    scatter-Delivers succeeds five_bytes 5 two_segments 0 (λ w. refl) (omega arith) (omega arith)

-- The lengths of the messages of a reply.
message_lengths : ℕ → Bytes → List ℕ
message_lengths zero bs = []
message_lengths (suc fuel) [] = []
message_lengths (suc fuel) (b ∷ bs) =
    read32 (b ∷ bs) ∷ message_lengths fuel (drop (align4 (read32 (b ∷ bs))) (b ∷ bs))

reply_lengths : Result Built → List ℕ
reply_lengths (ok (reply, len)) = message_lengths 8 (take len reply)
reply_lengths (err e) = []

-- Two links, of which lo has no hardware address, and the terminator.
dump_of_links :
    reply_lengths
      (build_fake_netlink_reply two_interfaces no_routes read_request 42 (replicate 8192 0) 4096 20)
    ≡ 64 ∷ 92 ∷ 20 ∷ []
unfolding build_fake_netlink_reply reply_to reply_links done_if nl_build_done nl_request_link_target
    build_host_links each_link visit_link visit_named link_of_host link_by_flags link_by_packet
    nl_build_link nl_add_attr hw_attrs nl_close store load scan_attrs str_equal str_equal_n if_index
    reply_lengths message_lengths
dump_of_links = refl
