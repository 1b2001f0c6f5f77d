-- ===== src/Syscalls/Netlink/Sockets.antt =====
-- syscall/enter.c, syscall/exit.c: the calls on the sockets of a tracee that stand in for AF_NETLINK ones.
-- What the code writes to the tracee's memory is a list of writes; whether a write succeeds, and what
-- peek_word() reads of an iovec, are parameters. A call that is let through to the kernel is none.
use Prim.Native.Nat.{bit_and, bit_or}
use vm_forge.Prelude.{
  ℕ, ◌+◌, ◌*◌, Bool, true, false, not, ◌&&◌, ◌||◌, List, [], ◌∷◌, ◌++◌, length, ltb, leb, ◌==◌,
  if◌then◌else◌, Option, none, some,
}
use vm_forge.Prelude.Bytes.{Bytes}
use vm_forge.Prelude.Errors.{Result, ok, ◌>>=◌}
use vm_forge.Syscalls.Netlink.Hosts.{Host}
use vm_forge.Syscalls.Netlink.Reply.{build_fake_netlink_reply}

-- fake_netlink_fds with their count, pending_fake_netlink_socket, the reply and its length.
pub record NetlinkState : Type 0 where
  pub fds : List ℕ
  pub pending : Bool
  pub reply : Bytes
  pub reply_len : ℕ

-- MAX_FAKE_NETLINK_FDS
abbrev pub max_fake_netlink_fds : ℕ
max_fake_netlink_fds = 8

abbrev pub is_negative : ℕ → Bool
is_negative fd = leb 2147483648 fd

unfoldable pub lists : List ℕ → ℕ → Bool
lists [] fd = false
lists (x ∷ fds) fd = x == fd || lists fds fd

unfoldable pub is_fake_netlink_fd : List ℕ → ℕ → Bool
is_fake_netlink_fd fds fd = if is_negative fd then false else lists fds fd

-- The last element to the place that is free at the head, that is `fds[i] = fds[--count]`.
abbrev pub over_head : ℕ → List ℕ → List ℕ
over_head x [] = x ∷ []
over_head x (last ∷ fds) = last ∷ x ∷ fds

unfoldable pub last_to_head : List ℕ → List ℕ
last_to_head [] = []
last_to_head (x ∷ fds) = over_head x (last_to_head fds)

unfoldable pub unmark_fake_netlink_fd : List ℕ → ℕ → List ℕ
unmark_fake_netlink_fd [] fd = []
unmark_fake_netlink_fd (x ∷ fds) fd =
    let rest = unmark_fake_netlink_fd fds fd in if x == fd then last_to_head fds else x ∷ rest

-- host_blocks_af_netlink() with its cache, from whether socket(2) and then bind(2) succeed on the host.
pub data Probe : Type 0 where
  probe_unknown probe_allowed probe_blocked : Probe

unfoldable pub host_blocks_af_netlink : Bool → Bool → Probe → Probe × Bool
host_blocks_af_netlink socket_opens binds probe_allowed = (probe_allowed, false)
host_blocks_af_netlink socket_opens binds probe_blocked = (probe_blocked, true)
host_blocks_af_netlink socket_opens binds probe_unknown =
    if socket_opens && binds then (probe_allowed, false) else (probe_blocked, true)

-- `host_blocks` is what host_blocks_af_netlink() answers, which stays the same.
-- case PR_socket of translate_syscall_enter(): the arguments of the socket that is opened instead.
unfoldable pub socket_enter : Bool → NetlinkState → ℕ → ℕ → ℕ → NetlinkState × Option (ℕ × ℕ × ℕ)
socket_enter host_blocks s domain type protocol =
    if domain == 16 && protocol == 0 && host_blocks
    then (record s { pending = true }, some (1, bit_or 2 (bit_and type 524288), 0))
    else (s, none)

-- case PR_socket of translate_syscall_exit(): the descriptor is recorded, if there is room for it.
unfoldable pub mark : List ℕ → ℕ → List ℕ
mark fds fd =
    if ltb (length fds) max_fake_netlink_fds && not (lists fds fd) then fds ++ (fd ∷ []) else fds

unfoldable pub socket_exit : NetlinkState → ℕ → NetlinkState
socket_exit s fd =
    if s.pending
    then (if is_negative fd
        then record s { pending = false }
        else record s { pending = false; fds = mark s.fds fd })
    else s

-- case PR_close
unfoldable pub close_enter : NetlinkState → ℕ → NetlinkState
close_enter s fd = record s { fds = unmark_fake_netlink_fd s.fds fd }

-- What changes the table: socket(2) at its entry and at its exit, by its arguments and its result, and
-- close(2).
pub data Event : Type 0 where
  socket_enters : ℕ → ℕ → ℕ → Event
  socket_exits closes : ℕ → Event

unfoldable pub handle_event : Bool → NetlinkState → Event → NetlinkState
handle_event host_blocks s (socket_enters domain type protocol) =
    (socket_enter host_blocks s domain type protocol).0
handle_event host_blocks s (socket_exits result) = socket_exit s result
handle_event host_blocks s (closes fd) = close_enter s fd

unfoldable pub handle_events : Bool → NetlinkState → List Event → NetlinkState
handle_events host_blocks s [] = s
handle_events host_blocks s (event ∷ events) =
    handle_events host_blocks (handle_event host_blocks s event) events

-- case PR_sendto, with the state and the result.
unfoldable pub sendto :
    Host
    → (ℕ → Option (List Bytes))
    → (ℕ → ℕ → Option Bytes)
    → ℕ
    → NetlinkState
    → ℕ
    → ℕ
    → ℕ
    → Result (Option (NetlinkState × ℕ))
sendto host routes read_data pid s fd buf len =
    if is_fake_netlink_fd s.fds fd
    then (build_fake_netlink_reply host routes read_data pid s.reply buf len
        >>= λ (reply, reply_len).
            ok (some (record s { reply = reply; reply_len = reply_len }, len)))
    else ok none

-- What peek_word() returns: ptrace(2)'s -1 where the word is not read. The code sets it to 0 at some places.
abbrev pub word_or_zero : Option ℕ → ℕ
word_or_zero none = 0
word_or_zero (some word) = word

abbrev pub peeked : Option ℕ → ℕ
peeked none = 18446744073709551615
peeked (some word) = word

-- A pointer and the length behind it, that is 0 where the pointer is not read: an element of an iovec, and
-- the iovec of a message header.
abbrev pub segment : (ℕ → Option ℕ) → ℕ → ℕ → ℕ × ℕ
segment peek_word w iov = elim (peek_word iov) [
  | none ↦ (peeked none, 0)
  | some base ↦ (base, peeked (peek_word (iov + w)))
]

-- case PR_sendmsg: the request is the first element of the iovec, whose length is the result.
unfoldable pub sendmsg :
    Host
    → (ℕ → Option (List Bytes))
    → (ℕ → ℕ → Option Bytes)
    → (ℕ → Option ℕ)
    → ℕ
    → ℕ
    → NetlinkState
    → ℕ
    → ℕ
    → Result (Option (NetlinkState × ℕ))
sendmsg host routes read_data peek_word w pid s fd msghdr_addr =
    let (iov_ptr, iov_count) = segment peek_word w (msghdr_addr + 2 * w) in
    let first = segment peek_word w iov_ptr in
    if is_fake_netlink_fd s.fds fd
    then (if msghdr_addr == 0 || iov_ptr == 0 || iov_count == 0
        then ok (some (s, 0))
        else (build_fake_netlink_reply host routes read_data pid s.reply first.0 first.1 >>= λ b.
            ok (some (record s { reply = b.0; reply_len = b.1 }, first.1))))
    else ok none
