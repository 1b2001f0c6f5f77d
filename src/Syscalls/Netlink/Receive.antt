-- ===== src/Syscalls/Netlink/Receive.antt =====
-- syscall/enter.c: what a tracee receives of a reply. What the code writes to the tracee's memory is a list of
-- writes; whether a write succeeds is a parameter.
use Prim.Native.Nat.{bit_and}
use vm_forge.Prelude.{
  ℕ, zero, suc, ◌+◌, ◌-◌, ◌*◌, Bool, not, ◌&&◌, ◌||◌, List, [], ◌∷◌, ◌++◌, take, drop, ltb, ◌==◌,
  if◌then◌else◌, Option, none, some,
}
use vm_forge.Prelude.Bytes.{Bytes}
use vm_forge.Prelude.Errors.{Errno, einval, efault}
use vm_forge.Syscalls.Netlink.{bytes16, bytes32}
use vm_forge.Syscalls.Netlink.Sockets.{NetlinkState, is_fake_netlink_fd, word_or_zero, segment}

-- A write to the tracee's memory.
abbrev pub Write : Type 0
Write = ℕ × Bytes

-- struct sockaddr_nl with AF_NETLINK and a port.
abbrev pub sockaddr_nl : ℕ → Bytes
sockaddr_nl pid = bytes16 16 ++ (0 ∷ 0 ∷ (bytes32 pid ++ bytes32 0))

-- What is written, and the error if there is one. `peek_uint32` is none where it fails.
unfoldable pub write_fake_netlink_sockname :
    (Write → Bool) → (ℕ → Option ℕ) → ℕ → ℕ → ℕ → List Write × Option Errno
write_fake_netlink_sockname writes peek_uint32 pid addr_ptr size_ptr =
    let size : Write = (size_ptr, bytes32 12) in
    let status = if writes size then none else some efault in
    if size_ptr == 0 then ([], some einval) else elim (peek_uint32 size_ptr) [
      | none ↦ ([], some efault)
      | some in_size ↦
          let name : Write = (addr_ptr, take in_size (sockaddr_nl pid)) in
          if not (addr_ptr == 0) && ltb 0 in_size
          then (if writes name then (name ∷ size ∷ [], status) else ([], some efault))
          else (size ∷ [], status)
    ]

-- MSG_PEEK, MSG_TRUNC
abbrev pub has_peek : ℕ → Bool
has_peek flags = not (bit_and flags 2 == 0)

abbrev pub has_trunc : ℕ → Bool
has_trunc flags = not (bit_and flags 32 == 0)

unfoldable pub after_recv : NetlinkState → ℕ → NetlinkState
after_recv s flags = if has_peek flags then s else record s { reply_len = 0 }

-- case PR_recvfrom: the state, the result and the writes.
unfoldable pub recvfrom :
    (Write → Bool)
    → (ℕ → Option ℕ)
    → ℕ
    → NetlinkState
    → ℕ
    → ℕ
    → ℕ
    → ℕ
    → ℕ
    → ℕ
    → Option (NetlinkState × ℕ × List Write)
recvfrom writes peek_uint32 pid s fd buf len flags addr_ptr size_ptr =
    let wanted = if ltb len s.reply_len then len else s.reply_len in
    let write : Write = (buf, take wanted s.reply) in
    let is_written = ltb 0 s.reply_len && not (buf == 0) && ltb 0 wanted && writes write in
    let copied : ℕ = if is_written then wanted else 0 in
    let source : List Write =
      if addr_ptr == 0 || size_ptr == 0
      then []
      else (write_fake_netlink_sockname writes peek_uint32 pid addr_ptr size_ptr).0 in
    if is_fake_netlink_fd s.fds fd
    then some (
      after_recv s flags,
      if has_trunc flags then s.reply_len else copied,
      if is_written then write ∷ source else source,
    )
    else none

unfoldable pub at_most : ℕ → ℕ → ℕ
at_most chunk len = if ltb len chunk then len else chunk

unfoldable pub needs_write : ℕ → ℕ → Bool
needs_write base chunk = not (base == 0) && ltb 0 chunk

-- scatter_fake_netlink_reply(), from the bytes that are done on: the bytes done, and the writes.
unfoldable pub scatter : (Write → Bool) → Bytes → ℕ → List (ℕ × ℕ) → ℕ → ℕ × List Write
scatter writes reply reply_len [] done = (done, [])
scatter writes reply reply_len ((base, len) ∷ iov) done =
    let chunk = at_most (reply_len - done) len in
    let write : Write = (base, take chunk (drop done reply)) in
    let rest = scatter writes reply reply_len iov (done + chunk) in
    if ltb done reply_len
    then (if needs_write base chunk && not (writes write)
        then (done, [])
        else (rest.0, if needs_write base chunk then write ∷ rest.1 else rest.1))
    else (done, [])

unfoldable pub segments : (ℕ → Option ℕ) → ℕ → ℕ → ℕ → List (ℕ × ℕ)
segments peek_word w iov_ptr zero = []
segments peek_word w iov_ptr (suc count) =
    segment peek_word w iov_ptr ∷ segments peek_word w (iov_ptr + 2 * w) count

-- The source address of a message, from the kernel.
unfoldable pub msg_name_writes : (Write → Bool) → ℕ → ℕ → ℕ → Option ℕ → List Write
msg_name_writes writes w msghdr_addr msg_name none = []
msg_name_writes writes w msghdr_addr msg_name (some in_namelen) =
    if msg_name == 0 || in_namelen == 0
    then []
    else (msg_name, take in_namelen (sockaddr_nl 0)) ∷ (msghdr_addr + w, bytes32 12) ∷ []

-- case PR_recvmsg; `w` is the size of a word.
unfoldable pub recvmsg :
    (Write → Bool)
    → (ℕ → Option ℕ)
    → (ℕ → Option ℕ)
    → ℕ
    → NetlinkState
    → ℕ
    → ℕ
    → ℕ
    → Option (NetlinkState × ℕ × List Write)
recvmsg writes peek_word peek_uint32 w s fd msghdr_addr flags =
    let word =
      λ (n : ℕ). if msghdr_addr == 0 then 0 else word_or_zero (peek_word (msghdr_addr + n * w)) in
    let scattered : ℕ × List Write =
      if word 2 == 0 || word 3 == 0
      then (0, [])
      else scatter writes s.reply s.reply_len (segments peek_word w (word 2) (word 3)) 0 in
    let name = msg_name_writes writes w msghdr_addr (word 0) (peek_uint32 (msghdr_addr + w)) in
    let msg_flags : Write =
      (msghdr_addr + 6 * w, bytes32 (if ltb scattered.0 s.reply_len then 32 else 0)) in
    if is_fake_netlink_fd s.fds fd
    then some (
      after_recv s flags,
      if has_trunc flags then s.reply_len else scattered.0,
      if msghdr_addr == 0 then scattered.1 else scattered.1 ++ (name ++ (msg_flags ∷ [])),
    )
    else none
