-- ===== src/Syscalls/Netlink/Served.antt =====
-- The reply to a request, whatever it asks for, is a chain of messages that fits the reply buffer.
use mathlib.Core.Path.{subst}
use vm_forge.Prelude.{
  ℕ, ◌+◌, ◌≤◌, ◌<◌, ◌≡◌, ◌⊎◌, ◌≢◌, refl, inl, inr, Bool, true, false, ◌||◌, List, [], ◌∷◌, arith,
  length, ltb, ◌==◌, if◌then◌else◌, Bool-cases, Option, some,
}
use vm_forge.Prelude.Bytes.{Bytes}
use vm_forge.Prelude.Errors.{Result, ok, ◌>>=◌}
use vm_forge.Syscalls.Netlink.{Built, nl_build_done, nl_build_error}
use vm_forge.Syscalls.Netlink.Hosts.{Host}
use vm_forge.Syscalls.Netlink.Relay.{relay_route_dump}
use vm_forge.Syscalls.Netlink.Reply.{
  type_of, seq_of, is_dump, family_of, reply_links, reply_addrs, reply_routes, reply_other,
  reply_to, build_fake_netlink_reply,
}
use vm_forge.Syscalls.Netlink.Stores.{grown}
use vm_forge.Syscalls.Netlink.Chains.{no_message, Terminated, Terminated-Chain}
use vm_forge.Syscalls.Netlink.Steps.{done_message, nl_build_done-Adds}
use vm_forge.Syscalls.Netlink.Interfaces.{IsHost}
use vm_forge.Syscalls.Netlink.Dumps.{IsRelay, relay_route_dump-Terminated}
use vm_forge.Syscalls.Netlink.Parts.{
  IsReply, IsOfOtherFamily, Terminated-filled, grown-IsReply, Answers, done-Terminated, error-Part,
}
use vm_forge.Syscalls.Netlink.Fallbacks.{reply_links-Answers, reply_addrs-Answers}

-- A lone message.
done-Answers :
    (req : Bytes) (pid : ℕ) (out : Bytes)
    → 512 ≤ length out
    → Answers req pid (length out) (nl_build_done (out, 0) (length out) (seq_of req) pid)
done-Answers req pid out room =
    let last = done-Terminated (seq_of req) pid [] no_message in
    let all = done_message (seq_of req) pid in
    (
      grown out 0 all,
      nl_build_done-Adds out [] (seq_of req) pid (omega arith),
      grown-IsReply req pid out all (omega arith) (Terminated-Chain all last) (inr last)
          (inl (Terminated-filled all last)),
    )

error-Answers :
    (req : Bytes) (pid error : ℕ) (out : Bytes)
    → is_dump req ≡ false
    → 512 ≤ length out
    → Answers req pid (length out) (nl_build_error (out, 0) (length out) (seq_of req) pid error)
error-Answers req pid error out single room =
    let (bs, e, chain, left, filled) = error-Part out (seq_of req) pid error (omega arith) in
    (
      grown out 0 bs,
      e,
      grown-IsReply req pid out bs (omega arith) chain (inl single) (by_part bs filled),
    )
  where
    by_part : (bs : Bytes) → (0 < length bs) ⊎ ⊥ → (0 < length bs) ⊎ IsOfOtherFamily req
    by_part bs (inl some_bytes) = inl some_bytes
    by_part bs (inr never) = absurd never

-- An answer by the branch that is taken.
branch-Answers :
    (req : Bytes) (pid size : ℕ) (yes_dump no_dump : Result Built)
    → ((is_dump req ≡ true) → Answers req pid size yes_dump)
    → ((is_dump req ≡ false) → Answers req pid size no_dump)
    → Answers req pid size (if is_dump req then yes_dump else no_dump)
branch-Answers req pid size yes_dump no_dump one other = elim (Bool-cases (is_dump req)) [
  | inl dump ↦ let (b, e, is) = one dump in (b, rw dump e, is)
  | inr single ↦ let (b, e, is) = other single in (b, rw single e, is)
]

reply_other-Answers :
    (req : Bytes) (pid : ℕ) (out : Bytes)
    → 512 ≤ length out
    → Answers req pid (length out) (reply_other req (length out) pid out)
unfolding reply_other
reply_other-Answers req pid out room =
    branch-Answers req pid (length out) (nl_build_done (out, 0) (length out) (seq_of req) pid)
      (nl_build_error (out, 0) (length out) (seq_of req) pid 0) (λ _. done-Answers req pid out room)
      (λ single. error-Answers req pid 0 out single room)

-- The relayed routes, or a lone terminator where there are none.
relayed-Answers :
    (req : Bytes) (pid : ℕ) (out bs : Bytes)
    → 512 ≤ length out
    → length bs ≤ length out
    → (bs ≡ []) ⊎ Terminated (seq_of req) pid bs
    → Answers req pid (length out) (
        if 0 + length bs == 0
        then nl_build_done (grown out 0 bs) (length out) (seq_of req) pid
        else ok (grown out 0 bs))
relayed-Answers req pid out [] room fits end = done-Answers req pid out room
relayed-Answers req pid out (c ∷ bs) room fits (inl never) = absurd (cc)
relayed-Answers req pid out (c ∷ bs) room fits (inr last) =
    let some_bytes : (0 + length (c ∷ bs) == 0) ≡ false = ground arith in
    rw some_bytes (
      grown out 0 (c ∷ bs),
      refl,
      grown-IsReply req pid out (c ∷ bs) fits (Terminated-Chain (c ∷ bs) last) (inr last)
          (inl (omega arith)),
    )

reply_routes-Answers :
    (routes : ℕ → Option (List Bytes)) (req : Bytes) (pid : ℕ) (out : Bytes)
    → IsRelay (routes (family_of req))
    → 512 ≤ length out
    → Answers req pid (length out) (reply_routes routes req (length out) pid out)
unfolding reply_routes
reply_routes-Answers routes req pid out is room =
    let (bs, e, end, fits) =
      relay_route_dump-Terminated (routes (family_of req)) out (seq_of req) pid is (omega arith) in
    branch-Answers req pid (length out)
      (relay_route_dump (routes (family_of req)) out (length out) (seq_of req) pid >>= λ b.
        (if b.1 == 0 then nl_build_done b (length out) (seq_of req) pid else ok b))
      (nl_build_error (out, 0) (length out) (seq_of req) pid 0)
      (λ _. rw e (relayed-Answers req pid out bs room fits end))
      (λ single. error-Answers req pid 0 out single room)

reply_to-Answers :
    (host : Host) (routes : ℕ → Option (List Bytes)) (pid : ℕ) (out req : Bytes)
    → IsHost host.interfaces
    → IsRelay (routes (family_of req))
    → 512 ≤ length out
    → Answers req pid (length out) (reply_to host routes pid out (length out) req)
unfolding reply_to
reply_to-Answers host routes pid out req is relay room =
    by_type (type_of req == 18) (type_of req == 22) (type_of req == 26) (λ e. ground arith)
  where
    by_type :
        (link addr route : Bool)
        → (addr ≡ true → type_of req ≡ 22)
        → Answers req pid (length out) (
            if link
            then reply_links host req (length out) pid out
            else if addr
            then reply_addrs host req (length out) pid out
            else if route
            then reply_routes routes req (length out) pid out
            else reply_other req (length out) pid out)
    by_type true addr route kind = reply_links-Answers host req pid out is room
    by_type false true route kind = reply_addrs-Answers host req pid out is (kind refl) room
    by_type false false true kind = reply_routes-Answers routes req pid out relay room
    by_type false false false kind = reply_other-Answers req pid out room

-- A request of 16 bytes at least that can be read gets a reply, with no access outside a buffer and no loop
-- that fails to end: one message at least, one behind the other, that fit the tracee's reply buffer and carry
-- the request's sequence number and the tracee's port, the last of them NLMSG_DONE where the request is a
-- dump. Only a request for addresses that is no dump and asks for another family than AF_INET and AF_INET6
-- may get no message. The buffer has 8192 bytes; the host's interfaces have names of at most 15 bytes and
-- addresses as long as their families say, and the host's kernel pads its messages to four bytes.
pub build_fake_netlink_reply-IsReply :
    (host : Host) (routes : ℕ → Option (List Bytes)) (read_data : ℕ → ℕ → Option Bytes) (pid : ℕ)
    (reply req : Bytes) (buf_addr buf_len : ℕ)
    → length reply ≡ 8192
    → IsHost host.interfaces
    → IsRelay (routes (family_of req))
    → buf_addr ≢ 0
    → 16 ≤ buf_len
    → read_data buf_addr (if ltb buf_len 256 then buf_len else 256) ≡ some req
    → (b : Built) × (build_fake_netlink_reply host routes read_data pid reply buf_addr buf_len
        ≡ ok b)
      × IsReply req pid 8192 b
unfolding build_fake_netlink_reply
build_fake_netlink_reply-IsReply host routes read_data pid reply req buf_addr buf_len size is relay
      there long read =
    let answers =
      subst (λ (n : ℕ). Answers req pid n (reply_to host routes pid reply n req)) size
        (reply_to-Answers host routes pid reply req is relay (omega arith)) in
    let reads : (buf_addr == 0 || ltb buf_len 16) ≡ false = ground arith in rw (reads, read) answers
