-- ===== src/Syscalls/Netlink/Relay.antt =====
-- syscall/enter.c: the relay of the host kernel's answer to a dump of its routes. The datagrams that
-- recv(2) gives are a parameter; a read behind one is an error of the model.
use vm_forge.Prelude.{
  ℕ, zero, suc, ◌+◌, ◌-◌, ◌%◌, Bool, true, false, ◌||◌, List, [], ◌∷◌, ◌++◌, length, take, drop,
  replicate, ltb, ◌==◌, if◌then◌else◌, Option, none, some,
}
use vm_forge.Prelude.Bytes.{Bytes}
use vm_forge.Prelude.Errors.{Result, ok, err, ◌>>=◌, out_of_bounds, out_of_fuel}
use vm_forge.Syscalls.Netlink.{Built, align4, bytes32, store, load, nl_build_done}
use vm_forge.Syscalls.Netlink.Request.{read16, read32}

-- nlmsg_seq and nlmsg_pid rewritten.
abbrev pub stamped : ℕ → ℕ → Bytes → Bytes
stamped seq pid m = take 8 m ++ (bytes32 seq ++ (bytes32 pid ++ drop 16 m))

pub record Relayed : Type 0 where
  pub built : Built
  pub is_done : Bool
  pub saw_done : Bool

-- memcpy() of the message of `mlen` bytes that the rest of a datagram begins with, padded by memset().
unfoldable pub copy_message : ℕ → ℕ → Bytes → Built → Result Built
copy_message seq pid rest (buf, off) =
    let mlen = read32 rest in
    load rest mlen >>= λ m. store buf off (stamped seq pid m) >>= λ copied.
    store copied (off + mlen) (replicate (align4 mlen - mlen) 0) >>= λ padded.
    ok (padded, off + align4 mlen)

-- NLMSG_NEXT takes the message's size from an unsigned length.
abbrev pub next_len : ℕ → ℕ → ℕ
next_len len aligned = (len + (18446744073709551616 - aligned)) % 18446744073709551616

-- What a round does: end, by NLMSG_OK or for want of room, or copy the message.
pub data Round : Type 0 where
  ended full copy overrun : Round

unfoldable pub round_of : ℕ → Bytes → ℕ → ℕ → Round
round_of max rest len off =
    if ltb len 16
    then ended
    else if ltb (length rest) 16
    then overrun
    else if ltb (read32 rest) 16 || ltb len (read32 rest)
    then ended
    else if ltb max (off + align4 (read32 rest) + 64)
    then full
    else copy

unfoldable pub each_message : ℕ → ℕ → ℕ → ℕ → Bytes → ℕ → Built → Result Relayed
each_message zero max seq pid rest len b = err out_of_fuel
each_message (suc fuel) max seq pid rest len b = elim (round_of max rest len b.1) [
  | ended ↦ ok record { built = b; is_done = false; saw_done = false }
  | full ↦ ok record { built = b; is_done = true; saw_done = false }
  | overrun ↦ err out_of_bounds
  | copy ↦ copy_message seq pid rest b >>= λ b'. elim (read16 (drop 4 rest) == 3) [
    | true ↦ ok record { built = b'; is_done = true; saw_done = true }
    | false ↦
        each_message fuel max seq pid (drop (align4 (read32 rest)) rest)
          (next_len len (align4 (read32 rest))) b'
  ]
]

-- The rounds of recv(2) into a buffer of 8192 bytes; an empty datagram ends them.
unfoldable pub each_datagram : ℕ → ℕ → ℕ → ℕ → List Bytes → Built → Result Relayed
each_datagram zero max seq pid datagrams b =
    ok record { built = b; is_done = false; saw_done = false }
each_datagram (suc rounds) max seq pid [] b =
    ok record { built = b; is_done = false; saw_done = false }
each_datagram (suc rounds) max seq pid ([] ∷ datagrams) b =
    ok record { built = b; is_done = false; saw_done = false }
each_datagram (suc rounds) max seq pid ((c ∷ d) ∷ datagrams) b =
    let received = take 8192 (c ∷ d) in
    each_message (length received + 1) max seq pid received (length received) b >>= λ r.
    elim r.is_done [ true ↦ ok r | false ↦ each_datagram rounds max seq pid datagrams r.built ]

-- `datagrams` is none where the socket or the request fails.
unfoldable pub relay_route_dump : Option (List Bytes) → Bytes → ℕ → ℕ → ℕ → Result Built
relay_route_dump none out max seq pid = ok (out, 0)
relay_route_dump (some datagrams) out max seq pid =
    each_datagram 64 max seq pid datagrams (out, 0) >>= λ r.
    (if r.built.1 == 0
      then ok (r.built.0, 0)
      else if r.saw_done
      then ok r.built
      else nl_build_done r.built max seq pid)
