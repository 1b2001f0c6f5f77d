-- ===== src/Syscalls/Netlink/Dumps.antt =====
-- The relay of a dump of routes ends with a terminator.

use vm_forge.Prelude.{
  ℕ, zero, suc, ◌+◌, ◌-◌, ◌%◌, ◌≤◌, ◌<◌, ◌≡◌, ◌⊎◌, refl, sym, ◌∙◌, inl, inr, Bool, true, false,
  List, [], ◌∷◌, ◌++◌, arith, length, length-append, length-take, length-drop, take, drop, ltb,
  ◌==◌, if◌then◌else◌, Bool-cases, Option, some, none,
}
use vm_forge.Prelude.Bytes.{Bytes}
use vm_forge.Prelude.Errors.{Result, ok, err, out_of_bounds, ◌>>=◌}
use vm_forge.Syscalls.Netlink.{bytes32, align4, written, nl_build_done}
use vm_forge.Syscalls.Netlink.Request.{read16, read32}
use vm_forge.Syscalls.Netlink.Relay.{
  Relayed, copy_message, next_len, Round, ended, full, copy, overrun, round_of, each_message,
  each_datagram, relay_route_dump,
}
use vm_forge.Syscalls.Netlink.Stores.{grown}
use vm_forge.Syscalls.Netlink.Chains.{
  Chain, no_message, append-Chain, single-Chain, Terminated, message-IsMessage,
}
use vm_forge.Syscalls.Netlink.Steps.{done_message, nl_build_done-Adds}
use vm_forge.Syscalls.Netlink.Routes.{length-copied, copied-IsMessage, copy_message-grown, copied}

-- What the relay has done: messages, and room left for a terminator, unless the last message is one.
abbrev pub Relays : Bytes → ℕ → ℕ → Result Relayed → Type 0
Relays out seq pid r =
    (bs : Bytes) × (is_done : Bool) × (saw_done : Bool) × (r
      ≡ ok record { built = grown out 0 bs; is_done = is_done; saw_done = saw_done })
    × Chain seq pid bs
    × (length bs + 64 ≤ length out)
    × ((saw_done ≡ false) ⊎ Terminated seq pid bs)

-- What a round may do of a datagram whose length is right.
abbrev pub Allows : ℕ → Bytes → ℕ → Round → Type 0
Allows max rest off ended = Unit
Allows max rest off full = Unit
Allows max rest off overrun = ⊥
Allows max rest off copy =
    (16 ≤ read32 rest) × (read32 rest ≤ length rest) × (off + align4 (read32 rest) + 64 ≤ max)

pub round_of-Allows :
    (max : ℕ) (rest : Bytes) (off : ℕ) → Allows max rest off (round_of max rest (length rest) off)
unfolding round_of
round_of-Allows max rest off = elim (Bool-cases (ltb (length rest) 16)) [
  | inl short ↦ rw short tt
  | inr header ↦ elim (Bool-cases (ltb (read32 rest) 16)) [
    | inl bad ↦ rw (header, bad) tt
    | inr long ↦ elim (Bool-cases (ltb (length rest) (read32 rest))) [
      | inl over ↦ rw (header, long, over) tt
      | inr whole ↦ elim (Bool-cases (ltb max (off + align4 (read32 rest) + 64))) [
        | inl no_room ↦ rw (header, long, whole, no_room) tt
        | inr room ↦
            rw (header, long, whole, room)
              (ground (arith, long), ground (arith, whole), ground (arith, room))
      ]
    ]
  ]
]

pub next_len-exact :
    (len aligned : ℕ) → aligned ≤ len → len < 65536 → next_len len aligned ≡ len - aligned
next_len-exact len aligned inside small = omega arith

pub each_message-Relays :
    (fuel : ℕ) (out : Bytes) (seq pid : ℕ) (rest sofar : Bytes)
    → length rest < fuel
    → length rest < 65536
    → length rest % 4 ≡ 0
    → Chain seq pid sofar
    → length sofar + 64 ≤ length out
    → Relays out seq pid
        (each_message fuel (length out) seq pid rest (length rest) (grown out 0 sofar))
unfolding each_message
each_message-Relays zero out seq pid rest sofar enough small even chain room = absurd (omega arith)
each_message-Relays (suc fuel) out seq pid rest sofar enough small even chain room =
    by_round (round_of (length out) rest (length rest) (0 + length sofar))
      (round_of-Allows (length out) rest (0 + length sofar))
      (λ (bs : Bytes) (shorter : length (drop (align4 (read32 rest)) rest) < fuel)
          (less : length (drop (align4 (read32 rest)) rest) < 65536)
          (still : length (drop (align4 (read32 rest)) rest) % 4 ≡ 0) (c : Chain seq pid bs)
          (fits : length bs + 64 ≤ length out).
        each_message-Relays fuel out seq pid (drop (align4 (read32 rest)) rest) bs shorter less
          still c fits)
  where
    by_round :
        (r : Round)
        → Allows (length out) rest (0 + length sofar) r
        → ((bs : Bytes)
            → length (drop (align4 (read32 rest)) rest) < fuel
            → length (drop (align4 (read32 rest)) rest) < 65536
            → length (drop (align4 (read32 rest)) rest) % 4 ≡ 0
            → Chain seq pid bs
            → length bs + 64 ≤ length out
            → Relays out seq pid (
                each_message fuel
                  (length out)
                  seq
                  pid
                  (drop (align4 (read32 rest)) rest)
                  (length (drop (align4 (read32 rest)) rest))
                  (grown out 0 bs)))
        → Relays out seq pid (elim r [
          | ended ↦ ok record { built = grown out 0 sofar; is_done = false; saw_done = false }
          | full ↦ ok record { built = grown out 0 sofar; is_done = true; saw_done = false }
          | overrun ↦ err out_of_bounds
          | copy ↦ copy_message seq pid rest (grown out 0 sofar) >>= λ b'.
              elim (read16 (drop 4 rest) == 3) [
                | true ↦ ok record { built = b'; is_done = true; saw_done = true }
                | false ↦
                    each_message fuel
                      (length out)
                      seq
                      pid
                      (drop (align4 (read32 rest)) rest)
                      (next_len (length rest) (align4 (read32 rest)))
                      b'
              ]
        ])
    by_round ended allows ih = (sofar, false, false, refl, chain, room, inl refl)
    by_round full allows ih = (sofar, true, false, refl, chain, room, inl refl)
    by_round overrun allows ih = absurd allows
    by_round copy (long, whole, fits) ih =
        let m = copied seq pid rest in
        let e = copy_message-grown seq pid rest long whole out sofar (omega arith) in
        let (is, kind) = copied-IsMessage seq pid rest long whole in
        let size = length-copied seq pid rest long whole in
        let longer = length-append sofar m in
        let chain' = append-Chain sofar m chain (single-Chain m is) in
        let room' : length (sofar ++ m) + 64 ≤ length out = omega (arith, longer, size) in
        let left = length-drop (align4 (read32 rest)) rest in
        let len : next_len (length rest) (align4 (read32 rest))
            ≡ length (drop (align4 (read32 rest)) rest) =
          next_len-exact (length rest) (align4 (read32 rest)) (omega arith) small ∙ sym left in
        elim (Bool-cases (read16 (drop 4 rest) == 3)) [
          | inl last ↦
              let type : read16 (drop 4 m) ≡ 3 = ground (arith, kind, last) in
              rw (e, last)
                (sofar ++ m, true, true, refl, chain', room', inr (sofar, m, chain, is, type, refl))
          | inr more ↦
              rw (e, more, len)
                (ih (sofar ++ m) (omega arith) (omega arith) (omega arith) chain' room')
        ]

-- The kernel pads its messages, so the size of a datagram is a multiple of 4.
abbrev pub ArePadded : List Bytes → Type 0
ArePadded [] = Unit
ArePadded (d ∷ datagrams) = (length d % 4 ≡ 0) × ArePadded datagrams

abbrev pub IsRelay : Option (List Bytes) → Type 0
IsRelay none = Unit
IsRelay (some datagrams) = ArePadded datagrams

pub each_datagram-Relays :
    (rounds : ℕ) (out : Bytes) (seq pid : ℕ) (datagrams : List Bytes) (sofar : Bytes)
    → ArePadded datagrams
    → Chain seq pid sofar
    → length sofar + 64 ≤ length out
    → Relays out seq pid (each_datagram rounds (length out) seq pid datagrams (grown out 0 sofar))
unfolding each_datagram
each_datagram-Relays zero out seq pid datagrams sofar are chain room =
    (sofar, false, false, refl, chain, room, inl refl)
each_datagram-Relays (suc rounds) out seq pid [] sofar are chain room =
    (sofar, false, false, refl, chain, room, inl refl)
each_datagram-Relays (suc rounds) out seq pid ([] ∷ datagrams) sofar are chain room =
    (sofar, false, false, refl, chain, room, inl refl)
each_datagram-Relays (suc rounds) out seq pid ((c ∷ d) ∷ datagrams) sofar (even, are) chain room =
    let received = take 8192 (c ∷ d) in
    let size = length-take 8192 (c ∷ d) in
    after
      (each_message (length received + 1) (length out) seq pid received (length received)
        (grown out 0 sofar))
      (each_message-Relays (length received + 1) out seq pid received sofar (omega arith)
        (omega (arith, size)) (omega (arith, size, even)) chain room)
      (λ (bs : Bytes) (c' : Chain seq pid bs) (fits : length bs + 64 ≤ length out).
        each_datagram-Relays rounds out seq pid datagrams bs are c' fits)
  where
    after :
        (m : Result Relayed)
        → Relays out seq pid m
        → ((bs : Bytes)
            → Chain seq pid bs
            → length bs + 64 ≤ length out
            → Relays out seq pid
                (each_datagram rounds (length out) seq pid datagrams (grown out 0 bs)))
        → Relays out seq pid (
            m >>= λ r. elim r.is_done [
              | true ↦ ok r
              | false ↦ each_datagram rounds (length out) seq pid datagrams r.built
            ])
    after m (bs, true, saw, e, chain', room', last) ih =
        rw e (bs, true, saw, refl, chain', room', last)
    after m (bs, false, saw, e, chain', room', last) ih = rw e (ih bs chain' room')

-- A relayed dump is empty, with nothing kept of the buffer's length, or a chain with its terminator.
pub relay_route_dump-Terminated :
    (datagrams : Option (List Bytes)) (out : Bytes) (seq pid : ℕ)
    → IsRelay datagrams
    → 64 ≤ length out
    → (bs : Bytes) × (relay_route_dump datagrams out (length out) seq pid ≡ ok (grown out 0 bs))
      × ((bs ≡ []) ⊎ Terminated seq pid bs)
      × (length bs ≤ length out)
unfolding relay_route_dump
relay_route_dump-Terminated none out seq pid are room = ([], refl, inl refl, omega arith)
relay_route_dump-Terminated (some datagrams) out seq pid are room =
    let (bs, is_done, saw, e, chain, left, last) =
      each_datagram-Relays 64 out seq pid datagrams [] are no_message room in
    rw e (closed bs saw chain left last)
  where
    closed :
        (bs : Bytes) (saw : Bool)
        → Chain seq pid bs
        → length bs + 64 ≤ length out
        → (saw ≡ false) ⊎ Terminated seq pid bs
        → (all : Bytes) × ((if 0 + length bs == 0
              then ok (written out 0 bs, 0)
              else if saw
              then ok (grown out 0 bs)
              else nl_build_done (grown out 0 bs) (length out) seq pid)
            ≡ ok (grown out 0 all))
          × ((all ≡ []) ⊎ Terminated seq pid all)
          × (length all ≤ length out)
    closed [] saw chain left last = ([], refl, inl refl, omega arith)
    closed (c ∷ bs) true chain left (inl never) = absurd (cc)
    closed (c ∷ bs) true chain left (inr terminated) =
        let some_bytes : (0 + length (c ∷ bs) == 0) ≡ false = ground arith in
        (c ∷ bs, rw some_bytes refl, inr terminated, omega arith)
    closed (c ∷ bs) false chain left last =
        let some_bytes : (0 + length (c ∷ bs) == 0) ≡ false = ground arith in
        let done = done_message seq pid in
        let built = nl_build_done-Adds out (c ∷ bs) seq pid (omega arith) in
        let is = message-IsMessage 3 2 seq pid (bytes32 0) refl (omega arith) in
        (
          c ∷ bs ++ done,
          rw some_bytes built,
          inr (c ∷ bs, done, chain, is, refl, refl),
          omega (arith, length-append {0} (c ∷ bs) done),
        )
