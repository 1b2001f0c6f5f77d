-- ===== src/Syscalls/Netlink/Fds.antt =====
-- The table of the descriptors that stand in for AF_NETLINK sockets, as the set that it is.
use vm_forge.Prelude.{
  ℕ, suc, ◌≤◌, ◌≡◌, refl, ◌∙◌, inl, inr, Bool, true, false, not, ◌&&◌, ◌||◌, List, [], ◌∷◌, ◌++◌,
  arith, length, length-append, ltb, ◌==◌, Bool-cases,
}
use vm_forge.Syscalls.Netlink.Sockets.{
  NetlinkState, Probe, probe_unknown, probe_allowed, probe_blocked, host_blocks_af_netlink,
  is_negative, lists, is_fake_netlink_fd, over_head, last_to_head, unmark_fake_netlink_fd,
  socket_enter, mark, socket_exit, close_enter, Event, socket_enters, socket_exits, closes,
  handle_event, handle_events,
}

-- No descriptor stands in the table twice.
abbrev pub Distinct : List ℕ → Type 0
Distinct [] = Unit
Distinct (x ∷ fds) = (lists fds x ≡ false) × Distinct fds

abbrev pub IsTable : NetlinkState → Type 0
IsTable s = Distinct s.fds × (length s.fds ≤ 8)

lists-over_head :
    (x : ℕ) (fds : List ℕ) (y : ℕ) → lists (over_head x fds) y ≡ (x == y || lists fds y)
unfolding lists
lists-over_head x [] y = refl
lists-over_head x (last ∷ fds) y = ground arith

lists-last_to_head : (fds : List ℕ) (y : ℕ) → lists (last_to_head fds) y ≡ lists fds y
unfolding lists last_to_head
lists-last_to_head [] y = refl
lists-last_to_head (x ∷ fds) y =
    ground (arith, lists-over_head x (last_to_head fds) y, lists-last_to_head fds y)

over_head-Distinct :
    (x : ℕ) (fds : List ℕ) → lists fds x ≡ false → Distinct fds → Distinct (over_head x fds)
unfolding lists
over_head-Distinct x [] new distinct = (refl, tt)
over_head-Distinct x (last ∷ fds) new (apart, distinct) =
    (ground (arith, new, apart), (ground (arith, new), distinct))

last_to_head-Distinct : (fds : List ℕ) → Distinct fds → Distinct (last_to_head fds)
unfolding last_to_head
last_to_head-Distinct [] distinct = tt
last_to_head-Distinct (x ∷ fds) (new, distinct) =
    over_head-Distinct x (last_to_head fds) (lists-last_to_head fds x ∙ new)
      (last_to_head-Distinct fds distinct)

length-over_head : (x : ℕ) (fds : List ℕ) → length (over_head x fds) ≡ suc (length fds)
length-over_head x [] = refl
length-over_head x (last ∷ fds) = refl

length-last_to_head : (fds : List ℕ) → length (last_to_head fds) ≡ length fds
unfolding last_to_head
length-last_to_head [] = refl
length-last_to_head (x ∷ fds) =
    omega (arith, length-over_head x (last_to_head fds), length-last_to_head fds)

lists-unmark :
    (fds : List ℕ) (fd y : ℕ)
    → Distinct fds
    → lists (unmark_fake_netlink_fd fds fd) y ≡ (lists fds y && not (y == fd))
unfolding lists unmark_fake_netlink_fd
lists-unmark [] fd y distinct = refl
lists-unmark (x ∷ fds) fd y (new, distinct) =
    let rest = lists-unmark fds fd y distinct in
    let moved = lists-last_to_head fds y in
    elim (Bool-cases (x == fd)) [
      | inl found ↦
          let same : x ≡ fd = ground arith in
          rw found (
            rw moved (elim (Bool-cases (y == fd)) [
              | inl here ↦ let e : y ≡ x = ground arith in rw (here, e) (ground (arith, new))
              | inr other ↦ ground (arith, other, same)
            ]))
      | inr other ↦ rw (other, rest) (ground (arith, other))
    ]

unmark-Distinct : (fds : List ℕ) (fd : ℕ) → Distinct fds → Distinct (unmark_fake_netlink_fd fds fd)
unfolding unmark_fake_netlink_fd
unmark-Distinct [] fd distinct = tt
unmark-Distinct (x ∷ fds) fd (new, distinct) = elim (Bool-cases (x == fd)) [
  | inl found ↦ rw found (last_to_head-Distinct fds distinct)
  | inr other ↦
      rw other
        (ground (arith, lists-unmark fds fd x distinct, new), unmark-Distinct fds fd distinct)
]

length-unmark : (fds : List ℕ) (fd : ℕ) → length (unmark_fake_netlink_fd fds fd) ≤ length fds
unfolding unmark_fake_netlink_fd
length-unmark [] fd = omega arith
length-unmark (x ∷ fds) fd = elim (Bool-cases (x == fd)) [
  | inl found ↦ rw found (omega (arith, length-last_to_head fds))
  | inr other ↦ rw other (omega (arith, length-unmark fds fd))
]

lists-append_one : (fds : List ℕ) (fd y : ℕ) → lists (fds ++ (fd ∷ [])) y ≡ (lists fds y || fd == y)
unfolding lists
lists-append_one [] fd y = ground arith
lists-append_one (x ∷ fds) fd y = rw (lists-append_one fds fd y) (ground arith)

append_one-Distinct :
    (fds : List ℕ) (fd : ℕ) → lists fds fd ≡ false → Distinct fds → Distinct (fds ++ (fd ∷ []))
unfolding lists
append_one-Distinct [] fd new distinct = (refl, tt)
append_one-Distinct (x ∷ fds) fd new (apart, distinct) = (
  lists-append_one fds fd x ∙ ground (arith, apart, new),
  append_one-Distinct fds fd (ground (arith, new)) distinct,
)

mark-IsTable :
    (fds : List ℕ) (fd : ℕ)
    → Distinct fds
    → length fds ≤ 8
    → Distinct (mark fds fd) × (length (mark fds fd) ≤ 8)
unfolding mark
mark-IsTable fds fd distinct small = elim (Bool-cases (lists fds fd)) [
  | inl there ↦ elim (Bool-cases (ltb (length fds) 8)) [
    | inl room ↦ rw (room, there) (distinct, small)
    | inr full ↦ rw full (distinct, small)
  ]
  | inr new ↦ elim (Bool-cases (ltb (length fds) 8)) [
    | inl room ↦
        rw (room, new)
          (
            append_one-Distinct fds fd new distinct,
            ground (arith, room, length-append fds (fd ∷ [])),
          )
    | inr full ↦ rw full (distinct, small)
  ]
]

handle-IsTable :
    (host_blocks : Bool) (s : NetlinkState) (event : Event)
    → IsTable s
    → IsTable (handle_event host_blocks s event)
unfolding handle_event socket_enter socket_exit close_enter
handle-IsTable host_blocks s (socket_enters domain type protocol) (distinct, small) =
    elim (Bool-cases (domain == 16 && protocol == 0 && host_blocks)) [
      | inl replaced ↦ rw (handle_event, socket_enter, replaced) (distinct, small)
      | inr as_it_is ↦ rw (handle_event, socket_enter, as_it_is) (distinct, small)
    ]
handle-IsTable host_blocks s (socket_exits fd) (distinct, small) = elim (Bool-cases s.pending) [
  | inl pending ↦ elim (Bool-cases (is_negative fd)) [
    | inl error ↦ simp (pending, error) (distinct, small)
    | inr opened ↦ simp (pending, opened) (mark-IsTable s.fds fd distinct small)
  ]
  | inr other ↦ simp other (distinct, small)
]
handle-IsTable host_blocks s (closes fd) (distinct, small) =
    (unmark-Distinct s.fds fd distinct, omega (arith, length-unmark s.fds fd))

-- The host is probed once: the first answer is given for ever, whatever the host does later.
pub probe_once :
    (socket_opens binds later_opens later_binds : Bool) (cached : Probe)
    → host_blocks_af_netlink later_opens later_binds
        (host_blocks_af_netlink socket_opens binds cached).0
      ≡ host_blocks_af_netlink socket_opens binds cached
unfolding host_blocks_af_netlink
probe_once socket_opens binds later_opens later_binds probe_allowed = refl
probe_once socket_opens binds later_opens later_binds probe_blocked = refl
probe_once true true later_opens later_binds probe_unknown = refl
probe_once true false later_opens later_binds probe_unknown = refl
probe_once false binds later_opens later_binds probe_unknown = refl

-- Whatever sockets a tracee opens and closes, its table holds each descriptor once and eight at most.
pub handle_events-IsTable :
    (host_blocks : Bool) (s : NetlinkState) (events : List Event)
    → IsTable s
    → IsTable (handle_events host_blocks s events)
unfolding handle_events
handle_events-IsTable host_blocks s [] is = is
handle_events-IsTable host_blocks s (event ∷ events) is =
    handle_events-IsTable host_blocks (handle_event host_blocks s event) events
      (handle-IsTable host_blocks s event is)

-- After any opening and closing of sockets, close(2) ends the emulation of exactly the descriptor that is
-- closed: its number is not emulated if it is used again, and every other descriptor is emulated as it
-- was, though the table moves its last entry.
pub close_enter-is_fake :
    (host_blocks : Bool) (s : NetlinkState) (events : List Event) (fd other : ℕ)
    → IsTable s
    → is_fake_netlink_fd (close_enter (handle_events host_blocks s events) fd).fds other
      ≡ (is_fake_netlink_fd (handle_events host_blocks s events).fds other && not (other == fd))
unfolding is_fake_netlink_fd close_enter
close_enter-is_fake host_blocks s events fd other is =
    let (distinct, small) = handle_events-IsTable host_blocks s events is in
    let removed = lists-unmark (handle_events host_blocks s events).fds fd other distinct in
    elim (Bool-cases (is_negative other)) [
      | inl negative ↦ rw negative refl
      | inr number ↦ rw number removed
    ]
