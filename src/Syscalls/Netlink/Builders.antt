-- ===== src/Syscalls/Netlink/Builders.antt =====
-- nl_build_link(), nl_build_addr(), nl_build_done() and nl_build_error() as the messages that they append.

use vm_forge.Prelude.{
  ℕ, ◌+◌, ◌%◌, ◌≤◌, ◌<◌, ◌≡◌, refl, true, false, [], ◌∷◌, ◌++◌, arith, length, length-append,
  replicate, ltb,
}
use vm_forge.Prelude.Bytes.{Bytes}
use vm_forge.Prelude.Errors.{ok, ◌>>=◌}
use vm_forge.Syscalls.Netlink.{
  bytes32, written, store, nl_add_attr, nlmsghdr, nl_close, Link, Address, with_nul, hw_attrs,
  nl_build_link, label_attr, nl_build_addr, nl_build_done, nl_build_error,
}
use vm_forge.Syscalls.Netlink.Stores.{length-written, written-before, grown, store-ok}
use vm_forge.Syscalls.Netlink.Messages.{
  IsBody, fit-IsBody, message, nl_close-grown, link_info, operstate, link_body, addr_info,
  addr_body, IsLink, IsAddress, grow, hw_attrs-grown, label_attr-grown,
}

module _ (buf : Bytes) (start seq pid nlflags : ℕ) where
  -- The attributes of a link, one behind the other.
  link_attrs :
      (l : Link) (room : ℕ)
      → IsLink l
      → start + 16 + room ≡ length buf
      → 16 ≤ room
      → ((nl_add_attr
              (grown buf (start + 16) (link_info l))
              (length buf)
              3
              (with_nul l.name)
              ((length l.name + 1) % 65536)
            >>= λ b. nl_add_attr b (length buf) 4 (bytes32 l.mtu) 4 >>= λ b.
                nl_add_attr b (length buf) 13 (bytes32 1000) 4 >>= λ b.
                nl_add_attr b (length buf) 16 (operstate l) 1 >>= λ b.
                hw_attrs (length buf) l b >>= λ b. nl_close start 16 nlflags seq pid b)
          ≡ ok (grown buf start (message 16 nlflags seq pid (link_body room l))))
        × IsBody room (link_body room l)
  unfolding link_body
  link_attrs l room is size wide =
      let (name, there, eight) = is in
      let dlen : (length l.name + 1) % 65536 ≡ length l.name + 1 = omega arith in
      let read : length l.name + 1 ≤ length (with_nul l.name) =
        omega (arith, length-append {0} l.name (0 ∷ [])) in
      let g = grow buf (start + 16) room size in
      let is0 : IsBody room (link_info l) = (wide, refl) in
      let is1 = fit-IsBody room (link_info l) 3 (length l.name + 1) (with_nul l.name) read is0 in
      let is2 = fit-IsBody room _ 4 4 (bytes32 l.mtu) (omega arith) is1 in
      let is3 = fit-IsBody room _ 13 4 (bytes32 1000) (omega arith) is2 in
      let is4 = fit-IsBody room _ 16 1 (operstate l) (omega arith) is3 in
      let (hw, is5) = hw_attrs-grown buf (start + 16) room size l _ is is4 in
      let (small, even) = is5 in
      rw
        (
          dlen,
          g (link_info l) 3 (length l.name + 1) (with_nul l.name) is0 read,
          g _ 4 4 (bytes32 l.mtu) is1 (omega arith),
          g _ 13 4 (bytes32 1000) is2 (omega arith),
          g _ 16 1 (operstate l) is3 (omega arith),
          hw,
        )
        (nl_close-grown buf start (link_body room l) 16 nlflags seq pid (omega arith) even, is5)

  pub nl_build_link-grown :
      (l : Link) (room : ℕ)
      → IsLink l
      → start + 16 + room ≡ length buf
      → 16 ≤ room
      → (nl_build_link (buf, start) (length buf) seq pid nlflags l
          ≡ ok (grown buf start (message 16 nlflags seq pid (link_body room l))))
        × IsBody room (link_body room l)
  unfolding nl_build_link
  nl_build_link-grown l room is size wide =
      let has_room : ltb (length buf) (start + 16 + 16) ≡ false = ground arith in
      let stored = store-ok buf (start + 16) (link_info l) (omega arith) in
      rw (has_room, stored) (link_attrs l room is size wide)

  pub nl_build_link-full :
      (l : Link)
      → length buf < start + 32
      → nl_build_link (buf, start) (length buf) seq pid nlflags l ≡ ok (buf, start)
  unfolding nl_build_link
  nl_build_link-full l full =
      let no_room : ltb (length buf) (start + 16 + 16) ≡ true = ground arith in rw no_room refl

  addr_attrs :
      (a : Address) (room : ℕ)
      → IsAddress a
      → start + 16 + room ≡ length buf
      → 8 ≤ room
      → ((nl_add_attr (grown buf (start + 16) (addr_info a)) (length buf) 1 a.addr a.addrlen
            >>= λ b. nl_add_attr b (length buf) 2 a.addr a.addrlen >>= λ b.
                label_attr (length buf) a.family a.label b >>= λ b.
                nl_close start 20 nlflags seq pid b)
          ≡ ok (grown buf start (message 20 nlflags seq pid (addr_body room a))))
        × IsBody room (addr_body room a)
  unfolding addr_body
  addr_attrs a room (there, short) size wide =
      let g = grow buf (start + 16) room size in
      let is0 : IsBody room (addr_info a) = (wide, refl) in
      let is1 = fit-IsBody room (addr_info a) 1 a.addrlen a.addr there is0 in
      let is2 = fit-IsBody room _ 2 a.addrlen a.addr there is1 in
      let (labelled, is3) =
        label_attr-grown buf (start + 16) room size a.family a.label _ short is2 in
      let (small, even) = is3 in
      rw (g (addr_info a) 1 a.addrlen a.addr is0 there, g _ 2 a.addrlen a.addr is1 there, labelled)
        (nl_close-grown buf start (addr_body room a) 20 nlflags seq pid (omega arith) even, is3)

  pub nl_build_addr-grown :
      (a : Address) (room : ℕ)
      → IsAddress a
      → start + 16 + room ≡ length buf
      → 8 ≤ room
      → (nl_build_addr (buf, start) (length buf) seq pid nlflags a
          ≡ ok (grown buf start (message 20 nlflags seq pid (addr_body room a))))
        × IsBody room (addr_body room a)
  unfolding nl_build_addr
  nl_build_addr-grown a room is size wide =
      let has_room : ltb (length buf) (start + 16 + 8) ≡ false = ground arith in
      let stored = store-ok buf (start + 16) (addr_info a) (omega arith) in
      rw (has_room, stored) (addr_attrs a room is size wide)

  pub nl_build_addr-full :
      (a : Address)
      → length buf < start + 24
      → nl_build_addr (buf, start) (length buf) seq pid nlflags a ≡ ok (buf, start)
  unfolding nl_build_addr
  nl_build_addr-full a full =
      let no_room : ltb (length buf) (start + 16 + 8) ≡ true = ground arith in rw no_room refl

-- A header stored before a body that is there.
two_stores :
    (buf : Bytes) (off type flags seq pid : ℕ) (body : Bytes)
    → off + 16 + length body ≤ length buf
    → (store buf (off + 16) body >>= λ with_body.
        store with_body off (nlmsghdr (16 + length body) type flags seq pid) >>= λ closed.
        ok (closed, off + (16 + length body)))
      ≡ ok (grown buf off (message type flags seq pid body))
two_stores buf off type flags seq pid body fits =
    let header = nlmsghdr (16 + length body) type flags seq pid in
    let size = length-written buf (off + 16) body fits in
    let stored = store-ok (written buf (off + 16) body) off header (omega (arith, size)) in
    let before = written-before buf off header body fits in
    let end : off + (16 + length body) ≡ off + length (header ++ body) =
      omega (arith, length-append header body) in
    rw (store-ok buf (off + 16) body fits, stored, before, end) refl

pub nl_build_done-grown :
    (buf : Bytes) (off seq pid : ℕ)
    → off + 20 ≤ length buf
    → nl_build_done (buf, off) (length buf) seq pid
      ≡ ok (grown buf off (message 3 2 seq pid (bytes32 0)))
unfolding nl_build_done
nl_build_done-grown buf off seq pid fits =
    let has_room : ltb (length buf) (off + 20) ≡ false = ground arith in
    rw has_room (two_stores buf off 3 2 seq pid (bytes32 0) (omega arith))

abbrev pub error_body : ℕ → Bytes
error_body error = bytes32 error ++ replicate 16 0

pub nl_build_error-grown :
    (buf : Bytes) (off seq pid error : ℕ)
    → off + 36 ≤ length buf
    → nl_build_error (buf, off) (length buf) seq pid error
      ≡ ok (grown buf off (message 2 0 seq pid (error_body error)))
unfolding nl_build_error
nl_build_error-grown buf off seq pid error fits =
    let has_room : ltb (length buf) (off + 36) ≡ false = ground arith in
    rw has_room (two_stores buf off 2 0 seq pid (error_body error) (omega arith))
