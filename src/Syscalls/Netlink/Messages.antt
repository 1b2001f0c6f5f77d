-- ===== src/Syscalls/Netlink/Messages.antt =====
-- The builders as what they append to the buffer: a header, a body and the attributes that fit.
use Prim.Native.Nat.{bit_or}
use vm_forge.Prelude.{
  ℕ, ◌+◌, ◌-◌, ◌%◌, ◌≤◌, ◌<◌, ◌≡◌, refl, inl, inr, true, false, [], ◌∷◌, ◌++◌, arith, length,
  length-append, length-take, length-replicate, take, replicate, ltb, ◌==◌, if◌then◌else◌,
  append_assoc, Bool-cases, Option, some, none,
}
use vm_forge.Prelude.Bytes.{Bytes}
use vm_forge.Prelude.Errors.{ok, ◌>>=◌}
use vm_forge.Syscalls.Netlink.{
  bytes16, bytes32, align4, rta_length, rta_space, written, store, load, nl_add_attr, nlmsghdr,
  nl_close, ifinfomsg, ifaddrmsg, has_flag, iff_up, iff_running, iff_lower_up, arphrd_loopback,
  af_inet, Link, Address, with_nul, hw_attrs, label_attr,
}
use vm_forge.Syscalls.Netlink.Stores.{
  length-written, written-before, grown, attr, fit, length-attr, length-fit, length-fit_mod,
  store-ok, load-ok, store-grown,
}

module _ (buf : Bytes) (off : ℕ) (body : Bytes) (inside : off + length body ≤ length buf) where
  -- The three writes of an attribute.
  attr_stores :
      (type dlen : ℕ) (payload : Bytes)
      → dlen ≤ length payload
      → off + length body + rta_space dlen ≤ length buf
      → (store
            (written buf off body)
            (off + length body)
            (bytes16 (rta_length dlen) ++ bytes16 type)
          >>= λ with_header. load payload dlen >>= λ copied.
              store with_header (off + length body + 4) copied >>= λ with_payload.
              store with_payload
                (off + length body + rta_length dlen)
                (replicate (rta_space dlen - rta_length dlen) 0)
              >>= λ padded. ok (padded, off + length body + rta_space dlen))
        ≡ ok (grown buf off (body ++ attr type dlen payload))
  attr_stores type dlen payload read fits =
      let header = bytes16 (rta_length dlen) ++ bytes16 type in
      let copied = take dlen payload in
      let zeros : Bytes = replicate (rta_space dlen - rta_length dlen) 0 in
      let copied_length : length copied ≡ dlen = omega (arith, length-take {0} dlen payload) in
      let zeros_length : length zeros ≡ rta_space dlen - rta_length dlen = length-replicate _ 0 in
      let one = length-append body header in
      let two = length-append (body ++ header) copied in
      let total = length-append body (attr type dlen payload) in
      let size = length-attr type dlen payload read in
      let first = store-grown buf off body header (omega arith) in
      let at_payload : off + length body + 4 ≡ off + length (body ++ header) = omega (arith, one) in
      let second =
        store-grown buf off (body ++ header) copied (omega (arith, one, copied_length)) in
      let at_zeros : off + length body + rta_length dlen ≡ off + length (body ++ header ++ copied) =
        omega (arith, one, two, copied_length) in
      let third =
        store-grown buf off (body ++ header ++ copied) zeros
          (omega (arith, one, two, copied_length, zeros_length)) in
      let end : off + length body + rta_space dlen ≡ off + length (body ++ attr type dlen payload) =
        omega (arith, total, size) in
      let joined : body ++ header ++ copied ++ zeros ≡ body ++ attr type dlen payload =
        simp append_assoc refl in
      rw (first, load-ok payload dlen read, at_payload, second, at_zeros, third, end, joined) refl

  pub nl_add_attr-grown :
      (type dlen : ℕ) (payload : Bytes)
      → dlen ≤ length payload
      → nl_add_attr (grown buf off body) (length buf) type payload dlen
        ≡ ok (grown buf off (fit (length buf - off) body (attr type dlen payload)))
  unfolding nl_add_attr fit
  nl_add_attr-grown type dlen payload read =
      let size = length-attr type dlen payload read in
      elim (Bool-cases (ltb (length buf) (off + length body + rta_space dlen))) [
        | inl over ↦
            let no_room : ltb (length buf - off) (length body + length (attr type dlen payload))
                ≡ true =
              rw size (ground arith) in
            rw (over, no_room) refl
        | inr fits ↦
            let room : ltb (length buf - off) (length body + length (attr type dlen payload))
                ≡ false =
              rw size (ground arith) in
            rw (fits, room) (attr_stores type dlen payload read (ground arith))
      ]

-- What is behind a header: it fits the room and ends at a multiple of 4.
abbrev pub IsBody : ℕ → Bytes → Type 0
IsBody room body = (length body ≤ room) × (length body % 4 ≡ 0)

pub fit-IsBody :
    (room : ℕ) (body : Bytes) (type dlen : ℕ) (payload : Bytes)
    → dlen ≤ length payload
    → IsBody room body
    → IsBody room (fit room body (attr type dlen payload))
fit-IsBody room body type dlen payload read (small, even) = (
  length-fit room body (attr type dlen payload) small,
  length-fit_mod room body (attr type dlen payload) even
      (omega (arith, length-attr type dlen payload read)),
)

-- A message: its header and what is behind it.
abbrev pub message : ℕ → ℕ → ℕ → ℕ → Bytes → Bytes
message type flags seq pid body = nlmsghdr (16 + length body) type flags seq pid ++ body

pub nl_close-grown :
    (buf : Bytes) (start : ℕ) (body : Bytes) (type flags seq pid : ℕ)
    → start + 16 + length body ≤ length buf
    → length body % 4 ≡ 0
    → nl_close start type flags seq pid (grown buf (start + 16) body)
      ≡ ok (grown buf start (message type flags seq pid body))
unfolding nl_close
nl_close-grown buf start body type flags seq pid inside even =
    let len : start + 16 + length body - start ≡ 16 + length body = omega arith in
    let header = nlmsghdr (16 + length body) type flags seq pid in
    let size = length-written buf (start + 16) body inside in
    let stored = store-ok (written buf (start + 16) body) start header (omega (arith, size)) in
    let before = written-before buf start header body inside in
    let end : start + align4 (16 + length body) ≡ start + length (header ++ body) =
      omega (arith, length-append header body) in
    rw (len, stored, before, end) refl

-- The attributes of a link behind its ifinfomsg, those of an address behind its ifaddrmsg.
abbrev pub broadcast : Link → Bytes
broadcast l = replicate 8 (if l.iftype == arphrd_loopback then 0 else 255)

unfoldable pub hw_body : ℕ → Link → Bytes → Bytes
hw_body room l body =
    if ltb 0 l.hwlen
    then fit room (fit room body (attr 1 l.hwlen l.hwaddr)) (attr 2 l.hwlen (broadcast l))
    else body

abbrev pub link_flags : Link → ℕ
link_flags l = if has_flag l.ifflags iff_running then bit_or l.ifflags iff_lower_up else l.ifflags

abbrev pub link_info : Link → Bytes
link_info l = ifinfomsg l.iftype l.ifindex (link_flags l)

abbrev pub operstate : Link → Bytes
operstate l = (if has_flag l.ifflags iff_up then 6 else 2) ∷ []

unfoldable pub link_body : ℕ → Link → Bytes
link_body room l = hw_body room l (
    fit room
      (fit room
        (fit room (fit room (link_info l) (attr 3 (length l.name + 1) (with_nul l.name)))
          (attr 4 4 (bytes32 l.mtu)))
        (attr 13 4 (bytes32 1000)))
      (attr 16 1 (operstate l)))

unfoldable pub label_body : ℕ → ℕ → Option Bytes → Bytes → Bytes
label_body room family none body = body
label_body room family (some label) body =
    if family == af_inet then fit room body (attr 3 (length label + 1) (with_nul label)) else body

abbrev pub addr_info : Address → Bytes
addr_info a = ifaddrmsg a.family a.prefixlen a.scope a.ifindex

unfoldable pub addr_body : ℕ → Address → Bytes
addr_body room a =
    label_body room a.family a.label
      (fit room (fit room (addr_info a) (attr 1 a.addrlen a.addr)) (attr 2 a.addrlen a.addr))

-- What the code reads of a link and of an address is there, and a name's size fits a uint16_t.
abbrev pub IsLink : Link → Type 0
IsLink l = (length l.name < 65535) × (l.hwlen ≤ length l.hwaddr) × (l.hwlen ≤ 8)

abbrev pub IsLabel : Option Bytes → Type 0
IsLabel none = Unit
IsLabel (some label) = length label < 65535

abbrev pub IsAddress : Address → Type 0
IsAddress a = (a.addrlen ≤ length a.addr) × IsLabel a.label

module _ (buf : Bytes) (off room : ℕ) (size : off + room ≡ length buf) where
  -- One more attribute.
  pub grow :
      (body : Bytes) (type dlen : ℕ) (payload : Bytes)
      → IsBody room body
      → dlen ≤ length payload
      → nl_add_attr (grown buf off body) (length buf) type payload dlen
        ≡ ok (grown buf off (fit room body (attr type dlen payload)))
  grow body type dlen payload (small, even) read =
      let same : length buf - off ≡ room = omega arith in
      rw same at (nl_add_attr-grown buf off body (omega arith) type dlen payload read)

  pub hw_attrs-grown :
      (l : Link) (body : Bytes)
      → IsLink l
      → IsBody room body
      → (hw_attrs (length buf) l (grown buf off body) ≡ ok (grown buf off (hw_body room l body)))
        × IsBody room (hw_body room l body)
  unfolding hw_attrs hw_body
  hw_attrs-grown l body (name, there, eight) is =
      let wide : l.hwlen ≤ length (broadcast l) =
        omega (
          arith,
          length-replicate {0} {A = ℕ} 8 (if l.iftype == arphrd_loopback then 0 else 255),
        ) in
      let is1 = fit-IsBody room body 1 l.hwlen l.hwaddr there is in
      let body1 = fit room body (attr 1 l.hwlen l.hwaddr) in
      elim (Bool-cases (ltb 0 l.hwlen)) [
        | inl some_bytes ↦ rw some_bytes (
          rw (grow body 1 l.hwlen l.hwaddr is there, grow body1 2 l.hwlen (broadcast l) is1 wide)
              refl,
          fit-IsBody room body1 2 l.hwlen (broadcast l) wide is1,
        )
        | inr no_bytes ↦ rw no_bytes (refl, is)
      ]

  pub label_attr-grown :
      (family : ℕ) (label : Option Bytes) (body : Bytes)
      → IsLabel label
      → IsBody room body
      → (label_attr (length buf) family label (grown buf off body)
          ≡ ok (grown buf off (label_body room family label body)))
        × IsBody room (label_body room family label body)
  unfolding label_attr label_body
  label_attr-grown family none body short is = (refl, is)
  label_attr-grown family (some label) body short is =
      let dlen : (length label + 1) % 65536 ≡ length label + 1 = omega arith in
      let read : length label + 1 ≤ length (with_nul label) =
        omega (arith, length-append {0} label (0 ∷ [])) in
      elim (Bool-cases (family == af_inet)) [
        | inl v4 ↦ rw v4 (
          rw dlen (grow body 3 (length label + 1) (with_nul label) is read),
          fit-IsBody room body 3 (length label + 1) (with_nul label) read is,
        )
        | inr v6 ↦ rw v6 (refl, is)
      ]
