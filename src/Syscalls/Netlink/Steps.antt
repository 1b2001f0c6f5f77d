-- ===== src/Syscalls/Netlink/Steps.antt =====
-- One message more behind those that are built: its size, its header, and that it fits.
use mathlib.Core.Path.{subst}
use vm_forge.Prelude.{
  ℕ, ◌+◌, ◌-◌, ◌≤◌, ◌≡◌, ap, ◌∙◌, inl, inr, [], ◌∷◌, ◌++◌, arith, length, length-append, ltb, ◌==◌,
  Bool-cases, Option, some, none,
}
use vm_forge.Prelude.Bytes.{Bytes}
use vm_forge.Prelude.Errors.{ok}
use vm_forge.Syscalls.Netlink.{
  bytes32, written, Link, Address, af_inet, with_nul, nl_build_link, nl_build_addr, nl_build_done,
}
use vm_forge.Syscalls.Netlink.Stores.{length-written, grown, attr, fit, length-attr, length-fit_le}
use vm_forge.Syscalls.Netlink.Messages.{
  message, broadcast, hw_body, link_info, operstate, link_body, label_body, addr_info, addr_body,
  IsLink, IsAddress,
}
use vm_forge.Syscalls.Netlink.Builders.{
  nl_build_link-grown, nl_build_addr-grown, nl_build_done-grown,
}
use vm_forge.Syscalls.Netlink.Chains.{IsMessage, message-IsMessage, grown-grown}

length-hw_body :
    (room : ℕ) (l : Link) (body : Bytes)
    → IsLink l
    → length (hw_body room l body) ≤ length body + 24
unfolding hw_body
length-hw_body room l body (short, there, eight) =
    let a = attr 1 l.hwlen l.hwaddr in
    let b = attr 2 l.hwlen (broadcast l) in
    let size_a = length-attr 1 l.hwlen l.hwaddr there in
    let size_b = length-attr 2 l.hwlen (broadcast l) eight in
    elim (Bool-cases (ltb 0 l.hwlen)) [
      | inl some_bytes ↦ rw some_bytes (
          omega (
            arith,
            size_a,
            size_b,
            length-fit_le room body a,
            length-fit_le room (fit room body a) b,
          ))
      | inr no_bytes ↦ rw no_bytes (omega arith)
    ]

length-link_body :
    (room : ℕ) (l : Link) → IsLink l → length l.name ≤ 15 → length (link_body room l) ≤ 84
unfolding link_body
length-link_body room l is short =
    let read : length l.name + 1 ≤ length (with_nul l.name) =
      omega (arith, length-append {0} l.name (0 ∷ [])) in
    let a = attr 3 (length l.name + 1) (with_nul l.name) in
    let size_a = length-attr 3 (length l.name + 1) (with_nul l.name) read in
    let b = attr 4 4 (bytes32 l.mtu) in
    let c = attr 13 4 (bytes32 1000) in
    let d = attr 16 1 (operstate l) in
    let body1 = fit room (link_info l) a in
    let body2 = fit room body1 b in
    let body3 = fit room body2 c in
    let body4 = fit room body3 d in
    omega (
      arith,
      size_a,
      length-fit_le room (link_info l) a,
      length-fit_le room body1 b,
      length-fit_le room body2 c,
      length-fit_le room body3 d,
      length-hw_body room l body4 is,
    )

-- A label that fits an interface's name, or none.
abbrev pub IsShort : Option Bytes → Type 0
IsShort none = Unit
IsShort (some name) = length name ≤ 15

length-label_body :
    (room family : ℕ) (label : Option Bytes) (body : Bytes)
    → IsShort label
    → length (label_body room family label body) ≤ length body + 20
unfolding label_body
length-label_body room family none body short = omega arith
length-label_body room family (some label) body short =
    let read : length label + 1 ≤ length (with_nul label) =
      omega (arith, length-append {0} label (0 ∷ [])) in
    let a = attr 3 (length label + 1) (with_nul label) in
    let size_a = length-attr 3 (length label + 1) (with_nul label) read in
    elim (Bool-cases (family == af_inet)) [
      | inl v4 ↦ rw v4 (omega (arith, size_a, length-fit_le room body a))
      | inr v6 ↦ rw v6 (omega arith)
    ]

length-addr_body :
    (room : ℕ) (a : Address)
    → IsAddress a
    → a.addrlen ≤ 16
    → IsShort a.label
    → length (addr_body room a) ≤ 68
unfolding addr_body
length-addr_body room a (there, label) small short =
    let one = attr 1 a.addrlen a.addr in
    let two = attr 2 a.addrlen a.addr in
    let size_one = length-attr 1 a.addrlen a.addr there in
    let size_two = length-attr 2 a.addrlen a.addr there in
    let body1 = fit room (addr_info a) one in
    let body2 = fit room body1 two in
    omega (
      arith,
      size_one,
      size_two,
      length-fit_le room (addr_info a) one,
      length-fit_le room body1 two,
      length-label_body room a.family a.label body2 short,
    )

-- A builder's message behind `sofar`: what it appends, and that it is a message of at most `size` bytes.
abbrev pub Adds : ℕ → ℕ → Bytes → Bytes → ℕ → Bytes → Type 0
Adds seq pid out sofar size m =
    IsMessage seq pid m × (length m ≤ size) × (length sofar + length m ≤ length out)

module _ (out sofar : Bytes) (seq pid flags : ℕ) where
  pub nl_build_link-Adds :
      (l : Link)
      → IsLink l
      → length l.name ≤ 15
      → length sofar + 256 ≤ length out
      → (m : Bytes) × (nl_build_link (grown out 0 sofar) (length out) seq pid flags l
          ≡ ok (grown out 0 (sofar ++ m)))
        × Adds seq pid out sofar 100 m
  nl_build_link-Adds l is short fits =
      let buf = written out 0 sofar in
      let size : length buf ≡ length out = length-written out 0 sofar (omega arith) in
      let start = 0 + length sofar in
      let room = length buf - (start + 16) in
      let body = link_body room l in
      let small : length body ≤ 84 = length-link_body room l is short in
      let (built, body_is) =
        nl_build_link-grown buf start seq pid flags l room is (omega (arith, size))
          (omega (arith, size)) in
      let m = message 16 flags seq pid body in
      let joined = grown-grown out sofar m (omega arith) in
      let built_in =
        subst (λ (n : ℕ). nl_build_link (buf, start) n seq pid flags l ≡ ok (grown buf start m))
          size built in
      (
        m,
        built_in ∙ ap ok joined,
        (message-IsMessage 16 flags seq pid body body_is.1 (omega arith), omega arith, omega arith),
      )

  pub nl_build_addr-Adds :
      (a : Address)
      → IsAddress a
      → a.addrlen ≤ 16
      → IsShort a.label
      → length sofar + 256 ≤ length out
      → (m : Bytes) × (nl_build_addr (grown out 0 sofar) (length out) seq pid flags a
          ≡ ok (grown out 0 (sofar ++ m)))
        × Adds seq pid out sofar 84 m
  nl_build_addr-Adds a is few short fits =
      let buf = written out 0 sofar in
      let size : length buf ≡ length out = length-written out 0 sofar (omega arith) in
      let start = 0 + length sofar in
      let room = length buf - (start + 16) in
      let body = addr_body room a in
      let small : length body ≤ 68 = length-addr_body room a is few short in
      let (built, body_is) =
        nl_build_addr-grown buf start seq pid flags a room is (omega (arith, size))
          (omega (arith, size)) in
      let m = message 20 flags seq pid body in
      let joined = grown-grown out sofar m (omega arith) in
      let built_in =
        subst (λ (n : ℕ). nl_build_addr (buf, start) n seq pid flags a ≡ ok (grown buf start m))
          size built in
      (
        m,
        built_in ∙ ap ok joined,
        (message-IsMessage 20 flags seq pid body body_is.1 (omega arith), omega arith, omega arith),
      )

-- NLMSG_DONE, NLMSG_ERROR as they are appended.
abbrev pub done_message : ℕ → ℕ → Bytes
done_message seq pid = message 3 2 seq pid (bytes32 0)

pub nl_build_done-Adds :
    (out sofar : Bytes) (seq pid : ℕ)
    → length sofar + 20 ≤ length out
    → nl_build_done (grown out 0 sofar) (length out) seq pid
      ≡ ok (grown out 0 (sofar ++ done_message seq pid))
nl_build_done-Adds out sofar seq pid fits =
    let buf = written out 0 sofar in
    let size : length buf ≡ length out = length-written out 0 sofar (omega arith) in
    let start = 0 + length sofar in
    let built = nl_build_done-grown buf start seq pid (omega (arith, size)) in
    let m = done_message seq pid in
    subst (λ (n : ℕ). nl_build_done (buf, start) n seq pid ≡ ok (grown buf start m)) size built
    ∙ ap ok (grown-grown out sofar m (omega arith))
