-- ===== src/Syscalls/Netlink/Roundtrip.antt =====
-- A link message read by the code that reads the link of a request: its index and its name come back.

use vm_forge.Prelude.{
  ℕ, suc, ◌+◌, ◌-◌, ◌≤◌, ◌<◌, ◌≡◌, refl, sym, ◌∙◌, inl, inr, false, [], ◌∷◌, ◌++◌, arith, length,
  length-append, take, drop, ltb, if◌then◌else◌, append_assoc, append-nil, Bool-cases, Option, some,
  none,
}
use vm_forge.Prelude.Bytes.{Bytes, IsText, str_equal}
use vm_forge.Prelude.Errors.{ok}
use vm_forge.Syscalls.Netlink.{bytes32, Built, Link, with_nul, nl_build_link}
use vm_forge.Syscalls.Netlink.Request.{
  read32, scan_attrs, link_of, nl_request_link_target, nl_request_is_loopback, lo,
}
use vm_forge.Syscalls.Netlink.Stores.{
  attr, length-attr, fit-fits, grown, take-written, drop-take_append,
}
use vm_forge.Syscalls.Netlink.Messages.{
  message, broadcast, hw_body, link_info, operstate, link_body, IsLink,
}
use vm_forge.Syscalls.Netlink.Builders.{nl_build_link-grown}
use vm_forge.Syscalls.Netlink.Scan.{scan_attrs-attr, copied_name-attr}

-- The attributes of a link's hardware address, where there is room for them, hold no name.
hw_tail : Link → Bytes
hw_tail l = if ltb 0 l.hwlen then attr 1 l.hwlen l.hwaddr ++ attr 2 l.hwlen (broadcast l) else []

length-hw_tail : (l : Link) → IsLink l → length (hw_tail l) ≤ 24
unfolding hw_tail
length-hw_tail l (short, there, eight) =
    let wide : l.hwlen ≤ length (broadcast l) = eight in
    let one = length-attr 1 l.hwlen l.hwaddr there in
    let two = length-attr 2 l.hwlen (broadcast l) wide in
    let both = length-append (attr 1 l.hwlen l.hwaddr) (attr 2 l.hwlen (broadcast l)) in
    elim (Bool-cases (ltb 0 l.hwlen)) [
      | inl some_bytes ↦ rw some_bytes (omega (arith, one, two, both))
      | inr no_bytes ↦ rw no_bytes (omega arith)
    ]

hw_body-tail :
    (room : ℕ) (l : Link) (body : Bytes)
    → IsLink l
    → length body + 24 ≤ room
    → hw_body room l body ≡ body ++ hw_tail l
unfolding hw_body hw_tail
hw_body-tail room l body (short, there, eight) fits =
    let one = length-attr 1 l.hwlen l.hwaddr there in
    let two = length-attr 2 l.hwlen (broadcast l) eight in
    let both = length-append body (attr 1 l.hwlen l.hwaddr) in
    let first = fit-fits room body (attr 1 l.hwlen l.hwaddr) (omega (arith, one)) in
    let second =
      fit-fits room (body ++ attr 1 l.hwlen l.hwaddr) (attr 2 l.hwlen (broadcast l))
        (omega (arith, one, two, both)) in
    elim (Bool-cases (ltb 0 l.hwlen)) [
      | inl some_bytes ↦ rw (some_bytes, first, second) (simp append_assoc refl)
      | inr no_bytes ↦ rw no_bytes (sym (append-nil body))
    ]

scan_attrs-nil : (fuel : ℕ) (name : Option Bytes) → scan_attrs (suc fuel) [] name ≡ ok name
unfolding scan_attrs
scan_attrs-nil fuel name = refl

scan_attrs-hw :
    (fuel : ℕ) (l : Link) (name : Option Bytes)
    → IsLink l
    → scan_attrs (suc (suc (suc fuel))) (hw_tail l) name ≡ ok name
unfolding hw_tail
scan_attrs-hw fuel l name (short, there, eight) =
    let two = attr 2 l.hwlen (broadcast l) in
    let none_left : two ++ [] ≡ two = append-nil two in
    elim (Bool-cases (ltb 0 l.hwlen)) [
      | inl some_bytes ↦ rw some_bytes (
          scan_attrs-attr (suc (suc fuel)) 1 l.hwlen l.hwaddr two name there (omega arith)
            (omega arith)
          ∙ rw none_left at (
              scan_attrs-attr (suc fuel) 2 l.hwlen (broadcast l) [] name eight (omega arith)
                (omega arith)
              ∙ scan_attrs-nil fuel name))
      | inr no_bytes ↦ rw no_bytes (scan_attrs-nil (suc (suc fuel)) name)
    ]

-- The attributes of a link, in the order in which they are built.
attrs_of : Link → Bytes
attrs_of l =
    attr 3 (length l.name + 1) (with_nul l.name)
    ++ (attr 4 4 (bytes32 l.mtu)
        ++ (attr 13 4 (bytes32 1000) ++ (attr 16 1 (operstate l) ++ hw_tail l)))

link_body-attrs :
    (room : ℕ) (l : Link)
    → IsLink l
    → length l.name ≤ 15
    → 100 ≤ room
    → link_body room l ≡ link_info l ++ attrs_of l
unfolding link_body attrs_of
link_body-attrs room l is short wide =
    let info = link_info l in
    let a = attr 3 (length l.name + 1) (with_nul l.name) in
    let b = attr 4 4 (bytes32 l.mtu) in
    let c = attr 13 4 (bytes32 1000) in
    let d = attr 16 1 (operstate l) in
    let read : length l.name + 1 ≤ length (with_nul l.name) =
      omega (arith, length-append {0} l.name (0 ∷ [])) in
    let size_a = length-attr 3 (length l.name + 1) (with_nul l.name) read in
    let size1 : length (info ++ a) ≤ 36 = omega (arith, size_a) in
    let size2 : length (info ++ a ++ b) ≤ 44 =
      omega (arith, size1, length-append {0} (info ++ a) b) in
    let size3 : length (info ++ a ++ b ++ c) ≤ 52 =
      omega (arith, size2, length-append {0} (info ++ a ++ b) c) in
    let size4 : length (info ++ a ++ b ++ c ++ d) ≤ 60 =
      omega (arith, size3, length-append {0} (info ++ a ++ b ++ c) d) in
    let fit1 = fit-fits room info a (omega (arith, size_a)) in
    let fit2 = fit-fits room (info ++ a) b (omega (arith, size1)) in
    let fit3 = fit-fits room (info ++ a ++ b) c (omega (arith, size2)) in
    let fit4 = fit-fits room (info ++ a ++ b ++ c) d (omega (arith, size3)) in
    let tail = hw_body-tail room l (info ++ a ++ b ++ c ++ d) is (omega (arith, size4)) in
    rw (fit1, fit2, fit3, fit4, tail) (simp append_assoc refl)

scan_attrs-link :
    (fuel : ℕ) (l : Link)
    → IsLink l
    → IsText l.name
    → length l.name ≤ 15
    → scan_attrs (fuel + 7) (attrs_of l) none ≡ ok (some l.name)
unfolding attrs_of
scan_attrs-link fuel l is text short =
    let rest3 = attr 16 1 (operstate l) ++ hw_tail l in
    let rest2 = attr 13 4 (bytes32 1000) ++ rest3 in
    let rest1 = attr 4 4 (bytes32 l.mtu) ++ rest2 in
    let read : length l.name + 1 ≤ length (with_nul l.name) =
      omega (arith, length-append {0} l.name (0 ∷ [])) in
    let rounds : fuel + 7 ≡ suc (suc (suc (suc (suc (suc (suc fuel)))))) = omega arith in
    let a =
      scan_attrs-attr (suc (suc (suc (suc (suc (suc fuel)))))) 3 (length l.name + 1)
        (with_nul l.name) rest1 none read (omega arith) (omega arith) in
    let found = copied_name-attr l.name rest1 text short in
    let b =
      scan_attrs-attr (suc (suc (suc (suc (suc fuel))))) 4 4 (bytes32 l.mtu) rest2 (some l.name)
        (omega arith) (omega arith) (omega arith) in
    let c =
      scan_attrs-attr (suc (suc (suc (suc fuel)))) 13 4 (bytes32 1000) rest3 (some l.name)
        (omega arith) (omega arith) (omega arith) in
    let d =
      scan_attrs-attr (suc (suc (suc fuel))) 16 1 (operstate l) (hw_tail l) (some l.name)
        (omega arith) (omega arith) (omega arith) in
    rw rounds (a ∙ rw found (b ∙ (c ∙ (d ∙ scan_attrs-hw fuel l (some l.name) is))))

link_of-message :
    (flags seq pid room : ℕ) (l : Link)
    → IsLink l
    → IsText l.name
    → length l.name ≤ 15
    → l.ifindex < 4294967296
    → 100 ≤ room
    → (link_of (message 16 flags seq pid (link_body room l)) ≡ ok (l.ifindex, some l.name))
      × (32 ≤ length (message 16 flags seq pid (link_body room l)))
link_of-message flags seq pid room l is text short small wide =
    let body = link_body-attrs room l is short wide in
    let m = message 16 flags seq pid (link_info l ++ attrs_of l) in
    let fuel : length m + 1 ≡ length m - 6 + 7 = omega arith in
    let scanned = scan_attrs-link (length m - 6) l is text short in
    let index : read32 (drop 20 m) ≡ l.ifindex = omega arith in
    rw body (rw (fuel, scanned, index) refl, omega arith)

-- The bytes that a builder appended from an offset on.
abbrev pub appended : ℕ → Built → Bytes
appended start (buf, off) = drop start (take off buf)

appended-grown :
    (buf : Bytes) (start : ℕ) (body : Bytes)
    → start ≤ length buf
    → appended start (grown buf start body) ≡ body
appended-grown buf start body inside =
    rw (take-written buf start body inside) (drop-take_append start buf body inside)

-- Where 256 bytes are left in the buffer, as build_host_links() makes sure of, the message that
-- nl_build_link() appends is read back by nl_request_link_target() as the link's index and name, and by
-- nl_request_is_loopback() as whether the name is "lo". The name has at most IFNAMSIZ - 1 bytes and no
-- NUL, the index is that of an int, and a hardware address has at most 8 bytes.
pub nl_build_link_roundtrip :
    (buf : Bytes) (start seq pid nlflags : ℕ) (l : Link)
    → start + 256 ≤ length buf
    → IsLink l
    → IsText l.name
    → length l.name ≤ 15
    → l.ifindex < 4294967296
    → (b : Built) × (nl_build_link (buf, start) (length buf) seq pid nlflags l ≡ ok b)
      × (nl_request_link_target (appended start b) ≡ ok (l.ifindex, l.name))
      × (nl_request_is_loopback (appended start b) ≡ ok (str_equal l.name lo))
unfolding nl_request_link_target nl_request_is_loopback
nl_build_link_roundtrip buf start seq pid nlflags l fits is text short small =
    let room = length buf - (start + 16) in
    let m = message 16 nlflags seq pid (link_body room l) in
    let (built, body) =
      nl_build_link-grown buf start seq pid nlflags l room is (omega arith) (omega arith) in
    let (target, long) = link_of-message nlflags seq pid room l is text short small (omega arith) in
    let back = appended-grown buf start m (omega arith) in
    let enough : ltb (length m) 32 ≡ false = ground arith in
    (grown buf start m, built, rw (back, enough, target) refl, rw (back, enough, target) refl)
