-- ===== src/Syscalls/Netlink/Request.antt =====
-- syscall/enter.c: what a netlink request asks for. The list of a loop is what its offset has not passed.
use Prim.Native.Nat.{bit_and}
use vm_forge.Prelude.{
  ℕ, zero, suc, ◌+◌, ◌-◌, ◌*◌, ◌%◌, Bool, true, ◌&&◌, ◌||◌, [], ◌∷◌, length, take, drop, ltb, ◌==◌,
  if◌then◌else◌, Option, none, some,
}
use vm_forge.Prelude.Bytes.{Bytes, str_equal, char_at}
use vm_forge.Prelude.Errors.{Result, ok, err, ◌>>=◌, out_of_fuel}
use vm_forge.Syscalls.Netlink.{align4, rta_length, af_inet}

abbrev pub read16 : Bytes → ℕ
read16 b = char_at b 0 + char_at b 1 * 256

abbrev pub read32 : Bytes → ℕ
read32 b = char_at b 0 + char_at b 1 * 256 + char_at b 2 * 65536 + char_at b 3 * 16777216

-- The C string that a buffer holds.
abbrev pub until_nul : Bytes → Bytes
until_nul [] = []
until_nul (c ∷ s) = if c == 0 then [] else c ∷ until_nul s

-- IFNAMSIZ
abbrev pub ifnamsiz : ℕ
ifnamsiz = 16

-- The name of an IFLA_IFNAME attribute of `rlen` bytes.
unfoldable pub copied_name : Bytes → ℕ → Bytes
copied_name rta rlen =
    let dlen = rlen - rta_length 0 in
    let cpy : ℕ = if ltb dlen ifnamsiz then dlen else ifnamsiz - 1 in
    until_nul (take cpy (drop (rta_length 0) rta))

-- The name of the last IFLA_IFNAME attribute, or the one before.
unfoldable pub scan_attrs : ℕ → Bytes → Option Bytes → Result (Option Bytes)
scan_attrs zero rest name = err out_of_fuel
scan_attrs (suc fuel) rest name =
    let rlen = read16 rest in
    let found = if read16 (drop 2 rest) == 3 then some (copied_name rest rlen) else name in
    let more = scan_attrs fuel (drop (align4 rlen) rest) found in
    if ltb (length rest) 4
    then ok name
    else if ltb rlen 4 || ltb (length rest) rlen
    then ok name
    else more

-- The ifi_index and the name of a request, `none` where it has no name.
abbrev pub link_of : Bytes → Result (ℕ × Option Bytes)
link_of req = scan_attrs (length req + 1) (drop (16 + align4 16) req) none >>= λ name.
    ok (read32 (drop 20 req), name)

abbrev pub name_or_empty : Option Bytes → Bytes
name_or_empty none = []
name_or_empty (some name) = name

unfoldable pub nl_request_link_target : Bytes → Result (ℕ × Bytes)
nl_request_link_target req =
    if ltb (length req) 32
    then ok (0, [])
    else (link_of req >>= λ (index, name). ok (index, name_or_empty name))

abbrev pub lo : Bytes
lo = b'l' ∷ b'o' ∷ []

abbrev pub is_loopback : ℕ → Option Bytes → Bool
is_loopback index none = index == 0 || index == 1
is_loopback index (some name) = str_equal name lo

unfoldable pub nl_request_is_loopback : Bytes → Result Bool
nl_request_is_loopback req =
    if ltb (length req) 32
    then ok true
    else (link_of req >>= λ (index, name). ok (is_loopback index name))

-- The leading ones of a byte: `b & 0x80`, `b <<= 1` on eight bits.
abbrev leading_ones : ℕ → ℕ → ℕ
leading_ones zero b = 0
leading_ones (suc fuel) b =
    let rest = leading_ones fuel (b * 2 % 256) in if ltb b 128 then 0 else suc rest

unfoldable pub nl_prefixlen : Bytes → ℕ
nl_prefixlen [] = 0
nl_prefixlen (b ∷ mask) =
    let rest = nl_prefixlen mask in if b == 255 then (8 + rest) % 256 else leading_ones 8 b

-- ::1
abbrev pub loop6 : Bytes
loop6 = 0 ∷ 0 ∷ 0 ∷ 0 ∷ 0 ∷ 0 ∷ 0 ∷ 0 ∷ 0 ∷ 0 ∷ 0 ∷ 0 ∷ 0 ∷ 0 ∷ 0 ∷ 1 ∷ []

-- RT_SCOPE_HOST, RT_SCOPE_LINK, RT_SCOPE_UNIVERSE
unfoldable pub nl_addr_scope : ℕ → Bytes → ℕ
nl_addr_scope family addr =
    if family == af_inet
    then (if char_at addr 0 == 127
        then 254
        else if char_at addr 0 == 169 && char_at addr 1 == 254
        then 253
        else 0)
    else if str_equal (take 16 addr) loop6
    then 254
    else if char_at addr 0 == 254 && bit_and (char_at addr 1) 192 == 128
    then 253
    else 0
