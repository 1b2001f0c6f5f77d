-- ===== src/Syscalls/Netlink/Delivery.antt =====
-- A reply reaches the tracee over the segments of an iovec (scatter_fake_netlink_reply of syscall/enter.c).
use Prim.Native.Nat.{min}
use vm_forge.Prelude.{
  ℕ, suc, ◌+◌, ◌-◌, ◌≤◌, ◌≡◌, ◌≢◌, refl, sym, inl, inr, Bool, true, false, not, ◌&&◌, ◌||◌, List,
  [], ◌∷◌, arith, take, drop, ltb, ◌==◌, if◌then◌else◌, Bool-cases,
}
use vm_forge.Prelude.Bytes.{Bytes}
use vm_forge.Syscalls.Netlink.Receive.{Write, scatter, at_most, needs_write}
use vm_forge.Syscalls.Netlink.Stores.{drop-drop}

-- The bytes that the segments take, and the bytes of writes one behind the other.
abbrev pub capacity : List (ℕ × ℕ) → ℕ
capacity [] = 0
capacity ((base, len) ∷ iov) = len + capacity iov

abbrev pub HaveBases : List (ℕ × ℕ) → Type 0
HaveBases [] = Unit
HaveBases ((base, len) ∷ iov) = (base ≢ 0) × HaveBases iov

-- What readv(2) describes: each segment gets at its base as many of the bytes that are left as it takes,
-- and the next segments get the rest. A segment without bytes is not written to.
abbrev pub spread : List (ℕ × ℕ) → ℕ → Bytes → List Write
spread [] left bytes = []
spread ((base, len) ∷ iov) left bytes =
    let rest = spread iov (left - len) (drop len bytes) in
    if len == 0 || left == 0 then rest else (base, take (min len left) bytes) ∷ rest

spread_nothing : (iov : List (ℕ × ℕ)) (bytes : Bytes) → spread iov 0 bytes ≡ []
spread_nothing [] bytes = refl
spread_nothing ((base, len) ∷ iov) bytes =
    let none_left : (0 - len) ≡ 0 = omega arith in
    elim (Bool-cases (len == 0)) [
      | inl e ↦ rw (e, none_left) (spread_nothing iov (drop len bytes))
      | inr e ↦ rw (e, none_left) (spread_nothing iov (drop len bytes))
    ]

zero_add : (n : ℕ) → 0 + n ≡ n
zero_add n = omega arith

suc_add : (m n : ℕ) → suc m + n ≡ suc (m + n)
suc_add m n = omega arith

at_most-min : (chunk len : ℕ) → at_most chunk len ≡ min len chunk
unfolding at_most
at_most-min chunk len = ground arith

no_write : (base chunk : ℕ) → base ≢ 0 → needs_write base chunk ≡ false → chunk ≡ 0
unfolding needs_write
no_write base chunk based nothing = ground arith

-- What is left behind a segment, whether it takes all of it or not.
spread_rest :
    (iov : List (ℕ × ℕ)) (reply : Bytes) (done left len chunk : ℕ)
    → chunk ≡ min len left
    → spread iov (left - len) (drop len (drop done reply))
      ≡ spread iov (left - chunk) (drop (done + chunk) reply)
spread_rest iov reply done left len chunk least = elim (Bool-cases (ltb left len)) [
  | inl over ↦
      let before : left - len ≡ 0 = ground arith in
      let after : left - chunk ≡ 0 = ground arith in
      rw (before, after, spread_nothing iov (drop len (drop done reply)))
        (sym (spread_nothing iov (drop (done + chunk) reply)))
  | inr inside ↦ let whole : chunk ≡ len = ground arith in rw (whole, drop-drop done len reply) refl
]

-- From the byte `done` of the reply on, the segments are written as readv(2) describes: each at its own
-- base, with the bytes that follow those of the segments before it; and the number of the bytes that are
-- then done is returned, all of the reply or as many as the segments take. Every segment has an address
-- and every write succeeds.
pub scatter-Delivers :
    (writes : Write → Bool) (reply : Bytes) (reply_len : ℕ) (iov : List (ℕ × ℕ)) (done : ℕ)
    → ((w : Write) → writes w ≡ true)
    → HaveBases iov
    → done ≤ reply_len
    → ((scatter writes reply reply_len iov done).0 ≡ done + min (capacity iov) (reply_len - done))
      × ((scatter writes reply reply_len iov done).1
          ≡ spread iov (reply_len - done) (drop done reply))
unfolding scatter needs_write
scatter-Delivers writes reply reply_len [] done succeed bases inside = (omega arith, refl)
scatter-Delivers writes reply reply_len ((base, len) ∷ iov) done succeed (based, bases) inside =
    let chunk = at_most (reply_len - done) len in
    let write : Write = (base, take chunk (drop done reply)) in
    let least = at_most-min (reply_len - done) len in
    let (count, bytes) =
      scatter-Delivers writes reply reply_len iov (done + chunk) succeed bases
        (omega (arith, least)) in
    let fewer : reply_len - (done + chunk) ≡ (reply_len - done) - chunk = omega arith in
    let rest = spread_rest iov reply done (reply_len - done) len chunk least in
    elim (Bool-cases (ltb done reply_len)) [
      | inl more ↦ elim (Bool-cases (len == 0)) [
        | inr filled ↦
            let needed : (not (base == 0) && ltb 0 chunk) ≡ true = ground (arith, least) in
            let there : (len == 0 || reply_len - done == 0) ≡ false = ground arith in
            rw (more, needed, succeed write, count, bytes, there, rest, fewer, least)
              (omega (arith, least), refl)
        | inl nothing ↦
            let needed : (not (base == 0) && ltb 0 chunk) ≡ false = ground (arith, least) in
            rw (more, needed, count, bytes, nothing, rest, fewer) (omega (arith, least), refl)
      ]
      | inr over ↦
          let nothing : reply_len - done ≡ 0 = ground arith in
          rw (over, nothing, spread_nothing ((base, len) ∷ iov) (drop done reply))
            (omega arith, refl)
    ]
