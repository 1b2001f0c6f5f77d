-- ===== src/Prelude/Bits.antt =====
-- `|` of words whose fields do not overlap.
use vm_forge.Prelude.{ℕ, zero, suc, ◌+◌, ◌*◌, ◌/◌, ◌%◌, ◌≤◌, ◌<◌, ◌≡◌, refl, ◌∙◌, arith}
use Prim.Native.Nat.{bit_or, digits, bit_or-bitwise, max}

-- The law for the lowest digit of `bit_or`.
abbrev or_digits : ℕ → ℕ → ℕ → ℕ
or_digits n a b = digits (λ b. b) max n a b

-- Any two amounts of fuel that the left number does not exceed give the same.
enough_digits : (a b fuel more : ℕ) → a ≤ fuel → a ≤ more → or_digits fuel a b ≡ or_digits more a b
enough_digits zero b zero zero u v = refl
enough_digits zero b zero (suc more) u v = refl
enough_digits zero b (suc fuel) zero u v = refl
enough_digits zero b (suc fuel) (suc more) u v = refl
enough_digits (suc a) b zero more u v = absurd (omega arith)
enough_digits (suc a) b (suc fuel) zero u v = absurd (omega arith)
enough_digits (suc a) b (suc fuel) (suc more) u v =
    let below = enough_digits (suc a / 2) (b / 2) fuel more (omega arith) (omega arith) in
    omega (arith, below)

zero-bit_or : (b : ℕ) → bit_or 0 b ≡ b
zero-bit_or b = bit_or-bitwise 0 b

-- The lowest digit of `|`, apart from the others.
bit_or_digit : (x y : ℕ) → bit_or x y ≡ max (x % 2) (y % 2) + 2 * bit_or (x / 2) (y / 2)
bit_or_digit zero y = omega (arith, zero-bit_or (y / 2), zero-bit_or y)
bit_or_digit (suc x) y =
    let half = suc x / 2 in
    let halves = enough_digits half (y / 2) x half (omega arith) (omega arith) in
    omega (arith, halves, bit_or-bitwise half (y / 2), bit_or-bitwise (suc x) y)

-- Fields that do not overlap: `|` adds. `scaled k b` is `b << k`, `two_to k` is `1 << k`.
two_to : ℕ → ℕ
two_to zero = 1
two_to (suc k) = 2 * two_to k

scaled : ℕ → ℕ → ℕ
scaled zero b = b
scaled (suc k) b = 2 * scaled k b

bit_or-scaled : (k a b : ℕ) → a < two_to k → bit_or a (scaled k b) ≡ a + scaled k b
unfolding two_to scaled
bit_or-scaled zero a b h = let e : a ≡ 0 = omega arith in rw e (zero-bit_or b ∙ omega arith)
bit_or-scaled (suc k) a b h =
    let half : 2 * scaled k b / 2 ≡ scaled k b = omega arith in
    let rest : bit_or (a / 2) (2 * scaled k b / 2) ≡ a / 2 + scaled k b =
      rw half (bit_or-scaled k (a / 2) b (omega arith)) in
    omega (arith, bit_or_digit a (2 * scaled k b), rest)

pub bit_or_fields : (a b : ℕ) → a < 4096 → bit_or a (b * 4096) ≡ a + b * 4096
unfolding two_to scaled
bit_or_fields a b h = let e : b * 4096 ≡ scaled 12 b = omega arith in rw e (bit_or-scaled 12 a b h)
