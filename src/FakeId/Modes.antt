-- ===== src/FakeId/Modes.antt =====
-- The mode in a meta file: it is read as it was written, and its digits are the permissions.
use Prim.Native.Nat.{bit_or}
use vm_forge.Prelude.{
  ℕ, zero, suc, ◌+◌, ◌*◌, ◌/◌, ◌%◌, ◌≤◌, ◌<◌, ◌≡◌, refl, ◌∙◌, Bool, false, ◌||◌, arith, ◌==◌,
  if◌then◌else◌, some,
}
use vm_forge.Prelude.Bytes.{Bytes}
use vm_forge.FakeId.{Config}
use vm_forge.FakeId.Helpers.{
  dtoo_loop, dtoo, otod_loop, otod, MetaFiles, read_meta_file, meta_of, nth_digit, permissions_of,
  get_permissions,
}

-- The loops stop at 0, and a round more takes one digit; any fuel that is enough gives the same.
dtoo_loop-zero : (fuel i octal : ℕ) → dtoo_loop fuel 0 i octal ≡ octal
unfolding dtoo_loop
dtoo_loop-zero zero i octal = refl
dtoo_loop-zero (suc fuel) i octal = refl

dtoo_loop-suc :
    (fuel n i octal : ℕ)
    → dtoo_loop (suc fuel) n i octal ≡ dtoo_loop fuel (n / 8) (i * 10) (octal + n % 8 * i)
unfolding dtoo_loop
dtoo_loop-suc fuel zero i octal =
    let same : octal + 0 * i ≡ octal = omega arith in
    rw (dtoo_loop-zero fuel (i * 10) (octal + 0 * i), same) refl
dtoo_loop-suc fuel (suc n) i octal = let more : (suc n == 0) ≡ false = ground arith in rw more refl

dtoo_loop-enough :
    (fuel more n i octal : ℕ)
    → n ≤ fuel
    → n ≤ more
    → dtoo_loop fuel n i octal ≡ dtoo_loop more n i octal
dtoo_loop-enough fuel more zero i octal h k =
    rw (dtoo_loop-zero fuel i octal, dtoo_loop-zero more i octal) refl
dtoo_loop-enough zero more (suc n) i octal h k = absurd (omega arith)
dtoo_loop-enough (suc fuel) zero (suc n) i octal h k = absurd (omega arith)
dtoo_loop-enough (suc fuel) (suc more) (suc n) i octal h k =
    rw (dtoo_loop-suc fuel (suc n) i octal, dtoo_loop-suc more (suc n) i octal)
      (dtoo_loop-enough fuel more (suc n / 8) (i * 10) (octal + suc n % 8 * i) (omega arith)
        (omega arith))

otod_loop-zero : (fuel power decimal : ℕ) → otod_loop fuel 0 power decimal ≡ decimal
unfolding otod_loop
otod_loop-zero zero power decimal = refl
otod_loop-zero (suc fuel) power decimal = refl

otod_loop-suc :
    (fuel n power decimal : ℕ)
    → otod_loop (suc fuel) n power decimal
      ≡ otod_loop fuel (n / 10) (power * 8) (decimal + n % 10 * power)
unfolding otod_loop
otod_loop-suc fuel zero power decimal =
    let same : decimal + 0 * power ≡ decimal = omega arith in
    rw (otod_loop-zero fuel (power * 8) (decimal + 0 * power), same) refl
otod_loop-suc fuel (suc n) power decimal =
    let more : (suc n == 0) ≡ false = ground arith in rw more refl

otod_loop-enough :
    (fuel more n power decimal : ℕ)
    → n ≤ fuel
    → n ≤ more
    → otod_loop fuel n power decimal ≡ otod_loop more n power decimal
otod_loop-enough fuel more zero power decimal h k =
    rw (otod_loop-zero fuel power decimal, otod_loop-zero more power decimal) refl
otod_loop-enough zero more (suc n) power decimal h k = absurd (omega arith)
otod_loop-enough (suc fuel) zero (suc n) power decimal h k = absurd (omega arith)
otod_loop-enough (suc fuel) (suc more) (suc n) power decimal h k =
    rw (otod_loop-suc fuel (suc n) power decimal, otod_loop-suc more (suc n) power decimal)
      (otod_loop-enough fuel more (suc n / 10) (power * 8) (decimal + suc n % 10 * power)
        (omega arith) (omega arith))

-- Four digits are all that a mode has.
dtoo-digits :
    (n : ℕ) → n < 4096 → dtoo n ≡ n % 8 + n / 8 % 8 * 10 + n / 64 % 8 * 100 + n / 512 % 8 * 1000
unfolding dtoo
dtoo-digits n h =
    let none_left : n / 8 / 8 / 8 / 8 ≡ 0 = omega arith in
    dtoo_loop-enough n (suc (suc (suc (suc n)))) n 1 0 (omega arith) (omega arith)
    ∙ rw
        (
          dtoo_loop-suc (suc (suc (suc n))) n 1 0,
          dtoo_loop-suc (suc (suc n)) (n / 8) _ _,
          dtoo_loop-suc (suc n) (n / 8 / 8) _ _,
          dtoo_loop-suc n (n / 8 / 8 / 8) _ _,
          none_left,
          dtoo_loop-zero n,
        )
        (omega arith)

otod-digits :
    (n : ℕ)
    → n < 10000
    → otod n ≡ n % 10 + n / 10 % 10 * 8 + n / 100 % 10 * 64 + n / 1000 % 10 * 512
unfolding otod
otod-digits n h =
    let none_left : n / 10 / 10 / 10 / 10 ≡ 0 = omega arith in
    otod_loop-enough n (suc (suc (suc (suc n)))) n 1 0 (omega arith) (omega arith)
    ∙ rw
        (
          otod_loop-suc (suc (suc (suc n))) n 1 0,
          otod_loop-suc (suc (suc n)) (n / 10) _ _,
          otod_loop-suc (suc n) (n / 10 / 10) _ _,
          otod_loop-suc n (n / 10 / 10 / 10) _ _,
          none_left,
          otod_loop-zero n,
        )
        (omega arith)

pub otod-dtoo : (n : ℕ) → n < 4096 → otod (dtoo n) ≡ n
otod-dtoo n h =
    let written = dtoo-digits n h in
    let small : dtoo n < 10000 = omega (arith, written) in
    omega (arith, written, otod-digits (dtoo n) small)

-- The three bits of the owner (2), of the group (1) and of the others (0).
abbrev pub class_bits : ℕ → ℕ → ℕ
class_bits mode zero = mode % 8
class_bits mode (suc class) = class_bits (mode / 8) class

-- The class of a user and a group, by the owner and the group of the file.
abbrev pub class_of : ℕ → ℕ → ℕ → ℕ → ℕ
class_of uid gid owner group = if uid == owner || uid == 0 then 2 else if gid == group then 1 else 0

digit-bits :
    (mode class : ℕ) → mode < 4096 → class ≤ 2 → nth_digit (dtoo mode) class ≡ class_bits mode class
digit-bits mode zero h c = omega (arith, dtoo-digits mode h)
digit-bits mode (suc zero) h c = omega (arith, dtoo-digits mode h)
digit-bits mode (suc (suc zero)) h c = omega (arith, dtoo-digits mode h)
digit-bits mode (suc (suc (suc class))) h c = absurd (omega arith)

class_of-le : (uid gid owner group : ℕ) → class_of uid gid owner group ≤ 2
class_of-le uid gid owner group = ground arith

-- A process has the permissions that the mode gives to its class, as write_meta_file() has put the mode
-- into the meta file, and those to read and to write besides if it is root. The class is that of the
-- user asked for, real or effective, but of the effective group in both cases. The mode has twelve bits.
pub get_permissions-class_bits :
    (files : MetaFiles) (meta_path : Bytes) (config : Config) (uses_real : Bool)
    (mode owner group umask : ℕ)
    → mode < 4096
    → files meta_path ≡ some (meta_of mode owner group false umask)
    → get_permissions files meta_path config uses_real ≡ (
        let uid = if uses_real then config.user.real else config.user.effective in
        let bits = class_bits mode (class_of uid config.group.effective owner group) in
        if uid == 0 then bit_or bits 6 else bits)
unfolding get_permissions read_meta_file meta_of permissions_of
get_permissions-class_bits files meta_path config uses_real mode owner group umask small file =
    let uid = if uses_real then config.user.real else config.user.effective in
    let class = class_of uid config.group.effective owner group in
    let bits = digit-bits mode class small (class_of-le uid config.group.effective owner group) in
    let read : read_meta_file files meta_path config ≡ (mode, owner, group) =
      rw (read_meta_file, file, otod-dtoo mode small) refl in
    rw (read, permissions_of, bits) refl
