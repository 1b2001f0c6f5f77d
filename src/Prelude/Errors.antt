-- ===== src/Prelude/Errors.antt =====
-- Results of fallible code: `-errno` is `err`, any other status is `ok` with what the code returns.
use mathlib.Core.Path.{◌≡◌, refl}
use mathlib.Core.Logic.{◌≢◌}
use mathlib.Core.Bool.{Bool, true, false}
use vm_forge.Prelude.Tests.{if◌then◌else◌}

pub data Errno : Type 0 where
  eperm enoent eintr e2big enoexec eagain enomem eacces eexist enotdir einval efbig enospc erange :
      Errno
  enametoolong eloop enomsg eidrm efault ebadf enosys : Errno
  -- Only of a model: the fuel of a loop ran out; a null pointer is read; an assertion fails; a byte
  -- outside a buffer is read or written.
  out_of_fuel null_pointer assertion out_of_bounds : Errno

pub data Result {ℓ} (A : Type ℓ) : Type ℓ where
  err : Errno → Result A
  ok : A → Result A

-- What holds of a value that is returned.
abbrev pub Ensures {ℓ κ} : {A : Type ℓ} → (A → Type κ) → Result A → Type κ
Ensures P (ok a) = P a
Ensures P (err e) = Unit

-- An error leaves the function at once.
infixl 5 ◌>>=◌
abbrev pub ◌>>=◌ {ℓ μ} : {B : Type ℓ} {C : Type μ} → Result B → (B → Result C) → Result C
err code >>= next = err code
ok value >>= next = next value

-- Where a chain of calls returned a value, its first call did.
pub >>=-eq-ok {ℓ μ} :
    {B : Type ℓ} {C : Type μ} (first : Result B) (next : B → Result C) {c : C}
    → (first >>= next) ≡ ok c
    → (value : B) × (first ≡ ok value) × (next value ≡ ok c)
>>=-eq-ok (err code) next done = cc
>>=-eq-ok (ok value) next done = (value, refl, done)

-- What holds after a bind, from what the first part returned.
pub Ensures-bind {ℓ κ μ} :
    {A : Type ℓ} {B : Type κ} (Q : B → Type μ) (m : Result A) (f : A → Result B)
    → ((a : A) → m ≡ ok a → Ensures Q (f a))
    → Ensures Q (m >>= f)
Ensures-bind Q (ok a) f k = k a refl
Ensures-bind Q (err e) f k = tt

pub Ensures-intro {ℓ κ} :
    {A : Type ℓ} (Q : A → Type κ) (m : Result A) → ((a : A) → m ≡ ok a → Q a) → Ensures Q m
Ensures-intro Q (ok a) k = k a refl
Ensures-intro Q (err e) k = tt

pub Ensures-elim {ℓ κ} :
    {A : Type ℓ} (Q : A → Type κ) (m : Result A) {a : A} → Ensures Q m → m ≡ ok a → Q a
Ensures-elim Q (ok b) {a} h e = let same : b ≡ a = cc in rw same at h
Ensures-elim Q (err x) h e = cc

pub Ensures-if {ℓ κ} :
    {A : Type ℓ} (Q : A → Type κ) (b : Bool) (m n : Result A)
    → (b ≡ true → Ensures Q m)
    → (b ≡ false → Ensures Q n)
    → Ensures Q (if b then m else n)
Ensures-if Q true m n h k = h refl
Ensures-if Q false m n h k = k refl

-- A failure reported as another error.
abbrev pub fail_as {ℓ} : {A : Type ℓ} → Errno → Result A → Result A
fail_as e (ok a) = ok a
fail_as e (err _) = err e

-- A result that is not the model's own end of fuel.
abbrev pub Ends {ℓ} : {A : Type ℓ} → Result A → Type 0
Ends (ok a) = Unit
Ends (err out_of_fuel) = ⊥
Ends (err _) = Unit

pub Ends-bind {ℓ κ} :
    {A : Type ℓ} {B : Type κ} (m : Result A) (f : A → Result B)
    → Ends m
    → ((a : A) → m ≡ ok a → Ends (f a))
    → Ends (m >>= f)
Ends-bind (ok a) f h k = k a refl
Ends-bind (err out_of_fuel) f h k = absurd h
Ends-bind (err _) f h k = tt

pub Ends-if {ℓ} :
    {A : Type ℓ} (b : Bool) (m n : Result A)
    → (b ≡ true → Ends m)
    → (b ≡ false → Ends n)
    → Ends (if b then m else n)
Ends-if true m n h k = h refl
Ends-if false m n h k = k refl

pub Ends-fail_as {ℓ} :
    {A : Type ℓ} (e : Errno) (m : Result A) → Ends {A = A} (err e) → Ends (fail_as e m)
Ends-fail_as e (ok a) h = tt
Ends-fail_as e (err _) h = h

pub Ends-ne {ℓ} : {A : Type ℓ} (m : Result A) → Ends m → m ≢ err out_of_fuel
Ends-ne (ok a) h e = cc
Ends-ne (err out_of_fuel) h e = h
Ends-ne (err _) h e = cc

pub ne-Ends {ℓ} : {A : Type ℓ} (m : Result A) → m ≢ err out_of_fuel → Ends m
ne-Ends (ok a) h = tt
ne-Ends (err out_of_fuel) h = h refl
ne-Ends (err _) h = tt
