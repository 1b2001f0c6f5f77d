-- ===== src/Prelude/Bytes.antt =====
-- C strings: the bytes before the terminating NUL, with the library calls that the code makes of
-- them (strlen is `length`).
use Prim.Native.Char.{code}
use Prim.Native.Nat.{ℕ}
use Prim.Native.String.{String}
use mathlib.Core.Path.{◌≡◌, refl}
use mathlib.Core.Logic.{◌↔◌, ◌≢◌}
use mathlib.Core.Bool.{Bool, true, false, ◌&&◌}
use mathlib.Core.List.{List, [], ◌∷◌, ◌++◌}
use native.Mathlib.Omega.{arith}
use vm_forge.Prelude.Tests.{◌==◌}
use vm_forge.Prelude.Lists.{take, get_or}

abbrev pub Bytes : Type 0
Bytes = List ℕ

abbrev pub codes : String → Bytes
codes String.[] = []
codes (String.◌∷◌ c s) = code c ∷ codes s

-- '/' and '.'
abbrev pub slash : ℕ
slash = 47

-- limits.h
abbrev pub path_max : ℕ
path_max = 4096

abbrev pub name_max : ℕ
name_max = 255

abbrev pub dot : ℕ
dot = 46

-- s[i]; the byte behind the last is the terminating NUL.
abbrev pub char_at : Bytes → ℕ → ℕ
char_at s i = get_or s i 0

-- strcmp(a, b) == 0
unfoldable pub str_equal : Bytes → Bytes → Bool
str_equal [] [] = true
str_equal [] (b ∷ bs) = false
str_equal (a ∷ as') [] = false
str_equal (a ∷ as') (b ∷ bs) = (a == b) && str_equal as' bs

-- strncmp(a, b, n) == 0
unfoldable pub str_equal_n : Bytes → Bytes → ℕ → Bool
unfolding str_equal
str_equal_n a b n = str_equal (take n a) (take n b)

pub str_equal→eq : (a b : Bytes) → str_equal a b ≡ true → a ≡ b
unfolding str_equal
str_equal→eq [] [] h = refl
str_equal→eq [] (b ∷ bs) h = ground arith
str_equal→eq (a ∷ as') [] h = ground arith
str_equal→eq (a ∷ as') (b ∷ bs) h = ground (arith, str_equal→eq as' bs)

pub str_equal_self : (a : Bytes) → str_equal a a ≡ true
unfolding str_equal
str_equal_self [] = refl
str_equal_self (a ∷ as') = ground (arith, str_equal_self as')

pub str_equal_iff : (a b : Bytes) → (str_equal a b ≡ true) ↔ (a ≡ b)
str_equal_iff a b = (str_equal→eq a b, λ e. rw e (str_equal_self b))

-- No NUL byte: what a C string holds.
abbrev pub IsText : Bytes → Type 0
IsText [] = Unit
IsText (c ∷ s) = (c ≢ 0) × IsText s

pub IsText-append : (a b : Bytes) → IsText a → IsText b → IsText (a ++ b)
IsText-append [] b h k = k
IsText-append (x ∷ a) b (p, h) k = (p, IsText-append a b h k)
