-- ===== src/Execve/Shebang/Words.antt =====
-- The words and blanks of a #! line, and how the first loops of execve/shebang.c read them.
use vm_forge.Prelude.{
  ℕ, zero, suc, ◌+◌, ◌-◌, ◌<◌, ◌≡◌, ◌≢◌, refl, ◌∙◌, true, false, [], ◌∷◌, ◌++◌, append_assoc,
  append-nil, arith, length, replicate, Option,
}
use vm_forge.Prelude.Bytes.{Bytes, char_at}
use vm_forge.Prelude.Errors.{ok, Errno}
use vm_forge.Execve.Shebang.{
  binprm_buf_size, is_blank, is_newline, skip_spaces, string_of, path_loop,
}

abbrev pub AllBlank : Bytes → Type 0
AllBlank [] = Unit
AllBlank (c ∷ cs) = (is_blank c ≡ true) × AllBlank cs

-- A byte of a name: no blank, no end of a line, no NUL.
abbrev pub IsNameByte : ℕ → Type 0
IsNameByte c = (is_blank c ≡ false) × (is_newline c ≡ false) × (c ≢ 0)

abbrev pub IsWord : Bytes → Type 0
IsWord [] = Unit
IsWord (c ∷ cs) = IsNameByte c × IsWord cs

-- The bytes of an argument: no end of a line, no NUL.
abbrev pub IsOneLine : Bytes → Type 0
IsOneLine [] = Unit
IsOneLine (c ∷ cs) = ((is_newline c ≡ false) × (c ≢ 0)) × IsOneLine cs

abbrev pub HasNoNul : Bytes → Type 0
HasNoNul [] = Unit
HasNoNul (c ∷ cs) = (c ≢ 0) × HasNoNul cs

abbrev pub last_of : ℕ → Bytes → ℕ
last_of c [] = c
last_of c (d ∷ cs) = last_of d cs

pub skip_spaces-blanks :
    (failure : Option Errno) (blanks : Bytes) (c : ℕ) (rest : Bytes) (n : ℕ)
    → AllBlank blanks
    → is_blank c ≡ false
    → n + length blanks < binprm_buf_size
    → skip_spaces failure (blanks ++ c ∷ rest) n
      ≡ ok (record { tmp = c; rest = rest; current_length = n + length blanks + 1 })
unfolding skip_spaces
skip_spaces-blanks failure [] c rest n all b lt =
    let e : n + 0 + 1 ≡ n + 1 = omega arith in rw (b, e) refl
skip_spaces-blanks failure (d ∷ blanks) c rest n (blank, all) b lt =
    let e : n + suc (length blanks) + 1 ≡ n + 1 + length blanks + 1 = omega arith in
    ground (arith, skip_spaces-blanks failure blanks c rest (n + 1))

pub HasNoNul-append : (xs ys : Bytes) → HasNoNul xs → HasNoNul ys → HasNoNul (xs ++ ys)
HasNoNul-append [] ys a b = b
HasNoNul-append (x ∷ xs) ys (n, a) b = (n, HasNoNul-append xs ys a b)

pub char_at-HasNoNul : (xs : Bytes) (i : ℕ) → HasNoNul xs → i < length xs → char_at xs i ≢ 0
char_at-HasNoNul [] i a lt = absurd (omega arith)
char_at-HasNoNul (x ∷ xs) zero (n, a) lt = n
char_at-HasNoNul (x ∷ xs) (suc i) (n, a) lt = char_at-HasNoNul xs i a (omega arith)

-- One round over a byte of the interpreter's name, over a blank.
pub path_loop-name :
    (failure : Option Errno) (c d : ℕ) (rest : Bytes) (n : ℕ) (path : Bytes)
    → IsNameByte c
    → HasNoNul path
    → n < binprm_buf_size
    → path_loop failure c (d ∷ rest) n path ≡ path_loop failure d rest (n + 1) (path ++ c ∷ [])
unfolding path_loop
path_loop-name failure c d rest n path (blank, newline, nonzero) none_nul lt =
    ground (arith, char_at-HasNoNul path (length path - 1))

pub path_loop-blank :
    (failure : Option Errno) (c d : ℕ) (rest : Bytes) (n : ℕ) (path : Bytes)
    → is_blank c ≡ true
    → n < binprm_buf_size
    → path_loop failure c (d ∷ rest) n path ≡ path_loop failure d rest (n + 1) (path ++ 0 ∷ [])
unfolding path_loop
path_loop-blank failure c d rest n path blank lt = ground arith

pub path_loop-word :
    (failure : Option Errno) (c : ℕ) (w : Bytes) (d : ℕ) (rest : Bytes) (n : ℕ) (path : Bytes)
    → IsWord (c ∷ w)
    → HasNoNul path
    → n + length w < binprm_buf_size
    → path_loop failure c (w ++ d ∷ rest) n path
      ≡ path_loop failure d rest (n + length w + 1) (path ++ c ∷ w)
path_loop-word failure c [] d rest n path (name, _) none_nul lt =
    let e : n + 0 + 1 ≡ n + 1 = omega arith in
    rw e (path_loop-name failure c d rest n path name none_nul (omega arith))
path_loop-word failure c (x ∷ w) d rest n path (name, word) none_nul lt =
    let e : n + suc (length w) + 1 ≡ n + 1 + length w + 1 = omega arith in
    path_loop-name failure c x (w ++ d ∷ rest) n path name none_nul (omega arith)
    ∙ path_loop-word failure x w d rest (n + 1) (path ++ c ∷ []) word
        (HasNoNul-append path (c ∷ []) none_nul (name.2, tt)) (omega arith)
    ∙ rw (e, append_assoc path (c ∷ []) (x ∷ w)) refl

pub path_loop-blanks :
    (failure : Option Errno) (c : ℕ) (blanks : Bytes) (d : ℕ) (rest : Bytes) (n : ℕ) (path : Bytes)
    → AllBlank (c ∷ blanks)
    → n + length blanks < binprm_buf_size
    → path_loop failure c (blanks ++ d ∷ rest) n path
      ≡ path_loop failure d rest
          (n + length blanks + 1)
          ((path ++ replicate (length blanks) 0) ++ 0 ∷ [])
path_loop-blanks failure c [] d rest n path (blank, _) lt =
    let e : n + 0 + 1 ≡ n + 1 = omega arith in
    rw (e, append-nil path) (path_loop-blank failure c d rest n path blank (omega arith))
path_loop-blanks failure c (x ∷ blanks) d rest n path (blank, all) lt =
    let e : n + suc (length blanks) + 1 ≡ n + 1 + length blanks + 1 = omega arith in
    path_loop-blank failure c x (blanks ++ d ∷ rest) n path blank (omega arith)
    ∙ path_loop-blanks failure x blanks d rest (n + 1) (path ++ 0 ∷ []) all (omega arith)
    ∙ rw (e, append_assoc path (0 ∷ []) (replicate (length blanks) 0)) refl

pub string_of-nul : (xs ys : Bytes) → HasNoNul xs → string_of (xs ++ 0 ∷ ys) ≡ xs
string_of-nul [] ys a = refl
string_of-nul (x ∷ xs) ys (n, a) = ground (arith, string_of-nul xs ys)

pub string_of-zeros :
    (n : ℕ) (xs : Bytes) → HasNoNul xs → string_of ((xs ++ replicate n 0) ++ 0 ∷ []) ≡ xs
string_of-zeros zero xs a = rw (append-nil xs) (string_of-nul xs [] a)
string_of-zeros (suc n) xs a =
    rw (append_assoc xs (0 ∷ replicate n 0) (0 ∷ [])) (string_of-nul xs (replicate n 0 ++ 0 ∷ []) a)

pub string_of-HasNoNul : (xs : Bytes) → HasNoNul xs → string_of xs ≡ xs
string_of-HasNoNul [] a = refl
string_of-HasNoNul (x ∷ xs) (n, a) = ground (arith, string_of-HasNoNul xs)
