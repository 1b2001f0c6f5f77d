-- ===== src/Execve/Shebang.antt =====
-- execve/shebang.c: extract_shebang(), which reads the first line of a file byte by byte. BINPRM_BUF_SIZE
-- is 256.
pub mod Words
pub mod Script
pub mod Cut
use vm_forge.Prelude.{
  ℕ, zero, suc, ◌+◌, ◌-◌, ◌≡◌, refl, Bool, true, false, not, ◌&&◌, ◌||◌, List, [], ◌∷◌, ◌++◌, ltb,
  ◌==◌, if◌then◌else◌, length, Option, none, some,
}
use vm_forge.Prelude.Bytes.{Bytes, char_at}
use vm_forge.Prelude.Errors.{Result, ok, err, Errno, enoexec, ◌>>=◌}

abbrev pub binprm_buf_size : ℕ
binprm_buf_size = 256

-- What open(2) and read(2) give: the bytes, and then the end of the file or an error.
pub record File : Type 0 where
  pub bytes : Bytes
  pub failure : Option Errno

-- A read that does not give a byte.
abbrev pub at_end {ℓ} : {A : Type ℓ} → Option Errno → Result A → Result A
at_end none value = value
at_end (some e) value = err e

abbrev pub is_blank : ℕ → Bool
is_blank c = c == 32 || c == 9

abbrev pub is_newline : ℕ → Bool
is_newline c = c == 10 || c == 13

-- The byte that was read last, the bytes that are left, and current_length.
pub record Cursor : Type 0 where
  pub tmp : ℕ
  pub rest : Bytes
  pub current_length : ℕ

unfoldable pub skip_spaces : Option Errno → Bytes → ℕ → Result Cursor
skip_spaces failure [] current_length = at_end failure (err enoexec)
skip_spaces failure (c ∷ rest) current_length =
    let next = skip_spaces failure rest (current_length + 1) in
    if is_blank c && ltb (current_length + 1) binprm_buf_size
    then next
    else ok (record { tmp = c; rest = rest; current_length = current_length + 1 })

-- A buffer as the string that it holds, up to its first NUL.
abbrev pub string_of : Bytes → Bytes
string_of [] = []
string_of (c ∷ cs) = if c == 0 then [] else c ∷ string_of cs

abbrev pub is_empty : Bytes → Bool
is_empty [] = true
is_empty _ = false

abbrev pub drop_trailing : Bytes → Bytes
drop_trailing [] = []
drop_trailing (c ∷ cs) =
    let rest = drop_trailing cs in if is_blank c && is_empty rest then [] else c ∷ rest

-- Trailing blanks become NULs, but for the first byte.
abbrev pub trim : Bytes → Bytes
trim [] = []
trim (c ∷ cs) = c ∷ drop_trailing cs

-- The loop over the argument, which is written to a buffer; the index is the buffer's length.
unfoldable pub argument_loop : Option Errno → ℕ → Bytes → ℕ → Bytes → Result Bytes
argument_loop failure tmp [] current_length argument =
    if not (ltb current_length binprm_buf_size)
    then ok (string_of argument)
    else if is_newline tmp
    then ok (string_of (trim argument))
    else at_end failure (ok [])
argument_loop failure tmp (c ∷ rest) current_length argument =
    let next = argument_loop failure c rest (current_length + 1) (argument ++ tmp ∷ []) in
    if not (ltb current_length binprm_buf_size)
    then ok (string_of argument)
    else if is_newline tmp
    then ok (string_of (trim argument))
    else next

-- user_path and argument
pub record Line : Type 0 where
  pub user_path : Bytes
  pub argument : Bytes

-- There is an argument if the previous byte of the buffer is a NUL.
abbrev pub starts_argument : ℕ → Bytes → Bool
starts_argument tmp path =
    not (is_blank tmp) && ltb 1 (length path) && (char_at path (length path - 1) == 0)

abbrev pub with_argument : Bytes → Result Bytes → Result Line
with_argument path (err e) = err e
with_argument path (ok argument) = ok (record { user_path = string_of path; argument = argument })

abbrev pub path_byte : ℕ → ℕ
path_byte tmp = if is_blank tmp then 0 else tmp

-- The loop over the path of the interpreter.
unfoldable pub path_loop : Option Errno → ℕ → Bytes → ℕ → Bytes → Result Line
unfolding argument_loop
path_loop failure tmp [] current_length path =
    if not (ltb current_length binprm_buf_size) || is_newline tmp
    then ok (record { user_path = string_of path; argument = [] })
    else if starts_argument tmp path
    then with_argument path (argument_loop failure tmp [] current_length [])
    else at_end failure (ok (record { user_path = string_of path; argument = [] }))
path_loop failure tmp (c ∷ rest) current_length path =
    let next = path_loop failure c rest (current_length + 1) (path ++ path_byte tmp ∷ []) in
    if not (ltb current_length binprm_buf_size) || is_newline tmp
    then ok (record { user_path = string_of path; argument = [] })
    else if starts_argument tmp path
    then with_argument path (argument_loop failure tmp (c ∷ rest) current_length [])
    else next

-- `none` for the status 0: no script.
unfoldable pub extract_bytes : Option Errno → Bytes → Result (Option Line)
unfolding skip_spaces path_loop
extract_bytes failure [] = at_end failure (ok none)
extract_bytes failure (a ∷ []) = ok none
extract_bytes failure (a ∷ b ∷ rest) =
    if not (a == 35) || not (b == 33)
    then ok none
    else skip_spaces failure rest 2 >>= λ k.
        path_loop failure k.tmp k.rest k.current_length [] >>= λ l. ok (some l)

unfoldable pub extract_shebang : Result File → Result (Option Line)
unfolding extract_bytes
extract_shebang (err e) = err e
extract_shebang (ok f) = extract_bytes f.failure f.bytes
