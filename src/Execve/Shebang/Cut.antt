-- ===== src/Execve/Shebang/Cut.antt =====
-- A #! line that no end of a line ends, in execve/shebang.c.
use vm_forge.Prelude.{
  ℕ, ◌+◌, ◌-◌, ◌<◌, ◌≡◌, refl, ◌∙◌, [], ◌∷◌, ◌++◌, append_assoc, append-nil, arith, length, take,
  none, some,
}
use vm_forge.Prelude.Bytes.{Bytes}
use vm_forge.Prelude.Errors.{ok}
use vm_forge.Execve.Shebang.{binprm_buf_size, path_loop, extract_bytes, extract_shebang}
use vm_forge.Execve.Shebang.Words.{
  AllBlank, IsWord, HasNoNul, HasNoNul-append, char_at-HasNoNul, string_of-HasNoNul,
  skip_spaces-blanks, path_loop-name,
}

path_loop-end :
    (c n : ℕ) (path : Bytes)
    → IsWord (c ∷ [])
    → HasNoNul path
    → path_loop none c [] n path ≡ ok (record { user_path = path; argument = [] })
unfolding path_loop
path_loop-end c n path (name, _) none_nul =
    ground (arith, char_at-HasNoNul path (length path - 1), string_of-HasNoNul path)

path_loop-cut :
    (c : ℕ) (w : Bytes) (n : ℕ) (path : Bytes)
    → IsWord (c ∷ w)
    → HasNoNul path
    → n + length w < binprm_buf_size
    → path_loop none c w n path
      ≡ ok (record { user_path = path ++ take (length w) (c ∷ w); argument = [] })
path_loop-cut c [] n path word none_nul lt =
    rw (append-nil path) (path_loop-end c n path word none_nul)
path_loop-cut c (x ∷ w) n path (name, word) none_nul lt =
    path_loop-name none c x w n path name none_nul (omega arith)
    ∙ path_loop-cut x w (n + 1) (path ++ c ∷ []) word
        (HasNoNul-append path (c ∷ []) none_nul (name.2, tt)) (omega arith)
    ∙ rw (append_assoc path (c ∷ []) (take (length w) (x ∷ w))) refl

-- Where the file ends with the name of the interpreter and no end of a line stands behind it, the last
-- byte of the name is lost.
pub extract_shebang_cut :
    (before : Bytes) (p : ℕ) (path : Bytes)
    → AllBlank before
    → IsWord (p ∷ path)
    → length before + length path < 250
    → extract_shebang (ok (record { bytes = 35 ∷ 33 ∷ (before ++ p ∷ path); failure = none }))
      ≡ ok (some (record { user_path = take (length path) (p ∷ path); argument = [] }))
unfolding extract_shebang extract_bytes
extract_shebang_cut before p path blank word lt =
    let named : path_loop none p path (2 + length before + 1) []
        ≡ ok (record { user_path = take (length path) (p ∷ path); argument = [] }) =
      path_loop-cut p path (2 + length before + 1) [] word tt (omega arith) in
    rw (skip_spaces-blanks none before p path 2 blank word.0.0 (omega arith), named) refl
