-- ===== src/Execve/Shebang/Script.antt =====
-- The #! lines that extract_shebang() of execve/shebang.c reads as they are meant.
use vm_forge.Prelude.{
  ℕ, ◌+◌, ◌-◌, ◌<◌, ◌≡◌, refl, ap, ◌∙◌, true, false, [], ◌∷◌, ◌++◌, append_assoc, arith, ltb,
  length, length-append, replicate, Option, some,
}
use vm_forge.Prelude.Bytes.{Bytes, char_at}
use vm_forge.Prelude.Errors.{ok, Errno}
use vm_forge.Execve.Shebang.{
  binprm_buf_size, is_blank, is_newline, string_of, trim, drop_trailing, argument_loop,
  starts_argument, path_loop, extract_bytes, extract_shebang,
}
use vm_forge.Execve.Shebang.Words.{
  AllBlank, IsNameByte, IsWord, IsOneLine, HasNoNul, last_of, skip_spaces-blanks, path_loop-word,
  path_loop-blanks, string_of-zeros, string_of-HasNoNul,
}

argument_loop-line :
    (failure : Option Errno) (c : ℕ) (w : Bytes) (newline : ℕ) (rest : Bytes) (n : ℕ)
    (argument : Bytes)
    → IsOneLine (c ∷ w)
    → is_newline newline ≡ true
    → n + length w + 1 < binprm_buf_size
    → argument_loop failure c (w ++ newline ∷ rest) n argument
      ≡ ok (string_of (trim (argument ++ c ∷ w)))
unfolding argument_loop
argument_loop-line failure c [] newline [] n argument ((no_newline, _), _) ends lt = ground arith
argument_loop-line failure c [] newline (d ∷ rest) n argument ((no_newline, _), _) ends lt =
    ground arith
argument_loop-line failure c (x ∷ w) newline rest n argument ((no_newline, _), line) ends lt =
    let more =
      argument_loop-line failure x w newline rest (n + 1) (argument ++ c ∷ []) line ends
        (omega arith) in
    let inside : ltb n binprm_buf_size ≡ true = ground arith in
    rw (inside, no_newline) (more ∙ rw (append_assoc argument (c ∷ []) (x ∷ w)) refl)

drop_trailing-blanks : (blanks : Bytes) → AllBlank blanks → drop_trailing blanks ≡ []
drop_trailing-blanks [] all = refl
drop_trailing-blanks (c ∷ blanks) (blank, all) = ground (arith, drop_trailing-blanks blanks all)

drop_trailing-append :
    (c : ℕ) (w blanks : Bytes)
    → is_blank (last_of c w) ≡ false
    → AllBlank blanks
    → drop_trailing (c ∷ (w ++ blanks)) ≡ c ∷ w
drop_trailing-append c [] blanks last all = rw (drop_trailing-blanks blanks all, last) refl
drop_trailing-append c (x ∷ w) blanks last all =
    let rest = drop_trailing-append x w blanks last all in ground (arith, rest)

trim-append :
    (c : ℕ) (w blanks : Bytes)
    → is_blank (last_of c w) ≡ false
    → AllBlank blanks
    → trim (c ∷ (w ++ blanks)) ≡ c ∷ w
trim-append c [] blanks last all = ap (λ (t : Bytes). c ∷ t) (drop_trailing-blanks blanks all)
trim-append c (x ∷ w) blanks last all =
    ap (λ (t : Bytes). c ∷ t) (drop_trailing-append x w blanks last all)

IsOneLine-append : (xs ys : Bytes) → IsOneLine xs → IsOneLine ys → IsOneLine (xs ++ ys)
IsOneLine-append [] ys a b = b
IsOneLine-append (x ∷ xs) ys (n, a) b = (n, IsOneLine-append xs ys a b)

AllBlank-IsOneLine : (xs : Bytes) → AllBlank xs → IsOneLine xs
AllBlank-IsOneLine [] a = tt
AllBlank-IsOneLine (x ∷ xs) (blank, a) = ((ground arith, ground arith), AllBlank-IsOneLine xs a)

IsOneLine-HasNoNul : (xs : Bytes) → IsOneLine xs → HasNoNul xs
IsOneLine-HasNoNul [] a = tt
IsOneLine-HasNoNul (x ∷ xs) ((_, n), a) = (n, IsOneLine-HasNoNul xs a)

IsWord-HasNoNul : (xs : Bytes) → IsWord xs → HasNoNul xs
IsWord-HasNoNul [] a = tt
IsWord-HasNoNul (x ∷ xs) ((_, _, n), a) = (n, IsWord-HasNoNul xs a)

char_at-last : (xs : Bytes) (c : ℕ) → char_at (xs ++ c ∷ []) (length xs) ≡ c
char_at-last [] c = refl
char_at-last (x ∷ xs) c = char_at-last xs c

starts_argument-nul :
    (c p : ℕ) (path : Bytes) → is_blank c ≡ false → starts_argument c ((p ∷ path) ++ 0 ∷ []) ≡ true
starts_argument-nul c p path b =
    let last : length ((p ∷ path) ++ 0 ∷ []) - 1 ≡ length (p ∷ path) =
      omega (arith, length-append (p ∷ path) (0 ∷ [])) in
    let at_last = char_at-last (p ∷ path) 0 in
    let long : ltb 1 (length ((p ∷ path) ++ 0 ∷ [])) ≡ true =
      ground (arith, length-append path (0 ∷ [])) in
    rw (b, long, last, at_last) refl

-- A line with an argument, from the argument on.
path_loop-argument :
    (failure : Option Errno) (a : ℕ) (arg blanks : Bytes) (newline : ℕ) (rest : Bytes) (n : ℕ)
    (p : ℕ) (path zeros : Bytes)
    → IsNameByte a
    → IsOneLine arg
    → is_blank (last_of a arg) ≡ false
    → AllBlank blanks
    → is_newline newline ≡ true
    → HasNoNul (p ∷ path)
    → string_of (((p ∷ path) ++ zeros) ++ 0 ∷ []) ≡ p ∷ path
    → n + length arg + length blanks + 1 < binprm_buf_size
    → path_loop failure a ((arg ++ blanks) ++ newline ∷ rest) n (((p ∷ path) ++ zeros) ++ 0 ∷ [])
      ≡ ok (record { user_path = p ∷ path; argument = a ∷ arg })
unfolding path_loop
path_loop-argument failure a arg blanks newline rest n p path zeros (ab, an, a0) line last all ends
      none_nul is_path lt =
    by_left ((arg ++ blanks) ++ newline ∷ rest) refl
  where
    buffer : Bytes
    buffer = ((p ∷ path) ++ zeros) ++ 0 ∷ []

    read : argument_loop failure a ((arg ++ blanks) ++ newline ∷ rest) n [] ≡ ok (a ∷ arg)
    read =
        argument_loop-line failure a (arg ++ blanks) newline rest n []
          ((an, a0), IsOneLine-append arg blanks line (AllBlank-IsOneLine blanks all)) ends
          (omega (arith, length-append arg blanks))
        ∙ ap (λ (t : Bytes). ok (string_of t)) (trim-append a arg blanks last all)
        ∙ ap ok (string_of-HasNoNul (a ∷ arg) (a0, IsOneLine-HasNoNul arg line))

    starts : starts_argument a buffer ≡ true
    starts = starts_argument-nul a p (path ++ zeros) ab

    by_left :
        (left : Bytes)
        → (arg ++ blanks) ++ newline ∷ rest ≡ left
        → path_loop failure a left n buffer
          ≡ ok (record { user_path = p ∷ path; argument = a ∷ arg })
    by_left [] e =
        absurd (omega (arith, ap length e, length-append (arg ++ blanks) (newline ∷ rest)))
    by_left (c ∷ left) e =
        let inside : ltb n binprm_buf_size ≡ true = ground arith in
        let found : argument_loop failure a (c ∷ left) n [] ≡ ok (a ∷ arg) = rw e at read in
        let found' = rw (inside, an) at found in rw (inside, an, starts, found', is_path) refl

-- The line `#!`, blanks, a name, blanks, an argument, blanks and the end of the line, with whatever
-- follows, is read as the name and the argument: the argument goes to its last byte that is no blank,
-- and may have blanks inside. The line fits the 256 bytes of the kernel's buffer.
pub extract_shebang_argument :
    (failure : Option Errno) (before : Bytes) (p : ℕ) (path : Bytes) (b : ℕ) (between : Bytes)
    (a : ℕ) (arg after : Bytes)
    → (newline : ℕ) (rest : Bytes) → AllBlank before
    → IsWord (p ∷ path)
    → AllBlank (b ∷ between)
    → IsNameByte a
    → IsOneLine arg
    → is_blank (last_of a arg) ≡ false
    → AllBlank after
    → is_newline newline ≡ true
    → length before + length path + length between + length arg + length after < 250
    → extract_shebang (
        ok (record {
          bytes =
              35
              ∷ 33
              ∷ (before ++ p ∷ (path ++ b ∷ (between ++ a ∷ ((arg ++ after) ++ newline ∷ rest))));
          failure = failure;
        }))
      ≡ ok (some (record { user_path = p ∷ path; argument = a ∷ arg }))
unfolding extract_shebang extract_bytes
extract_shebang_argument failure before p path b between a arg after newline rest blank word blanks
      proper line last trailing ends lt =
    let l0 = (arg ++ after) ++ newline ∷ rest in
    let l1 = between ++ a ∷ l0 in
    let n1 = 2 + length before + 1 in
    let n2 = n1 + length path + 1 in
    let none_nul = IsWord-HasNoNul (p ∷ path) word in
    let zeros : Bytes = replicate (length between) 0 in
    let named : path_loop failure p (path ++ b ∷ l1) n1 [] ≡ path_loop failure b l1 n2 (p ∷ path) =
      path_loop-word failure p path b l1 n1 [] word tt (omega arith) in
    let blanked = path_loop-blanks failure b between a l0 n2 (p ∷ path) blanks (omega arith) in
    let is_path : string_of (((p ∷ path) ++ zeros) ++ 0 ∷ []) ≡ p ∷ path =
      string_of-zeros (length between) (p ∷ path) none_nul in
    let argued =
      path_loop-argument failure a arg after newline rest (n2 + length between + 1) p path zeros
        proper line last trailing ends none_nul is_path (omega arith) in
    rw
      (
        skip_spaces-blanks failure before p (path ++ b ∷ l1) 2 blank word.0.0 (omega arith),
        named,
        blanked,
        argued,
      )
      refl
