-- ===== src/FilePaths/ProcLinks.antt =====
-- readlink_proc of path/proc.c: the links of /proc that PRoot answers itself. An int is its word of 32 bits.
use vm_forge.Prelude.{
  ℕ, zero, suc, ◌+◌, ◌*◌, ◌-◌, ◌%◌, ◌/◌, Bool, true, false, not, ◌&&◌, ◌||◌, [], ◌∷◌, ◌++◌, ltb,
  leb, ◌==◌, if◌then◌else◌, length, drop, Option, some, none,
}
use vm_forge.Prelude.Bytes.{Bytes, slash, codes, char_at, str_equal, path_max}
use vm_forge.Prelude.Errors.{Result, ok, err, eperm, null_pointer}
use vm_forge.FilePaths.Compare.{Comparison, paths_are_equal, path1_is_prefix, compare_paths}
use vm_forge.FilePaths.Binding.{get_root}
use vm_forge.FilePaths.Host.{
  Host, KnownTracee, Action, default_action, canonicalize_link, dont_canonicalize,
}

abbrev is_space : ℕ → Bool
is_space c = c == 32 || (leb 9 c && leb c 13)

unfoldable pub skip_blanks : Bytes → Bytes
skip_blanks [] = []
skip_blanks (c ∷ s) = let rest = skip_blanks s in if is_space c then rest else c ∷ s

-- The sign, and what follows it.
abbrev pub sign_of : Bytes → Bool × Bytes
sign_of [] = (false, [])
sign_of (c ∷ s) = if c == 45 then (true, s) else if c == 43 then (false, s) else (false, c ∷ s)

-- The value of the digits, on top of the value so far.
unfoldable pub digits_value : ℕ → Bytes → ℕ
digits_value n [] = n
digits_value n (c ∷ s) =
    let rest = digits_value (n * 10 + (c - 48)) s in if leb 48 c && leb c 57 then rest else n

abbrev starts_digit : Bytes → Bool
starts_digit s = leb 48 (char_at s 0) && leb (char_at s 0) 57

-- The largest magnitude of a long of that sign.
abbrev long_limit : Bool → ℕ
long_limit true = 9223372036854775808
long_limit false = 9223372036854775807

-- atoi(): strtol() with the long cut to an int.
unfoldable pub atoi : Bytes → ℕ
unfolding skip_blanks digits_value
atoi s =
    let (negative, digits) = sign_of (skip_blanks s) in
    let value = digits_value 0 digits in
    let long = if ltb (long_limit negative) value then long_limit negative else value in
    if negative then (4294967296 - long % 4294967296) % 4294967296 else long % 4294967296

-- strtol() sets errno, or has read no number.
unfoldable pub strtol_fails : Bytes → Bool
unfolding skip_blanks digits_value
strtol_fails s =
    let (negative, digits) = sign_of (skip_blanks s) in
    not (starts_digit digits) || ltb (long_limit negative) (digits_value 0 digits)

-- The digits of a number below 10 ^ fuel.
unfoldable pub digits_of : ℕ → ℕ → Bytes
digits_of zero n = []
digits_of (suc fuel) n =
    let front = digits_of fuel (n / 10) in
    if ltb n 10 then (48 + n % 10) ∷ [] else front ++ (48 + n % 10) ∷ []

-- "%d"
unfoldable pub decimal : ℕ → Bytes
unfolding digits_of
decimal word =
    if ltb word 2147483648 then digits_of 10 word else 45 ∷ digits_of 10 (4294967296 - word)

-- "/proc/%d" and "/proc/%d/fd", which fit their buffers
abbrev pub proc_path : ℕ → Bytes
proc_path pid = codes "/proc/" ++ decimal pid

abbrev pub fd_path : ℕ → Bytes
fd_path pid = proc_path pid ++ codes "/fd"

-- SUBSTITUTE(): the text is copied.
unfoldable pub substituted : Option Bytes → Result Action
substituted none = err null_pointer
substituted (some text) =
    if leb path_max (length text) then err eperm else ok (canonicalize_link text)

-- The links of "/proc/<PID>".
unfoldable pub process_link : Option KnownTracee → Bytes → Result Action
unfolding substituted
process_link none component = ok default_action
process_link (some t) component =
    if str_equal component (codes "exe")
    then substituted t.exe
    else if str_equal component (codes "cwd")
    then substituted (some t.cwd)
    else if str_equal component (codes "root")
    then substituted (get_root t.fs)
    else ok default_action

-- The links of "/proc/<PID>/fd".
unfoldable pub fd_link : Bytes → Bytes → Comparison → Result Action
unfolding strtol_fails
fd_link base component paths_are_equal =
    if strtol_fails component || leb path_max (length base + 1 + length component)
    then err eperm
    else ok (dont_canonicalize (base ++ slash ∷ component))
fd_link base component _ = ok default_action

-- By the comparison of "/proc/<PID>" with the base.
unfoldable pub pid_link : Host → ℕ → Bytes → Bytes → Comparison → Result Action
unfolding process_link fd_link
pid_link h pid base component paths_are_equal = process_link (h.known_tracee pid) component
pid_link h pid base component path1_is_prefix =
    fd_link base component (compare_paths (fd_path pid) base)
pid_link h pid base component _ = ok default_action

unfoldable pub readlink_proc : Host → Bytes → Bytes → Comparison → Result Action
unfolding pid_link atoi decimal
readlink_proc h base component paths_are_equal =
    if not (str_equal component (codes "self"))
    then ok default_action
    else ok (canonicalize_link (proc_path h.pid))
readlink_proc h base component path1_is_prefix =
    let pid = atoi (drop 6 base) in
    if pid == 0
    then ok default_action
    else pid_link h pid base component (compare_paths (proc_path pid) base)
readlink_proc h base component _ = ok default_action
