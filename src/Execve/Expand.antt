-- ===== src/Execve/Expand.antt =====
-- execve/shebang.c: expand_shebang(), which replaces a script by its interpreter, and the operations of
-- execve/aoxp.c on the argument vector that it uses.
pub mod Arguments
use vm_forge.Prelude.{
  ℕ, zero, suc, ◌+◌, ◌≡◌, refl, Bool, true, false, List, [], ◌∷◌, ◌++◌, map, ◌==◌, if◌then◌else◌,
  length, drop, replicate, Option, none, some,
}
use vm_forge.Prelude.Bytes.{Bytes}
use vm_forge.Prelude.Errors.{Result, ok, err, eloop, assertion, ◌>>=◌}
use vm_forge.Execve.Shebang.{File, Line, extract_shebang}

-- MAXSYMLINKS of sys/param.h
abbrev pub max_scripts : ℕ
max_scripts = 20

-- An entry of a vector of pointers to strings: NULL or a string.
abbrev pub Entry : Type 0
Entry = Option Bytes

-- What the expansion asks of the rest of PRoot and of the kernel: translate_and_check_exec() as the
-- host path of a guest path, the files, the tracee's argument vector, and its replacement.
pub record ExecHost : Type 0 where
  pub check : Bytes → Result Bytes
  pub file_of : Bytes → Result File
  pub fetch : Result (List Entry)
  pub push : List Entry → Result (Unit {0})

-- At the index 0 and for more entries.
unfoldable pub resize_array : List Entry → ℕ → Result (List Entry)
resize_array entries delta =
    if length entries == 0 then err assertion else ok (replicate delta none ++ entries)

unfoldable pub write_xpointees : List Entry → List Bytes → List Entry
write_xpointees entries strings = map some strings ++ drop (length strings) entries

abbrev pub for_name : List Entry → ℕ
for_name entries = if length entries == 1 then 1 else 0

-- The vector for an interpreter, with the name of the script in the place of the first argument.
unfoldable pub interpreter_argv : Line → Bytes → List Entry → Result (List Entry)
unfolding resize_array write_xpointees
interpreter_argv l old_user_path entries =
    if length l.argument == 0
    then (resize_array entries (1 + for_name entries) >>= λ resized.
        ok (write_xpointees resized (l.user_path ∷ old_user_path ∷ [])))
    else (resize_array entries (2 + for_name entries) >>= λ resized.
        ok (write_xpointees resized (l.user_path ∷ l.argument ∷ old_user_path ∷ [])))

-- The paths of the program, and the argument vector where it was fetched.
pub record Expanded : Type 0 where
  pub host_path : Bytes
  pub user_path : Bytes
  pub argv : Option (List Entry)

abbrev pub fetched : ExecHost → Option (List Entry) → Result (List Entry)
fetched h none = h.fetch
fetched h (some entries) = ok entries

abbrev pub go_on :
    (Bytes → Option (List Entry) → Result Expanded)
    → ExecHost
    → Bytes
    → Bytes
    → Option (List Entry)
    → Option Line
    → Result Expanded
go_on next h host_path user_path argv none =
    ok (record { host_path = host_path; user_path = user_path; argv = argv })
go_on next h host_path user_path argv (some l) = h.check l.user_path >>= λ _.
    fetched h argv >>= λ entries.
    interpreter_argv l user_path entries >>= λ entries'. next l.user_path (some entries')

-- The loop, by the rounds that are left.
unfoldable pub expand_loop : ℕ → ExecHost → Bytes → Option (List Entry) → Result Expanded
unfolding interpreter_argv
expand_loop zero h user_path argv = err eloop
expand_loop (suc n) h user_path argv = h.check user_path >>= λ host_path.
    extract_shebang (h.file_of host_path) >>= λ line.
    go_on (expand_loop n h) h host_path user_path argv line

abbrev pub pushed : ExecHost → Expanded → Option (List Entry) → Result Expanded
pushed h r none = ok r
pushed h r (some entries) = h.push entries >>= λ _. ok r

-- The status is 1 where there is a vector, 0 otherwise.
unfoldable pub expand_shebang : ExecHost → Bytes → Result Expanded
unfolding expand_loop
expand_shebang h user_path = expand_loop max_scripts h user_path none >>= λ r. pushed h r r.argv
