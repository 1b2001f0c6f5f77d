-- ===== src/Execve/Expand/Arguments.antt =====
-- The program and the arguments that expand_shebang() of execve/shebang.c comes to.
use vm_forge.Prelude.{
  ◌≡◌, ◌<◌, if◌then◌else◌, List, [], ◌∷◌, ◌++◌, map, ◌==◌, length, drop, Option, none, some,
}
use vm_forge.Prelude.Bytes.{Bytes}
use vm_forge.Prelude.Errors.{ok}
use vm_forge.Execve.Shebang.{Line, extract_shebang}
use vm_forge.Execve.Expand.{Entry, ExecHost, Expanded}

-- The vector of strings with a NULL at its end, and what it holds behind its first string.
abbrev first_vector : List Bytes → List Entry
first_vector words = map some words ++ none ∷ []

abbrev argument_part : Line → List Entry
argument_part l = if length l.argument == 0 then [] else some l.argument ∷ []

abbrev others : List Bytes → Option (List Entry) → List Entry
others words none = drop 1 (map some words) ++ none ∷ []
others words (some entries) = drop 1 entries

-- What execve(2) describes: for a script the program is the interpreter that its #! line names, and its
-- arguments are the interpreter, the line's argument where there is one, the script, and the script's
-- own arguments but the first. The interpreter may be a script in turn.
pub data RunsFor (h : ExecHost) (script : Bytes) (words : List Bytes)
    : Bytes → Option (List Entry) → Type 0 where
  itself : RunsFor h script words script none
  interpreted :
      {u v : Bytes} {argv argv' : Option (List Entry)} (host : Bytes) (l : Line)
      → RunsFor h script words u argv
      → h.check u ≡ ok host
      → extract_shebang (h.file_of host) ≡ ok (some l)
      → v ≡ l.user_path
      → argv' ≡ some (some l.user_path ∷ (argument_part l ++ some u ∷ others words argv))
      → RunsFor h script words v argv'

-- A vector with a string before its NULL.
abbrev IsLong : Option (List Entry) → Type 0
IsLong none = Unit
IsLong (some entries) = (x : Entry) × (rest : List Entry) × (entries ≡ x ∷ rest) × (0 < length rest)

-- The program at the end is no script.
abbrev pub IsProgram : ExecHost → Expanded → Type 0
IsProgram h r =
    (h.check r.user_path ≡ ok r.host_path) × (extract_shebang (h.file_of r.host_path) ≡ ok none)
