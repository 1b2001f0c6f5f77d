-- ===== src/Tests/Programs.antt =====
-- A script, and the heap of the program that runs it.
use vm_forge.Prelude.{
  ℕ, ◌≡◌, refl, false, arith, [], ◌∷◌, ◌++◌, map, some, none, inl, length, take, ◌==◌,
  if◌then◌else◌,
}
use vm_forge.Prelude.Bytes.{Bytes, codes}
use vm_forge.Prelude.Errors.{Result, ok, err, enoent}
use vm_forge.Execve.Shebang.{File, extract_shebang}
use vm_forge.Execve.Shebang.Script.{extract_shebang_argument}
use vm_forge.Execve.Shebang.Cut.{extract_shebang_cut}
use vm_forge.Execve.Expand.{ExecHost, Expanded}
use vm_forge.Syscalls.Heap.{Heap, Request, emulated_brk}
use vm_forge.Syscalls.Heap.Break.{IsHeap, Moves, emulated_brk-Moves}

-- " /sh -x -e ", a new line and "exit".
abbrev line_rest : Bytes
line_rest = codes "exit"

extract_shebang_argument_example :
    extract_shebang (
      ok (record {
        bytes =
            35
            ∷ 33
            ∷ ((32 ∷ [])
                ++ 47
                  ∷ (codes "sh"
                      ++ 32 ∷ ([] ++ 45 ∷ ((codes "x -e" ++ (32 ∷ [])) ++ 10 ∷ line_rest))));
        failure = none;
      }))
    ≡ ok (some (record { user_path = 47 ∷ codes "sh"; argument = 45 ∷ codes "x -e" }))
extract_shebang_argument_example =
    extract_shebang_argument none (32 ∷ []) 47 (codes "sh") 32 [] 45 (codes "x -e") (32 ∷ []) 10
      line_rest (refl, tt)
      ((refl, refl, omega arith), ((refl, refl, omega arith), ((refl, refl, omega arith), tt)))
      (refl, tt) (refl, refl, omega arith)
      ((refl, omega arith), ((refl, omega arith), ((refl, omega arith), ((refl, omega arith), tt))))
      refl (refl, tt) refl (omega arith)

extract_shebang_cut_example :
    extract_shebang (ok (record { bytes = 35 ∷ 33 ∷ ([] ++ 47 ∷ codes "sh"); failure = none }))
    ≡ ok (some (record { user_path = take 2 (47 ∷ codes "sh"); argument = [] }))
extract_shebang_cut_example =
    extract_shebang_cut [] 47 (codes "sh") tt
      ((refl, refl, omega arith), ((refl, refl, omega arith), ((refl, refl, omega arith), tt)))
      (omega arith)

-- "s" is a script for "p", which is a program; paths are the same on the host.
abbrev script : Bytes
script = 115 ∷ []

abbrev program : Bytes
program = 112 ∷ []

abbrev contents : Bytes → Result File
contents path =
    if length path == 0
    then err enoent
    else ok (record {
      bytes = (elim path [
        | [] ↦ []
        | c ∷ cs ↦ if c == 115 then 35 ∷ 33 ∷ 112 ∷ 32 ∷ 45 ∷ 10 ∷ [] else 127 ∷ 69 ∷ 76 ∷ []
      ]);
      failure = none;
    })

abbrev exec_host : ExecHost
exec_host = record {
  check = λ path. ok path;
  file_of = contents;
  fetch = ok (map some (script ∷ codes "arg" ∷ []) ++ none ∷ []);
  push = λ entries. ok tt;
}

abbrev expanded : Expanded
expanded = record {
  host_path = program;
  user_path = program;
  argv = some (some program ∷ some (45 ∷ []) ∷ some script ∷ some (codes "arg") ∷ none ∷ []);
}

abbrev heap : Heap
heap = record { base = 12288; size = 100; disabled = false }

-- A kernel that always gives the mapping at the second page.
abbrev kernel : Request → ℕ
kernel request = 8192

emulated_brk-Moves_example :
    Moves heap 20000 8192 (emulated_brk kernel heap 4096 8192 20000)
    × IsHeap 4096 (emulated_brk kernel heap 4096 8192 20000).0
emulated_brk-Moves_example =
    emulated_brk-Moves kernel heap 4096 8192 20000
      (refl, omega arith, omega arith, omega arith, omega arith) (omega arith) (inl (omega arith))

abbrev no_heap : Heap
no_heap = record { base = 0; size = 0; disabled = false }
