-- ===== src/FilePaths/Translate.antt =====
-- translate_path, getcwd2, realpath2 (with a tracee) and chop_finality of path/path.c.
use vm_forge.Prelude.{
  ℕ, ◌+◌, ◌-◌, ◌≡◌, Bool, true, false, not, [], ◌∷◌, arith, ltb, leb, ◌==◌, if◌then◌else◌,
  Bool-cases, inl, inr, length, take, none,
}
use vm_forge.Prelude.Bytes.{Bytes, slash, dot, char_at, path_max}
use vm_forge.Prelude.Errors.{
  Result, ok, err, ebadf, enotdir, assertion, fail_as, >>=-eq-ok, enametoolong, ◌>>=◌,
}
use vm_forge.FilePaths.Join.{join_two}
use vm_forge.FilePaths.Canonical.{root-IsGuest, IsResult}
use vm_forge.FilePaths.Binding.{Bindings, guest_side, substitute_binding}
use vm_forge.FilePaths.Host.{Host}
use vm_forge.FilePaths.Detranslate.{detranslate_path}
use vm_forge.FilePaths.Canon.{canonicalize, max_symlinks}
use vm_forge.FilePaths.Canon.Safety.{canonicalize-IsResult}

-- Remove the trailing "/" or "/.". The assertion refuses a path that is "." alone; an empty path is
-- read out of bounds.
unfoldable pub chop_finality : Bytes → Result Bytes
chop_finality path =
    let last = char_at path (length path - 1) in
    if length path == 0
    then err assertion
    else if last == dot
    then (if ltb (length path) 2
        then err assertion
        else if length path == 2
        then ok (take (length path - 1) path)
        else ok (take (length path - 2) path))
    else if last == slash
    then (if ltb 1 (length path) then ok (take (length path - 1) path) else ok path)
    else ok path

-- What a tracee's path translation uses: its name space, its working directory, the targets of its
-- file descriptors, and the extensions' callbacks for the two events of translate_path().
pub record Tracee : Type 0 where
  pub fs : Bindings
  pub cwd : Bytes
  pub host : Host
  -- readlink("/proc/<pid>/fd/<fd>"), the whole text of the link
  pub fd_target : ℕ → Result Bytes
  -- GUEST_PATH: base and user path; the path, and whether the translation is to be skipped
  pub notify_guest_path : Bytes → Bytes → Result (Bytes × Bool)
  -- TRANSLATED_PATH
  pub notify_translated_path : Bytes → Result Bytes

-- The directory of a relative path: `cwd` is AT_FDCWD.
pub data DirFd : Type 0 where
  at_cwd : DirFd
  at_fd : ℕ → DirFd

unfoldable pub getcwd2 : Tracee → Result Bytes
getcwd2 t = if leb path_max (length t.cwd) then err enametoolong else ok t.cwd

unfoldable pub readlink_proc_pid_fd : Tracee → ℕ → Result Bytes
readlink_proc_pid_fd t fd = fail_as ebadf (t.fd_target fd) >>= λ path.
    if leb path_max (length path) then err enametoolong else ok path

-- The base that a user path is relative to.
unfoldable pub base_path : Tracee → DirFd → Bytes → Result Bytes
unfolding getcwd2 readlink_proc_pid_fd
base_path t dir user_path = if char_at user_path 0 == slash then ok (slash ∷ []) else elim dir [
  | at_cwd ↦ getcwd2 t
  | at_fd fd ↦ readlink_proc_pid_fd t fd >>= λ path.
      if not (char_at path 0 == slash)
      then err enotdir
      else detranslate_path t.host t.fs path none >>= λ (detranslated, _). ok detranslated
]

-- From the joined guest path to the host path.
unfoldable pub resolve : Tracee → Bytes → Bool → Result Bytes
resolve t joined deref_final =
    canonicalize t.host t.fs (max_symlinks + 2) joined deref_final (slash ∷ []) 0 >>= λ canonical.
    substitute_binding t.fs guest_side canonical >>= λ (result, _). ok result

-- What follows the event GUEST_PATH: the extensions may have translated the path already.
unfoldable pub resolve_from : Tracee → Bytes → Bool → Bytes × Bool → Result Bytes
unfolding resolve
resolve_from t user_path deref_final (result, true) = ok result
resolve_from t user_path deref_final (result, false) =
    if not (char_at result 0 == slash)
    then err assertion
    else (join_two result user_path >>= λ joined. resolve t joined deref_final)

unfoldable pub translate_path : Tracee → DirFd → Bytes → Bool → Result Bytes
unfolding base_path resolve_from
translate_path t dir user_path deref_final = base_path t dir user_path >>= λ base.
    t.notify_guest_path base user_path >>= λ answer.
    resolve_from t user_path deref_final answer >>= λ translated.
    t.notify_translated_path translated

-- realpath2() of a tracee
unfoldable pub realpath2 : Tracee → Bytes → Bool → Result Bytes
unfolding translate_path
realpath2 t path deref_final = translate_path t at_cwd path deref_final

-- What a host path comes from: the bindings applied to a canonicalized guest path.
abbrev pub Confined : Tracee → Bytes → Type 0
Confined t host_path =
    (guest : Bytes) × (changed : Bool) × IsResult guest
    × (substitute_binding t.fs guest_side guest ≡ ok (host_path, changed))

module _ (t : Tracee) (user_path : Bytes) (deref : Bool) where
  resolve-Confined : (joined r : Bytes) → resolve t joined deref ≡ ok r → Confined t r
  unfolding resolve
  resolve-Confined joined r h =
      let (canonical, c, k) =
        >>=-eq-ok (canonicalize t.host t.fs (max_symlinks + 2) joined deref (slash ∷ []) 0) _ h in
      let ((path, changed), s, e) = >>=-eq-ok (substitute_binding t.fs guest_side canonical) _ k in
      let out : substitute_binding t.fs guest_side canonical ≡ ok (r, changed) = cc in
      (
        canonical,
        changed,
        canonicalize-IsResult t.host t.fs (max_symlinks + 2) joined deref (slash ∷ []) canonical
            root-IsGuest c,
        out,
      )

  resolve_from-Confined :
      (answer : Bytes × Bool) (r : Bytes)
      → answer.1 ≡ false
      → resolve_from t user_path deref answer ≡ ok r
      → Confined t r
  unfolding resolve_from
  resolve_from-Confined (path, true) r f h = cc
  resolve_from-Confined (path, false) r f h = elim (Bool-cases (char_at path 0 == slash)) [
    | inr e ↦ absurd (ground arith)
    | inl e ↦
        let (joined, _, k) = >>=-eq-ok (join_two path user_path) _ (rw e at h) in
        resolve-Confined joined r k
  ]

-- Where the extensions do not take the translation over, the host path that translate_path() hands
-- to them is what the bindings make of a canonicalized guest path, which no ".." leaves: whatever
-- the user's path, the directory and the links are.
pub translate_path-Confined :
    (t : Tracee) (dir : DirFd) (user_path : Bytes) (deref : Bool) (r : Bytes)
    → ((base : Bytes) (answer : Bytes × Bool)
        → t.notify_guest_path base user_path ≡ ok answer
        → answer.1 ≡ false)
    → translate_path t dir user_path deref ≡ ok r
    → (host_path : Bytes) × Confined t host_path × (t.notify_translated_path host_path ≡ ok r)
unfolding translate_path
translate_path-Confined t dir user_path deref r stays h =
    let (base, _, h1) = >>=-eq-ok (base_path t dir user_path) _ h in
    let (answer, n, h2) = >>=-eq-ok (t.notify_guest_path base user_path) _ h1 in
    let (path, f, last) = >>=-eq-ok (resolve_from t user_path deref answer) _ h2 in
    (path, resolve_from-Confined t user_path deref answer path (stays base answer n) f, last)
