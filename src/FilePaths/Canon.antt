-- ===== src/FilePaths/Canon.antt =====
-- canonicalize and substitute_binding_stat of path/canon.c.
use vm_forge.Prelude.{
  ℕ, zero, suc, ◌+◌, ◌-◌, ◌≤◌, ◌<◌, ◌≡◌, ◌≢◌, ◌↔◌, ◌⊎◌, refl, sym, ap, ◌∙◌, Bool, true, false, not,
  ◌&&◌, ◌||◌, List, [], ◌∷◌, ◌++◌, append-nil, append_assoc, arith, ltb, leb, ltb→lt, lt→ltb,
  leb→le, ◌==◌, if◌then◌else◌, Bool-cases, inl, inr, length, length-append, take-length_append,
  take, drop, get_or, Option, some, none,
}
use vm_forge.Prelude.Bytes.{
  Bytes, slash, dot, codes, char_at, str_equal, str_equal_iff, IsText, path_max, name_max,
}
use vm_forge.Prelude.Errors.{
  Result, ok, err, Errno, eperm, enoent, enotdir, eacces, eloop, einval, out_of_fuel, assertion,
  enametoolong, fail_as, ◌>>=◌,
}
pub mod Links
pub mod Safety
pub mod Callees
pub mod Termination
use vm_forge.FilePaths.Compare.{
  Comparison, paths_are_equal, path1_is_prefix, path2_is_prefix, paths_are_not_comparable,
  compare_paths,
}
use vm_forge.FilePaths.Join.{join_two}
use vm_forge.FilePaths.Component.{
  pop_component, next_component, Finality, not_final, final_normal, final_slash, final_dot,
  is_final,
}
use vm_forge.FilePaths.Binding.{Bindings, guest_side, substitute_binding, contains}
use vm_forge.FilePaths.ProcLinks.{readlink_proc}
use vm_forge.FilePaths.Host.{
  Host, FileType, directory, symlink, other, Action, default_action, canonicalize_link,
  dont_canonicalize,
}
use vm_forge.FilePaths.Detranslate.{proc, detranslate_path}

-- sys/param.h
abbrev pub max_symlinks : ℕ
max_symlinks = 20

-- lstat() with the exception for "/linkerconfig", and none where the file is to be skipped.
unfoldable pub stat_or_skip : Host → Bytes → Result FileType
stat_or_skip h host_path = if h.skipped host_path then err enoent else elim (h.lstat host_path) [
  | ok t ↦ ok t
  | err eacces ↦ if str_equal host_path (codes "/linkerconfig") then ok directory else err eacces
  | err e ↦ err e
]

-- What lstat() and the glue leave: whether the status is an error, and st_mode (`none` where 0).
unfoldable pub stat_or_glue : Host → Bytes → Bytes → Finality → Bool × Option FileType
unfolding stat_or_skip
stat_or_glue h guest_path host_path finality = elim (stat_or_skip h host_path) [
  | ok t ↦ (false, some t)
  | err e ↦ elim h.glue [
    | none ↦ (true, none)
    | some build ↦ (true, build guest_path host_path finality)
  ]
]

-- The check of what stands at a component: whether it is a symbolic link.
unfoldable pub check_type : Finality → Bool → Option FileType → Result Bool
check_type finality failed (some directory) = ok false
check_type finality failed (some symlink) = ok true
check_type finality failed _ =
    if is_final finality then ok false else err (if failed then enoent else enotdir)

-- The host path, and whether it is a symbolic link.
unfoldable pub substitute_binding_stat :
    Host → Bindings → Finality → ℕ → Bytes → Result (Bytes × Bool)
unfolding stat_or_glue check_type
substitute_binding_stat h fs finality recursion_level guest_path =
    substitute_binding fs guest_side guest_path >>= λ (translated, _).
    (elim h.glue [
      | none ↦ h.notify_host_path translated (is_final finality && recursion_level == 0)
      | some _ ↦ ok translated
    ])
    >>= λ host_path.
        let (failed, mode) = stat_or_glue h guest_path host_path finality in
        check_type finality failed mode >>= λ is_link. ok (host_path, is_link)

-- The guest path that a binding makes of the given one: the path itself where there is none.
unfoldable pub alias_of : Bindings → Bytes → Bytes
alias_of fs guest_path =
    let before = take (path_max - 1) guest_path in
    elim (substitute_binding fs guest_side before) [
      | ok (translated, _) ↦ translated
      | err e ↦ before
    ]

-- The emulated link of /proc. A guest path that is not below /proc may still be bound to it.
unfoldable pub proc_link : Host → Bindings → Bytes → Bytes → Result Action
unfolding alias_of
proc_link h fs guest_path component =
    let comparison = compare_paths proc guest_path in
    let alias_base = alias_of fs guest_path in
    let alias_comparison = compare_paths proc alias_base in
    if contains comparison
    then readlink_proc h guest_path component comparison
    else if not (str_equal alias_base guest_path) && contains alias_comparison
    then readlink_proc h alias_base component alias_comparison
    else ok default_action

-- Where a link leads: a text that is to be canonicalized, or the final path.
pub data LinkTarget : Type 0 where
  to_canonicalize : Bytes → LinkTarget
  to_return : Bytes → LinkTarget

-- readlink() fails with -1, which the code returns as it is.
unfoldable pub read_link : Host → Bindings → Bytes → Result LinkTarget
read_link h fs host_path = fail_as eperm (h.readlink host_path) >>= λ text.
    if leb path_max (length text)
    then err enametoolong
    else detranslate_path h fs text (some host_path) >>= λ (referee, _).
        ok (to_canonicalize referee)

-- The answer of readlink_proc(): only a very final link is not dereferenced.
unfoldable pub act : Host → Bindings → Finality → Bytes → Action → Result LinkTarget
unfolding read_link
act h fs finality host_path (canonicalize_link text) = ok (to_canonicalize text)
act h fs final_normal host_path (dont_canonicalize path) = ok (to_return path)
act h fs finality host_path action = read_link h fs host_path

unfoldable pub link_target : Host → Bindings → Finality → Bytes → Bytes → Bytes → Result LinkTarget
unfolding proc_link act
link_target h fs finality guest_path component host_path =
    proc_link h fs guest_path component >>= λ action. act h fs finality host_path action

-- One round of the loop of canonicalize(): it goes on with a guest path, a finality, a cursor and a
-- number of links, or the function returns.
pub data Round : Type 0 where
  go : Bytes → Finality → Bytes → ℕ → Round
  returned : Bytes → Round

abbrev pub Descend : Type 0
Descend = Bytes → Bytes → ℕ → Result Bytes

abbrev pub is_normal : Finality → Bool
is_normal final_normal = true
is_normal _ = false

-- A link is canonicalized by `descend`, the recursive call.
unfoldable pub follow_link :
    Host → Bindings → ℕ → Descend → Finality → Bytes → ℕ → Bytes → LinkTarget → Result Round
follow_link h fs level descend finality guest_path followed rest (to_return path) =
    ok (returned path)
follow_link h fs level descend finality guest_path followed rest (to_canonicalize text) =
    descend text guest_path (level + (followed + 1)) >>= λ resolved.
    if str_equal guest_path resolved
    then err eloop
    else substitute_binding_stat h fs finality level resolved >>= λ _.
        ok (go resolved finality rest (followed + 1))

unfoldable pub visit :
    Host → Bindings → Bool → ℕ → Descend → Bytes → Finality → Bytes → Bytes → ℕ → Result Round
unfolding follow_link
visit h fs deref_final level descend component finality rest guest_path followed =
    join_two guest_path component >>= λ scratch.
    substitute_binding_stat h fs finality level scratch >>= λ (host_path, is_link).
    if not is_link || (is_normal finality && not deref_final)
    then (join_two guest_path component >>= λ longer. ok (go longer finality rest followed))
    else link_target h fs finality guest_path component host_path >>= λ target.
        follow_link h fs level descend finality guest_path followed rest target

unfoldable pub round : Host → Bindings → Bool → ℕ → Descend → Bytes → Bytes → ℕ → Result Round
unfolding visit
round h fs deref_final level descend cursor guest_path followed =
    next_component cursor >>= λ (component, finality, rest).
    if str_equal component (dot ∷ [])
    then ok (go guest_path (if is_final finality then final_dot else finality) rest followed)
    else if str_equal component (dot ∷ dot ∷ [])
    then ok (
        go (pop_component guest_path) (if is_final finality then final_slash else finality) rest
          followed)
    else visit h fs deref_final level descend component finality rest guest_path followed

-- The loop: the guest path and the finality at its end, or the path that is returned at once. A
-- round that is not the last shortens the cursor, so its length bounds the rounds.
pub data Walk : Type 0 where
  walked : Bytes → Finality → Walk
  left : Bytes → Walk

unfoldable pub walk : Host → Bindings → Bool → ℕ → Descend → ℕ → Bytes → Bytes → ℕ → Result Walk
walk h fs deref_final level descend zero cursor guest_path followed = err out_of_fuel
walk h fs deref_final level descend (suc fuel) cursor guest_path followed =
    round h fs deref_final level descend cursor guest_path followed >>= λ r. elim r [
      | returned path ↦ ok (left path)
      | go guest finality rest n ↦
          let further = walk h fs deref_final level descend fuel rest guest n in
          if is_final finality then ok (walked guest finality) else further
    ]

-- The exit: the first level of recursion keeps a terminating '/' or '.' of the user's path.
unfoldable pub finish : ℕ → Walk → Result Bytes
finish level (left path) = ok path
finish level (walked path finality) =
    if level == 0
    then elim finality [
      | not_final ↦ err assertion
      | final_normal ↦ ok path
      | final_slash ↦ join_two path []
      | final_dot ↦ join_two path (dot ∷ [])
    ]
    else ok path

-- The path that the walk starts at: "/" for an absolute path.
unfoldable pub start_path : Bytes → Bytes → Result Bytes
start_path user_path guest_path =
    if leb path_max (length guest_path)
    then err enametoolong
    else if char_at user_path 0 == slash
    then ok (slash ∷ [])
    else if char_at guest_path 0 == slash
    then ok guest_path
    else err einval

-- `depth` bounds the recursion; one more than the levels that are left is enough.
unfoldable pub canonicalize : Host → Bindings → ℕ → Bytes → Bool → Bytes → ℕ → Result Bytes
unfolding start_path walk finish round
canonicalize h fs zero user_path deref_final guest_path level = err out_of_fuel
canonicalize h fs (suc depth) user_path deref_final guest_path level =
    let descend : Descend = λ text base deeper. canonicalize h fs depth text true base deeper in
    if ltb max_symlinks level
    then err eloop
    else start_path user_path guest_path >>= λ start.
        walk h fs deref_final level descend (length user_path + 1) user_path start 0 >>= λ w.
        finish level w
