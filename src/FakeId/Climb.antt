-- ===== src/FakeId/Climb.antt =====
-- check_dir_perms() climbs to shorter directories, and so it ends.
use vm_forge.Prelude.{
  ℕ, zero, suc, ◌+◌, ◌-◌, ◌≤◌, ◌<◌, ◌≡◌, inl, inr, Bool, true, false, ◌&&◌, ◌||◌, arith, length,
  length-take, ltb, leb, ◌==◌, if◌then◌else◌, Bool-cases,
}
use vm_forge.Prelude.Bytes.{Bytes, str_equal, char_at, path_max}
use vm_forge.Prelude.Errors.{err, eacces, Ends, Ends-bind, Ends-if}
use vm_forge.FilePaths.Component.{skip_back, is_slash, not_slash}
use vm_forge.FakeId.{Config}
use vm_forge.FakeId.Helpers.{
  get_dir_path, with_separator, get_name, meta_tag, get_meta_path, MetaFiles, get_permissions,
  lacks, search_dirs, check_dir_perms,
}

skip_back-le : (test : ℕ → Bool) (path : Bytes) (o : ℕ) → skip_back test path o ≤ o
unfolding skip_back
skip_back-le test path zero = omega arith
skip_back-le test path (suc zero) = omega arith
skip_back-le test path (suc (suc o)) = elim (Bool-cases (test (char_at path (suc (suc o))))) [
  | inl more ↦ rw more (omega (arith, skip_back-le test path (suc o)))
  | inr stops ↦ rw stops (omega arith)
]

length-get_dir_path : (path : Bytes) → 1 < length path → length (get_dir_path path) < length path
unfolding get_dir_path
length-get_dir_path path long =
    let offset : ltb 0 (length path - 1) ≡ true = ground arith in
    let separators = skip_back is_slash path (length path - 1) in
    let cut = skip_back not_slash path separators in
    rw offset (
      omega (
        arith,
        length-take {0} cut path,
        skip_back-le is_slash path (length path - 1),
        skip_back-le not_slash path separators,
      ))

get_meta_path-Ends : (path : Bytes) → Ends (get_meta_path path)
unfolding get_meta_path
get_meta_path-Ends path =
    let dir = with_separator (get_dir_path path) in
    elim (Bool-cases (leb path_max (length dir + length (get_name path) + length meta_tag))) [
      | inl long ↦ rw long tt
      | inr fits ↦ rw fits tt
    ]

search_dirs-Ends :
    (fuel : ℕ) (files : MetaFiles) (belongs : Bytes → Bool) (dir rel_path : Bytes) (config : Config)
    → 0 < length rel_path
    → length dir < fuel
    → Ends (search_dirs fuel files belongs dir rel_path config)
unfolding search_dirs
search_dirs-Ends zero files belongs dir rel_path config there enough = absurd (omega arith)
search_dirs-Ends (suc fuel) files belongs dir rel_path config there enough =
    let parent = get_dir_path dir in
    let rest = search_dirs fuel files belongs parent rel_path config in
    elim (Bool-cases (str_equal dir rel_path || leb (length dir) (length rel_path))) [
      | inl arrived ↦ rw arrived tt
      | inr goes_on ↦
          let long : leb (length dir) (length rel_path) ≡ false = ground (arith, goes_on) in
          let shorter = length-get_dir_path dir (ground (arith, long)) in
          let ends =
            search_dirs-Ends fuel files belongs parent rel_path config there (omega arith) in
          elim (Bool-cases (belongs parent)) [
            | inl inside ↦
                rw (goes_on, inside)
                  (Ends-bind (get_meta_path parent)
                    (λ meta_path.
                      if lacks (get_permissions files meta_path config false) 1
                      then err eacces
                      else rest)
                    (get_meta_path-Ends parent)
                    (λ meta_path found.
                      Ends-if (lacks (get_permissions files meta_path config false) 1) (err eacces)
                        rest (λ _. tt) (λ _. ends)))
            | inr outside ↦ rw (goes_on, outside) tt
          ]
    ]

-- check_dir_perms() ends for every file system and all meta files, where the path that it climbs to is
-- not empty: each round has a shorter directory.
pub check_dir_perms-Ends :
    (files : MetaFiles) (belongs : Bytes → Bool) (type : ℕ) (path rel_path : Bytes)
    (config : Config)
    → 0 < length rel_path
    → Ends (check_dir_perms files belongs type path rel_path config)
unfolding check_dir_perms
check_dir_perms-Ends files belongs type path rel_path config there =
    let dir = get_dir_path path in
    let search = search_dirs (length dir + 1) files belongs dir rel_path config in
    let perms = λ (meta_path : Bytes). get_permissions files meta_path config false in
    let for_search = λ (meta_path : Bytes).
      if type == b'r' && lacks (perms meta_path) 1 then err eacces else search in
    Ends-bind (get_meta_path dir)
      (λ meta_path.
        if type == b'w' && lacks (perms meta_path) 2 then err eacces else for_search meta_path)
      (get_meta_path-Ends dir)
      (λ meta_path found.
        Ends-if (type == b'w' && lacks (perms meta_path) 2) (err eacces) (for_search meta_path)
          (λ _. tt)
          (λ _.
            Ends-if (type == b'r' && lacks (perms meta_path) 1) (err eacces) search (λ _. tt)
              (λ _.
                search_dirs-Ends (length dir + 1) files belongs dir rel_path config there
                  (omega arith))))
