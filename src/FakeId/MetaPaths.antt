-- ===== src/FakeId/MetaPaths.antt =====
-- The paths of meta files: the file's own directory, a name of its own, and no file shares one with another.
use vm_forge.Prelude.{
  ◌+◌, ◌-◌, ◌≡◌, refl, ap, sym, ◌∙◌, inl, inr, true, false, List, [], ◌∷◌, ◌++◌, arith, length,
  length-append, drop, ltb, leb, ◌==◌, if◌then◌else◌, append_assoc, Bool-cases, some, none,
}
use vm_forge.Prelude.Bytes.{Bytes, slash, path_max, str_equal, str_equal→eq, str_equal_self}
use vm_forge.Prelude.Errors.{ok, err, enametoolong}
use vm_forge.FilePaths.Canonical.{IsName, NoSlash, AllNames, spelled, render}
use vm_forge.FilePaths.Component.{pop_component, pop-render}
use vm_forge.FakeId.Helpers.{
  strrchr, get_name, get_dir_path, meta_tag, with_separator, get_meta_path,
}

-- get_dir_path() is the code of pop_component() again.
pub get_dir_path-pop_component : (path : Bytes) → get_dir_path path ≡ pop_component path
unfolding get_dir_path pop_component
get_dir_path-pop_component path = elim (Bool-cases (length path - 1 == 0)) [
  | inl short ↦
      let no_offset : ltb 0 (length path - 1) ≡ false = ground arith in rw (short, no_offset) refl
  | inr long ↦ let offset : ltb 0 (length path - 1) ≡ true = ground arith in rw (long, offset) refl
]

strrchr-none : (s : Bytes) → NoSlash s → strrchr s slash ≡ none
unfolding strrchr
strrchr-none [] apart = refl
strrchr-none (c ∷ s) (p, apart) =
    let other : (c == slash) ≡ false = ground (arith, p) in rw (strrchr-none s apart, other) refl

strrchr-append : (base c : Bytes) → NoSlash c → strrchr (base ++ slash ∷ c) slash ≡ some (slash ∷ c)
unfolding strrchr
strrchr-append [] c apart = rw (strrchr-none c apart) refl
strrchr-append (x ∷ base) c apart = rw (strrchr-append base c apart) refl

pub get_name-spelled : (base c : Bytes) → NoSlash c → get_name (base ++ slash ∷ c) ≡ c
unfolding get_name
get_name-spelled base c apart = rw (get_name, strrchr-append base c apart) refl

-- The name of a meta file is a name.
unfoldable tagged : Bytes → Bytes
tagged c = meta_tag ++ c

tagged-IsName : (c : Bytes) → NoSlash c → IsName (tagged c)
unfolding tagged
tagged-IsName c apart = record {
  nonempty = omega arith;
  no_slash = ground (arith, apart);
  not_dot = λ e. ground (arith, ap length e);
  not_dot_dot = λ e. ground (arith, ap length e);
}

-- A path without its last component, and with a separator behind it.
with_separator-render :
    (cs : List Bytes) → AllNames cs → with_separator (render cs) ≡ spelled cs ++ slash ∷ []
unfolding with_separator
with_separator-render [] names = rw (str_equal_self (slash ∷ [])) refl
with_separator-render (c ∷ cs) names =
    elim (Bool-cases (str_equal (render (c ∷ cs)) (slash ∷ []))) [
      | inl root ↦
          let same = ap length (str_equal→eq (render (c ∷ cs)) (slash ∷ []) root) in
          let long = names.0.nonempty in
          absurd (omega (arith, same, long, length-append {0} (spelled cs) (slash ∷ c)))
      | inr below ↦ rw below refl
    ]

-- The meta file of a canonical path is the path of a file in the same directory, unless it is too long.
meta-render :
    (c : Bytes) (cs : List Bytes)
    → AllNames (c ∷ cs)
    → get_meta_path (render (c ∷ cs)) ≡ (
        if leb path_max (length (spelled cs ++ slash ∷ []) + length c + length meta_tag)
        then err enametoolong
        else ok (render (tagged c ∷ cs)))
unfolding get_meta_path tagged
meta-render c cs (name, names) =
    let dir = get_dir_path-pop_component (render (c ∷ cs)) ∙ pop-render c cs name in
    let base = with_separator-render cs names in
    let last = get_name-spelled (spelled cs) c name.no_slash in
    let joined : (spelled cs ++ slash ∷ []) ++ (meta_tag ++ c)
        ≡ spelled cs ++ slash ∷ (meta_tag ++ c) =
      append_assoc (spelled cs) (slash ∷ []) (meta_tag ++ c) in
    rw (dir, base, last, joined) refl

meta-ok :
    (c : Bytes) (cs : List Bytes) {m : Bytes}
    → AllNames (c ∷ cs)
    → get_meta_path (render (c ∷ cs)) ≡ ok m
    → m ≡ render (tagged c ∷ cs)
meta-ok c cs {m} names found =
    let is = meta-render c cs names in
    elim (Bool-cases
      (leb path_max (length (spelled cs ++ slash ∷ []) + length c + length meta_tag))) [
        | inl long ↦
            let refused : get_meta_path (render (c ∷ cs)) ≡ err enametoolong = rw long at is in
            absurd (cc)
        | inr fits ↦
            let given : get_meta_path (render (c ∷ cs)) ≡ ok (render (tagged c ∷ cs)) =
              rw fits at is in
            cc
      ]

untagged : (c : Bytes) → drop 17 (tagged c) ≡ c
unfolding tagged
untagged c = refl

-- No two files share a meta file: of canonical paths below the root, those with the same meta path are
-- the same.
pub get_meta_path-injective :
    (c d : Bytes) (cs ds : List Bytes) (m : Bytes)
    → AllNames (c ∷ cs)
    → AllNames (d ∷ ds)
    → get_meta_path (render (c ∷ cs)) ≡ ok m
    → get_meta_path (render (d ∷ ds)) ≡ ok m
    → render (c ∷ cs) ≡ render (d ∷ ds)
get_meta_path-injective c d cs ds m (cn, csn) (dn, dsn) first second =
    let one = meta-ok c cs (cn, csn) first in
    let two = meta-ok d ds (dn, dsn) second in
    let same : render (tagged c ∷ cs) ≡ render (tagged d ∷ ds) = sym one ∙ two in
    let ct = tagged-IsName c cn.no_slash in
    let dt = tagged-IsName d dn.no_slash in
    let tags : tagged c ≡ tagged d =
      sym (get_name-spelled (spelled cs) (tagged c) ct.no_slash)
      ∙ (ap get_name same ∙ get_name-spelled (spelled ds) (tagged d) dt.no_slash) in
    let names : c ≡ d = sym (untagged c) ∙ (ap (λ (t : Bytes). drop 17 t) tags ∙ untagged d) in
    let dirs : render cs ≡ render ds =
      sym (pop-render (tagged c) cs ct) ∙ (ap pop_component same ∙ pop-render (tagged d) ds dt) in
    let bases : spelled cs ++ slash ∷ [] ≡ spelled ds ++ slash ∷ [] =
      sym (with_separator-render cs csn)
      ∙ (ap with_separator dirs ∙ with_separator-render ds dsn) in
    sym (append_assoc (spelled cs) (slash ∷ []) c)
    ∙ (ap (λ (t : Bytes). t ++ c) bases
        ∙ (append_assoc (spelled ds) (slash ∷ []) c
            ∙ ap (λ (t : Bytes). spelled ds ++ slash ∷ t) names))
