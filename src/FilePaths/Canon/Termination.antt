-- ===== src/FilePaths/Canon/Termination.antt =====
-- canonicalize() ends: MAXSYMLINKS bounds its recursion and the length of the path its loop.
use vm_forge.Prelude.{
  ℕ, zero, suc, ◌+◌, ◌≤◌, ◌<◌, ◌≡◌, ◌≢◌, refl, Bool, true, false, not, ◌&&◌, ◌||◌, [], ◌∷◌, arith,
  ltb, leb, ◌==◌, if◌then◌else◌, length, some,
}
use vm_forge.Prelude.Bytes.{Bytes, dot, str_equal, path_max}
use vm_forge.Prelude.Errors.{
  ok, err, out_of_fuel, eperm, fail_as, Ends, Ends-bind, Ends-if, Ends-fail_as, Ends-ne, ne-Ends,
  Ensures, Ensures-bind, Ensures-if, Ensures-elim, ◌>>=◌,
}
use vm_forge.FilePaths.Compare.{compare_paths}
use vm_forge.FilePaths.Join.{join_two}
use vm_forge.FilePaths.Component.{
  next_component, next_component_bounds, Finality, is_final, final_normal, final_slash, final_dot,
  not_final,
}
use vm_forge.FilePaths.Binding.{Bindings, guest_side, substitute_binding}
use vm_forge.FilePaths.Host.{Host, Action, default_action, canonicalize_link, dont_canonicalize}
use vm_forge.FilePaths.Detranslate.{proc, detranslate_path}
use vm_forge.FilePaths.Canon.{
  max_symlinks, is_normal, act, alias_of, canonicalize, walk, round, visit, follow_link,
  link_target, proc_link, read_link, finish, start_path, substitute_binding_stat, Round, go,
  returned, Walk, walked, left, Descend, LinkTarget, to_canonicalize, to_return,
}
use vm_forge.FilePaths.Canon.Links.{readlink_proc-Ends}
use vm_forge.FilePaths.Canon.Callees.{
  join_two-Ends, next_component-Ends, substitute_binding-Ends, detranslate_path-Ends,
}

-- The extensions' callback answers with an error of the kernel.
pub record Answers (h : Host) : Type 0 where
  pub notify : (path : Bytes) (last : Bool) → Ends (h.notify_host_path path last)

-- "." and ".." end the path in their own way: a final component stays final.
kept_by :
    (final finality : Finality) (rest cursor : Bytes)
    → is_final final ≡ true
    → (is_final finality ≡ false → length rest < length cursor)
    → is_final (if is_final finality then final else finality) ≡ false
    → length rest < length cursor
kept_by final not_final rest cursor o m e = m refl
kept_by final finality rest cursor o m e = cc

moves_of :
    (finality : Finality) (rest cursor : Bytes)
    → (finality ≡ not_final → length rest < length cursor)
    → is_final finality ≡ false
    → length rest < length cursor
moves_of not_final rest cursor m e = m refl
moves_of finality rest cursor m e = cc

module _ (h : Host) (fs : Bindings) (answers : Answers h) where
  substitute_binding_stat-Ends :
      (finality : Finality) (level : ℕ) (guest : Bytes)
      → Ends (substitute_binding_stat h fs finality level guest)
  unfolding substitute_binding_stat
  substitute_binding_stat-Ends finality level guest =
      Ends-bind (substitute_binding fs guest_side guest) _
        (substitute_binding-Ends fs guest_side guest)
        λ (translated, _) e.
          ne-Ends _ (
            ground (arith, Ends-ne _ (answers.notify translated (is_final finality && level == 0))))

  proc_link-Ends : (guest component : Bytes) → Ends (proc_link h fs guest component)
  unfolding proc_link
  proc_link-Ends guest component = ne-Ends _ (
      ground (
        arith,
        Ends-ne _ (readlink_proc-Ends h guest component (compare_paths proc guest)),
        Ends-ne _ (
            readlink_proc-Ends h (alias_of fs guest) component
              (compare_paths proc (alias_of fs guest))),
      ))

  read_link-Ends : (path : Bytes) → Ends (read_link h fs path)
  unfolding read_link
  read_link-Ends path =
      Ends-bind (fail_as eperm (h.readlink path)) _ (Ends-fail_as eperm (h.readlink path) tt)
        λ text e.
          Ends-if (leb path_max (length text)) _ _ (λ _. tt {0})
            λ _.
              Ends-bind (detranslate_path h fs text (some path)) _
                (detranslate_path-Ends h fs text (some path)) (λ _ _. tt)

  act-Ends :
      (finality : Finality) (path : Bytes) (action : Action) → Ends (act h fs finality path action)
  unfolding act
  act-Ends finality path (canonicalize_link text) = tt
  act-Ends final_normal path (dont_canonicalize r) = tt
  act-Ends final_normal path default_action = read_link-Ends path
  act-Ends finality path (dont_canonicalize r) = read_link-Ends path
  act-Ends finality path action = read_link-Ends path

  link_target-Ends :
      (finality : Finality) (guest component path : Bytes)
      → Ends (link_target h fs finality guest component path)
  unfolding link_target
  link_target-Ends finality guest component path =
      Ends-bind (proc_link h fs guest component) _ (proc_link-Ends guest component)
        λ action e. act-Ends finality path action

  -- A recursive call, at a deeper level, ends.
  abbrev DescendEnds : Descend → ℕ → Type 0
  DescendEnds descend level =
      (text base : Bytes) (deeper : ℕ) → level < deeper → Ends (descend text base deeper)

  module _ (level : ℕ) (descend : Descend) (ends : DescendEnds descend level) where
    follow_link-Ends :
        (finality : Finality) (guest : Bytes) (followed : ℕ) (rest : Bytes) (target : LinkTarget)
        → Ends (follow_link h fs level descend finality guest followed rest target)
    unfolding follow_link
    follow_link-Ends finality guest followed rest (to_return path) = tt
    follow_link-Ends finality guest followed rest (to_canonicalize text) =
        Ends-bind (descend text guest (level + (followed + 1))) _ (ends text guest _ (omega arith))
          λ resolved e.
            Ends-if (str_equal guest resolved) _ _ (λ _. tt {0})
              λ _.
                Ends-bind (substitute_binding_stat h fs finality level resolved) _
                  (substitute_binding_stat-Ends finality level resolved) (λ _ _. tt)

    visit-Ends :
        (deref : Bool) (c : Bytes) (finality : Finality) (rest guest : Bytes) (followed : ℕ)
        → Ends (visit h fs deref level descend c finality rest guest followed)
    unfolding visit
    visit-Ends deref c finality rest guest followed =
        Ends-bind (join_two guest c) _ (join_two-Ends guest c) λ scratch e.
          Ends-bind (substitute_binding_stat h fs finality level scratch) _
            (substitute_binding_stat-Ends finality level scratch)
            λ (path, is_link) e'.
              Ends-if (not is_link || (is_normal finality && not deref))
                (join_two guest c >>= λ longer. ok (go longer finality rest followed)) _
                (λ _.
                  Ends-bind (join_two guest c) (λ longer. ok (go longer finality rest followed))
                    (join_two-Ends guest c) (λ _ _. tt))
                (λ _.
                  Ends-bind (link_target h fs finality guest c path) _
                    (link_target-Ends finality guest c path)
                    λ target t. follow_link-Ends finality guest followed rest target)

    -- A round ends, and shortens the cursor unless it is the last.
    round-Ends :
        (deref : Bool) (cursor guest : Bytes) (followed : ℕ)
        → Ends (round h fs deref level descend cursor guest followed)
    unfolding round
    round-Ends deref cursor guest followed =
        Ends-bind (next_component cursor) _ (next_component-Ends cursor) λ (c, finality, rest) e.
          Ends-if (str_equal c (dot ∷ [])) _ _ (λ _. tt {0})
            λ _.
              Ends-if (str_equal c (dot ∷ dot ∷ [])) _ _ (λ _. tt {0})
                λ _. visit-Ends deref c finality rest guest followed

    -- A round that is not the last one shortens the cursor.
    abbrev Shortens : ℕ → Round → Type 0
    Shortens n (go path finality rest followed) = (is_final finality ≡ false) → length rest < n
    Shortens n (returned path) = Unit

    abbrev Moves : Finality → Bytes → ℕ → Type 0
    Moves finality rest n = (is_final finality ≡ false) → length rest < n

    follow_link-Shortens :
        (n : ℕ) (finality : Finality) (guest : Bytes) (followed : ℕ) (rest : Bytes)
        (target : LinkTarget)
        → Moves finality rest n
        → Ensures (Shortens n) (follow_link h fs level descend finality guest followed rest target)
    unfolding follow_link
    follow_link-Shortens n finality guest followed rest (to_return path) m = tt
    follow_link-Shortens n finality guest followed rest (to_canonicalize text) m =
        Ensures-bind (Shortens n) (descend text guest (level + (followed + 1))) _ λ resolved e.
          Ensures-if (Shortens n) (str_equal guest resolved) _ _ (λ _. tt {0})
            λ _.
              Ensures-bind (Shortens n) (substitute_binding_stat h fs finality level resolved) _
                (λ _ _. m)

    visit-Shortens :
        (n : ℕ) (deref : Bool) (c : Bytes) (finality : Finality) (rest guest : Bytes) (followed : ℕ)
        → Moves finality rest n
        → Ensures (Shortens n) (visit h fs deref level descend c finality rest guest followed)
    unfolding visit
    visit-Shortens n deref c finality rest guest followed m =
        Ensures-bind (Shortens n) (join_two guest c) _ λ scratch e.
          Ensures-bind (Shortens n) (substitute_binding_stat h fs finality level scratch) _
            λ (path, is_link) e'.
              Ensures-if (Shortens n) (not is_link || (is_normal finality && not deref))
                (join_two guest c >>= λ longer. ok (go longer finality rest followed)) _
                (λ _.
                  Ensures-bind (Shortens n) (join_two guest c)
                    (λ longer. ok (go longer finality rest followed)) (λ _ _. m))
                (λ _.
                  Ensures-bind (Shortens n) (link_target h fs finality guest c path) _
                    λ target t. follow_link-Shortens n finality guest followed rest target m)

    round-Shortens :
        (deref : Bool) (cursor guest : Bytes) (followed : ℕ)
        → Ensures (Shortens (length cursor)) (round h fs deref level descend cursor guest followed)
    unfolding round
    round-Shortens deref cursor guest followed =
        Ensures-bind (Shortens (length cursor)) (next_component cursor) _ λ (c, finality, rest) e.
          let moves : Moves finality rest (length cursor) =
            moves_of finality rest cursor (next_component_bounds cursor e).2 in
          Ensures-if (Shortens (length cursor)) (str_equal c (dot ∷ [])) _ _
            (λ _. kept_by final_dot finality rest cursor refl moves)
            λ _.
              Ensures-if (Shortens (length cursor)) (str_equal c (dot ∷ dot ∷ [])) _ _
                (λ _. kept_by final_slash finality rest cursor refl moves)
                λ _. visit-Shortens (length cursor) deref c finality rest guest followed moves

    walk-Ends :
        (deref : Bool) (fuel : ℕ) (cursor guest : Bytes) (followed : ℕ)
        → length cursor < fuel
        → Ends (walk h fs deref level descend fuel cursor guest followed)
    unfolding walk
    walk-Ends deref zero cursor guest followed l = absurd (omega arith)
    walk-Ends deref (suc fuel) cursor guest followed l =
        Ends-bind (round h fs deref level descend cursor guest followed) _
          (round-Ends deref cursor guest followed)
          (elim [
            | returned path ↦ λ e. tt
            | go path finality rest n ↦ λ e.
                Ends-if (is_final finality) _ _ (λ _. tt {0})
                  λ more.
                    let shorter : length rest < length cursor =
                      Ensures-elim (Shortens (length cursor)) _
                        (round-Shortens deref cursor guest followed) e more in
                    walk-Ends deref fuel rest path n (omega arith)
          ])

  finish-Ends : (level : ℕ) (w : Walk) → Ends (finish level w)
  unfolding finish
  finish-Ends level (left path) = tt
  finish-Ends level (walked path not_final) = ne-Ends _ (ground arith)
  finish-Ends level (walked path final_normal) = ne-Ends _ (ground arith)
  finish-Ends level (walked path final_slash) =
      ne-Ends _ (ground (arith, Ends-ne _ (join_two-Ends path [])))
  finish-Ends level (walked path final_dot) =
      ne-Ends _ (ground (arith, Ends-ne _ (join_two-Ends path (dot ∷ []))))

  start_path-Ends : (user guest : Bytes) → Ends (start_path user guest)
  unfolding start_path
  start_path-Ends user guest = ne-Ends _ (ground arith)

  canonicalize_fuel :
      (depth : ℕ) (user : Bytes) (deref : Bool) (guest : Bytes) (level : ℕ)
      → 0 < depth
      → max_symlinks + 2 ≤ depth + level
      → Ends (canonicalize h fs depth user deref guest level)
  unfolding canonicalize
  canonicalize_fuel zero user deref guest level p l = absurd (omega arith)
  canonicalize_fuel (suc depth) user deref guest level p l =
      Ends-if (ltb max_symlinks level) _ _ (λ _. tt {0})
        λ few.
          let shallow : 0 < depth = ground arith in
          Ends-bind (start_path user guest) _ (start_path-Ends user guest) λ start s.
            Ends-bind
              (walk h fs deref level
                (λ text base deeper. canonicalize h fs depth text true base deeper)
                (length user + 1) user start 0)
              _
              (walk-Ends level (λ text base deeper. canonicalize h fs depth text true base deeper)
                (λ text base deeper d.
                  canonicalize_fuel depth text true base deeper shallow (omega arith))
                deref (length user + 1) user start 0 (omega arith))
              λ w e. finish-Ends level w

-- canonicalize() ends on every file system, circular links included: the fuel MAXSYMLINKS + 2 is
-- enough at the first level. The callbacks answer with errors of the kernel.
pub canonicalize-Ends :
    (h : Host) (fs : Bindings) (user : Bytes) (deref : Bool) (guest : Bytes)
    → Answers h
    → canonicalize h fs (max_symlinks + 2) user deref guest 0 ≢ err out_of_fuel
canonicalize-Ends h fs user deref guest answers = Ends-ne _ (
    canonicalize_fuel h fs answers (max_symlinks + 2) user deref guest 0 (omega arith)
      (omega arith))
