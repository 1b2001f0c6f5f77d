-- ===== src/FilePaths/Canon/Safety.antt =====
-- The guest paths that canonicalize() builds stay canonical, whatever the links say.
use vm_forge.Prelude.{
  ℕ, zero, suc, ◌+◌, ◌<◌, ◌≡◌, ◌≢◌, Bool, true, false, not, ◌&&◌, ◌||◌, [], ◌∷◌, arith, ltb, leb,
  ◌==◌, length, some,
}
use vm_forge.Prelude.Bytes.{Bytes, slash, dot, char_at, str_equal, str_equal_iff, path_max}
use vm_forge.Prelude.Errors.{
  ok, eperm, fail_as, Ensures, Ensures-bind, Ensures-if, Ensures-intro, Ensures-elim, ◌>>=◌,
}
use vm_forge.FilePaths.Join.{join_two}
use vm_forge.FilePaths.Canonical.{
  IsResult, guest_path, join_dot-IsResult, IsGuest, IsStep, empty-IsStep, root-IsGuest,
  join-IsGuest,
}
use vm_forge.FilePaths.Component.{
  pop-IsGuest, next_component, next_component_bounds, Finality, is_final, final_normal, final_slash,
  final_dot, not_final,
}
use vm_forge.FilePaths.Binding.{Bindings}
use vm_forge.FilePaths.Host.{Host, Action, default_action, canonicalize_link, dont_canonicalize}
use vm_forge.FilePaths.Canon.Links.{GuestAction, readlink_proc-Guest}
use vm_forge.FilePaths.Compare.{compare_paths}
use vm_forge.FilePaths.Binding.{contains}
use vm_forge.FilePaths.Detranslate.{proc, detranslate_path}
use vm_forge.FilePaths.Canon.{
  max_symlinks, is_normal, act, alias_of, canonicalize, walk, round, visit, follow_link,
  link_target, proc_link, read_link, finish, start_path, substitute_binding_stat, Round, go,
  returned, Walk, walked, left, Descend, LinkTarget, to_canonicalize, to_return,
}

-- The recursive call keeps guest paths, at the levels below the given one.
abbrev KeepsGuest : Descend → ℕ → Type 0
KeepsGuest descend level =
    (text base : Bytes) (deeper : ℕ)
    → level < deeper
    → IsGuest base
    → Ensures IsGuest (descend text base deeper)

abbrev GuestRound : Round → Type 0
GuestRound (go path finality rest followed) = IsGuest path
GuestRound (returned path) = IsGuest path

abbrev GuestWalk : Walk → Type 0
GuestWalk (walked path finality) = IsGuest path
GuestWalk (left path) = IsGuest path

-- A link of /proc that is returned at once is a guest path.
abbrev GuestTarget : LinkTarget → Type 0
GuestTarget (to_canonicalize text) = Unit
GuestTarget (to_return path) = IsGuest path

differs : (a b : Bytes) → str_equal a b ≡ false → a ≢ b
differs a b h e = ground (arith, (str_equal_iff a b).1 e)

module _ (h : Host) (fs : Bindings) where
  read_link-Guest : (path : Bytes) → Ensures GuestTarget (read_link h fs path)
  unfolding read_link
  read_link-Guest path = Ensures-bind GuestTarget (fail_as eperm (h.readlink path)) _ λ text e.
      Ensures-if GuestTarget (leb path_max (length text)) _ _ (λ _. tt)
        λ _. Ensures-bind GuestTarget (detranslate_path h fs text (some path)) _ λ r e. tt

  proc_link-Guest :
      (guest component : Bytes)
      → IsStep component
      → Ensures GuestAction (proc_link h fs guest component)
  unfolding proc_link
  proc_link-Guest guest component step =
      Ensures-if GuestAction (contains (compare_paths proc guest)) _ _
        (λ _. readlink_proc-Guest h guest component _ step)
        (λ _.
          Ensures-if GuestAction
            (not (str_equal (alias_of fs guest) guest)
              && contains (compare_paths proc (alias_of fs guest)))
            _ (ok default_action)
            (λ _.
              readlink_proc-Guest h (alias_of fs guest) component
                (compare_paths proc (alias_of fs guest)) step)
            (λ _. tt {0}))

  act-Guest :
      (finality : Finality) (path : Bytes) (action : Action)
      → GuestAction action
      → Ensures GuestTarget (act h fs finality path action)
  unfolding act
  act-Guest finality path (canonicalize_link text) g = tt
  act-Guest final_normal path (dont_canonicalize r) g = g
  act-Guest final_normal path default_action g = read_link-Guest path
  act-Guest finality path (dont_canonicalize r) g = read_link-Guest path
  act-Guest finality path action g = read_link-Guest path

  link_target-Guest :
      (finality : Finality) (guest component path : Bytes)
      → IsStep component
      → Ensures GuestTarget (link_target h fs finality guest component path)
  unfolding link_target
  link_target-Guest finality guest component path step =
      Ensures-bind GuestTarget (proc_link h fs guest component) _ λ action e.
        act-Guest finality path action
          (Ensures-elim GuestAction _ (proc_link-Guest guest component step) e)

  module _ (level : ℕ) (descend : Descend) (keeps : KeepsGuest descend level) where
    follow_link-Guest :
        (finality : Finality) (guest : Bytes) (followed : ℕ) (rest : Bytes) (target : LinkTarget)
        → IsGuest guest
        → GuestTarget target
        → Ensures GuestRound (follow_link h fs level descend finality guest followed rest target)
    unfolding follow_link
    follow_link-Guest finality guest followed rest (to_return path) g t = t
    follow_link-Guest finality guest followed rest (to_canonicalize text) g t =
        Ensures-bind GuestRound (descend text guest (level + (followed + 1))) _ λ resolved e.
          Ensures-if GuestRound (str_equal guest resolved) _ _ (λ _. tt)
            λ _.
              Ensures-bind GuestRound (substitute_binding_stat h fs finality level resolved) _
                λ _ _.
                  Ensures-elim IsGuest _ (keeps text guest (level + (followed + 1)) (omega arith) g)
                    e

    visit-Guest :
        (deref : Bool) (c : Bytes) (finality : Finality) (rest guest : Bytes) (followed : ℕ)
        → IsGuest guest
        → IsStep c
        → Ensures GuestRound (visit h fs deref level descend c finality rest guest followed)
    unfolding visit
    visit-Guest deref c finality rest guest followed g step =
        Ensures-bind GuestRound (join_two guest c) _ λ scratch e.
          Ensures-bind GuestRound (substitute_binding_stat h fs finality level scratch) _
            λ (path, is_link) e'.
              Ensures-if GuestRound (not is_link || (is_normal finality && not deref))
                (join_two guest c >>= λ longer. ok (go longer finality rest followed)) _
                (λ _.
                  Ensures-bind GuestRound (join_two guest c)
                    (λ longer. ok (go longer finality rest followed))
                    λ longer j. join-IsGuest g step j)
                (λ _. Ensures-bind GuestRound (link_target h fs finality guest c path) _ λ target t.
                  follow_link-Guest finality guest followed rest target g
                    (Ensures-elim GuestTarget _ (link_target-Guest finality guest c path step) t))

    round-Guest :
        (deref : Bool) (cursor guest : Bytes) (followed : ℕ)
        → IsGuest guest
        → Ensures GuestRound (round h fs deref level descend cursor guest followed)
    unfolding round
    round-Guest deref cursor guest followed g =
        Ensures-bind GuestRound (next_component cursor) _ λ (c, finality, rest) e.
          Ensures-if GuestRound (str_equal c (dot ∷ [])) _ _ (λ _. g)
            λ nd.
              Ensures-if GuestRound (str_equal c (dot ∷ dot ∷ [])) _ _ (λ _. pop-IsGuest g)
                λ ndd.
                  visit-Guest deref c finality rest guest followed g
                    ((next_component_bounds cursor e).0, differs c _ nd, differs c _ ndd)

    walk-Guest :
        (deref : Bool) (fuel : ℕ) (cursor guest : Bytes) (followed : ℕ)
        → IsGuest guest
        → Ensures GuestWalk (walk h fs deref level descend fuel cursor guest followed)
    unfolding walk
    walk-Guest deref zero cursor guest followed g = tt
    walk-Guest deref (suc fuel) cursor guest followed g =
        Ensures-bind GuestWalk (round h fs deref level descend cursor guest followed) _ (elim [
          | returned path ↦
              λ e. Ensures-elim GuestRound _ (round-Guest deref cursor guest followed g) e
          | go path finality rest n ↦ λ e.
              let kept : IsGuest path =
                Ensures-elim GuestRound _ (round-Guest deref cursor guest followed g) e in
              Ensures-if GuestWalk (is_final finality) _ _ (λ _. kept)
                λ _. walk-Guest deref fuel rest path n kept
        ])

  start-Guest : (user guest : Bytes) → IsGuest guest → Ensures IsGuest (start_path user guest)
  unfolding start_path
  start-Guest user guest g =
      Ensures-if IsGuest (leb path_max (length guest)) _ _ (λ _. tt {0})
        λ _.
          Ensures-if IsGuest (char_at user 0 == slash) _ _ (λ _. root-IsGuest)
            λ _. Ensures-if IsGuest (char_at guest 0 == slash) _ _ (λ _. g) (λ _. tt {0})

  finish_deeper :
      (level : ℕ) (w : Walk) → 0 < level → GuestWalk w → Ensures IsGuest (finish level w)
  unfolding finish
  finish_deeper level (left path) l g = g
  finish_deeper level (walked path finality) l g =
      let e : (level == 0) ≡ false = ground arith in rw e g

  finish_first : (w : Walk) → GuestWalk w → Ensures IsResult (finish 0 w)
  unfolding finish
  finish_first (left path) g = guest_path g
  finish_first (walked path not_final) g = tt
  finish_first (walked path final_normal) g = guest_path g
  finish_first (walked path final_slash) g =
      Ensures-intro IsResult (join_two path []) λ r e. guest_path (join-IsGuest g empty-IsStep e)
  finish_first (walked path final_dot) g =
      Ensures-intro IsResult (join_two path (dot ∷ [])) λ r e. join_dot-IsResult g e

  abbrev descending : ℕ → Descend
  descending depth text base deeper = canonicalize h fs depth text true base deeper

  -- The start and the walk, at any level.
  walk_from :
      (depth : ℕ) (user : Bytes) (deref : Bool) (guest start : Bytes) (level : ℕ) (w : Walk)
      → KeepsGuest (descending depth) level
      → IsGuest guest
      → start_path user guest ≡ ok start
      → walk h fs deref level (descending depth) (length user + 1) user start 0 ≡ ok w
      → GuestWalk w
  walk_from depth user deref guest start level w keeps g s e =
      Ensures-elim GuestWalk _
        (walk-Guest level (descending depth) keeps deref (length user + 1) user start 0
          (Ensures-elim IsGuest _ (start-Guest user guest g) s))
        e

  -- At a deeper level of recursion the result is a guest path.
  canonicalize_deeper :
      (depth : ℕ) (user : Bytes) (deref : Bool) (guest : Bytes) (level : ℕ)
      → 0 < level
      → IsGuest guest
      → Ensures IsGuest (canonicalize h fs depth user deref guest level)
  unfolding canonicalize
  canonicalize_deeper zero user deref guest level l g = tt
  canonicalize_deeper (suc depth) user deref guest level l g =
      Ensures-if IsGuest (ltb max_symlinks level) _ _ (λ _. tt {0})
        λ _. Ensures-bind IsGuest (start_path user guest) _ λ start s.
          Ensures-bind IsGuest
            (walk h fs deref level (descending depth) (length user + 1) user start 0) _
            λ w e. finish_deeper level w l (
              walk_from depth user deref guest start level w
                (λ text base deeper d b.
                  canonicalize_deeper depth text true base deeper (omega arith) b)
                g s e)

  canonicalize_first :
      (depth : ℕ) (user : Bytes) (deref : Bool) (guest : Bytes)
      → IsGuest guest
      → Ensures IsResult (canonicalize h fs depth user deref guest 0)
  unfolding canonicalize
  canonicalize_first zero user deref guest g = tt
  canonicalize_first (suc depth) user deref guest g =
      Ensures-bind IsResult (start_path user guest) _ λ start s.
        Ensures-bind IsResult (walk h fs deref 0 (descending depth) (length user + 1) user start 0)
          _
          λ w e. finish_first w (
            walk_from depth user deref guest start 0 w
              (λ text base deeper d b.
                canonicalize_deeper depth text true base deeper (omega arith) b)
              g s e)

-- Whatever the links of the file system and of /proc say, each component of a path that canonicalize()
-- returns at its first level stands behind a separator and is neither "." nor "..", but for a "." that may
-- be the last; components may be empty. The base is a path without "." and "..".
pub canonicalize-IsResult :
    (h : Host) (fs : Bindings) (depth : ℕ) (user : Bytes) (deref : Bool) (guest r : Bytes)
    → IsGuest guest
    → canonicalize h fs depth user deref guest 0 ≡ ok r
    → IsResult r
canonicalize-IsResult h fs depth user deref guest r g e =
    Ensures-elim IsResult _ (canonicalize_first h fs depth user deref guest g) e
