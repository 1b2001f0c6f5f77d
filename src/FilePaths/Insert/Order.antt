-- ===== src/FilePaths/Insert/Order.antt =====
-- Where insort_binding of path/binding.c puts a binding in the guest list.
use vm_forge.Prelude.{
  ◌≡◌, refl, sym, ap, ◌∙◌, true, false, List, [], ◌∷◌, ◌++◌, append-nil, append_assoc, arith,
  Option, some, none,
}
use vm_forge.Prelude.Errors.{ok}
use vm_forge.FilePaths.Compare.{
  Comparison, paths_are_equal, path1_is_prefix, path2_is_prefix, paths_are_not_comparable,
  compare_paths,
}
use vm_forge.FilePaths.Binding.{Binding, Bindings, guest_side, is_equal, contains}
use vm_forge.FilePaths.Insert.{
  Place, Scan, replace, insert, scan, placed, first_place, insort_binding,
}

-- No binding of the list has the new one's guest path.
abbrev pub NoneEqual : Binding → List Binding → Type 0
NoneEqual b [] = Unit
NoneEqual b (x ∷ xs) = (is_equal (compare_paths b.guest x.guest) ≡ false) × NoneEqual b xs

-- None lies below it, or has its path.
abbrev pub NoneWithin : Binding → List Binding → Type 0
NoneWithin b [] = Unit
NoneWithin b (x ∷ xs) = (contains (compare_paths b.guest x.guest) ≡ false) × NoneWithin b xs

NoneWithin-append :
    (b x : Binding) (xs : List Binding)
    → NoneWithin b xs
    → contains (compare_paths b.guest x.guest) ≡ false
    → NoneWithin b (xs ++ x ∷ [])
NoneWithin-append b x [] all h = (h, tt)
NoneWithin-append b x (y ∷ ys) all h = (all.0, NoneWithin-append b x ys all.1 h)

-- The new list: the old one with the binding put in, and nothing behind it that it contains.
abbrev pub Inserted : Binding → List Binding → List Binding → Type 0
Inserted b bs new =
    (before : List Binding) × (after : List Binding) × (new ≡ before ++ b ∷ after)
    × (before ++ after ≡ bs)
    × NoneWithin b after

-- What the loop has found in what it has seen.
abbrev Found : Binding → List Binding → List Binding → Option Place → Type 0
Found b seen rest none = NoneWithin b seen
Found b seen rest (some place) =
    (mid : List Binding) × (place.0 ++ mid ≡ seen) × (place.1 ≡ mid ++ rest) × NoneWithin b mid

abbrev Outcome : Binding → List Binding → Scan → Type 0
Outcome b bs (replace place it) = true ≡ false
Outcome b bs (insert previous next) = Inserted b bs (placed b bs previous next)

Found-keep :
    (b it : Binding) (seen rest : List Binding) (previous : Option Place)
    → contains (compare_paths b.guest it.guest) ≡ false
    → Found b seen (it ∷ rest) previous
    → Found b (seen ++ it ∷ []) rest previous
Found-keep b it seen rest none h f = NoneWithin-append b it seen f h
Found-keep b it seen rest (some (x, y)) h (mid, e, k, all) = (
  mid ++ it ∷ [],
  sym (append_assoc x mid (it ∷ [])) ∙ ap (λ l. l ++ it ∷ []) e,
  k ∙ sym (append_assoc mid (it ∷ []) rest),
  NoneWithin-append b it mid all h,
)

scan-Outcome :
    (b : Binding) (bs seen rest : List Binding) (previous : Option Place)
    → seen ++ rest ≡ bs
    → NoneEqual b rest
    → Found b seen rest previous
    → Outcome b bs (scan guest_side b seen rest previous (some ([], bs)))
unfolding scan
scan-Outcome b bs seen [] none e new f =
    ([], bs, refl, refl, (let same : seen ≡ bs = sym (append-nil seen) ∙ e in rw same at f))
scan-Outcome b bs seen [] (some (x, y)) e new (mid, k, l, all) = (
  x,
  y,
  refl,
  (let tail : y ≡ mid = l ∙ append-nil mid in rw tail (k ∙ sym (append-nil seen) ∙ e)),
  (let tail : y ≡ mid = l ∙ append-nil mid in rw tail all),
)
scan-Outcome b bs seen (it ∷ rest) previous e new f =
    let passed : (seen ++ it ∷ []) ++ rest ≡ bs = append_assoc seen (it ∷ []) rest ∙ e in
    by_comparison
      (scan-Outcome b bs (seen ++ it ∷ []) rest (some (seen ++ it ∷ [], rest)) passed new.1
        ([], append-nil (seen ++ it ∷ []), refl, tt))
      (λ apart.
        scan-Outcome b bs (seen ++ it ∷ []) rest previous passed new.1
          (Found-keep b it seen rest previous apart f))
      (compare_paths b.guest it.guest) refl
  where
    by_comparison :
        Outcome b bs
          (scan guest_side b (seen ++ it ∷ []) rest (some (seen ++ it ∷ [], rest)) (some ([], bs)))
        → (contains (compare_paths b.guest it.guest) ≡ false
            → Outcome b bs (scan guest_side b (seen ++ it ∷ []) rest previous (some ([], bs))))
        → (c : Comparison) → compare_paths b.guest it.guest ≡ c
        → Outcome b bs (elim c as (λ _. Scan) [
          | paths_are_equal ↦ replace (seen ++ it ∷ [], rest) it
          | path1_is_prefix ↦
              scan guest_side b
                (seen ++ it ∷ [])
                rest
                (some (seen ++ it ∷ [], rest))
                (some ([], bs))
          | path2_is_prefix ↦ scan guest_side b (seen ++ it ∷ []) rest previous (some ([], bs))
          | paths_are_not_comparable ↦
              scan guest_side b (seen ++ it ∷ []) rest previous (some ([], bs))
        ])
    by_comparison inside apart paths_are_equal k = let clash = rw k at new.0 in clash
    by_comparison inside apart path1_is_prefix k = inside
    by_comparison inside apart path2_is_prefix k = apart (rw k refl)
    by_comparison inside apart paths_are_not_comparable k = apart (rw k refl)

-- The scan from the start of a list.
scan_all :
    (b : Binding) (bs : List Binding)
    → NoneEqual b bs
    → Outcome b bs (scan guest_side b [] bs none (first_place bs))
unfolding scan
scan_all b [] new = ([], [], refl, refl, tt)
scan_all b (x ∷ xs) new = scan-Outcome b (x ∷ xs) [] (x ∷ xs) none refl new tt

-- A binding whose guest path no binding of the guest list has is put into that list at one place,
-- the others keep their order, and none of the bindings behind it lies below it: those are all in
-- front of it, where a lookup finds them first.
pub insort_binding-Inserted :
    (fs fs' : Bindings) (b : Binding) (bs : List Binding)
    → fs.guest ≡ some bs
    → NoneEqual b bs
    → insort_binding fs guest_side b ≡ ok fs'
    → (new : List Binding) × (fs'.guest ≡ some new) × Inserted b bs new
unfolding insort_binding
insort_binding-Inserted fs fs' b bs listed new h =
    by_scan (scan guest_side b [] bs none (first_place bs)) refl (scan_all b bs new)
  where
    by_scan :
        (found : Scan)
        → scan guest_side b [] bs none (first_place bs) ≡ found
        → Outcome b bs found
        → (new : List Binding) × (fs'.guest ≡ some new) × Inserted b bs new
    by_scan (replace place it) e o = cc
    by_scan (insert previous next) e o =
        let done = rw (listed, insort_binding, e) at h in
        (placed b bs previous next, ground arith, o)
