-- ===== src/Paint/Order.antt =====
-- Which window `msgCheckHostedTree` finds.
use aple.Base.{
  ℕ, true, false, ◌≡◌, refl, Option, none, some, List, [], ◌∷◌, ◌++◌, ◌==◌, if◌then◌else◌, head?,
  Bool-cases, inl, inr,
}
use aple.Paint.{
  Control, Controls, control, nil, cons, Main, Mains, main, end, more, handle, check_invalid_region,
  check_children, check_main, check_hosted_tree, check_hosted,
}

-- The windows with something to repaint, a parent before its children; nothing below a virtual window.
unfoldable mutual
  pub to_paint : Control → List ℕ
  to_paint (control h virtual invalid cs) =
      if virtual then [] else (if invalid then h ∷ [] else []) ++ children_to_paint cs

  pub children_to_paint : Controls → List ℕ
  children_to_paint nil = []
  children_to_paint (cons c cs) = to_paint c ++ children_to_paint cs

-- The same for a main window, which comes before those that it hosts; not the desktop `dsk` itself.
module _ (dsk : ℕ) where
  unfoldable mutual
    pub tree_to_paint : Main → List ℕ
    tree_to_paint (main c hosted) =
        (if handle c == dsk then [] else to_paint c) ++ hosted_to_paint hosted

    pub hosted_to_paint : Mains → List ℕ
    hosted_to_paint end = []
    hosted_to_paint (more m ms) = tree_to_paint m ++ hosted_to_paint ms

-- The search in a first place, then in a second one.
search_then :
    (xs ys : List ℕ) (a b : Option ℕ)
    → a ≡ head? xs
    → b ≡ head? ys
    → elim a [ some h ↦ some h | none ↦ b ] ≡ head? (xs ++ ys)
search_then [] ys a b e f = rw e f
search_then (x ∷ xs) ys a b e f = rw e

mutual
  unfolding check_invalid_region check_children to_paint children_to_paint

  check_invalid_region-head? : (c : Control) → check_invalid_region c ≡ head? (to_paint c)
  check_invalid_region-head? (control h true invalid cs) = refl
  check_invalid_region-head? (control h false true cs) = refl
  check_invalid_region-head? (control h false false cs) = check_children-head? cs

  check_children-head? : (cs : Controls) → check_children cs ≡ head? (children_to_paint cs)
  check_children-head? nil = refl
  check_children-head? (cons c cs) =
      search_then (to_paint c) (children_to_paint cs) (check_invalid_region c) (check_children cs)
        (check_invalid_region-head? c) (check_children-head? cs)

check_main-head? :
    (dsk : ℕ) (c : Control) → check_main dsk c ≡ head? (if handle c == dsk then [] else to_paint c)
check_main-head? dsk c = elim (Bool-cases (handle c == dsk)) [
  | inl t ↦ rw t
  | inr t ↦ rw t (check_invalid_region-head? c)
]

mutual
  unfolding check_hosted_tree check_hosted tree_to_paint hosted_to_paint

  check_tree-head? : (dsk : ℕ) (m : Main) → check_hosted_tree dsk m ≡ head? (tree_to_paint dsk m)
  check_tree-head? dsk (main c hosted) =
      search_then (if handle c == dsk then [] else to_paint c) (hosted_to_paint dsk hosted)
        (check_main dsk c) (check_hosted dsk hosted) (check_main-head? dsk c)
        (check_hosted-head? dsk hosted)

  check_hosted-head? : (dsk : ℕ) (ms : Mains) → check_hosted dsk ms ≡ head? (hosted_to_paint dsk ms)
  check_hosted-head? dsk end = refl
  check_hosted-head? dsk (more m ms) =
      search_then (tree_to_paint dsk m) (hosted_to_paint dsk ms) (check_hosted_tree dsk m)
        (check_hosted dsk ms) (check_tree-head? dsk m) (check_hosted-head? dsk ms)

-- `msgCheckHostedTree` finds the first window with something to repaint: a window before its children
-- and before the windows that it hosts, none below a virtual window, and not the desktop itself. It
-- finds none exactly where there is none.
pub check_hosted_tree-head? :
    (dsk : ℕ) (m : Main) → check_hosted_tree dsk m ≡ head? (tree_to_paint dsk m)
check_hosted_tree-head? dsk m = check_tree-head? dsk m
