-- ===== src/Paint.antt =====
-- The search for a window to repaint, and the order of a broadcast: `kernel_CheckInvalidRegion`,
-- `msgCheckHostedTree` and `travel_all_hosted` of source/aple/lecture-5/minigui-message.c, over the
-- tree of windows, whose lists of children and of hosted windows end in NULL.
pub mod Order
use aple.Base.{
  ℕ, Bool, true, false, ◌≡◌, refl, ap, ◌∙◌, Option, none, some, List, [], ◌∷◌, ◌++◌, ◌==◌,
  if◌then◌else◌, head?, arith, append_assoc, append-nil,
}

-- A window or control: its handle, whether it is virtual, whether its invalid region is not empty, and
-- its children.
mutual
  pub data Control : Type 0 where
    control : ℕ → Bool → Bool → Controls → Control

  pub data Controls : Type 0 where
    nil : Controls
    cons : Control → Controls → Controls

-- A main window and the main windows that it hosts.
mutual
  pub data Main : Type 0 where
    main : Control → Mains → Main

  pub data Mains : Type 0 where
    end : Mains
    more : Main → Mains → Mains

abbrev pub handle : Control → ℕ
handle (control h virtual invalid cs) = h

-- `none` is HWND_NULL.
unfoldable mutual
  pub check_invalid_region : Control → Option ℕ
  check_invalid_region (control h virtual invalid cs) =
      if virtual then none else if invalid then some h else check_children cs

  pub check_children : Controls → Option ℕ
  check_children nil = none
  check_children (cons c cs) = elim (check_invalid_region c) [
    | some h ↦ some h
    | none ↦ check_children cs
  ]

-- The desktop, `dsk`, is skipped, and not what it hosts.
module _ (dsk : ℕ) where
  abbrev pub check_main : Control → Option ℕ
  check_main c = if handle c == dsk then none else check_invalid_region c

  unfoldable mutual
    pub check_hosted_tree : Main → Option ℕ
    check_hosted_tree (main c hosted) = elim (check_main c) [
      | some h ↦ some h
      | none ↦ check_hosted hosted
    ]

    pub check_hosted : Mains → Option ℕ
    check_hosted end = none
    check_hosted (more m ms) = elim (check_hosted_tree m) [
      | some h ↦ some h
      | none ↦ check_hosted ms
    ]

-- The windows in the order in which `travel_all_hosted` calls its callback: the hosted windows, each
-- behind those that it hosts itself.
unfoldable mutual
  pub travel : Main → List ℕ
  travel (main c hosted) = travel_hosted hosted

  pub travel_hosted : Mains → List ℕ
  travel_hosted end = []
  travel_hosted (more (main c hosted) ms) = travel_hosted hosted ++ (handle c ∷ travel_hosted ms)
