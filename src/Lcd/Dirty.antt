-- ===== src/Lcd/Dirty.antt =====
-- What the dirty rectangle means: it covers, of what was drawn since the last update, all that is on the
-- screen.
use aple.Base.{
  append-nil, append_assoc, ℕ, ◌≡◌, refl, sym, ap, ◌∙◌, subst, Bool, true, false, Option, none,
  some, List, [], ◌∷◌, ◌++◌, not, ◌⊎◌, inl, inr, if◌then◌else◌,
}
use aple.Lcd.{
  Rect, RectOps, GalRect, Hidden, rect_of, no_rect, grow, grow_all, keep_dirty, mark, update_rects,
  clean, sync_update, do_update, refresh, refresh_result,
}
use aple.Lcd.Pixels.{Inside, Laws, Covered}

-- The flag tells whether the rectangle is empty, and the rectangle stays on the screen.
pub record Valid (o : RectOps) (h : Hidden) : Type 0 where
  pub flag : h.dirty ≡ not (o.is_rect_empty h.rc_dirty)
  pub on_screen : (x y : ℕ) → Inside h.rc_dirty x y → Inside o.screen x y

-- All that is drawn and on the screen is dirty.
unfoldable pub Dirty : RectOps → Hidden → List GalRect → Type 0
Dirty o h drawn =
    (x y : ℕ) → Covered drawn x y → Inside o.screen x y → (h.dirty ≡ true) × Inside h.rc_dirty x y

grow_left :
    (o : RectOps) (laws : Laws o) (bound rc : Rect) (x y : ℕ)
    → Inside bound x y
    → Inside (grow o bound rc) x y
grow_left o laws bound rc x y i = go (o.is_rect_empty bound) refl
  where
    go :
        (b : Bool)
        → o.is_rect_empty bound ≡ b
        → Inside (if b then rc else o.get_bound_rect bound rc) x y
    go true e = absurd (laws.empty-Inside bound x y e i)
    go false e = laws.bound_left bound rc x y i

grow_right :
    (o : RectOps) (laws : Laws o) (bound rc : Rect) (x y : ℕ)
    → Inside rc x y
    → Inside (grow o bound rc) x y
grow_right o laws bound rc x y i = go (o.is_rect_empty bound)
  where
    go : (b : Bool) → Inside (if b then rc else o.get_bound_rect bound rc) x y
    go true = i
    go false = laws.bound_right bound rc x y i

grow_all_left :
    (o : RectOps) (laws : Laws o) (bound : Rect) (rs : List GalRect) (x y : ℕ)
    → Inside bound x y
    → Inside (grow_all o bound rs) x y
unfolding grow_all
grow_all_left o laws bound [] x y i = i
grow_all_left o laws bound (r ∷ rs) x y i =
    grow_all_left o laws (grow o bound (rect_of r)) rs x y
      (grow_left o laws bound (rect_of r) x y i)

grow_all_right :
    (o : RectOps) (laws : Laws o) (bound : Rect) (rs : List GalRect) (x y : ℕ)
    → Covered rs x y
    → Inside (grow_all o bound rs) x y
unfolding grow_all
grow_all_right o laws bound [] x y i = absurd i
grow_all_right o laws bound (r ∷ rs) x y (inl i) =
    grow_all_left o laws (grow o bound (rect_of r)) rs x y
      (grow_right o laws bound (rect_of r) x y i)
grow_all_right o laws bound (r ∷ rs) x y (inr i) =
    grow_all_right o laws (grow o bound (rect_of r)) rs x y i

-- What `mark` leaves: the old device, where no pixel of the bound is on the screen, or the part of the bound
-- that is.
Marks : RectOps → Hidden → Rect → Hidden → Type 0
Marks o h bound k =
    ((k ≡ h) × ((x y : ℕ) → Inside bound x y → ¬ Inside o.screen x y))
    ⊎ ((k.dirty ≡ true)
        × (o.is_rect_empty k.rc_dirty ≡ false)
        × ((x y : ℕ) → Inside bound x y → Inside o.screen x y → Inside k.rc_dirty x y)
        × ((x y : ℕ) → Inside k.rc_dirty x y → Inside o.screen x y))

keep-Marks :
    (o : RectOps) (laws : Laws o) (h : Hidden) (bound : Rect) (r : Bool × Rect)
    → o.intersect_rect bound o.screen ≡ r
    → Marks o h bound (keep_dirty h r)
unfolding Marks
keep-Marks o laws h bound (true, c) e = inr (
  refl,
  laws.meet_some bound o.screen c e,
  λ x y i j. laws.meet_in bound o.screen c x y e i j,
  λ x y i. (laws.meet_out bound o.screen c x y e i).1,
)
keep-Marks o laws h bound (false, c) e =
    inl (refl, λ x y i. laws.meet_none bound o.screen c x y e i)

mark-Marks :
    (o : RectOps) (laws : Laws o) (h : Hidden) (bound : Rect) → Marks o h bound (mark o h bound)
unfolding Marks
mark-Marks o laws h bound = go (o.is_rect_empty bound) refl
  where
    go :
        (b : Bool)
        → o.is_rect_empty bound ≡ b
        → Marks o h bound (if b then h else keep_dirty h (o.intersect_rect bound o.screen))
    go true e = inl (refl, λ x y i. absurd (laws.empty-Inside bound x y e i))
    go false e = keep-Marks o laws h bound (o.intersect_rect bound o.screen) refl

Covered-append :
    (xs ys : List GalRect) (x y : ℕ) → Covered (xs ++ ys) x y → Covered xs x y ⊎ Covered ys x y
Covered-append [] ys x y c = inr c
Covered-append (r ∷ xs) ys x y (inl i) = inl (inl i)
Covered-append (r ∷ xs) ys x y (inr c) = elim (Covered-append xs ys x y c) [
  | inl d ↦ inl (inr d)
  | inr d ↦ inr d
]

-- `UpdateRects` keeps the flag right and the rectangle on the screen, and covers what it is given besides
-- what was drawn before.
pub update_rects_keeps :
    (o : RectOps) (h : Hidden) (drawn rects : List GalRect)
    → Laws o
    → Valid o h
    → Dirty o h drawn
    → Valid o (update_rects o h rects) × Dirty o (update_rects o h rects) (drawn ++ rects)
unfolding update_rects Marks Dirty
update_rects_keeps o h drawn rects laws v d =
    go (update_rects o h rects) (mark-Marks o laws h (grow_all o h.rc_dirty rects))
  where
    covers :
        (x y : ℕ)
        → Covered (drawn ++ rects) x y
        → Inside o.screen x y
        → Inside (grow_all o h.rc_dirty rects) x y
    covers x y c s = elim (Covered-append drawn rects x y c) [
      | inl i ↦ grow_all_left o laws h.rc_dirty rects x y (d x y i s).1
      | inr i ↦ grow_all_right o laws h.rc_dirty rects x y i
    ]

    go :
        (k : Hidden)
        → Marks o h (grow_all o h.rc_dirty rects) k
        → Valid o k × Dirty o k (drawn ++ rects)
    go k (inl (same, off)) =
        (subst (Valid o) (sym same) v, λ x y c s. absurd (off x y (covers x y c s) s))
    go k (inr (set, some_left, in_it, on_it)) = (
      record { flag = set ∙ ap not (sym some_left); on_screen = on_it },
      λ x y c s. (set, in_it x y (covers x y c s) s),
    )

-- The device behind an update.
pub clean-Valid : (o : RectOps) (h : Hidden) → Laws o → Valid o (clean h)
clean-Valid o h laws = record {
  flag = ap not (sym laws.no_rect-empty);
  on_screen = λ x y i. absurd (laws.empty-Inside no_rect x y laws.no_rect-empty i);
}

-- What an update shows: all that was drawn and is on the screen, and nothing beside the screen.
unfoldable pub Shows : RectOps → List GalRect → Option Rect → Type 0
Shows o drawn none = (x y : ℕ) → Covered drawn x y → ¬ Inside o.screen x y
Shows o drawn (some b) =
    ((x y : ℕ) → Covered drawn x y → Inside o.screen x y → Inside b x y)
    × ((x y : ℕ) → Inside b x y → Inside o.screen x y)

-- Draws in a row.
unfoldable pub draws : RectOps → Hidden → List (List GalRect) → Hidden
draws o h [] = h
draws o h (rs ∷ rss) = draws o (update_rects o h rs) rss

abbrev pub joined : List (List GalRect) → List GalRect
joined [] = []
joined (rs ∷ rss) = rs ++ joined rss

draws_keep :
    (o : RectOps) (h : Hidden) (drawn : List GalRect) (rss : List (List GalRect))
    → Laws o
    → Valid o h
    → Dirty o h drawn
    → Valid o (draws o h rss) × Dirty o (draws o h rss) (drawn ++ joined rss)
unfolding draws
draws_keep o h drawn [] laws v d = (v, subst (Dirty o h) (sym (append-nil drawn)) d)
draws_keep o h drawn (rs ∷ rss) laws v d =
    let (w, e) = update_rects_keeps o h drawn rs laws v d in
    let (z, f) = draws_keep o (update_rects o h rs) (drawn ++ rs) rss laws w e in
    (z, subst (Dirty o (draws o (update_rects o h rs) rss)) (append_assoc drawn rs (joined rss)) f)

off : true ≡ false → ⊥
off e = absurd cc

pub do_update_lem :
    (o : RectOps) (h : Hidden) (drawn : List GalRect)
    → Laws o
    → Valid o h
    → Dirty o h drawn
    → Valid o (do_update h).0 × ((do_update h).0.dirty ≡ false) × Shows o drawn (do_update h).1
unfolding do_update Shows Dirty
do_update_lem o h drawn laws v d = go h.dirty refl
  where
    go :
        (b : Bool)
        → h.dirty ≡ b
        → Valid o (refresh h b).0 × ((refresh h b).0.dirty ≡ false) × Shows o drawn (refresh h b).1
    go true e = (clean-Valid o h laws, refl, ((λ x y c s. (d x y c s).1), v.on_screen))
    go false e = (v, e, λ x y c s. off (sym (d x y c s).0 ∙ e))

-- `SyncUpdate_Sync` does what a round of the updating thread does, where the flag is right.
pub sync_update-do_update :
    (o : RectOps) (h : Hidden)
    → Valid o h
    → sync_update o h ≡ ((do_update h).0, (do_update h).1, h.dirty)
unfolding sync_update do_update
sync_update-do_update o h v = ap (refresh_result h) (sym v.flag) ∙ same h.dirty
  where
    same : (b : Bool) → refresh_result h b ≡ ((refresh h b).0, (refresh h b).1, b)
    same true = refl
    same false = refl

-- Where the functions on rectangles keep their laws: after draws in a row on a device in order, `SyncUpdate` gives `update` a rectangle with all the pixels of
-- the screen that were drawn in, and none beside the screen, or calls it not at all where there is none; and
-- a second `SyncUpdate` has nothing to do.
pub sync-Shows_all :
    (o : RectOps) (h : Hidden) (rss : List (List GalRect))
    → Laws o
    → Valid o h
    → Shows o (joined rss) (sync_update o (draws o h rss)).1
      × ((sync_update o (sync_update o (draws o h rss)).0).2 ≡ false)
unfolding Dirty
sync-Shows_all o h rss laws v = (
  subst (λ (r : Hidden × Option Rect × Bool). Shows o (joined rss) r.1) (sym same) u.2,
  ap (λ (k : Hidden). (sync_update o k).2) (ap (λ (r : Hidden × Option Rect × Bool). r.0) same)
      ∙ ap (λ (r : Hidden × Option Rect × Bool). r.2) (sync_update-do_update o (do_update d).0 u.0)
      ∙ u.1,
)
  where
    d : Hidden
    d = draws o h rss

    kept : Valid o d × Dirty o d (joined rss)
    kept = draws_keep o h [] rss laws v (λ x y c s. absurd c)

    same : sync_update o d ≡ ((do_update d).0, (do_update d).1, d.dirty)
    same = sync_update-do_update o d kept.0

    u :
        Valid o (do_update d).0
        × ((do_update d).0.dirty ≡ false)
        × Shows o (joined rss) (do_update d).1
    u = do_update_lem o d (joined rss) laws kept.0 kept.1
