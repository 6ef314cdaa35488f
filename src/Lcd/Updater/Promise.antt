-- ===== src/Lcd/Updater/Promise.antt =====
-- That no update is lost: what stood there at a `SyncUpdate` is shown by the updating thread.
use aple.Base.{
  ℕ, ◌+◌, ◌≤◌, ◌≡◌, refl, sym, ◌∙◌, Bool, true, false, List, [], ◌∷◌, ◌++◌, inl, inr, arith,
  if◌then◌else◌,
}
use aple.Lcd.{
  Rect, RectOps, GalRect, Hidden, update_rects, update_rects_async, sync_update_async, do_update,
  refresh, post_if, keep_dirty, grow_all,
}
use aple.Lcd.Pixels.{Inside, Laws, Covered}
use aple.Lcd.Dirty.{Valid, Dirty, Shows, update_rects_keeps, do_update_lem, clean-Valid}
use aple.Lcd.Updater.{
  Updater, waiting, woken, checked, gone, Engine, draws_on, syncs, rounded, Updates, wakes, passes,
  rounds, ends, interrupted, Step, drawing, syncing, quitting, updating, Reach, start, later,
}

-- The thread is on its way to an update, or at its end.
abbrev pub busy : Updater → ℕ
busy waiting = 0
busy woken = 1
busy checked = 1
busy gone = 1

abbrev pub is_gone : Updater → ℕ
is_gone waiting = 0
is_gone woken = 0
is_gone checked = 0
is_gone gone = 1

pub record Inv (o : RectOps) (s : Engine) : Type 0 where
  pub valid : Valid o s.hidden
  pub dirty : Dirty o s.hidden s.drawn
  pub kept : (x y : ℕ) → Covered s.promised x y → Covered s.drawn x y
  pub due :
      (x y : ℕ)
      → Covered s.promised x y
      → Inside o.screen x y
      → 1 ≤ s.hidden.sem_update + busy s.updater
  pub quits : (s.canceled ≡ false) → is_gone s.updater ≡ 0

Covered-left : (xs ys : List GalRect) (x y : ℕ) → Covered xs x y → Covered (xs ++ ys) x y
Covered-left [] ys x y c = absurd c
Covered-left (r ∷ xs) ys x y (inl i) = inl i
Covered-left (r ∷ xs) ys x y (inr c) = inr (Covered-left xs ys x y c)

keeps_value :
    (o : RectOps) (h : Hidden) (rects : List GalRect)
    → (update_rects_async o h rects).sem_update ≡ h.sem_update
unfolding update_rects_async
keeps_value o h rects =
    by_bound (o.is_rect_empty (grow_all o h.rc_dirty rects))
      (o.intersect_rect (grow_all o h.rc_dirty rects) o.screen)
  where
    by_bound :
        (b : Bool) (r : Bool × Rect) → (if b then h else keep_dirty h r).sem_update ≡ h.sem_update
    by_bound true r = refl
    by_bound false (true, c) = refl
    by_bound false (false, c) = refl

off : true ≡ false → ⊥
off e = absurd cc

draws-Inv :
    (o : RectOps) (s : Engine) (rects : List GalRect)
    → Laws o
    → Inv o s
    → Inv o (draws_on o s rects)
unfolding update_rects_async update_rects
draws-Inv o s rects laws v =
    let (w, d) = update_rects_keeps o s.hidden s.drawn rects laws v.valid v.dirty in
    record {
      valid = w;
      dirty = d;
      kept = λ x y c. Covered-left s.drawn rects x y (v.kept x y c);
      due = λ x y c i. omega (arith, v.due x y c i, keeps_value o s.hidden rects);
      quits = v.quits;
    }

syncs-Inv : (o : RectOps) (s : Engine) → Inv o s → Inv o (syncs s)
unfolding sync_update_async Dirty
syncs-Inv o s v = go s.hidden.dirty refl
  where
    go :
        (b : Bool)
        → s.hidden.dirty ≡ b
        → Inv o (record s { hidden = (post_if s.hidden b).0; promised = s.drawn })
    go true e = record {
      valid = record { flag = v.valid.flag; on_screen = v.valid.on_screen };
      dirty = v.dirty;
      kept = λ x y c. c;
      due = λ x y c i. omega arith;
      quits = v.quits;
    }
    go false e = record {
      valid = v.valid;
      dirty = v.dirty;
      kept = λ x y c. c;
      due = λ x y c i. absurd (off (sym (v.dirty x y c i).0 ∙ e));
      quits = v.quits;
    }

rounded-Inv :
    (o : RectOps) (s : Engine)
    → Laws o
    → s.updater ≡ checked
    → Inv o s
    → Inv o (rounded s (do_update s.hidden))
unfolding do_update Dirty
rounded-Inv o s laws e v = go s.hidden.dirty refl
  where
    go : (b : Bool) → s.hidden.dirty ≡ b → Inv o (rounded s (refresh s.hidden b))
    go true e = record {
      valid = clean-Valid o s.hidden laws;
      dirty = λ x y c i. absurd c;
      kept = λ x y c. c;
      due = λ x y c i. absurd c;
      quits = λ f. refl;
    }
    go false e = record {
      valid = v.valid;
      dirty = v.dirty;
      kept = v.kept;
      due = λ x y c i. absurd (off (sym (v.dirty x y (v.kept x y c) i).0 ∙ e));
      quits = λ f. refl;
    }

Updates-Inv :
    {o : RectOps} {point : Bool} {s t : Engine} → Laws o → Updates point s t → Inv o s → Inv o t
unfolding Dirty
Updates-Inv {o} laws (wakes s k w full) v = record {
  valid = record { flag = v.valid.flag; on_screen = v.valid.on_screen };
  dirty = v.dirty;
  kept = v.kept;
  due = λ x y c i. omega arith;
  quits = λ e. refl;
}
Updates-Inv {o} laws (passes s w e) v = record {
  valid = v.valid;
  dirty = v.dirty;
  kept = v.kept;
  due = λ x y c i. omega arith;
  quits = λ e. refl;
}
Updates-Inv {o} laws (rounds s w) v = rounded-Inv o s laws w v
Updates-Inv {o} laws (ends s w e) v = record {
  valid = v.valid;
  dirty = v.dirty;
  kept = v.kept;
  due = λ x y c i. omega arith;
  quits = λ f. absurd cc;
}
Updates-Inv {o} laws (interrupted s p w e) v = record {
  valid = v.valid;
  dirty = v.dirty;
  kept = v.kept;
  due = λ x y c i. omega arith;
  quits = λ f. absurd cc;
}

Step-Inv :
    {o : RectOps} {point : Bool} {s t : Engine} → Laws o → Step o point s t → Inv o s → Inv o t
Step-Inv {o} laws (drawing s rects e) v = draws-Inv o s rects laws v
Step-Inv {o} laws (syncing s e) v = syncs-Inv o s v
Step-Inv {o} laws (quitting s e) v = record {
  valid = v.valid;
  dirty = v.dirty;
  kept = v.kept;
  due = v.due;
  quits = λ f. absurd cc;
}
Step-Inv {o} laws (updating w) v = Updates-Inv laws w v

started-Inv :
    (o : RectOps) (first : Hidden)
    → Valid o first
    → Inv o
        (record { hidden = first; updater = waiting; canceled = false; drawn = []; promised = [] })
unfolding Dirty
started-Inv o first v = record {
  valid = v;
  dirty = λ x y c i. absurd c;
  kept = λ x y c. c;
  due = λ x y c i. absurd c;
  quits = λ f. refl;
}

pub Reach-Inv :
    {o : RectOps} {point : Bool} {first : Hidden} {s : Engine}
    → Laws o
    → Valid o first
    → Reach o point first s
    → Inv o s
Reach-Inv {o} {point} {first} laws v start = started-Inv o first v
Reach-Inv {o} {point} {first} laws v (later r x) = Step-Inv laws x (Reach-Inv laws v r)

-- Where the functions on rectangles keep their laws: in every state that the two threads reach from a device in
-- order, a round of the updating thread gives
-- `update` a rectangle with all the pixels of the screen that were drawn in since the last update, and none
-- beside the screen, or calls it not at all where there is none.
pub every_round-Shows :
    {o : RectOps} {point : Bool} {first : Hidden} {s : Engine}
    → Laws o
    → Valid o first
    → Reach o point first s
    → Shows o s.drawn (do_update s.hidden).1
every_round-Shows {o} {point} {first} {s} laws v r =
    let w : Inv o s = Reach-Inv laws v r in
    (do_update_lem o s.hidden s.drawn laws w.valid w.dirty).2
