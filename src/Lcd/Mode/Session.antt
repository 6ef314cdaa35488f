-- ===== src/Lcd/Mode/Session.antt =====
-- A mode that is set and the engine that is then quit.
use aple.Base.{
  ℕ, ◌≡◌, refl, ap, sym, ◌∙◌, Bool, true, false, Option, none, some, List, [], ◌∷◌, ◌++◌,
  if◌then◌else◌, not, subst, ◌⊎◌, inl, inr,
}
use aple.Lcd.{RectOps, Hidden}
use aple.Lcd.Pixels.{Laws, Inside}
use aple.Lcd.Dirty.{Valid, clean-Valid}
use aple.Lcd.Mode.{
  Lcd, Info, UpdateMethod, update_none, update_sync, update_async, Surface, Device, Call, release,
  lcd_init, create, cancel, join, create_device, zeroed, with_info, with_method, with_thread,
  with_surface, format_set, no_format, screen_of, masks_of, info_found, release_calls,
  set_video_mode, stop_thread, video_quit,
}

-- The threads that are made, canceled and joined by the calls, in order.
abbrev pub created : List Call → List ℕ
created [] = []
created (release ∷ cs) = created cs
created (lcd_init ∷ cs) = created cs
created (create th ∷ cs) = th ∷ created cs
created (cancel th ∷ cs) = created cs
created (join th ∷ cs) = created cs

-- Each of the threads is canceled and then joined.
abbrev pub stops : List ℕ → List Call
stops [] = []
stops (th ∷ ts) = cancel th ∷ join th ∷ stops ts

-- A device whose two functions are set together, with its rectangle in order.
pub record InOrder (o : RectOps) (d : Device) : Type 0 where
  pub paired : d.update_rects_call ≡ d.sync_update_call
  pub valid : Valid o d.hidden

-- What a mode leaves: a device in order, and all its threads to `COMMLCD_VideoQuit`.
Ends : RectOps → Lcd → Device × Option Surface × List Call → Type 0
Ends o lcd r =
    InOrder o r.0 × ((video_quit lcd r.0 r.1).1 ≡ stops (created r.2) ++ release_calls lcd)

moved-Valid :
    (o : RectOps) (h k : Hidden)
    → h.dirty ≡ k.dirty
    → h.rc_dirty ≡ k.rc_dirty
    → Valid o h
    → Valid o k
moved-Valid o h k e f v = record {
  flag = sym e ∙ v.flag ∙ ap (λ r. not (o.is_rect_empty r)) f;
  on_screen = λ x y i. v.on_screen x y (subst (λ r. Inside r x y) (sym f) i);
}

quit_calls :
    (lcd : Lcd) (d : Device) (s : Option Surface)
    → (video_quit lcd d s).1 ≡ stop_thread d.hidden.update_th ++ release_calls lcd
unfolding video_quit
quit_calls lcd d none = refl
quit_calls lcd d (some s) = refl

no_thread :
    (lcd : Lcd) (d : Device) (s : Option Surface)
    → d.hidden.update_th ≡ none
    → (video_quit lcd d s).1 ≡ release_calls lcd
no_thread lcd d s e = quit_calls lcd d s ∙ ap (λ t. stop_thread t ++ release_calls lcd) e

thread-Ends :
    (o : RectOps) (lcd : Lcd) (d : Device) (s : Surface) (t : Option ℕ)
    → d.hidden.update_th ≡ none
    → InOrder o d
    → Ends o lcd (with_surface s (with_thread d t))
unfolding Ends
thread-Ends o lcd d s none e v = (
  record { paired = refl; valid = moved-Valid o d.hidden _ refl refl v.valid },
  no_thread lcd (with_thread d none).0 (some s) e,
)
thread-Ends o lcd d s (some th) e v = (
  record { paired = refl; valid = moved-Valid o d.hidden _ refl refl v.valid },
  quit_calls lcd _ (some s),
)

method-Ends :
    (o : RectOps) (lcd : Lcd) (d : Device) (s : Surface) (m : UpdateMethod)
    → d.hidden.update_th ≡ none
    → InOrder o d
    → Ends o lcd (with_surface s (with_method lcd d m))
unfolding Ends
method-Ends o lcd d s update_none e v = (
  record { paired = refl; valid = moved-Valid o d.hidden _ refl refl v.valid },
  quit_calls lcd _ (some s),
)
method-Ends o lcd d s update_sync e v = (
  record { paired = refl; valid = moved-Valid o d.hidden _ refl refl v.valid },
  quit_calls lcd _ (some s),
)
method-Ends o lcd d s update_async e v = thread-Ends o lcd d s lcd.thread e v

format-Ends :
    (o : RectOps) (lcd : Lcd) (d : Device) (i : Info) (b : Bool)
    → d.hidden.update_th ≡ none
    → InOrder o d
    → Ends o lcd (format_set lcd d i b)
unfolding Ends
format-Ends o lcd d i true e v =
    method-Ends o lcd (record d { hidden = with_info d.hidden i }) (screen_of i) i.update_method e
      (record { paired = v.paired; valid = moved-Valid o d.hidden _ refl refl v.valid })
format-Ends o lcd d i false e v = (
  record { paired = v.paired; valid = moved-Valid o d.hidden _ refl refl v.valid },
  no_thread lcd (no_format d i) none e
      ∙ ap (λ ts. stops ts ++ release_calls lcd) (sym (none_created lcd.has_release)),
)
  where
    none_created : (b : Bool) → created (if b then release ∷ [] else []) ≡ []
    none_created true = refl
    none_created false = refl

info-Ends :
    (o : RectOps) (lcd : Lcd) (d : Device) (i : Option Info)
    → d.hidden.update_th ≡ none
    → InOrder o d
    → Ends o lcd (info_found lcd d i)
unfolding Ends
info-Ends o lcd d none e v = (v, no_thread lcd d none e)
info-Ends o lcd d (some i) e v =
    format-Ends o lcd d i (lcd.realloc_format i.bpp (masks_of i.type)) e v

-- After `COMMLCD_SetVideoMode` on a device in order without a thread, with a mode or an error, `UpdateRects`
-- and `SyncUpdate` are set together or both not, the dirty rectangle is in order, and `COMMLCD_VideoQuit`
-- cancels and then joins the threads that were created, all of them and no other, before it releases the LCD.
pub set_video_mode_lem :
    (o : RectOps) (lcd : Lcd) (d : Device) (width height bpp : ℕ)
    → d.hidden.update_th ≡ none
    → InOrder o d
    → InOrder o (set_video_mode lcd d width height bpp).0
      × ((video_quit lcd
            (set_video_mode lcd d width height bpp).0
            (set_video_mode lcd d width height bpp).1).1
          ≡ stops (created (set_video_mode lcd d width height bpp).2) ++ release_calls lcd)
unfolding set_video_mode Ends
set_video_mode_lem o lcd d width height bpp e v =
    info-Ends o lcd d (lcd.getinfo width height bpp) e v

-- `COMMLCD_CreateDevice` keeps its two blocks with a device in order that has no thread, or, where one of its
-- allocations fails, no block.
pub create_device_lem :
    (o : RectOps) (first second : Bool)
    → Laws o
    → (((d : Device) × ((create_device first second ≡ (some d, 2))
            × InOrder o d
            × (d.hidden.update_th ≡ none)))
        ⊎ (create_device first second ≡ (none, 0)))
unfolding create_device
create_device_lem o true true laws =
    inl (_, (refl, record { paired = refl; valid = clean-Valid o zeroed laws }, refl))
create_device_lem o true false laws = inr refl
create_device_lem o false second laws = inr refl
