-- ===== src/Lcd/Updater.antt =====
-- The thread of `task_do_update` beside the thread that draws, step by step: what runs under `update_lock` is
-- one step. `point` tells whether a thread that waits in `sem_wait` can be canceled there; the test that the
-- `sem_wait` of minigui-vxworks_sem.c makes at its entry, before it waits, is left out.
pub mod Promise
pub mod Ending
use aple.Base.{ℕ, suc, ◌≡◌, Bool, true, false, Option, none, some, List, [], ◌++◌}
use aple.Lcd.{Rect, RectOps, GalRect, Hidden, update_rects_async, sync_update_async, do_update}

-- Where the updating thread stands: at `sem_wait`, at `pthread_testcancel`, at the mutex, or at its end.
pub data Updater : Type 0 where
  waiting woken checked gone : Updater

-- The device and its thread; `drawn` is what was drawn since the last update, and `promised` what of it stood
-- there at the last `SyncUpdate`. `canceled` is set from `COMMLCD_VideoQuit`, which cancels the thread and
-- then waits for its end.
pub record Engine : Type 0 where
  pub hidden : Hidden
  pub updater : Updater
  pub canceled : Bool
  pub drawn : List GalRect
  pub promised : List GalRect

abbrev pub draws_on : RectOps → Engine → List GalRect → Engine
draws_on o s rects = record s {
  hidden = update_rects_async o s.hidden rects;
  drawn = s.drawn ++ rects;
}

abbrev pub syncs : Engine → Engine
syncs s = record s { hidden = (sync_update_async s.hidden).0; promised = s.drawn }

-- A round of the updating thread; where it calls `update`, what was drawn is up to date.
abbrev pub rounded : Engine → Hidden × Option Rect → Engine
rounded s (h, none) = record s { hidden = h; updater = waiting }
rounded s (h, some b) = record s { hidden = h; updater = waiting; drawn = []; promised = [] }

abbrev pub with_value : Hidden → ℕ → Hidden
with_value h v = record h { sem_update = v }

-- A step of the updating thread.
pub data Updates (point : Bool) : Engine → Engine → Type 0 where
  wakes :
      (s : Engine) (v : ℕ)
      → s.updater ≡ waiting
      → s.hidden.sem_update ≡ suc v
      → Updates point s (record s { hidden = with_value s.hidden v; updater = woken })
  passes :
      (s : Engine)
      → s.updater ≡ woken
      → s.canceled ≡ false
      → Updates point s (record s { updater = checked })
  rounds : (s : Engine) → s.updater ≡ checked → Updates point s (rounded s (do_update s.hidden))
  ends :
      (s : Engine)
      → s.updater ≡ woken
      → s.canceled ≡ true
      → Updates point s (record s { updater = gone })
  interrupted :
      (s : Engine)
      → point ≡ true
      → s.updater ≡ waiting
      → s.canceled ≡ true
      → Updates point s (record s { updater = gone })

-- A step of either thread.
pub data Step (o : RectOps) (point : Bool) : Engine → Engine → Type 0 where
  drawing :
      (s : Engine) (rects : List GalRect) → s.canceled ≡ false → Step o point s (draws_on o s rects)
  syncing : (s : Engine) → s.canceled ≡ false → Step o point s (syncs s)
  quitting : (s : Engine) → s.canceled ≡ false → Step o point s (record s { canceled = true })
  updating : {s t : Engine} → Updates point s t → Step o point s t

-- The states that the two threads reach, from the one that `COMMLCD_SetVideoMode` leaves.
pub data Reach (o : RectOps) (point : Bool) (first : Hidden) : Engine → Type 0 where
  start :
      Reach o point first
        (record { hidden = first; updater = waiting; canceled = false; drawn = []; promised = [] })
  later : {s t : Engine} → Reach o point first s → Step o point s t → Reach o point first t
