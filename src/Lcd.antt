-- ===== src/Lcd.antt =====
-- The engine of source/aple/lecture-5/minigui-commlcd.c: the rectangle of the screen that is to be brought up
-- to date, with the functions on it, for an LCD that is updated in `SyncUpdate` or by a thread of its own.
pub mod Pixels
pub mod Dirty
pub mod Updater
pub mod Mode
use aple.Base.{
  ℕ, ◌+◌, ◌*◌, ◌%◌, ◌^◌, suc, Bool, true, false, Option, none, some, List, [], ◌∷◌, not,
  if◌then◌else◌,
}

-- `RECT`, its coordinates as words of 32 bits.
pub record Rect : Type 0 where
  pub left : ℕ
  pub top : ℕ
  pub right : ℕ
  pub bottom : ℕ

-- `GAL_Rect`
pub record GalRect : Type 0 where
  pub x : ℕ
  pub y : ℕ
  pub w : ℕ
  pub h : ℕ

-- The functions of MiniGUI on rectangles, and the rectangle of the screen. `IntersectRect` answers with its
-- result and with the rectangle that it writes.
pub record RectOps : Type 0 where
  pub is_rect_empty : Rect → Bool
  pub get_bound_rect : Rect → Rect → Rect
  pub intersect_rect : Rect → Rect → Bool × Rect
  pub screen : Rect

-- `struct GAL_PrivateVideoData`; `sem_update` is the value of the semaphore.
pub record Hidden : Type 0 where
  pub w : ℕ
  pub h : ℕ
  pub pitch : ℕ
  pub fb : Option ℕ
  pub update_th : Option ℕ
  pub rc_dirty : Rect
  pub dirty : Bool
  pub sem_update : ℕ

abbrev pub add32 : ℕ → ℕ → ℕ
add32 a b = (a + b) % 2 ^ 32

-- `SetRect (&rc, 0, 0, 0, 0)`
abbrev pub no_rect : Rect
no_rect = record { left = 0; top = 0; right = 0; bottom = 0 }

-- The `rc` of the loop in `COMMLCD_UpdateRects_Sync`.
abbrev pub rect_of : GalRect → Rect
rect_of r = record { left = r.x; top = r.y; right = add32 r.x r.w; bottom = add32 r.y r.h }

abbrev pub grow : RectOps → Rect → Rect → Rect
grow o bound rc = if o.is_rect_empty bound then rc else o.get_bound_rect bound rc

-- The loop of `COMMLCD_UpdateRects_Sync`.
unfoldable pub grow_all : RectOps → Rect → List GalRect → Rect
grow_all o bound [] = bound
grow_all o bound (r ∷ rs) = grow_all o (grow o bound (rect_of r)) rs

abbrev pub keep_dirty : Hidden → Bool × Rect → Hidden
keep_dirty h (true, bound) = record h { rc_dirty = bound; dirty = true }
keep_dirty h (false, bound) = h

abbrev pub mark : RectOps → Hidden → Rect → Hidden
mark o h bound = if o.is_rect_empty bound then h else keep_dirty h (o.intersect_rect bound o.screen)

-- `COMMLCD_UpdateRects_Sync`
unfoldable pub update_rects : RectOps → Hidden → List GalRect → Hidden
update_rects o h rects = mark o h (grow_all o h.rc_dirty rects)

-- `COMMLCD_UpdateRects_Async`: the same code, all of it under `update_lock`.
unfoldable pub update_rects_async : RectOps → Hidden → List GalRect → Hidden
update_rects_async o h rects = mark o h (grow_all o h.rc_dirty rects)

abbrev pub clean : Hidden → Hidden
clean h = record h { rc_dirty = no_rect; dirty = false }

-- The update, under the test that precedes it.
abbrev pub refresh : Hidden → Bool → Hidden × Option Rect
refresh h true = (clean h, some h.rc_dirty)
refresh h false = (h, none)

abbrev pub refresh_result : Hidden → Bool → Hidden × Option Rect × Bool
refresh_result h true = (clean h, some h.rc_dirty, true)
refresh_result h false = (h, none, false)

-- `COMMLCD_SyncUpdate_Sync`: the device, the rectangle with which it calls `update`, where it does, and the
-- result.
unfoldable pub sync_update : RectOps → Hidden → Hidden × Option Rect × Bool
sync_update o h = refresh_result h (not (o.is_rect_empty h.rc_dirty))

abbrev pub post_if : Hidden → Bool → Hidden × Bool
post_if h true = (record h { sem_update = suc h.sem_update }, true)
post_if h false = (h, false)

-- `COMMLCD_SyncUpdate_Async`
unfoldable pub sync_update_async : Hidden → Hidden × Bool
sync_update_async h = post_if h h.dirty

-- A round of `task_do_update` behind its `sem_wait`: the device, and the rectangle with which it calls
-- `update`, where it does.
unfoldable pub do_update : Hidden → Hidden × Option Rect
do_update h = refresh h h.dirty
