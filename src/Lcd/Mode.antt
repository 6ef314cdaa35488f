-- ===== src/Lcd/Mode.antt =====
-- The life of the engine of source/aple/lecture-5/minigui-commlcd.c: `COMMLCD_CreateDevice`,
-- `COMMLCD_VideoInit`, `COMMLCD_SetVideoMode`, `COMMLCD_VideoQuit` and the small functions.
pub mod Session
use aple.Base.{
  ℕ, ◌≡◌, refl, ap, sym, ◌∙◌, Bool, true, false, Option, none, some, List, [], ◌∷◌, ◌++◌,
  if◌then◌else◌, ◌⊎◌, inl, inr,
}
use aple.Lcd.{Rect, RectOps, Hidden, no_rect}
use aple.Lcd.Pixels.{Laws, Inside}
use aple.Lcd.Dirty.{Valid}

-- The pixel formats of an LCD, and any other value of the type.
pub data LcdType : Type 0 where
  pseudo_rgb332 true_rgb555 true_rgb565 true_rgb888 true_rgb0888 true_argb1555 true_argb8888
        true_abrg8888 other_type :
      LcdType

pub data UpdateMethod : Type 0 where
  update_none update_sync update_async : UpdateMethod

-- `struct commlcd_info`
pub record Info : Type 0 where
  pub width : ℕ
  pub height : ℕ
  pub bpp : ℕ
  pub pitch : ℕ
  pub fb : ℕ
  pub type : LcdType
  pub update_method : UpdateMethod

pub record Masks : Type 0 where
  pub r : ℕ
  pub g : ℕ
  pub b : ℕ
  pub a : ℕ

pub record Surface : Type 0 where
  pub format : Option (ℕ × Masks)
  pub fullscreen : Bool
  pub w : ℕ
  pub h : ℕ
  pub pitch : ℕ
  pub pixels : Option ℕ

-- `UpdateRects` and `SyncUpdate` of a device, where they are set: the functions of one kind.
pub data Kind : Type 0 where
  sync_kind async_kind : Kind

-- `GAL_VideoDevice`, as far as the engine sets it.
pub record Device : Type 0 where
  pub hidden : Hidden
  pub update_rects_call : Option Kind
  pub sync_update_call : Option Kind

-- The calls of the engine to the LCD and to the thread layer.
pub data Call : Type 0 where
  release lcd_init : Call
  create cancel join : ℕ → Call

-- The LCD and the functions around the engine: `getinfo`, with its error, `init` and its success, whether
-- there is a `release`, `GAL_ReallocFormat`, and the thread that `pthread_create` makes.
pub record Lcd : Type 0 where
  pub getinfo : ℕ → ℕ → ℕ → Option Info
  pub init : Bool
  pub has_release : Bool
  pub realloc_format : ℕ → Masks → Bool
  pub thread : Option ℕ

-- The private data after `memset`.
abbrev pub zeroed : Hidden
zeroed = record {
  w = 0;
  h = 0;
  pitch = 0;
  fb = none;
  update_th = none;
  rc_dirty = no_rect;
  dirty = false;
  sem_update = 0;
}

-- `COMMLCD_CreateDevice`, with the success of its two allocations: the device, and how many blocks it keeps.
unfoldable pub create_device : Bool → Bool → Option Device × ℕ
create_device true true =
    (some (record { hidden = zeroed; update_rects_call = none; sync_update_call = none }), 2)
create_device true false = (none, 0)
create_device false second = (none, 0)

-- `COMMLCD_VideoInit`: the bits and bytes of a pixel, or the error.
unfoldable pub video_init : Lcd → Option (ℕ × ℕ) × List Call
video_init lcd = if lcd.init then (some (8, 1), lcd_init ∷ []) else (none, lcd_init ∷ [])

-- The masks of `COMMLCD_SetVideoMode`.
abbrev pub masks_of : LcdType → Masks
masks_of pseudo_rgb332 = record { r = 0xE0; g = 0x1C; b = 0x03; a = 0 }
masks_of true_rgb555 = record { r = 0x7C00; g = 0x03E0; b = 0x001F; a = 0 }
masks_of true_rgb565 = record { r = 0xF800; g = 0x07E0; b = 0x001F; a = 0 }
masks_of true_rgb888 = record { r = 0x00FF0000; g = 0x0000FF00; b = 0x000000FF; a = 0 }
masks_of true_rgb0888 = record { r = 0x00FF0000; g = 0x0000FF00; b = 0x000000FF; a = 0 }
masks_of true_argb1555 = record { r = 0x7C00; g = 0x03E0; b = 0x001F; a = 0x8000 }
masks_of true_argb8888 = record { r = 0x00FF0000; g = 0x0000FF00; b = 0x000000FF; a = 0xFF000000 }
masks_of true_abrg8888 = record { r = 0x0000FF00; g = 0x000000FF; b = 0x00FF0000; a = 0xFF000000 }
masks_of other_type = record { r = 0; g = 0; b = 0; a = 0 }

abbrev pub with_info : Hidden → Info → Hidden
with_info h i = record h { w = i.width; h = i.height; pitch = i.pitch; fb = some i.fb }

abbrev pub asynchronous : Device → Hidden → Device
asynchronous d h = record d {
  hidden = h;
  update_rects_call = some async_kind;
  sync_update_call = some async_kind;
}

abbrev pub with_thread : Device → Option ℕ → Device × List Call
with_thread d none = (asynchronous d (record d.hidden { sem_update = 0 }), [])
with_thread d (some th) =
    (asynchronous d (record d.hidden { sem_update = 0; update_th = some th }), create th ∷ [])

abbrev pub with_method : Lcd → Device → UpdateMethod → Device × List Call
with_method lcd d update_none = (
  record d {
    hidden = record d.hidden { update_th = none };
    update_rects_call = none;
    sync_update_call = none;
  },
  [],
)
with_method lcd d update_async = with_thread d lcd.thread
with_method lcd d update_sync = (
  record d {
    hidden = record d.hidden { update_th = none };
    update_rects_call = some sync_kind;
    sync_update_call = some sync_kind;
  },
  [],
)

abbrev pub screen_of : Info → Surface
screen_of i = record {
  format = some (i.bpp, masks_of i.type);
  fullscreen = true;
  w = i.width;
  h = i.height;
  pitch = i.pitch;
  pixels = some i.fb;
}

abbrev pub release_calls : Lcd → List Call
release_calls lcd = if lcd.has_release then release ∷ [] else []

abbrev pub no_format : Device → Info → Device
no_format d i = record d { hidden = record (with_info d.hidden i) { fb = none } }

abbrev pub with_surface : Surface → Device × List Call → Device × Option Surface × List Call
with_surface s (d, cs) = (d, some s, cs)

abbrev pub format_set : Lcd → Device → Info → Bool → Device × Option Surface × List Call
format_set lcd d i true =
    with_surface (screen_of i)
      (with_method lcd (record d { hidden = with_info d.hidden i }) i.update_method)
format_set lcd d i false = (no_format d i, none, release_calls lcd)

abbrev pub info_found : Lcd → Device → Option Info → Device × Option Surface × List Call
info_found lcd d none = (d, none, [])
info_found lcd d (some i) = format_set lcd d i (lcd.realloc_format i.bpp (masks_of i.type))

-- `COMMLCD_SetVideoMode`: the device, the surface or the error, and the calls.
unfoldable pub set_video_mode : Lcd → Device → ℕ → ℕ → ℕ → Device × Option Surface × List Call
set_video_mode lcd d width height bpp = info_found lcd d (lcd.getinfo width height bpp)

abbrev pub stop_thread : Option ℕ → List Call
stop_thread none = []
stop_thread (some th) = cancel th ∷ join th ∷ []

-- `COMMLCD_FreeHWSurface`, and what `COMMLCD_VideoQuit` does with the screen.
abbrev pub without_pixels : Surface → Surface
without_pixels s = record s { pixels = none }

-- `COMMLCD_VideoQuit`: the screen, where there is one, and the calls, the last of them behind the end of the
-- thread.
unfoldable pub video_quit : Lcd → Device → Option Surface → Option Surface × List Call
video_quit lcd d none = (none, stop_thread d.hidden.update_th ++ release_calls lcd)
video_quit lcd d (some s) =
    (some (without_pixels s), stop_thread d.hidden.update_th ++ release_calls lcd)
