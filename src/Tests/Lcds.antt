-- ===== src/Tests/Lcds.antt =====
-- An LCD of eight times eight pixels, with and without a thread that updates it.
use aple.Base.{ℕ, ◌+◌, ◌≤◌, ◌≡◌, refl, Bool, true, false, none, some, [], ◌∷◌, ◌++◌, ◌⊎◌}
use aple.Lcd.{GalRect, grow_all, update_rects_async, sync_update, sync_update_async, do_update}
use aple.Lcd.Pixels.{key, Inside, Covered}
use aple.Lcd.Dirty.{Valid, Shows, clean-Valid, draws, sync-Shows_all}
use aple.Lcd.Updater.{
  waiting, checked, gone, Engine, draws_on, syncs, rounded, with_value, wakes, passes, rounds,
  interrupted, Step, drawing, syncing, Reach, start, later,
}
use aple.Lcd.Updater.Promise.{every_round-Shows}
use aple.Lcd.Updater.Ending.{Runs, halt, step, measure, CanUpdate, no_update_is_lost, quit_lem}
use aple.Lcd.Mode.{
  Lcd, Device, true_rgb565, update_async, zeroed, set_video_mode, video_quit, release_calls,
}
use aple.Lcd.Mode.Session.{InOrder, created, stops, set_video_mode_lem}
use aple.Tests.Rects.{rects, rects-Laws}

abbrev small : GalRect
small = record { x = 2; y = 3; w = 4; h = 1 }

abbrev wide : GalRect
wide = record { x = 0; y = 6; w = 20; h = 9 }

zeroed-Valid : Valid rects zeroed
zeroed-Valid = clean-Valid rects zeroed rects-Laws

sync-Shows_all_example :
    Shows rects
      (small ∷ wide ∷ [])
      (sync_update rects (draws rects zeroed ((small ∷ []) ∷ (wide ∷ []) ∷ []))).1
    × ((sync_update rects
          (sync_update rects (draws rects zeroed ((small ∷ []) ∷ (wide ∷ []) ∷ []))).0).2
        ≡ false)
sync-Shows_all_example =
    sync-Shows_all rects zeroed ((small ∷ []) ∷ (wide ∷ []) ∷ []) rects-Laws zeroed-Valid

abbrev first : Engine
first = record { hidden = zeroed; updater = waiting; canceled = false; drawn = []; promised = [] }

-- Both rectangles are drawn, and the first `SyncUpdate` has come.
abbrev asked : Engine
asked = syncs (draws_on rects first (small ∷ wide ∷ []))

asked-Reach : (point : Bool) → Reach rects point zeroed asked
asked-Reach point = later (later start (drawing _ (small ∷ wide ∷ []) refl)) (syncing _ refl)

every_round-Shows_example : Shows rects (small ∷ wide ∷ []) (do_update asked.hidden).1
every_round-Shows_example = every_round-Shows rects-Laws zeroed-Valid (asked-Reach false)

abbrev shown : Engine
shown =
    rounded (record asked { hidden = with_value asked.hidden 0; updater = checked })
      (do_update (with_value asked.hidden 0))

shown-Runs : Runs false 3 asked shown
unfolding update_rects_async sync_update_async grow_all key
shown-Runs = step (wakes _ 0 refl refl) (step (passes _ refl refl) (step (rounds _ refl) (halt _)))

no_update_is_lost_example :
    (3 + measure shown ≤ measure asked)
    × (((x y : ℕ) → Covered shown.promised x y → ¬ Inside rects.screen x y) ⊎ CanUpdate false shown)
no_update_is_lost_example =
    no_update_is_lost rects-Laws zeroed-Valid (asked-Reach false) refl shown-Runs

abbrev quit : Engine
quit = record first { canceled = true }

abbrev over : Engine
over = record quit { updater = gone }

quit_lem_example :
    (1 + measure over ≤ measure quit)
    × (CanUpdate true over
        ⊎ (gone ≡ gone)
        ⊎ ((true ≡ false) × (gone ≡ waiting) × ((u : Engine) → ¬ Step rects true over u)))
quit_lem_example = quit_lem refl (step (interrupted quit refl refl refl) (halt over))

abbrev lcd : Lcd
lcd = record {
  getinfo = λ width height bpp. some (record {
    width = width;
    height = height;
    bpp = bpp;
    pitch = 16;
    fb = 4096;
    type = true_rgb565;
    update_method = update_async;
  });
  init = true;
  has_release = true;
  realloc_format = λ bpp masks. true;
  thread = some 77;
}

abbrev device : Device
device = record { hidden = zeroed; update_rects_call = none; sync_update_call = none }

device-InOrder : InOrder rects device
device-InOrder = record { paired = refl; valid = zeroed-Valid }

set_video_mode_lem_example :
    InOrder rects (set_video_mode lcd device 8 8 16).0
    × ((video_quit lcd (set_video_mode lcd device 8 8 16).0 (set_video_mode lcd device 8 8 16).1).1
        ≡ stops (created (set_video_mode lcd device 8 8 16).2) ++ release_calls lcd)
set_video_mode_lem_example = set_video_mode_lem rects lcd device 8 8 16 refl device-InOrder
