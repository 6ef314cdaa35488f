-- ===== src/World.antt =====
-- What the message functions see beside a queue: the windows, the queues of all threads, the calling
-- thread and the tick counter (source/aple/lecture-5/minigui-internals.h, for a build with virtual
-- windows, where each message thread has a queue of its own).
use aple.Base.{ℕ, Bool, false, ◌&&◌, ◌||◌, not, Option, none, some, ◌==◌, if◌then◌else◌, suc}
use aple.Msg.{MsgQueue, hwnd_null, hwnd_invalid}

abbrev pub type_hwnd : ℕ
type_hwnd = 0x01

abbrev pub type_mainwin : ℕ
type_mainwin = 0x11

abbrev pub type_control : ℕ
type_control = 0x12

abbrev pub type_virtwin : ℕ
type_virtwin = 0x14

abbrev pub type_wintodel : ℕ
type_wintodel = 0xF1

-- What the message module reads of a `MAINWIN`. `main_win` is `pMainWin`, 0 for NULL; `queue` is the
-- address in `pMsgQueue`; the last two say whether the two callbacks are set.
pub record Window : Type 0 where
  pub data_type : ℕ
  pub win_type : ℕ
  pub main_win : ℕ
  pub queue : Option ℕ
  pub wnd_proc : Bool
  pub notif_proc : Bool

-- `windows` and `queues` are the memory at a handle and at the address of a queue. `tick` is
-- `__mg_tick_counter`, `self` is `pthread_self ()`, `this_queue` what `pthread_getspecific` returns,
-- `dsk_queue` is `__mg_dsk_msg_queue` and `desktop` is `HWND_DESKTOP`.
pub record World : Type 0 where
  pub windows : ℕ → Window
  pub queues : ℕ → MsgQueue
  pub tick : ℕ
  pub self : ℕ
  pub this_queue : Option ℕ
  pub dsk_queue : ℕ
  pub desktop : ℕ

-- `hWnd && hWnd != HWND_INVALID`
abbrev pub is_handle : ℕ → Bool
is_handle h = not (h == hwnd_null) && not (h == hwnd_invalid)

unfoldable pub is_window : World → ℕ → Bool
is_window w h = is_handle h && (w.windows h).data_type == type_hwnd

unfoldable pub is_control_window : World → ℕ → Bool
unfolding is_window
is_control_window w h = is_window w h && (w.windows h).win_type == type_control

unfoldable pub is_main_virt_window : World → ℕ → Bool
unfolding is_window
is_main_virt_window w h =
    is_window w h
    && ((w.windows h).win_type == type_mainwin || (w.windows h).win_type == type_virtwin)

abbrev pub not_null : ℕ → Option ℕ
not_null p = if p == 0 then none else some p

unfoldable pub get_main_window_ptr : World → ℕ → Option ℕ
unfolding is_window
get_main_window_ptr w h = if is_window w h then not_null (w.windows h).main_win else none

unfoldable pub get_main_window_if_control : World → ℕ → Option ℕ
unfolding is_control_window
get_main_window_if_control w h =
    if is_control_window w h then not_null (w.windows h).main_win else none

unfoldable pub get_msg_queue : World → ℕ → Option ℕ
unfolding get_main_window_ptr
get_msg_queue w h = elim (get_main_window_ptr w h) [
  | none ↦ none
  | some main ↦ (w.windows main).queue
]

-- The queue of the main window, if its thread is the caller's. (A main window with no queue, which C
-- would fault on, counts as one of another thread.)
unfoldable pub get_msg_queue_if_window_in_this_thread : World → ℕ → Option ℕ
unfolding get_msg_queue
get_msg_queue_if_window_in_this_thread w h = elim (get_msg_queue w h) [
  | none ↦ none
  | some q ↦ if (w.queues q).th == w.self then some q else none
]

-- Whether `getMainWinIfWindowInThisThread` finds a main window.
unfoldable pub in_this_thread : World → ℕ → Bool
unfolding get_msg_queue
in_this_thread w h = elim (get_msg_queue w h) [ none ↦ false | some q ↦ (w.queues q).th == w.self ]

-- A store into the queue at address `q`.
abbrev pub update_queue : World → ℕ → (MsgQueue → MsgQueue) → World
update_queue w q f = record w { queues = λ k. if k == q then f (w.queues q) else w.queues k }

-- `POST_MSGQ`: the count of the semaphore goes to 1 from 0, and no higher.
unfoldable pub post_msgq : MsgQueue → MsgQueue
post_msgq q = if q.sem_value == 0 then record q { sem_value = suc q.sem_value } else q

-- `if (!getMainWinIfWindowInThisThread (hwnd)) POST_MSGQ (q)`
unfoldable pub wake : World → ℕ → MsgQueue → MsgQueue
unfolding in_this_thread post_msgq
wake w h q = if in_this_thread w h then q else post_msgq q
