-- ===== src/Tests.antt =====
-- A small program to try the theorems on: two main windows of two threads, and the queue of one of them
-- with messages of each kind.
mod Posting
mod Taking
mod Sending
mod Throwing
mod Semaphores
mod Threads
mod Instances
mod Pools
mod Rects
mod Lcds
mod Wires
mod Resources
use aple.Base.{
  ℕ, Bool, true, false, Option, none, some, List, [], ◌∷◌, ◌==◌, if◌then◌else◌, replicate,
}
use aple.Base.Int.{ℤ, pos, negsuc}
use aple.Msg.{Msg, null_msg, QMsg, SyncMsg, Ring, MsgQueue, qs_empty, msg_mousemove}
use aple.World.{Window, World, type_hwnd, type_mainwin}
use aple.Paint.{Main, main, control, nil, end}
use aple.Peek.{Capture, Ask, Scene}
use aple.Send.{Procs}

abbrev pub msg_of : ℕ → ℕ → ℕ → Msg
msg_of hwnd message l_param = record null_msg { hwnd = hwnd; message = message; l_param = l_param }

-- The windows 100 and 101 have the queue 1, and 200 has the queue 2.
abbrev pub window_at : ℕ → Window
window_at h = record {
  data_type = type_hwnd;
  win_type = type_mainwin;
  main_win = h;
  queue = if h == 200 then some 2 else some 1;
  wnd_proc = true;
  notif_proc = false;
}

-- A mouse move and a key wait.
abbrev pub ring_two : Ring
ring_two = record {
  msg = msg_of 100 msg_mousemove 7 ∷ msg_of 101 16 8 ∷ null_msg ∷ null_msg ∷ [];
  len = 4;
  readpos = 0;
  writepos = 2;
}

abbrev pub node : ℕ → ℕ → QMsg
node addr hwnd = record { addr = addr; body = msg_of hwnd 300 0 }

abbrev pub sync_node : ℕ → ℕ → SyncMsg
sync_node addr hwnd = record { addr = addr; body = msg_of hwnd 400 5; retval = negsuc 0 }

abbrev pub empty_queue : MsgQueue
empty_queue = record {
  th = 50;
  sem_value = 0;
  state = qs_empty;
  notify = [];
  last_notify = none;
  sync = [];
  last_sync = none;
  on_idle = true;
  ring = record { msg = replicate 4 null_msg; len = 4; readpos = 0; writepos = 0 };
  loop_depth = pos 0;
  idle_counter = 0;
  first_timer_slot = 0;
  timer_slots = none ∷ none ∷ [];
  old_tick_count = 0;
  expired = false ∷ false ∷ [];
}

abbrev pub busy_queue : MsgQueue
busy_queue = record empty_queue {
  state = record qs_empty { notify_msg = true; sync_msg = true; post_msg = true };
  notify = node 11 100 ∷ node 12 101 ∷ [];
  last_notify = some 12;
  sync = sync_node 21 100 ∷ sync_node 22 101 ∷ [];
  last_sync = some 22;
  ring = ring_two;
}

-- The calling thread is 60, of the queue 2.
abbrev pub world : World
world = record {
  windows = window_at;
  queues = λ k. if k == 1 then busy_queue else record empty_queue { th = 60 };
  tick = 1000;
  self = 60;
  this_queue = some 2;
  dsk_queue = 2;
  desktop = 200;
}

abbrev pub take_all : Ask
take_all = record { hwnd = 0; filter_min = 0; filter_max = 0; remove = true }

abbrev pub no_capture : Capture
no_capture = record { wnd = 0; to_screen = λ h l. l; has_flag = λ n. false; set_flag = λ n. n }

abbrev pub root_tree : Main
root_tree = main (control 100 false false nil) end

abbrev pub scene : Scene
scene = record {
  capture = no_capture;
  root = root_tree;
  desktop = 200;
  is_desktop_queue = false;
  region = λ h. h;
}

-- Procedures that change nothing and return their last argument.
abbrev pub procs : Procs
procs = record {
  wnd_proc = λ w hwnd message w_param l_param. (w, pos l_param);
  notif_proc = λ w hwnd id code time. w;
  make_long = λ lo hi. lo;
  translate = λ w m. w;
  license = λ m. m;
  canceled = negsuc 1;
  err_inv_hwnd = negsuc 2;
}
