-- ===== src/Client.antt =====
-- The requests of a client in source/aple/lecture-4/minigui-client.c: `ClientRequestEx2`, the messages that
-- come while it waits for its reply, and the sign of life.
pub mod Delivery
pub mod Reply
pub mod Layers
use aple.Base.{
  ℕ, zero, suc, ◌+◌, ◌-◌, ◌%◌, ◌^◌, Bool, true, false, Option, none, some, List, [], ◌∷◌, ◌++◌,
  length, not, ◌||◌, ◌&&◌, ◌==◌, ltb, if◌then◌else◌,
}
use aple.Base.Bits.{bit_and}
use aple.Msg.{Msg, hwnd_null, hwnd_invalid}
use aple.Wire.{
  Sock, SockErr, sockerr_io, sockerr_closed, sockerr_other, Got, got, not_got, Sent, sent, not_sent,
  bytes_of,
}

-- `REQUEST`; `len_data` is the number of its bytes.
pub record Request : Type 0 where
  pub id : ℕ
  pub data_bytes : List ℕ

-- The client's state: `hooks` tells that `OnLockClientReq` and `OnUnlockClientReq` are set, `lock_depth` how
-- often the first was called more than the second; `queued` and `updated` are the messages that went to
-- `QueueDeskMessage` and to `__mg_update_window`.
pub record Client (S : Type 0) : Type 0 where
  pub is_server : Bool
  pub client_id : ℕ
  pub hooks : Bool
  pub lock_depth : ℕ
  pub tick : ℕ
  pub last_ticks : ℕ
  pub conn : S
  pub queued : List Msg
  pub updated : List Msg

-- Everything around it: the socket, constants, the bytes of a `MSG`, and functions of other files.
pub record Around (S : Type 0) : Type 0 where
  pub sock : Sock S
  pub joinlayer_first : ℕ
  pub iamlive : ℕ
  pub wakeup_client : ℕ
  pub updatecliwin : ℕ
  pub hwnd_desktop : ℕ
  pub sizeof_msg : ℕ
  pub msg_of : List ℕ → Msg
  pub check_hwnd : ℕ → ℕ → Bool
  pub tick_count : ℕ → ℕ

-- How a request ends: with 0, and the result and descriptor where a reply is wanted, with -1, or in
-- `exit (255)`.
pub data Answer : Type 0 where
  no_reply failed exits out_of_fuel : Answer
  replied : List ℕ → Option ℕ → Answer

abbrev pub has_flag : ℕ → ℕ → Bool
has_flag id mask = not (bit_and id mask == 0)

module _ {S : Type 0} (e : Around S) where
  abbrev pub lock : Client S → Client S
  lock c = if c.hooks then record c { lock_depth = suc c.lock_depth } else c

  abbrev pub unlock : Client S → Client S
  unlock c = if c.hooks then record c { lock_depth = c.lock_depth - 1 } else c

  abbrev pub on_conn : Client S → S → Client S
  on_conn c s = record c { conn = s }

  -- `sock_error`
  abbrev pub sock_error : Client S → SockErr → Client S × Answer
  sock_error c sockerr_io = (unlock c, failed)
  sock_error c sockerr_closed = (unlock c, exits)
  sock_error c sockerr_other = (c, failed)

  abbrev pub send_parts : List ℕ → Option ℕ → S × Sent → S × Sent
  send_parts b fd (s, sent) = e.sock.sock_sendmsg s b fd
  send_parts b fd (s, not_sent x) = (s, not_sent x)

  abbrev pub write_next : List ℕ → S × Sent → S × Sent
  write_next b (s, sent) = e.sock.sock_write s b
  write_next b (s, not_sent x) = (s, not_sent x)

  -- The request on its way: its id, the sizes of its parts, and the parts.
  unfoldable pub send_request : S → Request → List ℕ → Option ℕ → S × Sent
  send_request s r ex fd = send_parts (r.data_bytes ++ ex) fd (
      write_next (bytes_of 8 (length ex))
        (write_next (bytes_of 8 (length r.data_bytes)) (e.sock.sock_write s (bytes_of 4 r.id))))

  abbrev pub sent_alone : Client S → S × Sent → Client S × Answer
  sent_alone c (s, sent) = (unlock (on_conn c s), no_reply)
  sent_alone c (s, not_sent x) = sock_error (on_conn c s) x

  abbrev pub too_early : Client S → ℕ → Bool
  too_early c id = (c.client_id == 0) && has_flag id e.joinlayer_first

  -- `ClientRequestEx2` without a result, as `ClientRequest (&req, NULL, 0)` calls it.
  unfoldable pub request_alone : Client S → Request → List ℕ → Option ℕ → Client S × Answer
  request_alone c r ex fd =
      if c.is_server
      then (c, failed)
      else if too_early c r.id
      then (c, exits)
      else sent_alone (lock c) (send_request c.conn r ex fd)

  abbrev pub live_now : Client S → Bool → Client S
  live_now c woken = record c { tick = e.tick_count c.tick }

  -- `check_live`; `exits` where the process ends within it.
  unfoldable pub check_live : Client S → Bool → Client S × Answer
  check_live c woken =
      let d : Client S = live_now c woken in
      if woken || ltb ((d.last_ticks + 100) % 2 ^ 32) d.tick
      then request_alone (record d { last_ticks = d.tick })
          (record { id = e.iamlive; data_bytes = bytes_of 4 d.tick }) [] none
      else (d, no_reply)

  abbrev pub queues : Client S → Msg → Client S
  queues c m = record c { queued = c.queued ++ (m ∷ []) }

  -- What `process_socket_message` does with a message that is no `MSG_WAKEUP_CLIENT`.
  abbrev pub delivers : Client S → Msg → Client S
  delivers c m =
      if (m.message == e.updatecliwin) && e.check_hwnd m.hwnd c.client_id
      then record c { updated = c.updated ++ (m ∷ []) }
      else if m.hwnd == hwnd_null
      then queues c (record m { hwnd = e.hwnd_desktop })
      else if e.check_hwnd m.hwnd c.client_id
      then queues c m
      else c

  -- `process_socket_message`
  unfoldable pub process_socket_message : Client S → Msg → Client S × Answer
  process_socket_message c m =
      if m.message == e.wakeup_client then check_live c true else (delivers c m, no_reply)

  abbrev pub got_reply : Client S → Bool → S × Got → Client S × Answer
  got_reply c wants_fd (s, got b fd) =
      (unlock (on_conn c s), replied b (if wants_fd then fd else none))
  got_reply c wants_fd (s, not_got x) = sock_error (on_conn c s) x

  -- Behind a message: the result of the sign of life is not looked at.
  abbrev pub after_message : (Client S → Client S × Answer) → Client S × Answer → Client S × Answer
  after_message next (d, exits) = (d, exits)
  after_message next (d, no_reply) = next d
  after_message next (d, failed) = next d
  after_message next (d, out_of_fuel) = next d
  after_message next (d, replied b fd) = next d

  abbrev pub on_message :
      (Client S → Client S × Answer) → Client S → ℕ → Bool → S × Got → Client S × Answer
  on_message next c len_rslt wants_fd (s, not_got x) = sock_error (on_conn c s) x
  on_message next c len_rslt wants_fd (s, got b fd) =
      if (e.msg_of b).hwnd == hwnd_invalid
      then got_reply (on_conn c s) wants_fd (e.sock.sock_recvmsg s len_rslt)
      else after_message next (process_socket_message (on_conn c s) (e.msg_of b))

  -- The loop that waits for the reply, and the reply; `len_rslt` is the size of the result.
  unfoldable pub wait_reply : ℕ → Client S → ℕ → Bool → Client S × Answer
  wait_reply zero c len_rslt wants_fd = (c, out_of_fuel)
  wait_reply (suc fuel) c len_rslt wants_fd =
      on_message (λ d. wait_reply fuel d len_rslt wants_fd) c len_rslt wants_fd
        (e.sock.sock_read c.conn e.sizeof_msg)

  -- Behind the request: where no result is wanted nothing is read.
  abbrev pub sent_then : ℕ → Client S → ℕ → Bool → S × Sent → Client S × Answer
  sent_then fuel c len_rslt wants_fd (s, sent) =
      if len_rslt == 0
      then (unlock (on_conn c s), no_reply)
      else wait_reply fuel (on_conn c s) len_rslt wants_fd
  sent_then fuel c len_rslt wants_fd (s, not_sent x) = sock_error (on_conn c s) x

  -- `ClientRequestEx2`; a `result` that is NULL counts as one of 0 bytes.
  unfoldable pub client_request :
      ℕ → Client S → Request → List ℕ → Option ℕ → ℕ → Bool → Client S × Answer
  client_request fuel c r ex fd len_rslt wants_fd =
      if c.is_server
      then (c, failed)
      else if too_early c r.id
      then (c, exits)
      else sent_then fuel (lock c) len_rslt wants_fd (send_request c.conn r ex fd)
