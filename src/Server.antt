-- ===== src/Server.antt =====
-- The requests of the server of source/aple/lecture-4/minigui-server.c: the table of handlers and
-- `__mg_handle_request`, with the blocks and descriptors that a request holds.
pub mod Table
pub mod Request
pub mod Exchange
pub mod Resources
pub mod Handlers
pub mod Reply
use aple.Base.{
  ℕ, suc, ◌+◌, ◌-◌, ◌%◌, ◌^◌, Bool, true, false, Option, none, some, List, [], ◌∷◌, not, ◌||◌, ◌&&◌,
  ◌==◌, leb, if◌then◌else◌,
}
use aple.Base.Bits.{bit_and}
use aple.Wire.{
  Sock, SockErr, sockerr_io, sockerr_closed, sockerr_other, Got, got, not_got, Sent, sent, not_sent,
  word_of,
}

-- `struct req_request`; `handler` is the address of the function, or NULL.
pub record ReqRequest : Type 0 where
  pub handler : Option ℕ
  pub version : ℕ

-- `MAX_SYS_REQID`, `MAX_REQID`, `~REQMASK_FLAGS` and `REQID_IAMLIVE`.
pub record Ids : Type 0 where
  pub max_sys_reqid : ℕ
  pub max_reqid : ℕ
  pub no_flags : ℕ
  pub iamlive : ℕ

-- `a <= b` for an `int` in a word of 32 bits and a constant that is not negative.
abbrev pub int_le : ℕ → ℕ → Bool
int_le a b = leb (2 ^ 31) a || leb a b

abbrev pub put : (ℕ → ReqRequest) → ℕ → ReqRequest → ℕ → ReqRequest
put handlers i r k = if k == i then r else handlers k

-- `RegisterRequestHandler` and `RegisterRequestHandlerV1`, of the version 0 and 1.
unfoldable pub register : Ids → (ℕ → ReqRequest) → ℕ → ℕ → Option ℕ → (ℕ → ReqRequest) × Bool
register c handlers version req_id your_handler =
    if int_le req_id c.max_sys_reqid || not (int_le req_id c.max_reqid)
    then (handlers, false)
    else (put handlers (req_id - 1) (record { handler = your_handler; version = version }), true)

abbrev pub out_of_range : Ids → ℕ → Bool
out_of_range c req_id = int_le req_id 0 || not (int_le req_id c.max_reqid)

-- `GetRequestHandler` and `GetRequestHandlerV1`
unfoldable pub get_request_handler : Ids → (ℕ → ReqRequest) → ℕ → ℕ → Option ℕ
get_request_handler c handlers version req_id =
    if out_of_range c req_id
    then none
    else if (handlers (req_id - 1)).version == version
    then (handlers (req_id - 1)).handler
    else none

-- `GetRequestHandlerEx`, with the version that it writes.
unfoldable pub get_request_handler_ex : Ids → (ℕ → ReqRequest) → ℕ → Option ℕ × Option ℕ
get_request_handler_ex c handlers req_id =
    if out_of_range c req_id
    then (none, none)
    else ((handlers (req_id - 1)).handler, some (handlers (req_id - 1)).version)

-- What `__mg_handle_request` returns; `unset` is where it goes on with a length that was never read.
pub data Ret : Type 0 where
  ret_io ret_closed ret_invarg unset : Ret
  ret : ℕ → Ret

-- Everything around a request: the sockets, `malloc`, the handlers at their addresses, what `SOCKERR_IO` from
-- a handler is, `__mg_remove_client`, and what follows a sign of life.
pub record Env (S W : Type 0) : Type 0 where
  pub sock : Sock S
  pub ids : Ids
  pub handlers : ℕ → ReqRequest
  pub malloc : ℕ → Bool
  pub call_v0 : ℕ → ℕ → List ℕ → ℕ → S × W → (S × W) × Ret
  pub call_v1 : ℕ → ℕ → List ℕ → ℕ → Option ℕ → S × W → (S × W) × Ret
  pub remove_client : ℕ → S × W → S × W
  pub has_dirty : W → ℕ → Bool
  pub check_dirty_znode : ℕ → W → W

-- How a request ends: the blocks that stay allocated, and the descriptors that were received and neither given
-- to a handler nor closed.
pub record Outcome (S W : Type 0) : Type 0 where
  pub sock : S
  pub world : W
  pub ret : Ret
  pub blocks : ℕ
  pub fds : List ℕ

-- `sizeof (_request_data_buff)`
abbrev pub buff_size : ℕ
buff_size = 1024

-- `len_data`, a `size_t`.
abbrev pub sum_of : ℕ → ℕ → ℕ
sum_of a b = (a + b) % 2 ^ 64

-- The size of the buffer that `buff` points to.
unfoldable pub capacity : ℕ → ℕ
capacity len_data = if leb len_data buff_size then buff_size else len_data

-- The blocks that the buffer costs.
abbrev pub blocks_of : ℕ → ℕ
blocks_of len_data = if leb len_data buff_size then 0 else 1

abbrev pub fds_of : Option ℕ → List ℕ
fds_of none = []
fds_of (some fd) = fd ∷ []

module _ {S W : Type 0} (e : Env S W) where
  abbrev pub ends_with : S × W → Ret → ℕ → List ℕ → Outcome S W
  ends_with (s, w) r blocks fds = record {
    sock = s;
    world = w;
    ret = r;
    blocks = blocks;
    fds = fds;
  }

  -- `goto error`
  abbrev pub error : ℕ → S × W → ℕ → Outcome S W
  error cli m blocks = ends_with (e.remove_client cli m) ret_closed blocks []

  abbrev pub failed_read : ℕ → S × W → SockErr → ℕ → Outcome S W
  failed_read cli m sockerr_io blocks = ends_with m ret_io blocks []
  failed_read cli m sockerr_closed blocks = error cli m blocks
  failed_read cli m sockerr_other blocks = ends_with m unset blocks []

  abbrev pub checks_dirty : ℕ → ℕ → S × W → S × W
  checks_dirty req_id cli (s, w) =
      if (req_id == e.ids.iamlive) && e.has_dirty w cli
      then (s, e.check_dirty_znode cli w)
      else (s, w)

  -- Behind the handler: the buffer is freed first.
  abbrev pub handled : ℕ → ℕ → (S × W) × Ret → Outcome S W
  handled req_id cli (m, ret_io) = error cli m 0
  handled req_id cli (m, ret_closed) = ends_with (checks_dirty req_id cli m) ret_closed 0 []
  handled req_id cli (m, ret_invarg) = ends_with (checks_dirty req_id cli m) ret_invarg 0 []
  handled req_id cli (m, unset) = ends_with (checks_dirty req_id cli m) unset 0 []
  handled req_id cli (m, ret n) = ends_with (checks_dirty req_id cli m) (ret n) 0 []

  -- The call of a handler; a descriptor for one of version 0 is closed.
  abbrev pub dispatch : ℕ → ℕ → ℕ → List ℕ → Option ℕ → S × W → Option ℕ → Outcome S W
  dispatch req_id cli len_data buff fd m none =
      ends_with m ret_invarg (blocks_of len_data) (fds_of fd)
  dispatch req_id cli len_data buff fd m (some handler) =
      if (e.handlers (req_id - 1)).version == 1
      then handled req_id cli (e.call_v1 handler cli buff len_data fd m)
      else handled req_id cli (e.call_v0 handler cli buff len_data m)

  -- From `req_id &= ~REQMASK_FLAGS` on.
  abbrev pub look_up : ℕ → ℕ → ℕ → List ℕ → Option ℕ → S × W → Outcome S W
  look_up req_id cli len_data buff fd m =
      if out_of_range e.ids req_id
      then ends_with m ret_invarg (blocks_of len_data) (fds_of fd)
      else dispatch req_id cli len_data buff fd m (e.handlers (req_id - 1)).handler

  abbrev pub received : ℕ → ℕ → ℕ → W → S × Got → Outcome S W
  received req_id cli len_data w (s, not_got x) = failed_read cli (s, w) x (blocks_of len_data)
  received req_id cli len_data w (s, got buff fd) =
      look_up (bit_and req_id e.ids.no_flags) cli len_data buff fd (s, w)

  abbrev pub sizes_read : ℕ → ℕ → ℕ → ℕ → S → W → Outcome S W
  sizes_read req_id cli a b s w =
      if leb (sum_of a b) buff_size || e.malloc (sum_of a b)
      then received req_id cli (sum_of a b) w (e.sock.sock_recvmsg s (a + b))
      else ends_with (s, w) ret_invarg 0 []

  abbrev pub second_read : ℕ → ℕ → ℕ → W → S × Got → Outcome S W
  second_read req_id cli a w (s, not_got x) = failed_read cli (s, w) x 0
  second_read req_id cli a w (s, got b fd) = sizes_read req_id cli a (word_of b) s w

  abbrev pub first_read : ℕ → ℕ → W → S × Got → Outcome S W
  first_read req_id cli w (s, not_got x) = failed_read cli (s, w) x 0
  first_read req_id cli w (s, got a fd) =
      second_read req_id cli (word_of a) w (e.sock.sock_read s 8)

  -- `__mg_handle_request`
  unfoldable pub handle_request : ℕ → ℕ → S → W → Outcome S W
  handle_request req_id cli s w = first_read req_id cli w (e.sock.sock_read s 8)

-- `ServerSendReplyEx`, with the bytes of the message that precedes a reply; what it returns is an error or
-- not.
abbrev pub reply_behind : {S : Type 0} → Sock S → List ℕ → Option ℕ → S × Sent → S × Sent
reply_behind k reply fd (s, sent) = k.sock_sendmsg s reply fd
reply_behind k reply fd (s, not_sent x) = (s, not_sent sockerr_io)

unfoldable pub server_send_reply :
    {S : Type 0} → Sock S → Bool → List ℕ → S → List ℕ → Option ℕ → S × Sent
server_send_reply k is_server head s reply fd =
    if not is_server
    then (s, not_sent sockerr_io)
    else reply_behind k reply fd (k.sock_write s head)
