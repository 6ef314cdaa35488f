-- ===== src/Tests/Wires.antt =====
-- A connection that is two lists of pieces, a client and a server on it.
use aple.Base.{
  arith, ℕ, ◌+◌, ◌^◌, ◌≤◌, ◌<◌, ◌≡◌, ◌↔◌, refl, ap, sym, subst, Bool, true, false, Option, none,
  some, List, [], ◌∷◌, ◌++◌, length, ◌==◌, ==_refl, if◌then◌else◌,
}
use aple.Msg.{Msg, null_msg, hwnd_invalid}
use aple.Wire.{
  Piece, Sock, sockerr_io, sockerr_other, Works, Got, got, not_got, Sent, sent, bytes_of, word_of,
}
use aple.Server.{
  ReqRequest, Ids, ret, Env, sum_of, capacity, register, get_request_handler,
  get_request_handler_ex, handle_request, handled, ret_invarg,
}
use aple.Server.Table.{get-register, Registration}
use aple.Server.Request.{sizes_of, capacity_enough, unknown_request}
use aple.Server.Exchange.{request_arrives}
use aple.Client.{Request, Client, Around, replied, client_request}
use aple.Client.Delivery.{plain, plains, pieces_of, delivers_all, held_at}
use aple.Client.Reply.{client_request_lem}

abbrev Ends : Type 0
Ends = List Piece × List Piece

abbrev hands : Piece → List Piece → List Piece → Bool → Ends × Got
hands p q o true = ((q, o), got p.bytes p.fd)
hands p q o false = ((p ∷ q, o), not_got sockerr_other)

abbrev takes : Ends → ℕ → Ends × Got
takes ([], o) n = (([], o), not_got sockerr_io)
takes (p ∷ q, o) n = hands p q o (length p.bytes == n)

abbrev puts : Ends → List ℕ → Option ℕ → Ends × Sent
puts (q, o) b f = ((q, o ++ (record { bytes = b; fd = f } ∷ [])), sent)

abbrev socket : Sock Ends
socket = record {
  sock_read = takes;
  sock_recvmsg = takes;
  sock_write = λ s b. puts s b none;
  sock_sendmsg = puts;
}

abbrev Holds : Ends → List Piece → List Piece → Type 0
Holds s q o = s ≡ (q, o)

takes_lem :
    (s : Ends) (b : List ℕ) (f : Option ℕ) (q o : List Piece)
    → Holds s (record { bytes = b; fd = f } ∷ q) o
    → Holds (takes s (length b)).0 q o × ((takes s (length b)).1 ≡ got b f)
takes_lem s b f q o h =
    subst (λ (t : Ends). Holds (takes t (length b)).0 q o × ((takes t (length b)).1 ≡ got b f))
      (sym h)
      (
        ap (λ x. (hands (record { bytes = b; fd = f }) q o x).0) (==_refl (length b)),
        ap (λ x. (hands (record { bytes = b; fd = f }) q o x).1) (==_refl (length b)),
      )

puts_lem :
    (s : Ends) (b : List ℕ) (f : Option ℕ) (q o : List Piece)
    → Holds s q o
    → Holds (puts s b f).0 q (o ++ (record { bytes = b; fd = f } ∷ [])) × ((puts s b f).1 ≡ sent)
puts_lem (i, j) b f q o h =
    (ap (λ (t : Ends). (t.0, t.1 ++ (record { bytes = b; fd = f } ∷ []))) h, refl)

socket-Works : Works socket Holds
socket-Works = record {
  reads = λ s b q o h. takes_lem s b none q o h;
  receives = takes_lem;
  writes = λ s b q o h. puts_lem s b none q o h;
  sends = puts_lem;
}

abbrev ids : Ids
ids = record { max_sys_reqid = 37; max_reqid = 40; no_flags = 0xFFFF; iamlive = 14 }

abbrev handlers : ℕ → ReqRequest
handlers k = record {
  handler = if k == 36 then none else some (100 + k);
  version = if k == 12 then 1 else 0;
}

get-register_example :
    ((register ids handlers 1 39 (some 7)).1 ≡ true)
    × (get_request_handler ids (register ids handlers 1 39 (some 7)).0 1 39 ≡ some 7)
    × (get_request_handler ids (register ids handlers 1 39 (some 7)).0 0 39 ≡ none)
    × (get_request_handler_ex ids (register ids handlers 1 39 (some 7)).0 39 ≡ (some 7, some 1))
    × (get_request_handler ids (register ids handlers 1 39 (some 7)).0 0 5
        ≡ get_request_handler ids handlers 0 5)
get-register_example =
    get-register ids handlers 1 0 39 5 0 (some 7)
      (record { above = omega arith; below = omega arith; is_int = omega arith })
      (λ e. absurd (omega arith)) (λ e. absurd (omega arith))

abbrev registrations : List Registration
registrations =
    record { version = 0; req_id = 5; handler = some 1 }
    ∷ record { version = 1; req_id = 40; handler = some 2 }
    ∷ []

capacity_enough_example : (1000 + 1000 ≤ capacity (sum_of 1000 1000)) ↔ (1000 + 1000 < 2 ^ 64)
capacity_enough_example = capacity_enough 1000 1000 (omega arith) (omega arith)

-- Every handler answers 0 and puts the bytes that it gets behind the others.
abbrev env : Env Ends (List ℕ)
env = record {
  sock = socket;
  ids = ids;
  handlers = handlers;
  malloc = λ n. true;
  call_v0 = λ h cli b n (s, w). ((s, w ++ b), ret 0);
  call_v1 = λ h cli b n fd (s, w). ((s, w ++ b), ret 0);
  remove_client = λ cli m. m;
  has_dirty = λ w cli. false;
  check_dirty_znode = λ cli w. w;
}

unknown_request_example :
    (t : Ends) × (Holds t [] []
      × (handle_request env 37 2
            (sizes_of 2 1 ++ (record { bytes = 8 ∷ 9 ∷ 7 ∷ []; fd = some 4 } ∷ []), [])
            []
          ≡ record { sock = t; world = []; ret = ret_invarg; blocks = 0; fds = 4 ∷ [] }))
unknown_request_example =
    unknown_request env Holds socket-Works _ [] 37 2 2 1 (8 ∷ 9 ∷ 7 ∷ []) (some 4) [] [] refl refl
      (omega arith) refl refl

abbrev order : Request
order = record { id = 13; data_bytes = 8 ∷ 9 ∷ [] }

request_arrives_example :
    ((takes (pieces_of order (7 ∷ []) (some 4) ++ [], []) 4).1 ≡ got (bytes_of 4 13) none)
    × (t : Ends) × (Holds t [] []
        × (handle_request env
              (word_of (bytes_of 4 13))
              2
              (takes (pieces_of order (7 ∷ []) (some 4) ++ [], []) 4).0
              []
            ≡ handled env 13 2 (env.call_v1 112 2 (8 ∷ 9 ∷ 7 ∷ []) 3 (some 4) (t, []))))
request_arrives_example =
    request_arrives env Holds socket-Works (pieces_of order (7 ∷ []) (some 4) ++ [], []) [] 2 112
      order (7 ∷ []) (some 4) [] [] refl (omega arith) (omega arith) refl refl refl

abbrev msg_bytes : List ℕ → Msg
msg_bytes [] = null_msg
msg_bytes (b ∷ bs) = record null_msg { hwnd = if b == 255 then hwnd_invalid else b }

abbrev around : Around Ends
around = record {
  sock = socket;
  joinlayer_first = 0x10000;
  iamlive = 14;
  wakeup_client = 0xFF;
  updatecliwin = 0xFE;
  hwnd_desktop = 1;
  sizeof_msg = 2;
  msg_of = msg_bytes;
  check_hwnd = λ h c. h == 6;
  tick_count = λ t. t;
}

-- A message for the desktop, one for a window, one for another client, and a reply of three bytes.
abbrev client : Client Ends
client = record {
  is_server = false;
  client_id = 3;
  hooks = true;
  lock_depth = 0;
  tick = 50;
  last_ticks = 40;
  conn = (
    plains ((0 ∷ 0 ∷ []) ∷ (6 ∷ 0 ∷ []) ∷ (9 ∷ 0 ∷ []) ∷ [])
        ++ (plain (255 ∷ 0 ∷ []) ∷ record { bytes = 1 ∷ 2 ∷ 3 ∷ []; fd = some 5 } ∷ []),
    [],
  );
  queued = [];
  updated = [];
}

client_request_lem_example :
    (t : Ends) × (Holds t [] (pieces_of order (7 ∷ []) none)
      × (client_request around 4 client order (7 ∷ []) none 3 true ≡ (
        held_at around
            (delivers_all around client ((0 ∷ 0 ∷ []) ∷ (6 ∷ 0 ∷ []) ∷ (9 ∷ 0 ∷ []) ∷ []))
            t
            0,
        replied (1 ∷ 2 ∷ 3 ∷ []) (some 5),
      )))
client_request_lem_example =
    client_request_lem around Holds socket-Works 4 client order (7 ∷ []) none
      ((0 ∷ 0 ∷ []) ∷ (6 ∷ 0 ∷ []) ∷ (9 ∷ 0 ∷ []) ∷ []) (255 ∷ 0 ∷ []) (1 ∷ 2 ∷ 3 ∷ []) (some 5)
      true [] [] refl refl (omega arith)
      (refl, refl, refl, (refl, refl, refl, (refl, refl, refl, tt))) refl refl refl refl
