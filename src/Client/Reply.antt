-- ===== src/Client/Reply.antt =====
-- A client's request on a connection that works, up to its reply.
use aple.Base.{
  ℕ, zero, suc, ◌<◌, ◌≡◌, refl, ap, ◌∙◌, subst, Bool, true, false, Option, none, List, [], ◌∷◌,
  ◌++◌, length, ◌==◌, if◌then◌else◌, arith,
}
use aple.Msg.{Msg, hwnd_invalid}
use aple.Wire.{Piece, Works, got, Sent, sent, not_sent, bytes_of}
use aple.Client.{
  Request, Client, Around, Answer, no_reply, failed, exits, replied, lock, unlock, on_conn,
  send_parts, write_next, send_request, too_early, delivers, process_socket_message, check_live,
  after_message, on_message, got_reply, wait_reply, sent_then, client_request,
}
use aple.Client.Delivery.{
  plain, pieces_of, plains, Quiet, delivers_all, held_at, delivers-held_at, delivers_all-held_at,
  delivers_all-hooks, locked, lock_lem, unlock_lem,
}

snoc4 :
    (o : List Piece) (a b c d : Piece)
    → (((o ++ (a ∷ [])) ++ (b ∷ [])) ++ (c ∷ [])) ++ (d ∷ []) ≡ o ++ (a ∷ b ∷ c ∷ d ∷ [])
snoc4 [] a b c d = refl
snoc4 (x ∷ o) a b c d = ap (λ l. x ∷ l) (snoc4 o a b c d)

module _ {S : Type 0} (e : Around S) (Holds : S → List Piece → List Piece → Type 0)
    (works : Works e.sock Holds) where
  write_step :
      (r : S × Sent) (b : List ℕ) (q o : List Piece)
      → Holds r.0 q o
      → r.1 ≡ sent
      → Holds (write_next e b r).0 q (o ++ (plain b ∷ [])) × ((write_next e b r).1 ≡ sent)
  write_step (s, sent) b q o h e1 = works.writes s b q o h
  write_step (s, not_sent x) b q o h e1 = absurd cc

  send_step :
      (r : S × Sent) (b : List ℕ) (fd : Option ℕ) (q o : List Piece)
      → Holds r.0 q o
      → r.1 ≡ sent
      → Holds (send_parts e b fd r).0 q (o ++ (record { bytes = b; fd = fd } ∷ []))
        × ((send_parts e b fd r).1 ≡ sent)
  send_step (s, sent) b fd q o h e1 = works.sends s b fd q o h
  send_step (s, not_sent x) b fd q o h e1 = absurd cc

  -- A request puts its pieces behind what was sent before.
  pub send_request_lem :
      (s : S) (r : Request) (ex : List ℕ) (fd : Option ℕ) (q o : List Piece)
      → Holds s q o
      → Holds (send_request e s r ex fd).0 q (o ++ pieces_of r ex fd)
        × ((send_request e s r ex fd).1 ≡ sent)
  unfolding send_request
  send_request_lem s r ex fd q o h =
      let (h1, e1) = works.writes s (bytes_of 4 r.id) q o h in
      let (h2, e2) = write_step _ (bytes_of 8 (length r.data_bytes)) q _ h1 e1 in
      let (h3, e3) = write_step _ (bytes_of 8 (length ex)) q _ h2 e2 in
      let (h4, e4) = send_step _ (r.data_bytes ++ ex) fd q _ h3 e3 in
      (subst (Holds (send_request e s r ex fd).0 q) (snoc4 o _ _ _ _) h4, e4)

  read_bytes :
      (s : S) (n : ℕ) (b : List ℕ) (q o : List Piece)
      → length b ≡ n
      → Holds s (plain b ∷ q) o
      → Holds (e.sock.sock_read s n).0 q o × ((e.sock.sock_read s n).1 ≡ got b none)
  read_bytes s n b q o size h =
      subst (λ m. Holds (e.sock.sock_read s m).0 q o × ((e.sock.sock_read s m).1 ≡ got b none)) size
        (works.reads s b q o h)

  receive :
      (s : S) (n : ℕ) (b : List ℕ) (fd : Option ℕ) (q o : List Piece)
      → length b ≡ n
      → Holds s (record { bytes = b; fd = fd } ∷ q) o
      → Holds (e.sock.sock_recvmsg s n).0 q o × ((e.sock.sock_recvmsg s n).1 ≡ got b fd)
  receive s n b fd q o size h =
      subst (λ m. Holds (e.sock.sock_recvmsg s m).0 q o × ((e.sock.sock_recvmsg s m).1 ≡ got b fd))
        size (works.receives s b fd q o h)

  -- The loop: the messages are delivered in their order, and then the reply is read.
  wait_reply_lem :
      (fuel : ℕ) (c : Client S) (bs : List (List ℕ)) (head reply : List ℕ) (fd : Option ℕ)
      (wants_fd : Bool) (q o : List Piece)
      → length bs < fuel
      → Quiet e bs
      → length head ≡ e.sizeof_msg
      → ((e.msg_of head).hwnd == hwnd_invalid) ≡ true
      → Holds c.conn (plains bs ++ (plain head ∷ record { bytes = reply; fd = fd } ∷ q)) o
      → (t : S) × (Holds t q o
          × (wait_reply e fuel c (length reply) wants_fd ≡ (
            unlock e (held_at e (delivers_all e c bs) t c.lock_depth),
            replied reply (if wants_fd then fd else none),
          )))
  unfolding wait_reply delivers_all process_socket_message
  wait_reply_lem zero c bs head reply fd wants_fd q o l v size is_reply h = absurd (omega arith)
  wait_reply_lem (suc fuel) c [] head reply fd wants_fd q o l v size is_reply h =
      let (h1, e1) =
        read_bytes c.conn e.sizeof_msg head (record { bytes = reply; fd = fd } ∷ q) o size h in
      let s1 : S = (e.sock.sock_read c.conn e.sizeof_msg).0 in
      let (h2, e2) = works.receives s1 reply fd q o h1 in
      (
        (e.sock.sock_recvmsg s1 (length reply)).0,
        (
          h2,
          ap
                (λ g.
                  on_message e (λ d. wait_reply e fuel d (length reply) wants_fd) c (length reply)
                    wants_fd (s1, g))
                e1
              ∙ ap
                  (λ x.
                    if x
                    then got_reply e (on_conn e c s1) wants_fd
                        (e.sock.sock_recvmsg s1 (length reply))
                    else after_message e (λ d. wait_reply e fuel d (length reply) wants_fd)
                        (process_socket_message e (on_conn e c s1) (e.msg_of head)))
                  is_reply
              ∙ ap
                  (λ g.
                    got_reply e (on_conn e c s1) wants_fd
                      ((e.sock.sock_recvmsg s1 (length reply)).0, g))
                  e2,
        ),
      )
  wait_reply_lem (suc fuel) c (b ∷ bs) head reply fd wants_fd q o l
        (sized, no_reply_yet, no_wakeup, v) size is_reply h =
      let m : Msg = e.msg_of b in
      let rest : List Piece = plains bs ++ (plain head ∷ record { bytes = reply; fd = fd } ∷ q) in
      let (h1, e1) = read_bytes c.conn e.sizeof_msg b rest o sized h in
      let s1 : S = (e.sock.sock_read c.conn e.sizeof_msg).0 in
      let next : Client S → Client S × Answer = λ d. wait_reply e fuel d (length reply) wants_fd in
      let (t, (h2, same)) =
        wait_reply_lem fuel (held_at e (delivers e c m) s1 c.lock_depth) bs head reply fd wants_fd q
          o (omega (arith, l)) v size is_reply h1 in
      (
        t,
        (
          h2,
          ap (λ g. on_message e next c (length reply) wants_fd (s1, g)) e1
              ∙ ap
                  (λ x.
                    if x
                    then got_reply e (on_conn e c s1) wants_fd
                        (e.sock.sock_recvmsg s1 (length reply))
                    else after_message e next (process_socket_message e (on_conn e c s1) m))
                  no_reply_yet
              ∙ ap
                  (λ x. after_message e next (
                    if x
                    then check_live e (on_conn e c s1) true
                    else (delivers e (on_conn e c s1) m, no_reply)))
                  no_wakeup
              ∙ ap next (delivers-held_at e c s1 c.lock_depth m)
              ∙ same
              ∙ ap
                  (λ (x : Client S). (
                    unlock e (held_at e x t c.lock_depth),
                    replied reply (if wants_fd then fd else none),
                  ))
                  (delivers_all-held_at e (delivers e c m) s1 c.lock_depth bs),
        ),
      )

  -- On a connection that works, a request of a client that has joined, or that need not, puts its pieces on
  -- the wire, delivers the messages that come before the reply in their order, and returns the bytes of the
  -- reply, with the descriptor where one is wanted; the lock is as before, and what follows the reply is
  -- left. The reply that is asked for has at least one byte, the messages before it wake no client, and the
  -- fuel is more than their number.
  pub client_request_lem :
      (fuel : ℕ) (c : Client S) (r : Request) (ex : List ℕ) (given : Option ℕ) (bs : List (List ℕ))
      (head reply : List ℕ) (fd : Option ℕ) (wants_fd : Bool) (q o : List Piece)
      → c.is_server ≡ false
      → too_early e c r.id ≡ false
      → length bs < fuel
      → Quiet e bs
      → length head ≡ e.sizeof_msg
      → ((e.msg_of head).hwnd == hwnd_invalid) ≡ true
      → (length reply == 0) ≡ false
      → Holds c.conn (plains bs ++ (plain head ∷ record { bytes = reply; fd = fd } ∷ q)) o
      → (t : S) × (Holds t q (o ++ pieces_of r ex given)
          × (client_request e fuel c r ex given (length reply) wants_fd ≡ (
            held_at e (delivers_all e c bs) t c.lock_depth,
            replied reply (if wants_fd then fd else none),
          )))
  unfolding client_request
  client_request_lem fuel c r ex given bs head reply fd wants_fd q o client joined l v size is_reply
        asked h =
      let (h1, e1) = send_request_lem c.conn r ex given _ o h in
      let s1 : S = (send_request e c.conn r ex given).0 in
      let d : ℕ = locked e c.hooks c.lock_depth in
      let (t, (h2, same)) =
        wait_reply_lem fuel (held_at e c s1 d) bs head reply fd wants_fd q
          (o ++ pieces_of r ex given) l v size is_reply h1 in
      (
        t,
        (
          h2,
          ap
                (λ x.
                  if x
                  then (c, failed)
                  else if too_early e c r.id
                  then (c, exits)
                  else sent_then e fuel (lock e c) (length reply) wants_fd
                      (send_request e c.conn r ex given))
                client
              ∙ ap
                  (λ x.
                    if x
                    then (c, exits)
                    else sent_then e fuel (lock e c) (length reply) wants_fd
                        (send_request e c.conn r ex given))
                  joined
              ∙ ap (λ g. sent_then e fuel (lock e c) (length reply) wants_fd (s1, g)) e1
              ∙ ap
                  (λ x.
                    if x
                    then (unlock e (on_conn e (lock e c) s1), no_reply)
                    else wait_reply e fuel (on_conn e (lock e c) s1) (length reply) wants_fd)
                  asked
              ∙ ap (λ x. wait_reply e fuel (on_conn e x s1) (length reply) wants_fd) (lock_lem e c)
              ∙ same
              ∙ ap
                  (λ (x : Client S).
                    (unlock e (held_at e x t d), replied reply (if wants_fd then fd else none)))
                  (delivers_all-held_at e c s1 d bs)
              ∙ ap (λ (x : Client S). (x, replied reply (if wants_fd then fd else none)))
                  (unlock_lem e (delivers_all e c bs) c.hooks t c.lock_depth
                    (delivers_all-hooks e c bs)),
        ),
      )
