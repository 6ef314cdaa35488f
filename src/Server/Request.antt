-- ===== src/Server/Request.antt =====
-- The room that a request finds, and what becomes of a request.
use aple.Base.{
  ℕ, ◌+◌, ◌-◌, ◌^◌, ◌≤◌, ◌<◌, ◌≡◌, ◌↔◌, refl, ap, ◌∙◌, subst, Bool, true, false, Option, none, List,
  [], ◌∷◌, ◌++◌, length, ◌||◌, leb, if◌then◌else◌, arith,
}
use aple.Base.Bits.{bit_and}
use aple.Wire.{Piece, Works, got, bytes_of, word_of}
use aple.Wire.Words.{length-bytes_of, word_of-bytes_of}
use aple.Server.{
  ret_invarg, Env, Outcome, sum_of, capacity, blocks_of, fds_of, buff_size, out_of_range, ends_with,
  dispatch, look_up, received, sizes_read, second_read, first_read, handle_request,
}

-- What a request is on the wire: its id, the sizes of its two parts, and the parts in one piece.
abbrev pub sizes_of : ℕ → ℕ → List Piece
sizes_of a b =
    record { bytes = bytes_of 8 a; fd = none } ∷ record { bytes = bytes_of 8 b; fd = none } ∷ []

-- For two sizes of 64 bits, the buffer has room for both parts exactly where their sum does not wrap.
pub capacity_enough :
    (a b : ℕ) → a < 2 ^ 64 → b < 2 ^ 64 → (a + b ≤ capacity (sum_of a b)) ↔ (a + b < 2 ^ 64)
unfolding capacity
capacity_enough a b h g = (λ l. ground (arith, h, g, l), λ l. ground (arith, h, g, l))

module _ {S W : Type 0} (e : Env S W) (Holds : S → List Piece → List Piece → Type 0)
    (works : Works e.sock Holds) where
  read_word :
      (s : S) (a : ℕ) (q o : List Piece)
      → Holds s (record { bytes = bytes_of 8 a; fd = none } ∷ q) o
      → Holds (e.sock.sock_read s 8).0 q o × ((e.sock.sock_read s 8).1 ≡ got (bytes_of 8 a) none)
  read_word s a q o h =
      subst
        (λ n.
          Holds (e.sock.sock_read s n).0 q o × ((e.sock.sock_read s n).1 ≡ got (bytes_of 8 a) none))
        (length-bytes_of 8 a) (works.reads s (bytes_of 8 a) q o h)

  receive :
      (s : S) (n : ℕ) (b : List ℕ) (fd : Option ℕ) (q o : List Piece)
      → length b ≡ n
      → Holds s (record { bytes = b; fd = fd } ∷ q) o
      → Holds (e.sock.sock_recvmsg s n).0 q o × ((e.sock.sock_recvmsg s n).1 ≡ got b fd)
  receive s n b fd q o size h =
      subst (λ m. Holds (e.sock.sock_recvmsg s m).0 q o × ((e.sock.sock_recvmsg s m).1 ≡ got b fd))
        size (works.receives s b fd q o h)

  -- The test of the sizes, where they do not wrap and there is memory.
  sizes_lem :
      (s : S) (w : W) (req_id cli a b : ℕ)
      → a + b < 2 ^ 64
      → (leb (a + b) buff_size || e.malloc (a + b)) ≡ true
      → sizes_read e req_id cli a b s w
        ≡ received e req_id cli (a + b) w (e.sock.sock_recvmsg s (a + b))
  sizes_lem s w req_id cli a b small room =
      ap
        (λ n.
          if leb n buff_size || e.malloc n
          then received e req_id cli n w (e.sock.sock_recvmsg s (a + b))
          else ends_with e (s, w) ret_invarg 0 [])
        sum
      ∙ ap
          (λ t.
            if t
            then received e req_id cli (a + b) w (e.sock.sock_recvmsg s (a + b))
            else ends_with e (s, w) ret_invarg 0 [])
          room
    where
      sum : sum_of a b ≡ a + b
      sum = omega (arith, small)

  -- A request whose sizes are those of its parts, and for which there is memory, is looked up with all its
  -- bytes and its descriptor, behind which the rest of the inbox is left.
  pub looked_up :
      (s : S) (w : W) (req_id cli a b : ℕ) (payload : List ℕ) (fd : Option ℕ) (q o : List Piece)
      → Holds s (sizes_of a b ++ (record { bytes = payload; fd = fd } ∷ q)) o
      → length payload ≡ a + b
      → a + b < 2 ^ 64
      → (leb (a + b) buff_size || e.malloc (a + b)) ≡ true
      → (t : S) × (Holds t q o
          × (handle_request e req_id cli s w
              ≡ look_up e (bit_and req_id e.ids.no_flags) cli (a + b) payload fd (t, w)))
  unfolding handle_request
  looked_up s w req_id cli a b payload fd q o holds size small room =
      let rest : List Piece = record { bytes = payload; fd = fd } ∷ q in
      let (h, one) = read_word s a (record { bytes = bytes_of 8 b; fd = none } ∷ rest) o holds in
      let s1 : S = (e.sock.sock_read s 8).0 in
      let (i, two) = read_word s1 b rest o h in
      let s2 : S = (e.sock.sock_read s1 8).0 in
      let (j, three) = receive s2 (a + b) payload fd q o size i in
      (
        (e.sock.sock_recvmsg s2 (a + b)).0,
        (
          j,
          ap (λ g. first_read e req_id cli w (s1, g)) one
              ∙ ap (λ g. second_read e req_id cli (word_of (bytes_of 8 a)) w (s2, g)) two
              ∙ ap (λ n. sizes_read e req_id cli n (word_of (bytes_of 8 b)) s2 w)
                  (word_of-bytes_of 8 a (omega (arith, small)))
              ∙ ap (λ n. sizes_read e req_id cli a n s2 w)
                  (word_of-bytes_of 8 b (omega (arith, small)))
              ∙ sizes_lem s2 w req_id cli a b small room
              ∙ ap (λ g. received e req_id cli (a + b) w ((e.sock.sock_recvmsg s2 (a + b)).0, g))
                  three,
        ),
      )

  -- On a connection that works, a request whose sizes are those of its parts and do not wrap, with memory for
  -- it and an id whose slot has no handler, leaves its block and its descriptor behind, with the answer
  -- `SOCKERR_INVARG`; the request is read to its end.
  pub unknown_request :
      (s : S) (w : W) (req_id cli a b : ℕ) (payload : List ℕ) (fd : Option ℕ) (q o : List Piece)
      → Holds s (sizes_of a b ++ (record { bytes = payload; fd = fd } ∷ q)) o
      → length payload ≡ a + b
      → a + b < 2 ^ 64
      → (leb (a + b) buff_size || e.malloc (a + b)) ≡ true
      → (e.handlers (bit_and req_id e.ids.no_flags - 1)).handler ≡ none
      → (t : S) × (Holds t q o
          × (handle_request e req_id cli s w ≡ record {
            sock = t;
            world = w;
            ret = ret_invarg;
            blocks = blocks_of (a + b);
            fds = fds_of fd;
          }))
  unknown_request s w req_id cli a b payload fd q o holds size small room no_handler =
      let (t, (h, same)) = looked_up s w req_id cli a b payload fd q o holds size small room in
      (t, (h, same ∙ either_way (out_of_range e.ids (bit_and req_id e.ids.no_flags)) t))
    where
      id : ℕ
      id = bit_and req_id e.ids.no_flags

      refused : S → Outcome S W
      refused t = ends_with e (t, w) ret_invarg (blocks_of (a + b)) (fds_of fd)

      either_way :
          (x : Bool) (t : S)
          → (if x
              then refused t
              else dispatch e id cli (a + b) payload fd (t, w) (e.handlers (id - 1)).handler)
            ≡ refused t
      either_way true t = refl
      either_way false t = ap (dispatch e id cli (a + b) payload fd (t, w)) no_handler
