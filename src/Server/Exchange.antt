-- ===== src/Server/Exchange.antt =====
-- A request of a client as the server gets it.
use aple.Base.{
  ℕ, ◌+◌, ◌-◌, ◌^◌, ◌<◌, ◌≡◌, refl, ap, ◌∙◌, subst, Bool, true, false, Option, none, some, List,
  ◌∷◌, ◌++◌, length, length-append, ◌||◌, ◌==◌, leb, if◌then◌else◌,
}
use aple.Base.Bits.{bit_and}
use aple.Wire.{Piece, Works, got, bytes_of, word_of}
use aple.Wire.Words.{length-bytes_of, word_of-bytes_of}
use aple.Client.{Request}
use aple.Client.Delivery.{pieces_of}
use aple.Server.{
  Env, buff_size, out_of_range, ends_with, dispatch, look_up, handle_request, handled, ret_invarg,
  blocks_of, fds_of,
}
use aple.Server.Request.{looked_up, sizes_of}

module _ {S W : Type 0} (e : Env S W) (Holds : S → List Piece → List Piece → Type 0)
    (works : Works e.sock Holds) where
  called_with :
      (id cli len h : ℕ) (b : List ℕ) (fd : Option ℕ) (m : S × W)
      → out_of_range e.ids id ≡ false
      → (e.handlers (id - 1)).handler ≡ some h
      → look_up e id cli len b fd m
        ≡ handled e id cli (
            if (e.handlers (id - 1)).version == 1
            then e.call_v1 h cli b len fd m
            else e.call_v0 h cli b len m)
  called_with id cli len h b fd m known found =
      ap
        (λ x.
          if x
          then ends_with e m ret_invarg (blocks_of len) (fds_of fd)
          else dispatch e id cli len b fd m (e.handlers (id - 1)).handler)
        known
      ∙ ap (dispatch e id cli len b fd m) found
      ∙ either_way ((e.handlers (id - 1)).version == 1)
    where
      either_way :
          (x : Bool)
          → (if x
              then handled e id cli (e.call_v1 h cli b len fd m)
              else handled e id cli (e.call_v0 h cli b len m))
            ≡ handled e id cli (if x then e.call_v1 h cli b len fd m else e.call_v0 h cli b len m)
      either_way true = refl
      either_way false = refl

  -- On a connection that works, for a request that a client has put on the wire, with an id that has a handler once its flags are taken off,
  -- with sizes whose sum does not wrap and with memory for it: the server reads its id, and
  -- `__mg_handle_request` calls the handler on all the bytes of both parts and their number, and on the
  -- descriptor if its version is 1, and what follows the request is still to be read when the handler begins.
  pub request_arrives :
      (s : S) (w : W) (cli h : ℕ) (r : Request) (ex : List ℕ) (fd : Option ℕ) (q o : List Piece)
      → Holds s (pieces_of r ex fd ++ q) o
      → r.id < 2 ^ 32
      → length r.data_bytes + length ex < 2 ^ 64
      → (leb (length r.data_bytes + length ex) buff_size
          || e.malloc (length r.data_bytes + length ex))
        ≡ true
      → out_of_range e.ids (bit_and r.id e.ids.no_flags) ≡ false
      → (e.handlers (bit_and r.id e.ids.no_flags - 1)).handler ≡ some h
      → ((e.sock.sock_read s 4).1 ≡ got (bytes_of 4 r.id) none)
        × (t : S) × (Holds t q o
            × (handle_request e (word_of (bytes_of 4 r.id)) cli (e.sock.sock_read s 4).0 w
                ≡ handled e (bit_and r.id e.ids.no_flags) cli (
                    if (e.handlers (bit_and r.id e.ids.no_flags - 1)).version == 1
                    then e.call_v1 h cli
                        (r.data_bytes ++ ex)
                        (length r.data_bytes + length ex)
                        fd
                        (t, w)
                    else e.call_v0 h cli
                        (r.data_bytes ++ ex)
                        (length r.data_bytes + length ex)
                        (t, w))))
  request_arrives s w cli h r ex fd q o holds small_id small room known found =
      let (h1, e1) =
        subst
          (λ n.
            Holds (e.sock.sock_read s n).0
              (sizes_of (length r.data_bytes) (length ex)
                ++ (record { bytes = r.data_bytes ++ ex; fd = fd } ∷ q))
              o
            × ((e.sock.sock_read s n).1 ≡ got (bytes_of 4 r.id) none))
          (length-bytes_of 4 r.id) (works.reads s (bytes_of 4 r.id) _ o holds) in
      let (t, (h2, same)) =
        looked_up e Holds works (e.sock.sock_read s 4).0 w r.id cli (length r.data_bytes)
          (length ex) (r.data_bytes ++ ex) fd q o h1 (length-append r.data_bytes ex) small room in
      (
        e1,
        t,
        (
          h2,
          ap (λ n. handle_request e n cli (e.sock.sock_read s 4).0 w)
                (word_of-bytes_of 4 r.id small_id)
              ∙ same
              ∙ called_with (bit_and r.id e.ids.no_flags) cli (length r.data_bytes + length ex) h
                  (r.data_bytes ++ ex) fd (t, w) known found,
        ),
      )
