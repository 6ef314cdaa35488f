-- ===== src/Server/Reply.antt =====
-- The reply of the server is what the client waits for.
use aple.Base.{ℕ, ◌≡◌, subst, true, Option, none, List, [], ◌∷◌, ◌++◌, append_assoc}
use aple.Wire.{Piece, Sock, Works, Sent, sent, not_sent}
use aple.Server.{reply_behind, server_send_reply}

-- On a connection that works, a server's reply puts two pieces on the wire, the message that tells of the
-- reply and the reply with its descriptor, and succeeds.
pub server_send_reply_lem :
    {S : Type 0} (k : Sock S) (Holds : S → List Piece → List Piece → Type 0) (head reply : List ℕ)
    (fd : Option ℕ) (s : S) (q o : List Piece)
    → Works k Holds
    → Holds s q o
    → Holds
        (server_send_reply k true head s reply fd).0
        q
        (o ++ (record { bytes = head; fd = none } ∷ record { bytes = reply; fd = fd } ∷ []))
      × ((server_send_reply k true head s reply fd).1 ≡ sent)
unfolding server_send_reply
server_send_reply_lem k Holds head reply fd s q o works h =
    let (h1, e1) = works.writes s head q o h in behind (k.sock_write s head) h1 e1
  where
    behind :
        (r : _ × Sent)
        → Holds r.0 q (o ++ (record { bytes = head; fd = none } ∷ []))
        → r.1 ≡ sent
        → Holds
            (reply_behind k reply fd r).0
            q
            (o ++ (record { bytes = head; fd = none } ∷ record { bytes = reply; fd = fd } ∷ []))
          × ((reply_behind k reply fd r).1 ≡ sent)
    behind (t, sent) h1 e1 =
        let (h2, e2) = works.sends t reply fd q _ h1 in
        (subst (Holds (k.sock_sendmsg t reply fd).0 q) (append_assoc o _ _) h2, e2)
    behind (t, not_sent x) h1 e1 = absurd cc
