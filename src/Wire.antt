-- ===== src/Wire.antt =====
-- What the client and the server of source/aple/lecture-4 (minigui-client.c, minigui-server.c) say to each
-- other over a socket: words, the pieces of a request, and the functions of sockio.c, which is not part of
-- the repository.
pub mod Words
use aple.Base.{
  ℕ, zero, suc, ◌+◌, ◌*◌, ◌/◌, ◌%◌, ◌^◌, ◌≡◌, Option, none, some, List, [], ◌∷◌, ◌++◌, length,
}

-- A word of a number of bytes, the lowest first.
unfoldable pub bytes_of : ℕ → ℕ → List ℕ
bytes_of zero n = []
bytes_of (suc k) n = n % 256 ∷ bytes_of k (n / 256)

-- The word that the bytes are.
unfoldable pub word_of : List ℕ → ℕ
word_of [] = 0
word_of (b ∷ bs) = b + 256 * word_of bs

-- What one call puts into the socket: bytes, with a descriptor beside them.
pub record Piece : Type 0 where
  pub bytes : List ℕ
  pub fd : Option ℕ

-- `SOCKERR_IO`, `SOCKERR_CLOSED` and the other errors.
pub data SockErr : Type 0 where
  sockerr_io sockerr_closed sockerr_other : SockErr

pub data Got : Type 0 where
  got : List ℕ → Option ℕ → Got
  not_got : SockErr → Got

pub data Sent : Type 0 where
  sent : Sent
  not_sent : SockErr → Sent

-- The functions of sockio.c on one end of a connection. A read names how many bytes it wants; `sock_recvmsg`
-- wants the sum of its two parts.
pub record Sock (S : Type 0) : Type 0 where
  pub sock_read : S → ℕ → S × Got
  pub sock_recvmsg : S → ℕ → S × Got
  pub sock_write : S → List ℕ → S × Sent
  pub sock_sendmsg : S → List ℕ → Option ℕ → S × Sent

-- A connection that works, where `Holds s inbox outbox` tells what the other end has sent and not yet been
-- read, and what this end has sent: a read of as many bytes as the next piece has gets it, and a write puts
-- one piece behind the others.
pub record Works {S : Type 0} (k : Sock S) (Holds : S → List Piece → List Piece → Type 0)
    : Type 0 where
  pub reads :
      (s : S) (b : List ℕ) (q o : List Piece)
      → Holds s (record { bytes = b; fd = none } ∷ q) o
      → Holds (k.sock_read s (length b)).0 q o × ((k.sock_read s (length b)).1 ≡ got b none)
  pub receives :
      (s : S) (b : List ℕ) (f : Option ℕ) (q o : List Piece)
      → Holds s (record { bytes = b; fd = f } ∷ q) o
      → Holds (k.sock_recvmsg s (length b)).0 q o × ((k.sock_recvmsg s (length b)).1 ≡ got b f)
  pub writes :
      (s : S) (b : List ℕ) (q o : List Piece)
      → Holds s q o
      → Holds (k.sock_write s b).0 q (o ++ (record { bytes = b; fd = none } ∷ []))
        × ((k.sock_write s b).1 ≡ sent)
  pub sends :
      (s : S) (b : List ℕ) (f : Option ℕ) (q o : List Piece)
      → Holds s q o
      → Holds (k.sock_sendmsg s b f).0 q (o ++ (record { bytes = b; fd = f } ∷ []))
        × ((k.sock_sendmsg s b f).1 ≡ sent)
