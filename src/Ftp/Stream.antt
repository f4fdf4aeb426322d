-- ===== src/Ftp/Stream.antt =====
-- lab1/ftp_utils.hpp: ssend and srecv, the loops over send and recv of a connected socket.
pub mod Flow
use computer_system24fall.Common.{
  ℕ, ◌+◌, ◌-◌, min, Bool, true, false, List, [], ◌∷◌, ◌++◌, Option, none, some, ltb, ◌==◌,
  if◌then◌else◌, length, take, drop,
}
use computer_system24fall.Common.Int.{ℤ, pos}
use computer_system24fall.Ftp.Exec.{returned, blocked, undefined, Exec, pure, ◌>>=◌, serror}

-- What a call of send or recv does: it moves at most `n + 1` bytes, returns 0, or returns -1.
pub data Io : Type 0 where
  moves : ℕ → Io
  closes fails : Io

-- One end of a connection: the bytes that have come and are not read, the bytes that were sent, and
-- what the next calls of recv and send do. A call beyond these waits.
pub record Link : Type 0 where
  pub is_open : Bool
  pub inbox : List ℕ
  pub outbox : List ℕ
  pub recvs : List Io
  pub sends : List Io

-- The loop of ssend on the bytes that are left, and whether it comes to its end.
unfoldable pub send_loop : List Io → List ℕ → Exec Link Bool
send_loop es [] l = (returned true, record l { sends = es })
send_loop [] (b ∷ bytes) l = (blocked, record l { sends = [] })
send_loop (moves k ∷ es) (b ∷ bytes) l =
    send_loop es (drop k bytes) (record l { outbox = l.outbox ++ b ∷ take k bytes })
send_loop (closes ∷ es) (b ∷ bytes) l = (returned false, record l { sends = es })
send_loop (fails ∷ es) (b ∷ bytes) l = (returned false, record l { sends = es })

-- Calls on a closed descriptor fail.
unfoldable pub ssend : List ℕ → Exec Link ℤ
unfolding send_loop
ssend bytes l =
    let sending : Exec Link Bool =
      if l.is_open then send_loop l.sends bytes else pure (length bytes == 0) in
    (sending >>= λ whole. pure (if whole then pos (length bytes) else serror)) l

-- The loop of srecv, with `left` bytes to come, into a buffer with room for `room` more; `acc` is
-- what has come. A call of recv waits while nothing has come.
unfoldable pub recv_loop : List Io → ℕ → ℕ → List ℕ → Exec Link (Option (List ℕ))
recv_loop [] left room acc l =
    if left == 0
    then (returned (some acc), record l { recvs = [] })
    else (blocked, record l { recvs = [] })
recv_loop (moves k ∷ es) left room acc l =
    let n = min (k + 1) (min left (length l.inbox)) in
    let rest =
      recv_loop es (left - n) (room - n) (acc ++ take n l.inbox)
        (record l { inbox = drop n l.inbox }) in
    if left == 0
    then (returned (some acc), record l { recvs = moves k ∷ es })
    else if n == 0
    then (blocked, record l { recvs = moves k ∷ es })
    else if ltb room n
    then (undefined, l)
    else rest
recv_loop (closes ∷ es) left room acc l =
    if left == 0
    then (returned (some acc), record l { recvs = closes ∷ es })
    else (returned none, record l { recvs = es })
recv_loop (fails ∷ es) left room acc l =
    if left == 0
    then (returned (some acc), record l { recvs = fails ∷ es })
    else (returned none, record l { recvs = es })

-- `none` is the result -1; else the buffer holds the bytes, and the result is their number.
unfoldable pub srecv : ℕ → ℕ → Exec Link (Option (List ℕ))
unfolding recv_loop
srecv size room l =
    if l.is_open
    then recv_loop l.recvs size room [] l
    else (returned (if size == 0 then some [] else none), l)
