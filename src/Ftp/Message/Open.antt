-- ===== src/Ftp/Message/Open.antt =====
-- The calls of lab1/ftp_utils.hpp open and close no connection, and on a closed one they fail.
use computer_system24fall.Common.{
  ℕ, zero, suc, ◌+◌, ◌-◌, ◌%◌, ◌^◌, min, arith, ◌≡◌, refl, ap, ◌∙◌, Bool, true, false, List, [],
  ◌∷◌, ◌++◌, Option, none, some, ◌==◌, if◌then◌else◌, length, take, drop,
}
use computer_system24fall.Common.Int.{ℤ, pos, negsuc}
use computer_system24fall.Ftp.Exec.{
  Outcome, returned, blocked, undefined, exited, Exec, pure, and_then, serror, ◌>>=◌, >>=-returned,
}
use computer_system24fall.Ftp.Stream.{
  Io, moves, closes, fails, Link, send_loop, ssend, recv_loop, srecv,
}
use computer_system24fall.Ftp.Message.{
  Post, m_type_of, m_status_of, header_size, ftp_header, m_length_of, payload_size, send_post,
  recv_post,
}

-- A call leaves a descriptor open or closed as it was.
abbrev pub KeepsOpen : {A : Type 0} → Exec Link A → Type 0
KeepsOpen m = (l : Link) → (m l).1.is_open ≡ l.is_open

send_loop-KeepsOpen : (es : List Io) (bytes : List ℕ) → KeepsOpen (send_loop es bytes)
unfolding send_loop
send_loop-KeepsOpen es [] l = refl
send_loop-KeepsOpen [] (b ∷ bytes) l = refl
send_loop-KeepsOpen (moves k ∷ es) (b ∷ bytes) l =
    send_loop-KeepsOpen es (drop k bytes) (record l { outbox = l.outbox ++ b ∷ take k bytes })
send_loop-KeepsOpen (closes ∷ es) (b ∷ bytes) l = refl
send_loop-KeepsOpen (fails ∷ es) (b ∷ bytes) l = refl

>>=-KeepsOpen :
    {A B : Type 0} (m : Exec Link A) (f : A → Exec Link B)
    → KeepsOpen m
    → ((a : A) → KeepsOpen (f a))
    → KeepsOpen (m >>= f)
>>=-KeepsOpen {A = A} m f first next l = go (m l).0 (m l).1 (first l)
  where
    go :
        (r : Outcome A) (l' : Link)
        → l'.is_open ≡ l.is_open
        → (and_then r f l').1.is_open ≡ l.is_open
    go (returned a) l' e = next a l' ∙ e
    go blocked l' e = e
    go undefined l' e = e
    go exited l' e = e

ssend-KeepsOpen : (bytes : List ℕ) → KeepsOpen (ssend bytes)
unfolding ssend
ssend-KeepsOpen bytes l =
    >>=-KeepsOpen (if l.is_open then send_loop l.sends bytes else pure (length bytes == 0)) _
      (either l.is_open) (λ whole l'. refl) l
  where
    either :
        (b : Bool) → KeepsOpen (if b then send_loop l.sends bytes else pure (length bytes == 0))
    either true = send_loop-KeepsOpen l.sends bytes
    either false = λ l'. refl

recv_loop-KeepsOpen :
    (es : List Io) (left room : ℕ) (acc : List ℕ) → KeepsOpen (recv_loop es left room acc)
unfolding recv_loop
recv_loop-KeepsOpen [] left room acc l = ground arith
recv_loop-KeepsOpen (moves k ∷ es) left room acc l =
    let n = min (k + 1) (min left (length l.inbox)) in
    let more =
      recv_loop-KeepsOpen es (left - n) (room - n) (acc ++ take n l.inbox)
        (record l { inbox = drop n l.inbox }) in
    ground (arith, more)
recv_loop-KeepsOpen (closes ∷ es) left room acc l = ground arith
recv_loop-KeepsOpen (fails ∷ es) left room acc l = ground arith

srecv-KeepsOpen : (size room : ℕ) → KeepsOpen (srecv size room)
unfolding srecv
srecv-KeepsOpen size room l = either l.is_open
  where
    either :
        (b : Bool)
        → (if b
            then recv_loop l.recvs size room [] l
            else (returned (if size == 0 then some [] else none), l)).1.is_open
          ≡ l.is_open
    either true = recv_loop-KeepsOpen l.recvs size room [] l
    either false = refl

pub send_post-KeepsOpen : (t st : ℕ) (buf : List ℕ) → KeepsOpen (send_post t buf st)
unfolding send_post
send_post-KeepsOpen t st buf =
    >>=-KeepsOpen (ssend (ftp_header t ((header_size + length buf) % 2 ^ 32) st)) _
      (ssend-KeepsOpen _) next
  where
    next :
        (r : ℤ)
        → KeepsOpen (elim r [
          | pos zero ↦ pure (pos zero)
          | pos (suc n) ↦ ssend buf
          | negsuc n ↦ pure (negsuc n)
        ])
    next (pos zero) l = refl
    next (pos (suc n)) l = ssend-KeepsOpen buf l
    next (negsuc n) l = refl

pub recv_post-KeepsOpen : (room : ℕ) → KeepsOpen (recv_post room)
unfolding recv_post
recv_post-KeepsOpen room =
    >>=-KeepsOpen (srecv header_size header_size) read (srecv-KeepsOpen header_size header_size)
      read-KeepsOpen
  where
    finish : List ℕ → Option (List ℕ) → Exec Link (Option Post)
    finish header more = elim more [
      | none ↦ pure none
      | some bytes ↦
          pure (
            some (record { m_type = m_type_of header; m_status = m_status_of header; buf = bytes }))
    ]

    finish-KeepsOpen : (header : List ℕ) (more : Option (List ℕ)) → KeepsOpen (finish header more)
    finish-KeepsOpen header none l = refl
    finish-KeepsOpen header (some bytes) l = refl

    read : Option (List ℕ) → Exec Link (Option Post)
    read got = elim got [
      | none ↦ pure none
      | some header ↦ srecv (payload_size (m_length_of header)) room >>= finish header
    ]

    read-KeepsOpen : (got : Option (List ℕ)) → KeepsOpen (read got)
    read-KeepsOpen none l = refl
    read-KeepsOpen (some header) l =
        >>=-KeepsOpen (srecv (payload_size (m_length_of header)) room) (finish header)
          (srecv-KeepsOpen (payload_size (m_length_of header)) room) (finish-KeepsOpen header) l

ssend-shut :
    (b : ℕ) (bytes : List ℕ) (l : Link)
    → l.is_open ≡ false
    → ssend (b ∷ bytes) l ≡ (returned serror, l)
unfolding ssend
ssend-shut b bytes l shut =
    ap
      (λ (up : Bool).
        ((if up then send_loop l.sends (b ∷ bytes) else pure (length (b ∷ bytes) == 0)) >>= λ whole.
        pure (if whole then pos (length (b ∷ bytes)) else serror))
          l)
      shut
    ∙ ap (λ (whole : Bool). (returned (if whole then pos (length (b ∷ bytes)) else serror), l))
        some_left
  where
    some_left : (length (b ∷ bytes) == 0) ≡ false
    some_left = ground arith

pub send_post-shut :
    (t st : ℕ) (buf : List ℕ) (l : Link)
    → l.is_open ≡ false
    → send_post t buf st l ≡ (returned serror, l)
unfolding send_post ftp_header
send_post-shut t st buf l shut =
    >>=-returned (ssend (ftp_header t ((header_size + length buf) % 2 ^ 32) st)) _ l l serror
      (ssend-shut _ _ l shut)
