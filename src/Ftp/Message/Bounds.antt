-- ===== src/Ftp/Message/Bounds.antt =====
-- The bounds of the buffers of lab1/ftp_utils.hpp: which sizes srecv and recv_post write in range.
use mathlib.Core.Bool.{true≢false}
use computer_system24fall.Common.{
  ℕ, zero, suc, ◌+◌, ◌-◌, ◌%◌, ◌^◌, ◌≤◌, ◌<◌, min, ◌≡◌, refl, sym, ap, ◌∙◌, subst, Bool, true,
  false, List, [], ◌∷◌, ◌++◌, append_assoc, none, some, arith, ltb, ◌==◌, if◌then◌else◌, length,
  length-append, length-drop, take, drop,
}
use computer_system24fall.Ftp.Exec.{
  Outcome, returned, blocked, undefined, exited, >>=-returned, >>=-undefined,
}
use computer_system24fall.Ftp.Stream.{Io, moves, closes, fails, Link, recv_loop, srecv}
use computer_system24fall.Ftp.Stream.Flow.{Flows, srecv-Takes}
use computer_system24fall.Ftp.Message.{
  header_size, ftp_header, m_length_of, payload_size, recv_post,
}
use computer_system24fall.Ftp.Message.Roundtrip.{
  message, length-ftp_header, payload_size-small, m_length_of-ftp_header,
}

abbrev pub IsDefined {ℓ} : {A : Type ℓ} → Outcome A → Type 0
IsDefined (returned a) = Unit
IsDefined blocked = Unit
IsDefined undefined = ⊥
IsDefined exited = Unit

if-IsDefined :
    {A S : Type 0} (b : Bool) (x y : Outcome A × S)
    → IsDefined x.0
    → IsDefined y.0
    → IsDefined (if b then x else y).0
if-IsDefined true x y p q = p
if-IsDefined false x y p q = q

recv_loop-IsDefined :
    (es : List Io) (left room : ℕ) (acc : List ℕ) (l : Link)
    → left ≤ room
    → IsDefined (recv_loop es left room acc l).0
unfolding recv_loop
recv_loop-IsDefined [] left room acc l h = if-IsDefined (left == 0) _ _ tt tt
recv_loop-IsDefined (moves k ∷ es) left room acc l h =
    let m = min (k + 1) (min left (length l.inbox)) in
    let rest =
      recv_loop es (left - m) (room - m) (acc ++ take m l.inbox)
        (record l { inbox = drop m l.inbox }) in
    if-IsDefined (left == 0) _ _ tt (
      if-IsDefined (m == 0) _ _ tt (
        subst (λ (b : Bool). IsDefined (if b then (undefined, l) else rest).0) (in_room m)
          (recv_loop-IsDefined es (left - m) (room - m) (acc ++ take m l.inbox)
            (record l { inbox = drop m l.inbox }) (omega (arith, h)))))
  where
    in_room : (m : ℕ) → false ≡ ltb room (min (k + 1) (min left (length l.inbox)))
    in_room m = ground (arith, h)
recv_loop-IsDefined (closes ∷ es) left room acc l h = if-IsDefined (left == 0) _ _ tt tt
recv_loop-IsDefined (fails ∷ es) left room acc l h = if-IsDefined (left == 0) _ _ tt tt

-- srecv into a buffer that has room for `size` bytes never writes out of range, whatever the peer sends
-- and whatever the calls of recv do.
pub srecv-IsDefined : (size room : ℕ) (l : Link) → size ≤ room → IsDefined (srecv size room l).0
unfolding srecv
srecv-IsDefined size room l h =
    if-IsDefined l.is_open (recv_loop l.recvs size room [] l) _
      (recv_loop-IsDefined l.recvs size room [] l h) tt

-- The end of one turn of the loop.
chunk :
    {A S : Type 0} (a b c : Bool) (w x z : Outcome A × S) (y : S)
    → a ≡ false
    → b ≡ false
    → (c ≡ false → z.0 ≡ undefined)
    → (if a then w else if b then x else if c then (undefined, y) else z).0 ≡ undefined
chunk true b c w x z y p q k = absurd (true≢false p)
chunk false true c w x z y p q k = absurd (true≢false q)
chunk false false true w x z y p q k = refl
chunk false false false w x z y p q k = k refl

-- A size above the room, of which enough has come.
recv_loop-overruns :
    (n : ℕ) (es : List Io) (left room : ℕ) (acc : List ℕ) (l : Link)
    → left ≤ n
    → room < left
    → left ≤ length l.inbox
    → Flows n es
    → (recv_loop es left room acc l).0 ≡ undefined
unfolding recv_loop
recv_loop-overruns n es zero room acc l h r i f = absurd (omega arith)
recv_loop-overruns zero es (suc left) room acc l h r i f = absurd (omega arith)
recv_loop-overruns (suc n) [] (suc left) room acc l h r i f = absurd f
recv_loop-overruns (suc n) (moves k ∷ es) (suc left) room acc l h r i f =
    let m = min (k + 1) (min (suc left) (length l.inbox)) in
    chunk (suc left == 0) (m == 0) (ltb room m) _ _ _ l (ground arith) (ground (arith, i)) (λ e.
      recv_loop-overruns n es (suc left - m) (room - m) (acc ++ take m l.inbox)
        (record l { inbox = drop m l.inbox }) (omega (arith, i)) (ground (arith, e, r))
        (omega (arith, i, length-drop m l.inbox)) f)
recv_loop-overruns (suc n) (closes ∷ es) (suc left) room acc l h r i f = absurd f
recv_loop-overruns (suc n) (fails ∷ es) (suc left) room acc l h r i f = absurd f

srecv-overruns :
    (n size room : ℕ) (l : Link)
    → l.is_open ≡ true
    → size ≤ n
    → room < size
    → size ≤ length l.inbox
    → Flows n l.recvs
    → (srecv size room l).0 ≡ undefined
unfolding srecv
srecv-overruns n size room l up h r i f =
    ap
      (λ (b : Bool).
        (if b
          then recv_loop l.recvs size room [] l
          else (returned (if size == 0 then some [] else none), l)).0)
      up
    ∙ recv_loop-overruns n l.recvs size room [] l h r i f

-- A message whose payload is longer than the receiver's buffer, all of which comes, is written past the
-- end of the buffer: recv_post takes the length from the message, and does not compare it with its room.
-- The connection is open and stays up for as many calls as bytes, and the length is below 2^31.
pub recv_post-overruns :
    (n room t s : ℕ) (buf rest : List ℕ) (l : Link)
    → l.is_open ≡ true
    → l.inbox ≡ message t s buf ++ rest
    → room < length buf
    → length buf < 2 ^ 31
    → header_size + length buf ≤ n
    → Flows n l.recvs
    → (recv_post room l).0 ≡ undefined
unfolding recv_post
recv_post-overruns n room t s buf rest l up came long small h f =
    let (es, e, g) =
      srecv-Takes n header_size head (buf ++ rest) l up (came ∙ append_assoc head buf rest)
        (omega (arith, twelve)) (omega (arith, twelve)) f in
    let l' = record l { inbox = buf ++ rest; recvs = es } in
    ap (λ x. x.0)
      (>>=-returned (srecv header_size header_size) _ l l' (some head)
        (ap (λ (k : ℕ). srecv k header_size l) (sym twelve) ∙ e))
    ∙ >>=-undefined (srecv (payload_size (m_length_of head)) room) _ l' (
        ap (λ (k : ℕ). (srecv k room l').0) size
        ∙ srecv-overruns (n - length head) (length buf) room l' up (omega (arith, twelve)) long
            (omega (arith, length-append buf rest)) g)
  where
    len : ℕ
    len = (header_size + length buf) % 2 ^ 32

    head : List ℕ
    head = ftp_header t len s

    twelve : length head ≡ header_size
    twelve = length-ftp_header t len s

    size : payload_size (m_length_of head) ≡ length buf
    size =
        ap payload_size (m_length_of-ftp_header t len s (omega arith))
        ∙ payload_size-small (length buf) small

-- What recv_post takes for the size of the payload, from a length of 32 bits: the length less the header,
-- but a length below that of the header becomes a size near 2^64, and so does one from 2^31 + 12 on.
pub payload_size-cases :
    (n : ℕ)
    → n < 2 ^ 32
    → payload_size n ≡ (
        if ltb n header_size
        then 2 ^ 64 - (header_size - n)
        else if ltb n (2 ^ 31 + header_size)
        then n - header_size
        else 2 ^ 64 - 2 ^ 32 + (n - header_size))
unfolding payload_size
payload_size-cases n h = ground (arith, h)
