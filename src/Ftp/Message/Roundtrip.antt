-- ===== src/Ftp/Message/Roundtrip.antt =====
-- What send_post of lab1/ftp_utils.hpp sends, recv_post reads back, however the connection cuts it.
use computer_system24fall.Common.{
  append-cancel, ℕ, ◌+◌, ◌-◌, ◌%◌, ◌^◌, ◌≤◌, ◌<◌, ◌≡◌, refl, sym, ap, ap₂, ◌∙◌, true, List, ◌++◌,
  append_assoc, Option, some, arith, length, length-append,
}
use computer_system24fall.Common.Int.{ℤ, pos}
use computer_system24fall.Ftp.Exec.{Outcome, returned, Exec, >>=-returned}
use computer_system24fall.Ftp.Stream.{Io, Link, ssend, srecv}
use computer_system24fall.Ftp.Stream.Flow.{Flows, Flows-le, ssend-Sent, srecv-Takes}
use computer_system24fall.Ftp.Message.{
  header_size, ftp_header, m_type_of, m_status_of, m_length_of, send_post, Post, payload_size,
  recv_post,
}

-- A message as it stands on the connection.
abbrev pub message : ℕ → ℕ → List ℕ → List ℕ
message m_type m_status buf =
    ftp_header m_type ((header_size + length buf) % 2 ^ 32) m_status ++ buf

pub length-ftp_header : (t n s : ℕ) → length (ftp_header t n s) ≡ header_size
unfolding ftp_header
length-ftp_header t n s = refl

pub length-message : (t s : ℕ) (buf : List ℕ) → length (message t s buf) ≡ header_size + length buf
length-message t s buf =
    length-append (ftp_header t ((header_size + length buf) % 2 ^ 32) s) buf
    ∙ omega (arith, length-ftp_header t ((header_size + length buf) % 2 ^ 32) s)

m_type_of-ftp_header : (t n s : ℕ) → t < 256 → m_type_of (ftp_header t n s) ≡ t
unfolding m_type_of ftp_header
m_type_of-ftp_header t n s h = omega arith

m_status_of-ftp_header : (t n s : ℕ) → s < 256 → m_status_of (ftp_header t n s) ≡ s
unfolding m_status_of ftp_header
m_status_of-ftp_header t n s h = omega arith

pub m_length_of-ftp_header : (t n s : ℕ) → n < 2 ^ 32 → m_length_of (ftp_header t n s) ≡ n
unfolding m_length_of ftp_header
m_length_of-ftp_header t n s h = omega arith

pub payload_size-small : (n : ℕ) → n < 2 ^ 31 → payload_size ((header_size + n) % 2 ^ 32) ≡ n
unfolding payload_size
payload_size-small n h = ground arith

-- What the call leaves: the message sent, and events for `n` calls more.
abbrev pub Sends : Exec Link ℤ → Link → List ℕ → ℕ → ℕ → Type 0
Sends m l bytes r n =
    (es : List Io) × (m l ≡ (returned (pos r), record l { outbox = l.outbox ++ bytes; sends = es }))
    × Flows n es

pub send_post-Sends :
    (n t s : ℕ) (buf : List ℕ) (l : Link)
    → l.is_open ≡ true
    → header_size + length buf ≤ n
    → Flows n l.sends
    → Sends (send_post t buf s) l (message t s buf) (length buf) (n - (header_size + length buf))
unfolding send_post
send_post-Sends n t s buf l up h f =
    let head = ftp_header t ((header_size + length buf) % 2 ^ 32) s in
    let (es, e, g) =
      ssend-Sent n head l up
        (omega (arith, length-ftp_header t ((header_size + length buf) % 2 ^ 32) s)) f in
    let l' = record l { outbox = l.outbox ++ head; sends = es } in
    let (es', e', g') =
      ssend-Sent (n - length head) buf l' up
        (omega (arith, length-ftp_header t ((header_size + length buf) % 2 ^ 32) s)) g in
    (
      es',
      >>=-returned (ssend head) _ l l' (pos header_size) (
            e
            ∙ ap (λ (k : ℕ). (returned (pos k), l'))
                (length-ftp_header t ((header_size + length buf) % 2 ^ 32) s))
          ∙ e'
          ∙ ap
              (λ (out : List ℕ).
                (returned (pos (length buf)), record l { outbox = out; sends = es' }))
              (append_assoc l.outbox head buf),
      Flows-le _ _ es' (omega (arith, length-ftp_header t ((header_size + length buf) % 2 ^ 32) s))
          g',
    )

abbrev pub Receives : Exec Link (Option Post) → Link → Post → List ℕ → ℕ → Type 0
Receives m l post rest n =
    (es : List Io) × (m l ≡ (returned (some post), record l { inbox = rest; recvs = es }))
    × Flows n es

-- recv_post takes a message off a connection, however the calls of recv cut the bytes.
pub recv_post-message :
    (n room t s : ℕ) (buf rest : List ℕ) (l : Link)
    → l.is_open ≡ true
    → l.inbox ≡ message t s buf ++ rest
    → t < 256
    → s < 256
    → length buf ≤ room
    → length buf < 2 ^ 31
    → header_size + length buf ≤ n
    → Flows n l.recvs
    → Receives
        (recv_post room)
        l
        (record { m_type = t; m_status = s; buf = buf })
        rest
        (n - (header_size + length buf))
unfolding recv_post
recv_post-message n room t s buf rest l up came ht hs fits small h f =
    let (es, e, g) =
      srecv-Takes n header_size head (buf ++ rest) l up (came ∙ append_assoc head buf rest)
        (omega (arith, twelve)) (omega (arith, twelve)) f in
    let l' = record l { inbox = buf ++ rest; recvs = es } in
    let (es', e', g') =
      srecv-Takes (n - length head) room buf rest l' up refl (omega (arith, twelve)) fits g in
    (
      es',
      >>=-returned (srecv header_size header_size) _ l l' (some head)
            (ap (λ (k : ℕ). srecv k header_size l) (sym twelve) ∙ e)
          ∙ >>=-returned (srecv (payload_size (m_length_of head)) room) _ l'
              (record l { inbox = rest; recvs = es' }) (some buf)
              (ap (λ (k : ℕ). srecv k room l') size ∙ e')
          ∙ ap₂
              (λ (a b : ℕ). (
                returned (some (record { m_type = a; m_status = b; buf = buf })),
                record l { inbox = rest; recvs = es' },
              ))
              (m_type_of-ftp_header t len s ht) (m_status_of-ftp_header t len s hs),
      Flows-le _ _ es' (omega (arith, twelve)) g',
    )
  where
    len : ℕ
    len = (header_size + length buf) % 2 ^ 32

    head : List ℕ
    head = ftp_header t len s

    twelve : length head ≡ header_size
    twelve = length-ftp_header t len s

    size : payload_size (m_length_of head) ≡ length buf
    size =
        ap payload_size (m_length_of-ftp_header t len s (omega arith))
        ∙ payload_size-small (length buf) small

-- What send_post adds to a connection, recv_post takes off at the other end with the same type, status and
-- bytes, and leaves what follows; send_post returns the payload's length. The calls of send and of recv cut
-- the bytes in any way: both ends stay up for as many calls as there are bytes, type and status are bytes,
-- and the payload fits the buffer and an `int`.
pub recv_post-send_post :
    (n room t s : ℕ) (buf sent rest : List ℕ) (from to : Link)
    → from.is_open ≡ true
    → to.is_open ≡ true
    → (send_post t buf s from).1.outbox ≡ from.outbox ++ sent
    → to.inbox ≡ sent ++ rest
    → t < 256
    → s < 256
    → length buf ≤ room
    → length buf < 2 ^ 31
    → header_size + length buf ≤ n
    → Flows n from.sends
    → Flows n to.recvs
    → ((send_post t buf s from).0 ≡ returned (pos (length buf)))
      × Receives
          (recv_post room)
          to
          (record { m_type = t; m_status = s; buf = buf })
          rest
          (n - (header_size + length buf))
recv_post-send_post n room t s buf sent rest from to up up' adds came ht hs fits small h f f' =
    let (es, e, g) = send_post-Sends n t s buf from up h f in
    let put : message t s buf ≡ sent =
      append-cancel from.outbox (message t s buf) sent
        (sym (ap (λ (x : Outcome ℤ × Link). x.1.outbox) e) ∙ adds) in
    (
      ap (λ (x : Outcome ℤ × Link). x.0) e,
      recv_post-message n room t s buf rest to up' (came ∙ ap (λ (x : List ℕ). x ++ rest) (sym put))
          ht hs fits small h f',
    )
