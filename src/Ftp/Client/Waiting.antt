-- ===== src/Ftp/Client/Waiting.antt =====
-- A command of lab1/ftp_client.cpp whose reply does not come.
use computer_system24fall.Common.{
  append-cancel, ℕ, ◌+◌, ◌≤◌, ◌≡◌, refl, sym, ap, ◌∙◌, subst, Bool, true, not, ◌||◌, List, [], ◌∷◌,
  ◌++◌, append_assoc, append-nil, Option, none, some, arith, min, ◌==◌, if◌then◌else◌, length,
  length-append,
}
use computer_system24fall.Common.Int.{ℤ, pos}
use computer_system24fall.Ftp.Exec.{Outcome, returned, blocked, Exec, pure, and_then, ◌>>=◌, serror}
use computer_system24fall.Ftp.Stream.{Io, moves, closes, fails, Link, recv_loop, srecv}
use computer_system24fall.Ftp.Stream.Flow.{Flows}
use computer_system24fall.Ftp.Message.{
  send_post, header_size, max_buf, get_request, get_reply, Post, recv_post, payload_size,
  m_length_of, m_type_of, m_status_of,
}
use computer_system24fall.Ftp.Message.Roundtrip.{message}
use computer_system24fall.Ftp.Files.{Os}
use computer_system24fall.Ftp.Client.{Client, request, receive_or, do_get, save}
use computer_system24fall.Ftp.Talk.{
  IsReady, Moves, Port, Talks, at_port, send_post-Talks, recv_post-Talks,
}
use computer_system24fall.Ftp.Client.Asking.{sock_port}

-- `m` waits in recv, having read all that came and sent `given`, and has changed nothing else.
pub record Waits {S A : Type 0} (c : Port S) (m : Exec S A) (s : S) (given : List ℕ) : Type 0 where
  pub link : Link
  pub waits : m s ≡ (blocked, c.put s link)
  pub inbox : link.inbox ≡ []
  pub outbox : link.outbox ≡ (c.view s).outbox ++ given

-- A call of recv when nothing has come waits, for a header.
recv_loop-nothing :
    (es : List Io) (l : Link)
    → Flows 1 es
    → l.inbox ≡ []
    → (l' : Link) × (recv_loop es header_size header_size [] l ≡ (blocked, l'))
      × (l'.inbox ≡ [])
      × (l'.outbox ≡ l.outbox)
unfolding recv_loop
recv_loop-nothing [] l flows none_came = absurd flows
recv_loop-nothing (moves k ∷ es) l flows none_came =
    (record l { recvs = moves k ∷ es }, rw nothing refl, none_came, refl)
  where
    nothing : min (k + 1) (min header_size (length l.inbox)) ≡ 0
    nothing = omega (arith, ap (length {A = ℕ}) none_came)
recv_loop-nothing (closes ∷ es) l flows none_came = absurd flows
recv_loop-nothing (fails ∷ es) l flows none_came = absurd flows

recv_post-nothing :
    (room : ℕ) (l : Link)
    → IsReady 1 l
    → l.inbox ≡ []
    → (l' : Link) × (recv_post room l ≡ (blocked, l')) × (l'.inbox ≡ []) × (l'.outbox ≡ l.outbox)
unfolding recv_post srecv
recv_post-nothing room l ready none_came =
    let (l', e, inbox, outbox) = recv_loop-nothing l.recvs l ready.in_flows none_came in
    (
      l',
      ap (λ (x : Outcome (Option (List ℕ)) × Link). and_then x.0 (read_payload room) x.1)
          (ap
              (λ (b : Bool).
                if b then recv_loop l.recvs header_size header_size [] l else (returned none, l))
              ready.up
            ∙ e),
      inbox,
      outbox,
    )
  where
    read_payload : ℕ → Option (List ℕ) → Exec Link (Option Post)
    read_payload room got = elim got [
      | none ↦ pure none
      | some header ↦ srecv (payload_size (m_length_of header)) room >>= λ more. elim more [
        | none ↦ pure none
        | some bytes ↦ pure (
            some (record { m_type = m_type_of header; m_status = m_status_of header; buf = bytes }))
      ]
    ]

module _ {S : Type 0} (c : Port S) where
  -- A step that returns, and a wait behind it.
  >>=-Waits :
      {A B : Type 0} (n : ℕ) (m : Exec S A) (f : A → Exec S B) (s : S) (a : A)
      (taken given given' : List ℕ)
      → Talks n m c s a s taken given
      → ((l : Link) → Moves n (c.view s) l taken given → Waits c (f a) (c.put s l) given')
      → Waits c (m >>= f) s (given ++ given')
  >>=-Waits {A = A} n m f s a taken given given' (l, e, moved) k =
      let w = k l moved in
      record {
        link = w.link;
        waits =
            ap (λ (x : Outcome A × S). and_then x.0 f x.1) e
            ∙ w.waits
            ∙ ap (λ x. (blocked, x)) (c.put_put s l w.link);
        inbox = w.inbox;
        outbox =
            w.outbox
            ∙ ap (λ (x : Link). x.outbox ++ given') (c.view_put s l)
            ∙ ap (λ (x : List ℕ). x ++ given') moved.outbox
            ∙ append_assoc (c.view s).outbox given given';
      }

  same-Waits :
      {A : Type 0} (m m' : Exec S A) (s : S) (given : List ℕ)
      → m s ≡ m' s
      → Waits c m' s given
      → Waits c m s given
  same-Waits m m' s given e w = record {
    link = w.link;
    waits = e ∙ w.waits;
    inbox = w.inbox;
    outbox = w.outbox;
  }

  wait->>= :
      {A B : Type 0} (m : Exec S A) (f : A → Exec S B) (s : S) (given : List ℕ)
      → Waits c m s given
      → Waits c (m >>= f) s given
  wait->>= {A = A} m f s given w = record {
    link = w.link;
    waits = ap (λ (x : Outcome A × S). and_then x.0 f x.1) w.waits;
    inbox = w.inbox;
    outbox = w.outbox;
  }

  recv_post-Waits :
      (room : ℕ) (s : S)
      → IsReady 1 (c.view s)
      → (c.view s).inbox ≡ []
      → Waits c (at_port c (recv_post room)) s []
  recv_post-Waits room s ready none_came =
      let (l', e, inbox, outbox) = recv_post-nothing room (c.view s) ready none_came in
      record {
        link = l';
        waits = ap (λ (x : Outcome (Option Post) × Link). (x.0, c.put s x.1)) e;
        inbox = inbox;
        outbox = outbox ∙ sym (append-nil (c.view s).outbox);
      }

module _ {Disk : Type 0} (os : Os Disk) where
  receive_or-Waits :
      (k : Post → Exec (Client Disk) ℤ) (s : Client Disk)
      → IsReady 1 s.sock
      → s.sock.inbox ≡ []
      → Waits sock_port (receive_or k) s []
  receive_or-Waits k s ready none_came =
      wait->>= sock_port _ _ s [] (recv_post-Waits sock_port max_buf s ready none_came)

  -- A download that the server grants without a file behind the grant, on a connection that stays up for as
  -- many calls as bytes and one more: the command asks, reads the grant, and waits.
  pub do_get-Waits :
      (m : ℕ) (args : List ℕ) (s : Client Disk)
      → s.connected ≡ true
      → IsReady m s.sock
      → s.sock.inbox ≡ message get_reply 1 []
      → header_size + (length args + 1) + (header_size + 1) ≤ m
      → Waits sock_port (do_get os (some args)) s (message get_request 0 (args ++ 0 ∷ []))
  unfolding do_get
  do_get-Waits m args s on_line ready came h =
      same-Waits sock_port (do_get os (some args)) asking s asked
        (ap (λ (b : Bool). (if not b then pure serror else asking) s) on_line)
        (subst (λ x. Waits sock_port asking s x) (append-nil asked)
          (>>=-Waits sock_port (header_size + 1)
            (at_port sock_port (send_post get_request (args ++ 0 ∷ []) 0)) _ s
            (pos (length (args ++ 0 ∷ []))) [] asked []
            (send_post-Talks m (header_size + 1) sock_port get_request 0 (args ++ 0 ∷ []) s ready
              (omega (arith, length-append args (0 ∷ []))))
            answered))
    where
      asked : List ℕ
      asked = message get_request 0 (args ++ 0 ∷ [])

      granted : Post → Exec (Client Disk) ℤ
      granted post =
          if not (post.m_type == get_reply) || not (post.m_status == 1)
          then pure serror
          else receive_or (save os args)

      asking : Exec (Client Disk) ℤ
      asking = request get_request (some args) (receive_or granted)

      answered :
          (l : Link)
          → Moves (header_size + 1) s.sock l [] asked
          → Waits sock_port (receive_or granted) (record s { sock = l }) []
      answered l moved =
          >>=-Waits sock_port 1 (at_port sock_port (recv_post max_buf))
            (λ got. elim got [ none ↦ pure serror | some post ↦ granted post ])
            (record s { sock = l }) (some (record { m_type = get_reply; m_status = 1; buf = [] }))
            (message get_reply 1 []) [] []
            (recv_post-Talks (header_size + 1) 1 sock_port max_buf get_reply 1 [] []
              (record s { sock = l }) moved.ready
              (sym moved.inbox ∙ came ∙ sym (append-nil (message get_reply 1 []))) (omega arith)
              (omega arith) (omega arith) (omega arith) (omega arith))
            (λ l' moved'.
              receive_or-Waits (save os args) (record s { sock = l' }) moved'.ready
                (append-cancel (message get_reply 1 []) l'.inbox [] (
                  sym moved'.inbox
                  ∙ sym moved.inbox
                  ∙ came
                  ∙ sym (append-nil (message get_reply 1 [])))))
