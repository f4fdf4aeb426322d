-- ===== src/Ftp/Client/Asking.antt =====
-- The socket of lab1/ftp_client.cpp in its state: a command that asks and reads a reply.
use computer_system24fall.Common.{
  append-cancel, ℕ, ◌+◌, ◌≤◌, ◌<◌, ◌≡◌, refl, sym, ap, ◌∙◌, Bool, true, not, List, [], ◌∷◌, ◌++◌,
  none, some, arith, if◌then◌else◌, length, length-append,
}
use computer_system24fall.Common.Int.{ℤ}
use computer_system24fall.Ftp.Exec.{Exec, pure, serror}
use computer_system24fall.Ftp.Stream.{Link}
use computer_system24fall.Ftp.Message.{header_size, max_buf, Post}
use computer_system24fall.Ftp.Message.Roundtrip.{message}
use computer_system24fall.Ftp.Client.{Client, recv_post, receive_or, online, request}
use computer_system24fall.Ftp.Talk.{
  IsReady, Port, Talks, same-Talks, >>=-Talks, fail_or-Talks, recv_post-Talks,
}

module _ {Disk : Type 0} where
  abbrev pub sock_port : Port (Client Disk)
  sock_port = record {
    view = λ s. s.sock;
    put = λ s l. record s { sock = l };
    put_put = λ s l l'. refl;
    put_view = λ s. refl;
    view_put = λ s l. refl;
  }

  pub online-Talks :
      (n : ℕ) (k : Exec (Client Disk) ℤ) (s s' : Client Disk) (r : ℤ) (taken given : List ℕ)
      → s.connected ≡ true
      → Talks n k sock_port s r s' taken given
      → Talks n (online k) sock_port s r s' taken given
  online-Talks n k s s' r taken given e =
      same-Talks n sock_port (online k) k s s' r taken given
        (ap (λ (b : Bool). (if not b then pure serror else k) s) e)

  -- A message that is read, and what follows.
  pub receive_or-Talks :
      (m n n' t st : ℕ) (buf rest : List ℕ) (k : Post → Exec (Client Disk) ℤ) (s s' : Client Disk)
      (r : ℤ) (taken given : List ℕ)
      → IsReady m s.sock
      → s.sock.inbox ≡ message t st buf ++ rest
      → t < 256
      → st < 256
      → length buf ≤ max_buf
      → header_size + length buf + n ≤ m
      → ((l : Link)
          → IsReady n l
          → l.inbox ≡ rest
          → Talks n'
              (k (record { m_type = t; m_status = st; buf = buf }))
              sock_port
              (record s { sock = l })
              r
              (record s' { sock = l })
              taken
              given)
      → Talks n' (receive_or k) sock_port s r s' (message t st buf ++ taken) given
  receive_or-Talks m n n' t st buf rest k s s' r taken given ready came ht hst fits h next =
      >>=-Talks n n' sock_port recv_post
        (λ got. elim got [ none ↦ pure serror | some post ↦ k post ]) s s s'
        (some (record { m_type = t; m_status = st; buf = buf })) r (message t st buf) [] taken given
        (recv_post-Talks m n sock_port max_buf t st buf rest s ready came ht hst fits (omega arith)
          h)
        (λ l moved.
          next l moved.ready
            (append-cancel (message t st buf) l.inbox rest (sym moved.inbox ∙ came)))

  -- The request, the first reply, and what follows.
  pub ask-Talks :
      (m n n' t t' st : ℕ) (args reply rest : List ℕ) (k : Post → Exec (Client Disk) ℤ)
      (s s' : Client Disk) (r : ℤ) (taken given : List ℕ)
      → s.connected ≡ true
      → IsReady m s.sock
      → s.sock.inbox ≡ message t' st reply ++ rest
      → t' < 256
      → st < 256
      → length reply ≤ max_buf
      → header_size + (length args + 1) + (header_size + length reply + n) ≤ m
      → ((l : Link)
          → IsReady n l
          → l.inbox ≡ rest
          → Talks n'
              (k (record { m_type = t'; m_status = st; buf = reply }))
              sock_port
              (record s { sock = l })
              r
              (record s' { sock = l })
              taken
              given)
      → Talks n'
          (online (request t (some args) (receive_or k)))
          sock_port
          s
          r
          s'
          (message t' st reply ++ taken)
          (message t 0 (args ++ 0 ∷ []) ++ given)
  ask-Talks m n n' t t' st args reply rest k s s' r taken given on_line ready came ht hst fits h
        next =
      online-Talks n' _ s s' r _ _ on_line (
        fail_or-Talks m (header_size + length reply + n) n' sock_port t 0 (args ++ 0 ∷ [])
          (receive_or k) s s' r (message t' st reply ++ taken) given ready
          (omega (arith, length-append args (0 ∷ [])))
          (λ l moved.
            receive_or-Talks (header_size + length reply + n) n n' t' st reply rest k
              (record s { sock = l }) s' r taken given moved.ready (sym moved.inbox ∙ came) ht hst
              fits (omega arith) next))
