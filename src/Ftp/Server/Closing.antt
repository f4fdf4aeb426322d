-- ===== src/Ftp/Server/Closing.antt =====
-- How clients leave lab1/ftp_server.cpp without a quit request.
use computer_system24fall.Common.{
  ℕ, ◌≡◌, ap, ◌∙◌, Bool, true, List, [], ◌∷◌, Option, none, if◌then◌else◌,
}
use computer_system24fall.Ftp.Exec.{Outcome, returned, >>=-returned}
use computer_system24fall.Ftp.Stream.{Io, closes, Link, recv_loop, srecv}
use computer_system24fall.Ftp.Message.{header_size, max_buf, quit_reply, Post}
use computer_system24fall.Ftp.Message
use computer_system24fall.Ftp.Files.{Os}
use computer_system24fall.Ftp.Server.{Server, recv_post}
use computer_system24fall.Ftp.Server.Main.{serve_post, serve_request}
use computer_system24fall.Ftp.Server.Sent.{with_link}

recv_post-closed :
    (room : ℕ) (es : List Io) (l : Link)
    → l.is_open ≡ true
    → l.recvs ≡ closes ∷ es
    → Message.recv_post room l ≡ (returned none, record l { recvs = es })
unfolding Message.recv_post srecv recv_loop
recv_post-closed room es l up next =
    >>=-returned (srecv header_size header_size) _ l (record l { recvs = es }) none
      (ap
          (λ (b : Bool).
            if b then recv_loop l.recvs header_size header_size [] l else (returned none, l))
          up
        ∙ ap (λ (events : List Io). recv_loop events header_size header_size [] l) next)

module _ {Disk : Type 0} where
  -- A client that closes its connection without a request: recv returns 0 on the open descriptor. The turn
  -- of the loop ends, and all is as before but for that call: the connection is still open and watched, and
  -- in the table.
  pub serve_request-closed :
      (os : Os Disk) (fd : ℕ) (es : List Io) (s : Server Disk)
      → (s.links fd).is_open ≡ true
      → (s.links fd).recvs ≡ closes ∷ es
      → serve_request os fd s ≡ (returned tt, with_link s fd (record (s.links fd) { recvs = es }))
  unfolding serve_request serve_post
  serve_request-closed os fd es s up next =
      >>=-returned (recv_post fd max_buf) (serve_post os fd) s
        (with_link s fd (record (s.links fd) { recvs = es })) none
        (ap (λ (r : Outcome (Option Post) × Link). (r.0, with_link s fd r.1))
          (recv_post-closed max_buf es (s.links fd) up next))
