-- ===== src/Ftp/Session/Unreadable.antt =====
-- A download from lab1/ftp_server.cpp of a path that exists and cannot be read, as a directory.
use computer_system24fall.Common.{
  ◌+◌, ◌≤◌, ◌<◌, ◌≡◌, ap, ap₂, ℕ, true, List, [], ◌∷◌, ◌++◌, append-nil, none, some, arith, length,
  length-append,
}
use computer_system24fall.Ftp.Message.{header_size, max_buf, get_request, get_reply}
use computer_system24fall.Ftp.Message.Roundtrip.{message, length-message}
use computer_system24fall.Ftp.Files.{Os, c_string}
use computer_system24fall.Ftp.Talk.{IsReady, bytes-Talks}
use computer_system24fall.Ftp.Server.{Server}
use computer_system24fall.Ftp.Server.Main.{serve_request}
use computer_system24fall.Ftp.Server.Sent.{port, Serves}
use computer_system24fall.Ftp.Server.Replies.Transfers.{get_answer}
use computer_system24fall.Ftp.Server.Requests.{in_dir}
use computer_system24fall.Ftp.Server.Answers.{fetches, answer, serve_request-answers}
use computer_system24fall.Ftp.Client.{Client, do_get}
use computer_system24fall.Ftp.Client.Asking.{sock_port}
use computer_system24fall.Ftp.Client.Waiting.{Waits, do_get-Waits}
use computer_system24fall.Ftp.Session.{Hosts}

module _ {There Here : Type 0} (server_os : Os There) (client_os : Os Here) where
  -- A download of a path that exists on the server and cannot be read: the turn of the server's loop ends
  -- with the grant and no file behind it, and the client, which has read the grant, waits in recv. The
  -- client is connected, both ends stay up for as many calls as bytes and one more, the server has an entry
  -- for the client and can enter its directory and its own, and the name is shorter than the buffer.
  pub do_get-unreadable :
      (m fd : ℕ) (args path dir behind_it : List ℕ) (c : Client Here) (s : Server There)
      → c.connected ≡ true
      → IsReady m c.sock
      → IsReady m (s.links fd)
      → Hosts server_os client_os s fd path dir
      → server_os.exists s.disk dir (c_string args) ≡ true
      → server_os.reads s.disk dir (c_string args) ≡ none
      → server_os.enters s.disk dir s.dft_path ≡ some s.dft_path
      → length args < max_buf
      → header_size + (length args + 1) + (header_size + 1) ≤ m
      → (s.links fd).inbox ≡ message get_request 0 (args ++ 0 ∷ []) ++ behind_it
      → c.sock.inbox ≡ message get_reply 1 []
      → Serves 0
          (serve_request server_os fd)
          fd
          s
          tt
          (in_dir s s.dft_path)
          (message get_request 0 (args ++ 0 ∷ []))
          (message get_reply 1 [])
        × Waits sock_port (do_get client_os (some args)) c (message get_request 0 (args ++ 0 ∷ []))
  do_get-unreadable m fd args path dir behind_it c s on_line c_ready s_ready hosts there unread back
        short h request reply =
      (
        bytes-Talks 0 (port fd) (serve_request server_os fd) s (in_dir s s.dft_path) tt _ _ _ _
            (append-nil (message get_request 0 (args ++ 0 ∷ []))) is_reply
            (serve_request-answers server_os (fetches args) m 0 fd behind_it path dir s s_ready
              request (omega (arith, length-append args (0 ∷ []))) tt
              (omega (
                arith,
                length-append args (0 ∷ []),
                ap length is_reply,
                length-message get_reply 1 [],
              ))
              hosts.entry hosts.place back),
        do_get-Waits client_os m args c on_line c_ready reply h,
      )
    where
      is_reply : answer server_os (in_dir s dir) (fetches args) ≡ message get_reply 1 []
      is_reply = ap₂ (λ b o. (get_answer b o).1) there unread
