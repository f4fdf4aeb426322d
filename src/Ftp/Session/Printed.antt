-- ===== src/Ftp/Session/Printed.antt =====
-- What lab1/ftp_server.cpp prints through the shell, on the terminal of lab1/ftp_client.cpp.
use computer_system24fall.Common.{
  ◌+◌, ◌≤◌, ◌<◌, ◌≡◌, ap, ap₂, ℕ, true, List, [], ◌∷◌, ◌++◌, append-nil, some, arith, length,
  length-append, subst, sym,
}
use computer_system24fall.Common.Int.{pos}
use computer_system24fall.Ftp.Message.{
  header_size, max_buf, list_request, list_reply, sha_request, sha_reply, file_data,
}
use computer_system24fall.Ftp.Message.Roundtrip.{message, length-message}
use computer_system24fall.Ftp.Files.{Os, c_string}
use computer_system24fall.Ftp.Talk.{IsReady, Talks, bytes-Talks}
use computer_system24fall.Ftp.Server.{Server, ls_command, sha_command}
use computer_system24fall.Ftp.Server.Main.{serve_request}
use computer_system24fall.Ftp.Server.Sent.{port, Serves}
use computer_system24fall.Ftp.Server.Printed.{printed_answer, Fits, sha_answer, sha_printed}
use computer_system24fall.Ftp.Server.Requests.{in_dir}
use computer_system24fall.Ftp.Server.Answers.{lists, sums, answer, serve_request-answers}
use computer_system24fall.Ftp.Client.{Client, do_ls, do_sha}
use computer_system24fall.Ftp.Client.Asking.{sock_port}
use computer_system24fall.Ftp.Client.Showing.{shows, do_ls-shows, do_sha-shows}
use computer_system24fall.Ftp.Session.{Hosts}

module _ {There Here : Type 0} (server_os : Os There) (client_os : Os Here) where
  -- A listing: the client's ls and one turn of the server's loop, each reading what the other sends and no
  -- byte more. Both return, and the client shows what ls printed in its directory on the server, up to the
  -- first zero. The client is connected, both ends stay up for as many calls as bytes, the server has an
  -- entry for the client and can enter its directory and its own, and what was printed is shorter than the
  -- buffer.
  pub do_ls-serve_request :
      (m n fd : ℕ) (text path dir behind_it ahead : List ℕ) (c : Client Here) (s : Server There)
      → c.connected ≡ true
      → IsReady m c.sock
      → IsReady m (s.links fd)
      → Hosts server_os client_os s fd path dir
      → server_os.prints s.disk dir ls_command ≡ some text
      → server_os.enters s.disk dir s.dft_path ≡ some s.dft_path
      → length text < max_buf
      → header_size + (header_size + (length text + 1) + n) ≤ m
      → (s.links fd).inbox ≡ message list_request 0 [] ++ behind_it
      → c.sock.inbox ≡ message list_reply 0 (text ++ 0 ∷ []) ++ ahead
      → Serves n
          (serve_request server_os fd)
          fd
          s
          tt
          (in_dir s s.dft_path)
          (message list_request 0 [])
          (message list_reply 0 (text ++ 0 ∷ []))
        × Talks n do_ls sock_port c
            (pos 0)
            (shows c text)
            (message list_reply 0 (text ++ 0 ∷ []))
            (message list_request 0 [])
  do_ls-serve_request m n fd text path dir behind_it ahead c s on_line c_ready s_ready hosts printed
        back short h request reply =
      (
        bytes-Talks n (port fd) (serve_request server_os fd) s (in_dir s s.dft_path) tt _ _ _ _
            (append-nil (message list_request 0 [])) is_reply
            (serve_request-answers server_os lists m n fd behind_it path dir s s_ready request
              (omega arith) (subst Fits (sym printed) short)
              (omega (
                arith,
                ap length is_reply,
                length-message list_reply 0 (text ++ 0 ∷ []),
                length-append text (0 ∷ []),
              ))
              hosts.entry hosts.place back),
        do_ls-shows m n text ahead c on_line c_ready reply short h,
      )
    where
      is_reply : answer server_os (in_dir s dir) lists ≡ message list_reply 0 (text ++ 0 ∷ [])
      is_reply = ap (λ o. (printed_answer list_reply o).1) printed

  -- A sum of a file: the client's sha256 and one turn of the server's loop, each reading what the other sends
  -- and no byte more. Both return, and the client shows what sha256sum printed for the path on the server, up
  -- to the first zero. The client is connected, both ends stay up for as many calls as bytes, the server has
  -- an entry for the client and can enter its directory and its own, the path exists, and the name, the
  -- command and what was printed are shorter than the buffer.
  pub do_sha-serve_request :
      (m n fd : ℕ) (args text path dir behind_it ahead : List ℕ) (c : Client Here)
      (s : Server There)
      → c.connected ≡ true
      → IsReady m c.sock
      → IsReady m (s.links fd)
      → Hosts server_os client_os s fd path dir
      → server_os.exists s.disk dir (c_string args) ≡ true
      → sha_printed server_os (in_dir s dir) (c_string args) ≡ some text
      → server_os.enters s.disk dir s.dft_path ≡ some s.dft_path
      → length args < max_buf
      → length (sha_command ++ server_os.canonical s.disk dir (c_string args)) < max_buf
      → length text < max_buf
      → header_size + (length args + 1) + (header_size + (header_size + (length text + 1) + n)) ≤ m
      → (s.links fd).inbox ≡ message sha_request 0 (args ++ 0 ∷ []) ++ behind_it
      → c.sock.inbox ≡ message sha_reply 1 [] ++ (message file_data 0 (text ++ 0 ∷ []) ++ ahead)
      → Serves n
          (serve_request server_os fd)
          fd
          s
          tt
          (in_dir s s.dft_path)
          (message sha_request 0 (args ++ 0 ∷ []))
          (message sha_reply 1 [] ++ message file_data 0 (text ++ 0 ∷ []))
        × Talks n
            (do_sha (some args))
            sock_port
            c
            (pos 0)
            (shows c text)
            (message sha_reply 1 [] ++ message file_data 0 (text ++ 0 ∷ []))
            (message sha_request 0 (args ++ 0 ∷ []))
  do_sha-serve_request m n fd args text path dir behind_it ahead c s on_line c_ready s_ready hosts
        there printed back short command_short text_short h request reply =
      (
        bytes-Talks n (port fd) (serve_request server_os fd) s (in_dir s s.dft_path) tt _ _ _ _
            (append-nil (message sha_request 0 (args ++ 0 ∷ []))) is_reply
            (serve_request-answers server_os (sums args) m n fd behind_it path dir s s_ready request
              (omega (arith, length-append args (0 ∷ [])))
              (command_short, subst Fits (sym printed) text_short)
              (omega (
                arith,
                length-append args (0 ∷ []),
                ap length is_reply,
                length-append (message sha_reply 1 []) (message file_data 0 (text ++ 0 ∷ [])),
                length-message sha_reply 1 [],
                length-message file_data 0 (text ++ 0 ∷ []),
                length-append text (0 ∷ []),
              ))
              hosts.entry hosts.place back),
        do_sha-shows m n args text ahead c on_line c_ready reply text_short h,
      )
    where
      is_reply :
          answer server_os (in_dir s dir) (sums args)
          ≡ message sha_reply 1 [] ++ message file_data 0 (text ++ 0 ∷ [])
      is_reply = ap₂ (λ b o. (sha_answer b o).1) there printed
