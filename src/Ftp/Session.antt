-- ===== src/Ftp/Session.antt =====
-- lab1/ftp_client.cpp and lab1/ftp_server.cpp on one connection.
pub mod Unreadable
pub mod Printed
use computer_system24fall.Common.{
  ℕ, ◌+◌, ◌≤◌, ◌<◌, ◌≡◌, ap, ap₂, ◌∙◌, true, List, [], ◌∷◌, ◌++◌, append_assoc, append-nil, some,
  arith, length, length-append, length-take, take, get_elem?,
}
use computer_system24fall.Common.Int.{pos}
use computer_system24fall.Ftp.Message.{
  header_size, max_buf, get_request, get_reply, put_request, put_reply, file_data,
}
use computer_system24fall.Ftp.Message.Roundtrip.{message, length-message}
use computer_system24fall.Ftp.Files.{FilePath, Os, c_string, saved}
use computer_system24fall.Ftp.Talk.{IsReady, Talks, bytes-Talks}
use computer_system24fall.Ftp.Server.{Server, fd2ind}
use computer_system24fall.Ftp.Server.Main.{serve_request}
use computer_system24fall.Ftp.Server.Sent.{port, Serves}
use computer_system24fall.Ftp.Server.Replies.Transfers.{get_answer}
use computer_system24fall.Ftp.Server.Requests.{in_dir, entered}
use computer_system24fall.Ftp.Server.Answers.{fetches, stores, answer, serve_request-answers}
use computer_system24fall.Ftp.Client.{Client, do_get, do_put}
use computer_system24fall.Ftp.Client.Asking.{sock_port}
use computer_system24fall.Ftp.Client.Replies.{do_get-found, do_put-sends}

module _ {There Here : Type 0} (server_os : Os There) (client_os : Os Here) where
  -- The client in `path` is served in `dir`, and there is room for it.
  pub record Hosts (s : Server There) (fd : ℕ) (path dir : FilePath) : Type 0 where
    pub entry : get_elem? s.cwds (fd2ind fd) ≡ some path
    pub place : entered server_os s path ≡ some dir

  -- A download: the client's get and one turn of the server's loop, each reading what the other sends and
  -- no byte more. Both return, and the client's result and disk are those of one write, to `args`, of the
  -- first bytes, as many as the buffer holds, of the file of that name in the client's directory on the
  -- server. The client is connected, both ends stay up for as many calls as bytes, the server has an entry
  -- for the client and can enter its directory and its own, the path exists and can be read, and the name
  -- is shorter than the buffer.
  pub do_get-serve_request :
      (m n fd : ℕ) (args content path dir behind_it ahead : List ℕ) (c : Client Here)
      (s : Server There)
      → c.connected ≡ true
      → IsReady m c.sock
      → IsReady m (s.links fd)
      → Hosts s fd path dir
      → server_os.exists s.disk dir (c_string args) ≡ true
      → server_os.reads s.disk dir (c_string args) ≡ some content
      → server_os.enters s.disk dir s.dft_path ≡ some s.dft_path
      → length args < max_buf
      → header_size
          + (length args + 1)
          + (header_size + (header_size + length (take max_buf content) + n))
        ≤ m
      → (s.links fd).inbox ≡ message get_request 0 (args ++ 0 ∷ []) ++ behind_it
      → c.sock.inbox
        ≡ (message get_reply 1 [] ++ message file_data 0 (take max_buf content)) ++ ahead
      → Serves n
          (serve_request server_os fd)
          fd
          s
          tt
          (in_dir s s.dft_path)
          (message get_request 0 (args ++ 0 ∷ []))
          (message get_reply 1 [] ++ message file_data 0 (take max_buf content))
        × Talks n
            (do_get client_os (some args))
            sock_port
            c
            (saved c.disk (client_os.writes c.disk c.cwd args (take max_buf content))).0
            (record c {
              disk = (saved c.disk (client_os.writes c.disk c.cwd args (take max_buf content))).1;
            })
            (message get_reply 1 [] ++ message file_data 0 (take max_buf content))
            (message get_request 0 (args ++ 0 ∷ []))
  do_get-serve_request m n fd args content path dir behind_it ahead c s on_line c_ready s_ready
        hosts there reads back short h request reply =
      (
        bytes-Talks n (port fd) (serve_request server_os fd) s (in_dir s s.dft_path) tt _ _ _ _
            (append-nil (message get_request 0 (args ++ 0 ∷ []))) is_reply
            (serve_request-answers server_os (fetches args) m n fd behind_it path dir s s_ready
              request (omega (arith, length-append args (0 ∷ []))) tt
              (omega (
                arith,
                length-append args (0 ∷ []),
                ap length is_reply,
                length-message get_reply 1 [],
                length-message file_data 0 buf,
                length-append (message get_reply 1 []) (message file_data 0 buf),
              ))
              hosts.entry hosts.place back),
        do_get-found client_os m n 0 args buf ahead c on_line c_ready
            (reply ∙ append_assoc (message get_reply 1 []) (message file_data 0 buf) ahead)
            (omega arith) (omega (arith, length-take max_buf content)) h,
      )
    where
      buf : List ℕ
      buf = take max_buf content

      is_reply :
          answer server_os (in_dir s dir) (fetches args)
          ≡ message get_reply 1 [] ++ message file_data 0 buf
      is_reply = ap₂ (λ b o. (get_answer b o).1) there reads

  -- An upload: the client's put and one turn of the server's loop, each reading what the other sends and no
  -- byte more. Both return, the client with success, and the server's disk is that after one write of the
  -- first bytes of the client's file, as many as the buffer holds, to `args` in the client's directory; if
  -- that write fails, the disk is as before. The client is connected and can read the file, both ends stay
  -- up for as many calls as bytes, the server has an entry for the client and can enter its directory and
  -- its own, and the name is shorter than the buffer.
  pub do_put-serve_request :
      (m n fd : ℕ) (args content path dir behind_it ahead : List ℕ) (c : Client Here)
      (s : Server There)
      → c.connected ≡ true
      → IsReady m c.sock
      → IsReady m (s.links fd)
      → Hosts s fd path dir
      → client_os.reads c.disk c.cwd args ≡ some content
      → server_os.enters
          (saved s.disk (server_os.writes s.disk dir (c_string args) (take max_buf content))).1
          dir
          s.dft_path
        ≡ some s.dft_path
      → length args < max_buf
      → header_size
          + (length args + 1)
          + (header_size + (header_size + length (take max_buf content) + n))
        ≤ m
      → (s.links fd).inbox
        ≡ message put_request 0 (args ++ 0 ∷ [])
          ++ (message file_data 0 (take max_buf content) ++ behind_it)
      → c.sock.inbox ≡ message put_reply 0 [] ++ ahead
      → Serves n
          (serve_request server_os fd)
          fd
          s
          tt
          (record (in_dir s s.dft_path) {
            disk =
                (saved s.disk
                  (server_os.writes s.disk dir (c_string args) (take max_buf content))).1;
          })
          (message put_request 0 (args ++ 0 ∷ []) ++ message file_data 0 (take max_buf content))
          (message put_reply 0 [])
        × Talks n
            (do_put client_os (some args))
            sock_port
            c
            (pos 0)
            c
            (message put_reply 0 [])
            (message put_request 0 (args ++ 0 ∷ []) ++ message file_data 0 (take max_buf content))
  do_put-serve_request m n fd args content path dir behind_it ahead c s on_line c_ready s_ready
        hosts reads back short h request reply =
      (
        serve_request-answers server_os (stores args buf) m n fd behind_it path dir s s_ready
            request (omega (arith, length-append args (0 ∷ [])))
            (omega (arith, length-take max_buf content))
            (omega (
              arith,
              length-append args (0 ∷ []),
              length-message put_reply 0 [],
              length-message file_data 0 buf,
            ))
            hosts.entry hosts.place back,
        do_put-sends client_os m n 0 args content ahead c on_line c_ready reply (omega arith) reads
            h,
      )
    where
      buf : List ℕ
      buf = take max_buf content
