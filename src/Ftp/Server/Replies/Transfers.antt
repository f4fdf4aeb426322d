-- ===== src/Ftp/Server/Replies/Transfers.antt =====
-- What the downloads and the uploads of lab1/ftp_server.cpp send and change on a connection that
-- stays up.
use computer_system24fall.Common.{
  ℕ, ◌+◌, ◌≤◌, ◌<◌, ◌≡◌, refl, sym, ap, ◌∙◌, Bool, true, false, not, List, [], ◌++◌, append-nil,
  Option, none, some, arith, if◌then◌else◌, length, length-append, take,
}
use computer_system24fall.Common.Int.{ℤ, pos}
use computer_system24fall.Ftp.Exec.{returned, pure, serror, fail_or}
use computer_system24fall.Ftp.Stream.{Link}
use computer_system24fall.Ftp.Message.{header_size, max_buf, get_reply, put_reply, file_data, Post}
use computer_system24fall.Ftp.Message.Roundtrip.{message, length-message}
use computer_system24fall.Ftp.Files.{Os, read_file-some, read_file-none, saved, write_file}
use computer_system24fall.Ftp.Server.{
  Server, update, recv_post, status_of, send_post, send_content, send_file, do_get, keep_disk,
  take_post, take_file, do_put,
}
use computer_system24fall.Ftp.Server.Sent.{with_link, port, Serves}
use computer_system24fall.Ftp.Talk.{
  IsReady, bytes-Talks, same-Talks, pure-Talks, >>=-Talks, fail_or-Talks, send_then-Talks,
  send_last-Talks, recv_post-Talks,
}

-- The bytes and the result of a download, from whether the path exists and what a read of it gives.
abbrev pub get_answer : Bool → Option (List ℕ) → ℤ × List ℕ
get_answer false content = (pos 0, message get_reply 0 [])
get_answer true none = (serror, message get_reply 1 [])
get_answer true (some content) =
    (pos 0, message get_reply 1 [] ++ message file_data 0 (take max_buf content))

module _ {Disk : Type 0} where
  abbrev pub with_disk : Server Disk → Disk → Server Disk
  with_disk s disk = record s { disk = disk }

  module _ (os : Os Disk) where
    send_file-Serves :
        (m n fd : ℕ) (args content : List ℕ) (s : Server Disk)
        → IsReady m (s.links fd)
        → header_size + length (take max_buf content) + n ≤ m
        → os.reads s.disk s.cwd args ≡ some content
        → Serves n
            (send_file os fd args)
            fd
            s
            (pos 0)
            s
            []
            (message file_data 0 (take max_buf content))
    unfolding send_file
    send_file-Serves m n fd args content s ready h reads =
        same-Talks n (port fd) (send_file os fd args)
          (send_content os fd (some (take max_buf content))) s s (pos 0) []
          (message file_data 0 (take max_buf content))
          (ap (λ (c : Option (List ℕ)). send_content os fd c s)
            (read_file-some os s.disk s.cwd args content max_buf reads))
          (send_last-Talks m n (port fd) file_data 0 (take max_buf content) s ready h)

    send_file-fails :
        (fd : ℕ) (args : List ℕ) (s : Server Disk)
        → os.reads s.disk s.cwd args ≡ none
        → send_file os fd args s ≡ (returned serror, s)
    unfolding send_file
    send_file-fails fd args s reads =
        ap (λ (c : Option (List ℕ)). send_content os fd c s)
          (read_file-none os s.disk s.cwd args max_buf reads)

    -- A download.
    pub do_get-Serves :
        (m n fd : ℕ) (args : List ℕ) (s : Server Disk)
        → IsReady m (s.links fd)
        → length (get_answer (os.exists s.disk s.cwd args) (os.reads s.disk s.cwd args)).1 + n ≤ m
        → Serves n
            (do_get os fd args)
            fd
            s
            (get_answer (os.exists s.disk s.cwd args) (os.reads s.disk s.cwd args)).0
            s
            []
            (get_answer (os.exists s.disk s.cwd args) (os.reads s.disk s.cwd args)).1
    unfolding do_get
    do_get-Serves m n fd args s ready =
        answer (os.exists s.disk s.cwd args) (os.reads s.disk s.cwd args) refl
      where
        answer :
            (there : Bool) (content : Option (List ℕ))
            → os.reads s.disk s.cwd args ≡ content
            → length (get_answer there content).1 + n ≤ m
            → Serves n
                (fail_or
                  (send_post fd get_reply [] (status_of there))
                  (if not there then pure (pos 0) else send_file os fd args))
                fd
                s
                (get_answer there content).0
                s
                []
                (get_answer there content).1
        answer false content e h =
            send_last-Talks m n (port fd) get_reply 0 [] s ready
              (omega (arith, length-message get_reply 0 []))
        answer true none e h =
            send_then-Talks m n (port fd) get_reply 1 [] (send_file os fd args) s s serror ready
              (omega (arith, length-message get_reply 1 []))
              (λ l r.
                pure-Talks n (port fd) (with_link s fd l) (with_link s fd l) serror r refl
                  (send_file os fd args) (send_file-fails fd args (with_link s fd l) e))
        answer true (some content) e h =
            let buf = take max_buf content in
            fail_or-Talks m (header_size + length buf + n) n (port fd) get_reply 1 []
              (send_file os fd args) s s (pos 0) [] (message file_data 0 buf) ready
              (omega (
                arith,
                length-message get_reply 1 [],
                length-message file_data 0 buf,
                length-append (message get_reply 1 []) (message file_data 0 buf),
              ))
              (λ l moved.
                send_file-Serves (header_size + length buf + n) n fd args content (with_link s fd l)
                  moved.ready (omega arith) e)

    keep_disk-Serves :
        (n fd : ℕ) (s : Server Disk) (links : ℕ → Link) (written : Option Disk)
        → IsReady n (links fd)
        → Serves n
            (keep_disk os written)
            fd
            (record s { links = links })
            (saved s.disk written).0
            (record s { links = links; disk = (saved s.disk written).1 })
            []
            []
    keep_disk-Serves n fd s links none r =
        pure-Talks n (port fd) (record s { links = links }) (record s { links = links }) serror r
          refl (pure serror) refl
    keep_disk-Serves n fd s links (some disk) r =
        pure-Talks n (port fd) (record s { links = links })
          (record s { links = links; disk = disk }) (pos 0) r refl (keep_disk os (some disk)) refl

    -- An upload: the answer, and then the content of the file is awaited and written.
    pub do_put-Serves :
        (m n fd st : ℕ) (args content rest : List ℕ) (s : Server Disk)
        → IsReady m (s.links fd)
        → (s.links fd).inbox ≡ message file_data st content ++ rest
        → st < 256
        → length content ≤ max_buf
        → header_size + (header_size + length content + n) ≤ m
        → Serves n
            (do_put os fd args)
            fd
            s
            (saved s.disk (os.writes s.disk s.cwd args content)).0
            (with_disk s (saved s.disk (os.writes s.disk s.cwd args content)).1)
            (message file_data st content)
            (message put_reply 0 [])
    unfolding do_put take_file write_file
    do_put-Serves m n fd st args content rest s ready came hst fits h =
        bytes-Talks n (port fd) (do_put os fd args) s (with_disk s after.1) after.0 _ _
          (message file_data st content) (message put_reply 0 [])
          (append-nil (message file_data st content)) (append-nil (message put_reply 0 []))
          (fail_or-Talks m (header_size + length content + n) n (port fd) put_reply 0 []
            (take_file os fd args) s (with_disk s after.1) after.0
            (message file_data st content ++ []) [] ready (omega arith)
            (λ l moved.
              >>=-Talks n n (port fd) (recv_post fd max_buf) (take_post os args) (with_link s fd l)
                (with_link s fd l) (with_link (with_disk s after.1) fd l) (some post) after.0
                (message file_data st content) [] [] []
                (recv_post-Talks (header_size + length content + n) n (port fd) max_buf file_data st
                  content rest (with_link s fd l) moved.ready (sym moved.inbox ∙ came) (omega arith)
                  hst fits (omega arith) (omega arith))
                (λ l' moved'.
                  keep_disk-Serves n fd s (update (update s.links fd l) fd l')
                    (os.writes s.disk s.cwd args content) moved'.ready)))
      where
        after : ℤ × Disk
        after = saved s.disk (os.writes s.disk s.cwd args content)

        post : Post
        post = record { m_type = file_data; m_status = st; buf = content }
