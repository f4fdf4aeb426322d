-- ===== src/Ftp/Client/Replies.antt =====
-- What the commands of lab1/ftp_client.cpp send and change on a connection that stays up, from what the
-- server answers.
use computer_system24fall.Common.{
  ℕ, ◌+◌, ◌≤◌, ◌<◌, ◌≡◌, refl, ap, Bool, true, false, not, List, [], ◌∷◌, ◌++◌, append-nil, Option,
  none, some, arith, ◌==◌, if◌then◌else◌, length, take,
}
use computer_system24fall.Common.Int.{ℤ, pos}
use computer_system24fall.Ftp.Exec.{returned, pure, serror}
use computer_system24fall.Ftp.Message.{
  header_size, max_buf, cd_request, cd_reply, get_request, get_reply, put_request, put_reply,
  file_data,
}
use computer_system24fall.Ftp.Message.Roundtrip.{message}
use computer_system24fall.Ftp.Files.{Os, write_file, read_file-some, saved}
use computer_system24fall.Ftp.Client.{
  Client, do_cd, keep_disk, save, do_get, send_content, send_file, do_put,
}
use computer_system24fall.Ftp.Talk.{
  IsReady, Talks, bytes-Talks, same-Talks, pure-Talks, send_last-Talks,
}
use computer_system24fall.Ftp.Client.Asking.{sock_port, receive_or-Talks, ask-Talks}

module _ {Disk : Type 0} where
  module _ (os : Os Disk) where
    save-writes :
        (args : List ℕ) (st : ℕ) (content : List ℕ) (s : Client Disk)
        → save os args (record { m_type = file_data; m_status = st; buf = content }) s ≡ (
          returned (saved s.disk (os.writes s.disk s.cwd args content)).0,
          record s { disk = (saved s.disk (os.writes s.disk s.cwd args content)).1 },
        )
    unfolding save write_file
    save-writes args st content s = by_result (os.writes s.disk s.cwd args content)
      where
        by_result :
            (written : Option Disk)
            → keep_disk os written s
              ≡ (returned (saved s.disk written).0, record s { disk = (saved s.disk written).1 })
        by_result none = refl
        by_result (some disk) = refl

    -- A download that the server grants: the command asks for the path, reads both messages and no more,
    -- and its result and the disk after it are those of one write of the content to the path.
    pub do_get-found :
        (m n st : ℕ) (args content rest : List ℕ) (s : Client Disk)
        → s.connected ≡ true
        → IsReady m s.sock
        → s.sock.inbox ≡ message get_reply 1 [] ++ (message file_data st content ++ rest)
        → st < 256
        → length content ≤ max_buf
        → header_size + (length args + 1) + (header_size + (header_size + length content + n)) ≤ m
        → Talks n
            (do_get os (some args))
            sock_port
            s
            (saved s.disk (os.writes s.disk s.cwd args content)).0
            (record s { disk = (saved s.disk (os.writes s.disk s.cwd args content)).1 })
            (message get_reply 1 [] ++ message file_data st content)
            (message get_request 0 (args ++ 0 ∷ []))
    unfolding do_get
    do_get-found m n st args content rest s on_line ready came hst fits h =
        bytes-Talks n sock_port (do_get os (some args)) s (record s { disk = after.1 }) after.0 _ _
          _ _ (ap (λ x. message get_reply 1 [] ++ x) (append-nil (message file_data st content)))
          (append-nil (message get_request 0 (args ++ 0 ∷ [])))
          (ask-Talks m (header_size + length content + n) n get_request get_reply 1 args []
            (message file_data st content ++ rest) _ s (record s { disk = after.1 }) after.0
            (message file_data st content ++ []) [] on_line ready came (omega arith) (omega arith)
            (omega arith) (omega arith)
            (λ l ready' came'.
              receive_or-Talks (header_size + length content + n) n n file_data st content rest
                (save os args) (record s { sock = l }) (record s { sock = l; disk = after.1 })
                after.0 [] [] ready' came' (omega arith) hst fits (omega arith)
                (λ l' ready'' came''.
                  pure-Talks n sock_port (record s { sock = l' })
                    (record s { sock = l'; disk = after.1 }) after.0 ready'' refl
                    (save os args (record { m_type = file_data; m_status = st; buf = content }))
                    (save-writes args st content (record s { sock = l' })))))
      where
        after : ℤ × Disk
        after = saved s.disk (os.writes s.disk s.cwd args content)

    -- A download of a path that is not there, on a connection that stays up for as many calls as bytes: the
    -- command asks, reads the answer and no more, fails, and writes nothing.
    pub do_get-missing :
        (m n : ℕ) (args rest : List ℕ) (s : Client Disk)
        → s.connected ≡ true
        → IsReady m s.sock
        → s.sock.inbox ≡ message get_reply 0 [] ++ rest
        → header_size + (length args + 1) + (header_size + n) ≤ m
        → Talks n
            (do_get os (some args))
            sock_port
            s
            serror
            s
            (message get_reply 0 [])
            (message get_request 0 (args ++ 0 ∷ []))
    unfolding do_get
    do_get-missing m n args rest s on_line ready came h =
        bytes-Talks n sock_port (do_get os (some args)) s s serror _ _ _ _
          (append-nil (message get_reply 0 []))
          (append-nil (message get_request 0 (args ++ 0 ∷ [])))
          (ask-Talks m n n get_request get_reply 0 args [] rest _ s s serror [] [] on_line ready
            came (omega arith) (omega arith) (omega arith) (omega arith)
            (λ l ready' came'.
              pure-Talks n sock_port (record s { sock = l }) (record s { sock = l }) serror ready'
                refl (pure serror) refl))

    send_file-Talks :
        (n : ℕ) (args content : List ℕ) (s : Client Disk)
        → IsReady (header_size + length (take max_buf content) + n) s.sock
        → os.reads s.disk s.cwd args ≡ some content
        → Talks n
            (send_file os args)
            sock_port
            s
            (pos 0)
            s
            []
            (message file_data 0 (take max_buf content))
    unfolding send_file
    send_file-Talks n args content s ready reads =
        same-Talks n sock_port (send_file os args) (send_content os (some (take max_buf content))) s
          s (pos 0) [] (message file_data 0 (take max_buf content))
          (ap (λ (c : Option (List ℕ)). send_content os c s)
            (read_file-some os s.disk s.cwd args content max_buf reads))
          (send_last-Talks (header_size + length (take max_buf content) + n) n sock_port file_data 0
            (take max_buf content) s ready (omega arith))

    -- An upload of a file that can be read: the command asks, reads the answer and no more, and sends the
    -- first bytes of the file, as many as the buffer holds.
    pub do_put-sends :
        (m n st : ℕ) (args content rest : List ℕ) (s : Client Disk)
        → s.connected ≡ true
        → IsReady m s.sock
        → s.sock.inbox ≡ message put_reply st [] ++ rest
        → st < 256
        → os.reads s.disk s.cwd args ≡ some content
        → header_size
            + (length args + 1)
            + (header_size + (header_size + length (take max_buf content) + n))
          ≤ m
        → Talks n
            (do_put os (some args))
            sock_port
            s
            (pos 0)
            s
            (message put_reply st [])
            (message put_request 0 (args ++ 0 ∷ []) ++ message file_data 0 (take max_buf content))
    unfolding do_put
    do_put-sends m n st args content rest s on_line ready came hst reads h =
        bytes-Talks n sock_port (do_put os (some args)) s s (pos 0) _ _ _ _
          (append-nil (message put_reply st [])) refl
          (ask-Talks m (header_size + length buf + n) n put_request put_reply st args [] rest _ s s
            (pos 0) [] (message file_data 0 buf) on_line ready came (omega arith) hst (omega arith)
            (omega arith)
            (λ l ready' came'. send_file-Talks n args content (record s { sock = l }) ready' reads))
      where
        buf : List ℕ
        buf = take max_buf content

  -- A cd that is answered, on a connection that stays up for as many calls as bytes: the command asks, reads
  -- the answer and no more, and succeeds just if the status, a byte, is 1; the client changes nothing of its
  -- own.
  pub do_cd-Talks :
      (m n st : ℕ) (args rest : List ℕ) (s : Client Disk)
      → s.connected ≡ true
      → IsReady m s.sock
      → s.sock.inbox ≡ message cd_reply st [] ++ rest
      → st < 256
      → header_size + (length args + 1) + (header_size + n) ≤ m
      → Talks n
          (do_cd (some args))
          sock_port
          s
          (if st == 1 then pos 0 else serror)
          s
          (message cd_reply st [])
          (message cd_request 0 (args ++ 0 ∷ []))
  unfolding do_cd
  do_cd-Talks m n st args rest s on_line ready came hst h =
      bytes-Talks n sock_port (do_cd (some args)) s s (if st == 1 then pos 0 else serror) _ _ _ _
        (append-nil (message cd_reply st [])) (append-nil (message cd_request 0 (args ++ 0 ∷ [])))
        (ask-Talks m n n cd_request cd_reply st args [] rest _ s s
          (if st == 1 then pos 0 else serror) [] [] on_line ready came (omega arith) hst
          (omega arith) (omega arith)
          (λ l ready' came'.
            pure-Talks n sock_port (record s { sock = l }) (record s { sock = l })
              (if st == 1 then pos 0 else serror) ready' refl
              (if not (st == 1) then pure serror else pure (pos 0))
              (by_status (st == 1) (record s { sock = l }))))
    where
      by_status :
          (one : Bool) (s : Client Disk)
          → (if not one then pure serror else pure (pos 0)) s
            ≡ (returned (if one then pos 0 else serror), s)
      by_status true s = refl
      by_status false s = refl
