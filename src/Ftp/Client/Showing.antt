-- ===== src/Ftp/Client/Showing.antt =====
-- The commands of lab1/ftp_client.cpp that show what the server printed: ls and sha256.
use computer_system24fall.Common.{
  ℕ, ◌+◌, ◌≤◌, ◌<◌, ◌≡◌, refl, sym, ap, ◌∙◌, true, List, [], ◌∷◌, ◌++◌, append_assoc, append-nil,
  some, arith, length, length-append, drop,
}
use computer_system24fall.Common.Int.{ℤ, pos}
use computer_system24fall.Ftp.Exec.{returned, Exec, pure, ◌>>◌}
use computer_system24fall.Ftp.Message.{
  header_size, max_buf, list_request, list_reply, sha_request, sha_reply, file_data,
}
use computer_system24fall.Ftp.Message.Roundtrip.{message}
use computer_system24fall.Ftp.Files.{c_string}
use computer_system24fall.Ftp.Talk.{IsReady, Talks, bytes-Talks, pure-Talks, fail_or-Talks}
use computer_system24fall.Ftp.Server.Requests.{c_string-append}
use computer_system24fall.Ftp.Client.{Client, show, do_ls, do_sha}
use computer_system24fall.Ftp.Client.Asking.{sock_port, online-Talks, receive_or-Talks, ask-Talks}

-- What stands in the buffer behind the final zero is not shown.
shown : (text junk : List ℕ) → c_string ((text ++ 0 ∷ []) ++ junk) ≡ c_string text
shown text junk = ap c_string (append_assoc text (0 ∷ []) junk) ∙ c_string-append text junk

module _ {Disk : Type 0} where
  -- The client with a text shown on its terminal, up to the first zero.
  abbrev pub shows : Client Disk → List ℕ → Client Disk
  shows s text = record s { output = s.output ++ c_string text }

  show_text : List ℕ → Exec (Client Disk) ℤ
  show_text buf = do show buf; pure (pos 0)

  show_text-Talks :
      (n : ℕ) (text : List ℕ) (s : Client Disk)
      → IsReady n s.sock
      → Talks n (show_text (text ++ 0 ∷ [])) sock_port s (pos 0) (shows s text) [] []
  unfolding show_text
  show_text-Talks n text s ready =
      pure-Talks n sock_port s (shows s text) (pos 0) ready refl (show_text (text ++ 0 ∷ [])) (
        ap (λ (t : List ℕ). (returned (pos 0), record s { output = s.output ++ t }))
          (shown text (drop (length (text ++ 0 ∷ [])) s.junk)))

  -- A listing that is answered: the command asks, reads the answer and no more, and shows what was printed.
  pub do_ls-shows :
      (m n : ℕ) (text rest : List ℕ) (s : Client Disk)
      → s.connected ≡ true
      → IsReady m s.sock
      → s.sock.inbox ≡ message list_reply 0 (text ++ 0 ∷ []) ++ rest
      → length text < max_buf
      → header_size + (header_size + (length text + 1) + n) ≤ m
      → Talks n do_ls sock_port s
          (pos 0)
          (shows s text)
          (message list_reply 0 (text ++ 0 ∷ []))
          (message list_request 0 [])
  unfolding do_ls show_text
  do_ls-shows m n text rest s on_line ready came fits h =
      bytes-Talks n sock_port do_ls s (shows s text) (pos 0) _ _ _ _ (append-nil _) (append-nil _) (
        online-Talks n _ s (shows s text) (pos 0) _ _ on_line (
          fail_or-Talks m (header_size + (length text + 1) + n) n sock_port list_request 0 [] _ s
            (shows s text) (pos 0) (message list_reply 0 (text ++ 0 ∷ []) ++ []) [] ready
            (omega arith)
            (λ l moved.
              receive_or-Talks (header_size + (length text + 1) + n) n n list_reply 0
                (text ++ 0 ∷ []) rest _ (record s { sock = l }) (shows s text) (pos 0) [] []
                moved.ready (sym moved.inbox ∙ came) (omega arith) (omega arith)
                (omega (arith, length-append text (0 ∷ [])))
                (omega (arith, length-append text (0 ∷ [])))
                (λ l' ready' came'. show_text-Talks n text (record s { sock = l' }) ready'))))

  -- A sum that is answered: the command asks, reads both messages and no more, and shows what was printed.
  pub do_sha-shows :
      (m n : ℕ) (args text rest : List ℕ) (s : Client Disk)
      → s.connected ≡ true
      → IsReady m s.sock
      → s.sock.inbox ≡ message sha_reply 1 [] ++ (message file_data 0 (text ++ 0 ∷ []) ++ rest)
      → length text < max_buf
      → header_size + (length args + 1) + (header_size + (header_size + (length text + 1) + n)) ≤ m
      → Talks n
          (do_sha (some args))
          sock_port
          s
          (pos 0)
          (shows s text)
          (message sha_reply 1 [] ++ message file_data 0 (text ++ 0 ∷ []))
          (message sha_request 0 (args ++ 0 ∷ []))
  unfolding do_sha show_text
  do_sha-shows m n args text rest s on_line ready came fits h =
      bytes-Talks n sock_port (do_sha (some args)) s (shows s text) (pos 0) _ _ _ _
        (ap (λ x. message sha_reply 1 [] ++ x) (append-nil (message file_data 0 (text ++ 0 ∷ []))))
        (append-nil (message sha_request 0 (args ++ 0 ∷ [])))
        (ask-Talks m (header_size + (length text + 1) + n) n sha_request sha_reply 1 args []
          (message file_data 0 (text ++ 0 ∷ []) ++ rest) _ s (shows s text) (pos 0)
          (message file_data 0 (text ++ 0 ∷ []) ++ []) [] on_line ready came (omega arith)
          (omega arith) (omega arith) (omega arith)
          (λ l ready' came'.
            receive_or-Talks (header_size + (length text + 1) + n) n n file_data 0 (text ++ 0 ∷ [])
              rest _ (record s { sock = l }) (shows (record s { sock = l }) text) (pos 0) [] []
              ready' came' (omega arith) (omega arith) (omega (arith, length-append text (0 ∷ [])))
              (omega (arith, length-append text (0 ∷ [])))
              (λ l' ready'' came''. show_text-Talks n text (record s { sock = l' }) ready'')))
