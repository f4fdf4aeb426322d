-- ===== src/Ftp/Client.antt =====
-- lab1/ftp_client.cpp: the commands.
pub mod Main
pub mod Asking
pub mod Replies
pub mod Errors
pub mod Waiting
pub mod Showing
pub mod Lines
pub mod Stranded
use computer_system24fall.Common.{
  ℕ, ◌+◌, Bool, true, false, not, ◌||◌, List, [], ◌∷◌, ◌++◌, Option, none, some, ◌==◌,
  if◌then◌else◌, length, drop,
}
use computer_system24fall.Common.Int.{ℤ, pos, negsuc}
use computer_system24fall.Ftp.Exec.{
  returned, Exec, pure, gets, modify, undefined_here, ◌>>=◌, ◌>>◌, serror, fail_or,
}
use computer_system24fall.Ftp.Stream.{Link}
use computer_system24fall.Ftp.Message.{
  max_buf, open_request, open_reply, list_request, list_reply, cd_request, cd_reply, get_request,
  get_reply, put_request, put_reply, sha_request, sha_reply, quit_request, quit_reply, file_data,
  Post,
}
use computer_system24fall.Ftp.Message
use computer_system24fall.Ftp.Files.{FilePath, Os, c_string, read_file, write_file}

-- What inet_pton and connect make of an address and a port.
pub data Dial : Type 0 where
  bad_address refused : Dial
  answered : Link → Dial

-- The globals, the disk and the working directory, what was shown of replies, what the next calls of
-- connect do, and how the next calls of close end, which succeed beyond this list. `junk` is what
-- an uninitialised buffer holds. m_type and m_status are set before each use, and are not kept.
pub record Client (Disk : Type 0) : Type 0 where
  pub connected : Bool
  pub running : Bool
  pub prompt : List ℕ
  pub sock : Link
  pub disk : Disk
  pub cwd : FilePath
  pub output : List ℕ
  pub dials : List Dial
  pub closes : List Bool
  pub junk : List ℕ

-- "Client(None)>".
abbrev pub default_prompt : List ℕ
default_prompt =
    b'C' ∷ b'l' ∷ b'i' ∷ b'e' ∷ b'n' ∷ b't' ∷ b'(' ∷ b'N' ∷ b'o' ∷ b'n' ∷ b'e' ∷ b')' ∷ b'>' ∷ []

-- strstr for a blank: the text before the first, and behind it.
unfoldable pub split_blank : List ℕ → Option (List ℕ × List ℕ)
split_blank [] = none
split_blank (c ∷ text) =
    if c == b' '
    then some ([], text)
    else elim (split_blank text) [ none ↦ none | some (before, behind) ↦ some (c ∷ before, behind) ]

-- atoi, and "%d" of printf.
pub record Numerals : Type 0 where
  pub atoi : List ℕ → ℤ
  pub decimal : ℤ → List ℕ

abbrev pub closed_sock : Link → Link
closed_sock l = record l { is_open = false }

-- A socket that was closed.
abbrev pub shut : Link
shut = record { is_open = false; inbox = []; outbox = []; recvs = []; sends = [] }

module _ {Disk : Type 0} where
  -- A call on the socket.
  abbrev pub on_sock : {A : Type 0} → Exec Link A → Exec (Client Disk) A
  on_sock m s = let (r, l) = m s.sock in (r, record s { sock = l })

  abbrev pub send_post : ℕ → List ℕ → Exec (Client Disk) ℤ
  send_post m_type buf = on_sock (Message.send_post m_type buf 0)

  abbrev pub recv_post : Exec (Client Disk) (Option Post)
  recv_post = on_sock (Message.recv_post max_buf)

  -- `if (recv_post(…) < 0) return serror(…);`, and what follows.
  abbrev pub receive_or : (Post → Exec (Client Disk) ℤ) → Exec (Client Disk) ℤ
  receive_or k = recv_post >>= λ got. elim got [ none ↦ pure serror | some post ↦ k post ]

  -- `close(sock); return serror(…);`
  unfoldable pub give_up : Exec (Client Disk) ℤ
  give_up s = (returned serror, record s { sock = closed_sock s.sock })

  -- Whether `close(sock)` succeeds.
  unfoldable pub close_sock : Exec (Client Disk) Bool
  close_sock s = elim s.closes [
    | [] ↦ (returned true, record s { sock = closed_sock s.sock })
    | true ∷ rest ↦ (returned true, record s { sock = closed_sock s.sock; closes = rest })
    | false ∷ rest ↦ (returned false, record s { closes = rest })
  ]

  -- What the next call of connect makes of a new socket, and whether it succeeds; beyond `dials` it is
  -- refused.
  abbrev pub dialled : List Dial → Exec (Client Disk) Bool
  dialled [] s = (returned false, record s { sock = shut })
  dialled (answered l ∷ rest) s = (returned true, record s { sock = l; dials = rest })
  dialled (bad_address ∷ rest) s = (returned false, record s { sock = shut; dials = rest })
  dialled (refused ∷ rest) s = (returned false, record s { sock = shut; dials = rest })

  -- socket, inet_pton and connect.
  unfoldable pub dial : Exec (Client Disk) Bool
  dial s = dialled s.dials s

  -- printf("%s", buf): up to the first zero, in what was received and what stood behind it.
  abbrev pub show : List ℕ → Exec (Client Disk) (Unit {0})
  show buf =
      modify (λ s. record s { output = s.output ++ c_string (buf ++ drop (length buf) s.junk) })

  -- The end of do_open: `m_type != OPEN_REPLY || m_status != 1`, and the change of states.
  unfoldable pub opened : Numerals → List ℕ → ℤ → Post → Exec (Client Disk) ℤ
  unfolding give_up
  opened c ip port post =
      if not (post.m_type == open_reply) || not (post.m_status == 1) then give_up else do
        modify (λ s. record s {
          connected = true;
          prompt =
              b'C'
              ∷ b'l'
              ∷ b'i'
              ∷ b'e'
              ∷ b'n'
              ∷ b't'
              ∷ b'('
              ∷ (ip ++ b':' ∷ (c.decimal port ++ b')' ∷ b'>' ∷ []));
        })
        pure (pos 0)

  -- From send_post on in do_open: on failure the socket is closed.
  unfoldable pub greet : Numerals → List ℕ → ℤ → Exec (Client Disk) ℤ
  unfolding give_up opened
  greet c ip port = do
    sent ← send_post open_request []
    elim sent [
      | negsuc n ↦ give_up
      | pos n ↦ do got ← recv_post; elim got [ none ↦ give_up | some post ↦ opened c ip port post ]
    ]

  -- The text before and behind the blank; without one, the pointer is null, and is written through.
  unfoldable pub open_at : Numerals → Option (List ℕ × List ℕ) → Exec (Client Disk) ℤ
  unfolding dial greet
  open_at c none = undefined_here
  open_at c (some (ip, port)) = do
    there ← dial
    if there then greet c ip (c.atoi port) else pure serror

  -- The arguments are `none` for the pointer behind a null pointer, which is not to be read.
  unfoldable pub do_open : Numerals → Option (List ℕ) → Exec (Client Disk) ℤ
  unfolding open_at split_blank
  do_open c none = undefined_here
  do_open c (some args) = open_at c (split_blank args)

  -- Behind the reply in do_quit.
  unfoldable pub hang_up : Post → Exec (Client Disk) ℤ
  unfolding close_sock
  hang_up post = if not (post.m_type == quit_reply) then pure serror else do
    closed ← close_sock
    if not closed
        then pure serror
        else do modify (λ s. record s { connected = false; prompt = default_prompt }); pure (pos 0)

  unfoldable pub do_quit : Exec (Client Disk) ℤ
  unfolding hang_up
  do_quit = do
    on_line ← gets (λ s. s.connected)
    (if not on_line
        then (do modify (λ s. record s { running = false }); pure (pos 0))
        else fail_or (send_post quit_request []) (receive_or hang_up))

  -- `if (connected == false) return serror(…);`, and what follows.
  abbrev pub online : Exec (Client Disk) ℤ → Exec (Client Disk) ℤ
  online k = do on_line ← gets (λ s. s.connected); if not on_line then pure serror else k

  unfoldable pub do_ls : Exec (Client Disk) ℤ
  do_ls = online (
      fail_or (send_post list_request []) (
        receive_or λ post.
          if not (post.m_type == list_reply) then pure serror else do show post.buf; pure (pos 0)))

  -- The request with its path, of strlen(args) + 1 bytes.
  abbrev pub request : ℕ → Option (List ℕ) → Exec (Client Disk) ℤ → Exec (Client Disk) ℤ
  request m_type none k = undefined_here
  request m_type (some args) k = fail_or (send_post m_type (args ++ 0 ∷ [])) k

  unfoldable pub do_cd : Option (List ℕ) → Exec (Client Disk) ℤ
  do_cd args = online (
      request cd_request args (
        receive_or λ post.
          if not (post.m_type == cd_reply) || not (post.m_status == 1)
          then pure serror
          else pure (pos 0)))

  unfoldable pub do_sha : Option (List ℕ) → Exec (Client Disk) ℤ
  do_sha args = online (
      request sha_request args (
        receive_or λ post.
          if not (post.m_type == sha_reply) || not (post.m_status == 1)
          then pure serror
          else receive_or λ sum.
            if not (sum.m_type == file_data) then pure serror else do show sum.buf; pure (pos 0)))

  module _ (os : Os Disk) where
    -- The result of write_file in do_get, and what follows it.
    abbrev pub keep_disk : Option Disk → Exec (Client Disk) ℤ
    keep_disk none = pure serror
    keep_disk (some disk) = do modify (λ s. record s { disk = disk }); pure (pos 0)

    -- The end of do_get, for the file at the path `args`.
    unfoldable pub save : List ℕ → Post → Exec (Client Disk) ℤ
    unfolding write_file
    save args post =
        if not (post.m_type == file_data)
        then pure serror
        else do written ← gets (λ s. write_file os s.disk s.cwd args post.buf); keep_disk written

    unfoldable pub do_get : Option (List ℕ) → Exec (Client Disk) ℤ
    unfolding save
    do_get none = online undefined_here
    do_get (some args) = online (
        request get_request (some args) (
          receive_or λ post.
            if not (post.m_type == get_reply) || not (post.m_status == 1)
            then pure serror
            else receive_or (save args)))

    -- The result of read_file in do_put, and what follows it.
    abbrev pub send_content : Option (List ℕ) → Exec (Client Disk) ℤ
    send_content none = pure serror
    send_content (some buf) = fail_or (send_post file_data buf) (pure (pos 0))

    unfoldable pub send_file : List ℕ → Exec (Client Disk) ℤ
    unfolding read_file
    send_file args = do
      content ← gets (λ s. read_file os s.disk s.cwd args max_buf)
      send_content content

    unfoldable pub do_put : Option (List ℕ) → Exec (Client Disk) ℤ
    unfolding send_file
    do_put none = online undefined_here
    do_put (some args) = online (
        request put_request (some args) (
          receive_or
            λ post. if not (post.m_type == put_reply) then pure serror else send_file args))
